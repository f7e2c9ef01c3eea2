-- ===== src/Proxy/Rbac/Forwards.antt =====
-- What `enforceRBAC` forwards to netmaster, and when.
use auth_proxy.Env.{Env, Request, Config}
use auth_proxy.Proxy.Exchange.{Exchange}
use auth_proxy.Proxy.Exchange.Forwards.{Forwards}
use auth_proxy.Proxy.Forwarding.{duplicate}
use auth_proxy.Proxy.Rbac.Permits.{Permits}

module _ (env : Env) (config : Config) where
  module _ (req : Request) where
    abbrev r : Request
    r = duplicate config req
