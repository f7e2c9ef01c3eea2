-- ===== src/Messages.antt =====
-- proxy/struct.go and the responses of proxy/handlers.go: what requests and responses carry.
use auth_proxy.Prelude.{Bool, String}

pub record LoginReq : Type 0 where
  pub username : String
  pub password : String

pub record AddAuthorizationRequest : Type 0 where
  pub principal_name : String
  pub local : Bool
  pub role : String
  pub tenant_name : String

pub record GetAuthorizationReply : Type 0 where
  pub authz_uuid : String
  pub principal_name : String
  pub local : Bool
  pub role : String
  pub tenant_name : String

-- `NetmasterHealthCheckResponse`
pub record NetmasterHealth : Type 0 where
  pub status : String
  pub reason : String
  pub version : String

-- `HealthCheckResponse`
pub record Health : Type 0 where
  pub netmaster_health : NetmasterHealth
  pub status : String
  pub version : String
