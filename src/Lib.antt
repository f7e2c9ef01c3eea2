-- ===== src/Lib.antt =====
-- auth_proxy is an HTTP proxy in front of netmaster. It authenticates users, against its own store or
-- against LDAP, gives them tokens, and forwards a request to netmaster only if the authorizations in
-- its store allow it; lists that netmaster returns are filtered. This library models the program's
-- own logic and proves what its parts promise.
--
-- The parts, from the bottom:
--   Prelude, Exec, Text: shared names, functions that read and change the world and return a value or
--     an error, and the functions of Go's standard library that the program calls on texts.
--   Errors: common/errors/errors.go. An error is compared by identity, as the program does.
--   Types, Messages, Globals, Crypto: common/types, proxy/struct.go, common/utils.go,
--     common/crypto.go.
--   Driver: the interface of the key-value store, `StateDriver` of common/types/state.go, the calls of
--     it that marshal, and `GetStateDriver` of state/driverfactory.go. Driver.Laws says what is relied
--     on in a store: any call may fail, one that succeeds does what it says, and none touches another
--     key. The drivers keep these laws with other keys: State.Etcd.Store, for etcd, where several keys
--     may name one place in a tree of directories, and a write makes the directories above it, and
--     State.Consul.Store, for consul, where a leading slash is dropped. A theorem that
--     takes `IsStore` relies on keys that differ naming different places.
--   State: state/etcdstatedriver.go (State.Etcd) and state/consulstatedriver.go (State.Consul), each over
--     a record for the client of the store, and state/driverfactory.go (State.Factory), which chooses
--     one of them. State.Watching is what the drivers report of the changes that they watch.
--   Env: all that comes from outside as one record: the state of the world, the driver in use,
--     encoding/json, bcrypt, RSA, jwt-go, the clock, netmaster.
--   Db: db/authz.go, db/local.go, db/ldap.go and db/constants.go, a module for each.
--   Auth: auth/auth.go (Auth.Login, Auth.Authorizations, Auth.DefaultUsers), auth/token.go
--     (Auth.Claims, Auth.Tokens, Auth.SigningKey, Auth.Issuing), auth/policy.go (Auth.Policy),
--     auth/filters.go (Auth.Filters), auth/local/local.go (Auth.Local) and auth/ldap/ldap.go
--     (Auth.Ldap), over a record for the LDAP client. Auth.Login takes the LDAP authentication as a
--     parameter, which Auth.Login.Verified fills.
--   Proxy: the handlers. Proxy.Exchange is one request being served: the world, what was written to
--     the response in order, and the requests that were forwarded. Proxy.Tokens and Proxy.Guards
--     decide who is served; Proxy.Rbac, with Proxy.ResourceDetails and Proxy.Forwarding, is
--     proxy/rbac.go and `ProxyRequest` of proxy/proxy.go; Proxy.Routes is the
--     table of routes and Proxy.Server the server's settings, of proxy/proxy.go; the other modules are
--     the handlers of proxy/handlers.go with their helpers of proxy/helpers.go.
--   Start: main.go, the check of netmaster's version and the order in which the parts are started.
--   Tests: a deployment with simple stand-ins for the packages, at which the theorems are applied.
--
-- How the code is modelled:
--   A function of Go that returns a value and an error is a function from the world to a `Result` and
--   a world; what was done before an error stays done. A run-time panic is an error of its own kind,
--   which no caller handles. A handler's own result is nothing: its effects are in the exchange.
--   A value of bytes is a text. `fmt.Errorf` keeps its format and drops its arguments, since only the
--   texts of responses depend on them. Values are printed and parsed by the codecs of `Env`, of which
--   a theorem assumes only what it states. Logging is left out.
--   Every function here is structural but two. The fuel of `itoa` is one more than the number, and a
--   number has no more digits than that. The search of groups in Auth.Ldap takes its fuel as an
--   argument; for a directory that does not change, the number of the first groups and of all members
--   that the directory's groups name is enough.
--   The loop of consul's `WatchAll` takes the number of its passes. The retries of the drivers are
--   counted down, as the program counts them up. An `int64` is an integer
--   whose products wrap around.
--   The theorems on policies and filters assume that listing the authorizations leaves the world as
--   it is, so that the rounds of one loop read the same store. Theorems on the store take `IsStore`.
--   Requests are served one at a time, in any order and number (Proxy.Routes.Runs); only two calls of
--   `AddLocalUser` are also looked at when their steps interleave (Db.LocalUsers.Racing), where a call
--   is the read of the key and then all that follows.
--
-- How the proofs are laid out:
--   Modules Answers and Answered are about the statuses that handlers write, by the rules of
--   Exec.Returns and Proxy.Exchange.Answers; Blanked and Redacted about the texts that they write, by
--   the rules of Proxy.Exchange.Writes; Preserving about conditions on the world that calls keep, by
--   the rules of Exec.Preserves. Proxy.Routes collects them for the table of routes. Env.Sparing and
--   Crypto.Secrets are what is relied on in the packages for that. Exec.Succeeds takes an
--   action that has returned apart, with the worlds between its calls. Modules Valid, Admission, Forwards,
--   Closed and Served are about who is served.
--
-- Not modelled: the goroutines and channels of the watches in state/, which no part of the program
-- starts; what etcd, consul, LDAP, net/http, crypto/tls and gorilla/mux do, which are parameters; the
-- channel, the wait group and the goroutine of `Serve` and `Stop`; the parsing of the command line in
-- main.go; system tests and deployment.
pub mod Prelude
pub mod Errors
pub mod Exec
pub mod Text
pub mod Types
pub mod Driver
pub mod State
pub mod Env
pub mod Db
pub mod Globals
pub mod Crypto
pub mod Auth
pub mod Messages
pub mod Proxy
pub mod Start
pub mod Tests
