-- ===== src/Proxy.antt =====
-- proxy/*.go: the HTTP handlers.
pub mod Exchange
pub mod Responses
pub mod Tokens
pub mod Guards
pub mod Forwarding
pub mod ResourceDetails
pub mod Rbac
pub mod LocalUsers
pub mod LdapConfigurations
pub mod Authorizations
pub mod Login
pub mod Status
pub mod Server
pub mod Routes
