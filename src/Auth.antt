-- ===== src/Auth.antt =====
-- auth/*.go: authentication, tokens, authorizations and the policies on them.
pub mod Claims
pub mod Tokens
pub mod SigningKey
pub mod Issuing
pub mod Policy
pub mod Local
pub mod Ldap
pub mod Login
pub mod Authorizations
pub mod DefaultUsers
pub mod Filters
