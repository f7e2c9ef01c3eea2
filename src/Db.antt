-- ===== src/Db.antt =====
-- db/*.go: the calls that read and change the store.
pub mod Keys
pub mod Authorizations
pub mod LocalUsers
pub mod LdapConfigurations
