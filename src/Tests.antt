-- ===== src/Tests.antt =====
-- A small deployment with an association list for a store, at which the theorems are applied.
pub mod Store
pub mod Deployment
pub mod Witnesses
pub mod StoreWitnesses
pub mod TokenWitnesses
pub mod AccountWitnesses
pub mod Clients
pub mod StateWitnesses
pub mod LdapWitnesses
pub mod Routing
pub mod ServerWitnesses
pub mod RunWitnesses
pub mod SecretWitnesses
