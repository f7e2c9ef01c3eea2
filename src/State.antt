-- ===== src/State.antt =====
-- The package state: the drivers of the two key-value stores, and the choice between them.
pub mod Etcd
pub mod Consul
pub mod Factory
pub mod Watching
