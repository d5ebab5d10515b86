-- ===== src/Engine.antt =====
-- crates/wasmlet/src/engine/mod.rs: the time that a guest may run, and the order in which workloads that
-- import one another are instantiated.
pub mod Epoch
pub mod Resolve
pub mod Workload
pub mod Instances
