-- ===== src/Namespace.antt =====
-- src/namespace.rs and src/cgroup.rs: the backend that runs a worker in Linux namespaces.
pub mod Handle
pub mod System
pub mod Cgroup
pub mod Clone
pub mod Child
mod Tests
