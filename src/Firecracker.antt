-- ===== src/Firecracker.antt =====
-- src/firecracker.rs, src/firecracker_api.rs, src/vsock.rs and src/workspace_image.rs: the backend that
-- runs a worker in a Firecracker microVM.
pub mod System
pub mod Api
pub mod Images
pub mod Payload
pub mod Boot
pub mod Handle
pub mod Machine
pub mod Balanced
pub mod Prepared
pub mod Expected
pub mod Accepted
pub mod Ready
pub mod Booted
pub mod Spawned
pub mod Destroy
pub mod Create
pub mod Left
pub mod Exported
pub mod Destroyed
mod Tests
