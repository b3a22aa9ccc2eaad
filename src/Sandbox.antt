-- ===== src/Sandbox.antt =====
-- crates/containerd-shim-wasm/src/sandbox, less the containerd client and the task service.
pub mod Error
pub mod Config
pub mod Instance
pub mod Sync
pub mod Oci
pub mod RootDir
