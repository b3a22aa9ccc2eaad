-- ===== src/Shim.antt =====
-- crates/containerd-shim-wasm/src/sandbox/shim: the task service that containerd calls.
pub mod TaskState
pub mod InstanceData
pub mod Api
pub mod Local
pub mod Cli
pub mod Main
