-- ===== src/Container.antt =====
-- crates/containerd-shim-wasm/src/container and the executor and instance of
-- crates/containerd-shim-wasm/src/sys/unix/container.
pub mod Files
pub mod Context
pub mod Engine
pub mod Executor
pub mod Unix
