-- ===== src/Wasmtime.antt =====
-- crates/containerd-shim-wasmtime/src/instance.rs and WasmBinaryType of
-- crates/containerd-shim-wasm/src/container/wasm.rs.
pub mod Compile
pub mod Execute
pub mod Layers
pub mod Exits
pub mod HttpProxy
