-- ===== src/Containerd.antt =====
-- crates/containerd-shim-wasm/src/sandbox/containerd: the client that fetches Wasm layers from
-- containerd and keeps what an engine compiled of them in containerd's content store.
pub mod Services
pub mod Write
pub mod Client
pub mod Lease
