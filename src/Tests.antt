-- ===== src/Tests.antt =====
-- The theorems at concrete inputs, and runs of the code that can be followed in the source.
mod Shim
mod Services
mod Fixture
mod Store
mod Cache
mod Content
mod Sandboxes
mod Engines
mod Companions
mod Stress
mod Mains
