-- ===== src/Mesh.antt =====
-- wirepas_backend_client/mesh/: the networks, gateways, sinks and nodes that were heard of.
pub mod Device
pub mod Management
pub mod Kept
pub mod Preserved
pub mod Added
pub mod Updated
pub mod Removed
pub mod Cleaned
pub mod Gone
pub mod Discovery
pub mod Discovered
mod Tests
