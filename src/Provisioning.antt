-- ===== src/Provisioning.antt =====
-- The provisioning package (wirepas_backend_client/provisioning).
pub mod Message
pub mod Data
pub mod Events
pub mod Machine
pub mod Server
