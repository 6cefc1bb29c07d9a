-- ===== src/Decoders.antt =====
-- wirepas_backend_client/messages/decoders/: the formats of `struct`, the decoders, and the choice of
-- one by endpoints (wirepas_backend_client/messages/interface.py).
pub mod Struct
pub mod Tlv
pub mod Ruuvi
pub mod Positioning
pub mod Boot
pub mod Traffic
pub mod Node
pub mod Neighbor
pub mod TestNw
pub mod Layouts
pub mod Endpoints
mod Tests
