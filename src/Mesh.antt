-- ===== src/Mesh.antt =====
-- firmware/Mesh: the 16-byte packet header and the flood router.
pub mod Packet
pub mod Router
mod Tests
