-- ===== src/Mesh.antt =====
-- The WireGuard mesh of nodejs/utils/mesh_*.js.
pub mod Addressing
pub mod Route
pub mod Client
pub mod Conf
pub mod Roster
