-- ===== src/Routing/Break.antt =====
-- aodv_neighbor.c: what the break of a link leaves of the routes by that neighbor.
pub mod Route
pub mod Loop
pub mod Cut
