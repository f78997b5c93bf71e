-- ===== src/Routing.antt =====
-- The routing table and what changes it: routing_table.c, seek_list.c, aodv_rerr.c (the building of
-- a RERR) and aodv_neighbor.c.
pub mod Table
pub mod Store
pub mod Seek
pub mod Rerr
pub mod Route
pub mod Contract
pub mod Find
pub mod Frame
pub mod Fade
pub mod Fields
pub mod Prolong
pub mod Revalidate
pub mod Neighbor
pub mod Break
pub mod Destroy
