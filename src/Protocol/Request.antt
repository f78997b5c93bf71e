-- ===== src/Protocol/Request.antt =====
-- What a new RREQ does: at the node that it asks for, and at a node on its way.
pub mod Accept
pub mod Answer
pub mod Relay
