-- ===== src/Socket.antt =====
-- aodv_socket.c: the send buffer and the sending of messages with its rate limits.
pub mod Send
pub mod Limit
pub mod Frame
pub mod Run
pub mod Bounds
unfoldable pub use Send.*
