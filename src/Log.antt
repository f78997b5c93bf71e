-- ===== src/Log.antt =====
-- debug.c and debug.h: the log of the daemon. `Text` turns flags, states and handlers into text, `Packet`
-- describes a message, `Address` holds the buffer of ip_to_str, `File` is alog with the log file, and
-- `Routes` is the table of routes that a timer prints. Where the other modules call DEBUG, they leave
-- the call out: it changes nothing that the protocol reads.
pub mod Text
pub mod Packet
pub mod Address
pub mod File
pub mod Routes
pub mod Report
mod Tests
