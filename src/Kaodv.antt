-- ===== src/Kaodv.antt =====
-- The kernel module (kaodv/src): the routes by which packets go, the packets that wait for a route, the
-- messages between the module and the daemon, and the hooks into the kernel's network stack.
pub mod Defs
pub mod Expl
pub mod Ipenc
pub mod Notify
pub mod Queue
pub mod Peer
pub mod Hook
pub mod Routes
pub mod Frame
pub mod Keep
pub mod Tables
pub mod Invariant
pub mod Waiting
pub mod Release
pub mod RouteMap
pub mod Refine
pub mod Full
pub mod Deliver
pub mod Pass
pub mod Hold
pub mod Roundtrip
pub mod Session
pub mod Daemon
pub mod Proc
pub mod Answer
mod Tests
pub mod Load
pub mod Loading
pub mod Loaded
