-- ===== src/Protocol.antt =====
-- The handlers of the daemon: of AODV messages (aodv_rreq.c, aodv_rrep.c, aodv_rerr.c,
-- aodv_hello.c, aodv_socket.c), of timers (aodv_timeout.c) and of kernel messages (nl.c), and the
-- functions of timer_queue.c that call a timer's handler; and how the daemon starts (main.c).
pub mod Records
pub mod Rrep
pub mod Rreq
pub mod Discovery
pub mod Reply
pub mod Request
pub mod Numbers
pub mod Rerr
pub mod Hello
pub mod Timeout
pub mod Receive
pub mod Kernel
pub mod Loop
pub mod Start
pub mod Stop
mod Tests
