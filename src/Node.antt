-- ===== src/Node.antt =====
-- The state of the routing daemon: its global variables (main.c, defs.h, routing_table.h,
-- seek_list.c, aodv_rreq.c, aodv_socket.c, nl.c) in one record, and the monad of its functions.
-- What the operating system answers is `env`: readings of the clock, and whether a call succeeds.
mod Defs
mod Monad
unfoldable pub use Defs.*
unfoldable pub use Monad.*
