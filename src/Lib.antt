-- ===== src/Lib.antt =====
-- The AODV routing daemon and its kernel module.
--
-- The daemon keeps routes for a mobile ad-hoc network by the AODV protocol; the kernel module lets
-- packets go by these routes and holds those that have none. The parts, with the files of the repository
-- and the modules that model them:
--
--   timers         timer_queue.c, timer_queue.h, list.c      Timer, Protocol/Loop
--   messages       aodv_rreq.h, aodv_rrep.h, aodv_rerr.h     Msg
--   state          defs.h, and the globals of main.c         Node
--   routes         routing_table.c, routing_table.h          Routing/Table, Routing/Route
--   discoveries    seek_list.c                               Routing/Seek
--   neighbors      aodv_neighbor.c                           Routing/Neighbor
--   sending        aodv_socket.c                             Socket, Protocol/Receive
--   RREQ           aodv_rreq.c, parameters.h                 Protocol/Records, Protocol/Rreq
--   RREP           aodv_rrep.c                               Protocol/Rrep
--   RERR           aodv_rerr.c                               Routing/Rerr, Protocol/Rerr
--   HELLO          aodv_hello.c                              Protocol/Hello
--   timeouts       aodv_timeout.c                            Protocol/Timeout
--   kernel         nl.c                                      Netlink, Netlink/Attr, Protocol/Kernel
--   main loop      main.c                                    Protocol/Loop
--   start and end  main.c, aodv_socket.c, nl.c              Protocol/Start, Protocol/Stop
--   log            debug.c, debug.h                          Log
--   module's state kaodv/src                                 Kaodv/Defs
--   its routes     kaodv/src/kaodv_expl.c                    Kaodv/Expl
--   its queue      kaodv/src/kaodv_queue.c                   Kaodv/Queue
--   its messages   kaodv/src/kaodv_netlink.c                 Kaodv/Notify, Kaodv/Peer
--   its hooks      kaodv/src/kaodv_mod.c, kaodv_mod.h        Kaodv/Hook, Kaodv/Load
--   encapsulation  kaodv/src/kaodv_ipenc.c                   Kaodv/Ipenc
--   its proc files kaodv_expl.c, kaodv_queue.c (kaodv/src)   Kaodv/Proc
--
-- All globals of the daemon are one record, Node.State, and each function of the source is a function
-- by the same name in the state monad of Node/Monad. What calls what is as in the source: a datagram is
-- dispatched by its type to the handlers of messages, the kernel module's messages to nl_kaodv_callback,
-- and timer_timeout calls the handler of each timer that has expired. The handlers change the table,
-- set timers, fill the one send buffer and call aodv_socket_send.
--
-- The globals of the kernel module are one record, Kaodv.Defs.Kernel, with logs of what the module sends
-- to the daemon, of its acknowledgements and of what becomes of each packet; what it asks of the kernel
-- (memory, HZ, the sizes of messages, checksums) are fields of KernelEnv. The daemon and the module meet
-- in Kaodv/Daemon, where the messages that one sends are those that the other receives.
--
-- Conventions. An object that the source allocates is named by its key: a route by its destination, a
-- record of a RREQ by its originator and number, and a timer by the object that it is embedded in. A
-- read through a name that no object has gives zeros and a write changes nothing. The functions htonl
-- and ntohl stand at the border of the model, and an allocation succeeds. Words of 8 and 32 bits wrap
-- around as written; the type long is unbounded, so the differences of times are those of a 64-bit
-- machine. The readings of the clock, whether setsockopt takes a TTL and whether sendmsg takes a
-- message are fields of the environment, Node.Env, about which nothing is assumed.
--
-- The loop of timer_timeout over the expired timers runs on fuel, as many rounds as timers have
-- expired: each round takes one off, and no handler puts one on. The loops of kaodv_queue_set_verdict run as
-- many rounds as packets wait: each round takes one out of the queue. All other loops are recursion on lists.
--
-- The modules below Trace say what every run of the daemon is made of: a handler is a sequence of
-- elementary steps (Trace/Step), an event a sequence of rounds (Trace/Events), and what all rounds keep
-- holds after any events.
--
-- Protocol/Request and Protocol/Reply are about the roles that a node has for one message: it asks, it
-- answers or it is on the way. Routing/Break and Trace/Lost are about the loss of routes, by the break of a
-- link and by a RERR.
--
-- The log's calls (the macro DEBUG) are left out where the other modules make them: they change nothing
-- that the protocol reads. The log of routes is part of the daemon's state, since print_rt_table is the
-- handler of one of its timers.
--
-- The messages of rtnetlink are modelled with the attributes that the daemon means to send; where addattr
-- puts them in the buffer is in Netlink/Attr.
--
-- Not modelled: the code of kaodv/src under EXPL_TIMER, which no file defines, and the module's locks (each
-- operation is one step); the search for an interface when main names none; prefix_length, which no
-- call reaches; the bytes of messages; and RERRs of more destinations than the send buffer holds. What the
-- operating system answers at the start is Protocol.Start.HostEnv. The module's jiffies are unbounded.
pub mod Base
pub mod Timer
pub mod Msg
pub mod Node
pub mod Netlink
pub mod Socket
pub mod Routing
pub mod Protocol
pub mod Kaodv
pub mod Log
pub mod Trace
