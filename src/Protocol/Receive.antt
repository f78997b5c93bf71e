-- ===== src/Protocol/Receive.antt =====
-- aodv_socket.c: the receipt of a datagram. The bytes of the message are read as a `Msg` with its
-- type; `none` is a control message that recvmsg did not deliver.
use aodv.Base.{ℕ, ◌&&◌, Option, none, some, ◌==◌, if◌then◌else◌}
use aodv.Msg.{Msg, aodv_broadcast}
use aodv.Node.{⊤, M, skip, get, ◌>>=◌, ◌>>◌}
use aodv.Routing.Neighbor.{neighbor_add}
use aodv.Protocol.Rreq.{rreq_process}
use aodv.Protocol.Rrep.{rrep_process, rrep_ack_process}
use aodv.Protocol.Rerr.{rerr_process}
use aodv.Protocol.Hello.{hello_process}

pub record Datagram : Type 0 where
  pub msg : Msg
  pub len : ℕ
  pub src : ℕ
  pub dest : Option ℕ
  pub ttl : Option ℕ

-- A RREP that is broadcast over one hop is a HELLO.
abbrev pub retype : Msg → ℕ → ℕ → Msg
retype (Msg.rrep m) dest ttl =
    if ttl == 1 && dest == aodv_broadcast then Msg.hello m else Msg.rrep m
retype m dest ttl = m

unfoldable pub dispatch : Msg → ℕ → ℕ → ℕ → M ⊤
unfolding hello_process rreq_process rrep_process rerr_process rrep_ack_process
dispatch (Msg.hello m) len src ttl = hello_process m
dispatch (Msg.rreq m) len src ttl = rreq_process m len src ttl
dispatch (Msg.rrep m) len src ttl = rrep_process m len src ttl
dispatch (Msg.rerr m) len src ttl = rerr_process m len src
dispatch Msg.rrep_ack len src ttl = rrep_ack_process src
dispatch Msg.blank len src ttl = skip
dispatch (Msg.unknown t) len src ttl = skip

unfoldable pub aodv_socket_package_process : Msg → ℕ → ℕ → ℕ → ℕ → M ⊤
unfolding neighbor_add dispatch
aodv_socket_package_process msg len src dest ttl = do
  neighbor_add src
  dispatch (retype msg dest ttl) len src ttl

abbrev pub or_broadcast : Option ℕ → ℕ
or_broadcast none = aodv_broadcast
or_broadcast (some d) = d

abbrev pub read_with_ttl : Datagram → Option ℕ → M ⊤
read_with_ttl p none = skip
read_with_ttl p (some ttl) = do
  s ← get
  if s.this_host.enabled && p.src == s.this_host.ipaddr
      then skip
      else aodv_socket_package_process p.msg p.len p.src (or_broadcast p.dest) ttl

-- aodv_socket_read after recvmsg.
unfoldable pub aodv_socket_read : Datagram → M ⊤
unfolding aodv_socket_package_process
aodv_socket_read p = read_with_ttl p p.ttl
