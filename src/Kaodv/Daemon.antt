-- ===== src/Kaodv/Daemon.antt =====
-- The daemon and the kernel module together: what each sends is what the other receives.
use aodv.Base.{
  ℕ, ◌+◌, ◌≤◌, ◌<◌, ◌≡◌, refl, ap, ◌∙◌, Bool, true, false, not, Option, none, some, is_some, List,
  [], ◌∷◌, length, ltb, ◌==◌, pos, if◌then◌else◌, ltb_ℤ, pos_part, arith,
}
use aodv.Timer.{rt_timer}
use aodv.Node.{
  inc_u32, rtm_newroute, State, M, ⊤, when, gettimeofday, set_timeout, RtFlags, RtState, valid,
  is_valid, RtEntry, NlMsg, SeekEntry,
}
use aodv.Node
use aodv.Netlink.{
  nl_send_aodv, nl_send_rt, nl_kernel_route, nl_send_add_route_msg, nl_send_no_route_found_msg,
}
use aodv.Routing.Table.{lookup, rt_table_check}
use aodv.Routing.Seek.{find_seek, seek_at, seek_list_check, seek_list_remove}
use aodv.Routing.Route.{new_entry, start_route, link_route, end_seek, rt_table_insert}
use aodv.Routing.Contract.{rt_table_insert-lookup}
use aodv.Protocol.Kernel.{
  other, KernelMsg, timeout, route_req, repair, route_update, send_rerr, nl_kaodv_callback,
}
use aodv.Protocol.Timeout.{route_discovery_timeout, give_up_discovery, rreq_retries}
use aodv.Protocol.Discovery.{rreq_route_discovery-seeks}
use aodv.Kaodv.Defs.{
  SkBuff, local_out, IfInfo, KaodvMsg, rt_msg, rerr, kaodvm_timeout, kaodvm_route_req,
  kaodvm_repair, Kernel, ExplEntry, ExplFlags,
}
use aodv.Kaodv.Defs
use aodv.Kaodv.Expl.{deadline, kaodv_expl_get}
use aodv.Kaodv.Queue.{kaodv_queue_check, kaodv_queue_drop}
use aodv.Kaodv.Peer
use aodv.Kaodv.Peer.{PeerMsg, kaodv_netlink_receive_peer}
use aodv.Kaodv.Hook.{is_aodv, if_info_from_ifindex, kaodv_hook}
use aodv.Kaodv.RouteMap.{IsExact}
use aodv.Kaodv.Refine.{receive-HasObeyed}
use aodv.Kaodv.Waiting.{dropped, waiting_for}
use aodv.Kaodv.Release.{set_verdict-released}
use aodv.Kaodv.Deliver.{IsQueueCounted, long, receive-releases}
use aodv.Kaodv.Hold.{to_many, hook-holds}

-- The module's message as the daemon reads it: kaodv_rt_msg has one layout in both.
abbrev pub as_kernel_msg : KaodvMsg → KernelMsg
as_kernel_msg (rt_msg kaodvm_timeout src dest) = timeout dest
as_kernel_msg (rt_msg kaodvm_route_req src dest) = route_req dest
as_kernel_msg (rt_msg kaodvm_repair src dest) = repair dest src
as_kernel_msg (Defs.debug text) = other
as_kernel_msg (Defs.route_update type src dest ifindex) = route_update dest src
as_kernel_msg (rerr type src dest ifindex) = send_rerr dest src

-- The daemon's message as the module reads it; `none` is one to the kernel's routing.
abbrev pub as_peer_msg : NlMsg → Option PeerMsg
as_peer_msg (Node.add_route dest nhop time ifindex encap rep) =
    some (Peer.addroute dest nhop time (record { gw_encap = encap; repair = rep }) ifindex)
as_peer_msg (Node.del_route dest nhop) = some (Peer.delroute dest)
as_peer_msg (Node.noroute_found dest) = some (Peer.noroute_found dest)
as_peer_msg (Node.config t) = some (Peer.config t)
as_peer_msg (Node.rtm action dest gateway oif metric) = none

abbrev received_one : ℕ → Option PeerMsg → Kernel → Kernel
received_one len none k = k
received_one len (some m) k = (kaodv_netlink_receive_peer m len k).1

-- The module after the messages of a log, the oldest of which is the last.
abbrev pub received : ℕ → List NlMsg → Kernel → Kernel
received len [] k = k
received len (m ∷ l) k = received_one len (as_peer_msg m) (received len l k)

-- A packet of this node for a destination that has no route, and for which no other packet waits,
-- makes the daemon seek the destination: what the hook sends to the daemon last is a message on which the
-- daemon, in whatever state, has the destination in its list of discoveries. It is so for a packet that is not
-- AODV's, to one host, on an interface of the module, when there is memory and the queue has room.
pub held-sought :
    (skb : SkBuff) (dev : ℕ) (i : IfInfo) (k : Kernel) (s : State)
    → is_aodv skb ≡ false
    → if_info_from_ifindex dev k.ifi ≡ some i
    → to_many skb i ≡ false
    → kaodv_expl_get skb.iph.daddr k ≡ none
    → kaodv_queue_check skb.iph.daddr k ≡ false
    → ((a : ℕ) → k.env.kmalloc a ≡ true)
    → k.queue_total < k.queue_maxlen
    → (m : KaodvMsg) × ((kaodv_hook local_out skb dev k).1.to_daemon ≡ m ∷ k.to_daemon)
      × (is_some (find_seek skb.iph.daddr (nl_kaodv_callback (as_kernel_msg m) s).1.sl) ≡ true)
unfolding nl_kaodv_callback
held-sought skb dev i k s a f u g c memory room =
    let (v, q, d) = hook-holds skb dev i k a f u g memory room in
    (
      rt_msg kaodvm_route_req 0 skb.iph.daddr,
      d ∙ rw c refl,
      rreq_route_discovery-seeks skb.iph.daddr _ s,
    )

-- The message to the kernel's routing about a new route.
abbrev pub rtm_new : ℕ → ℕ → ℕ → ℕ → NlMsg
rtm_new d n m i =
    Node.rtm rtm_newroute d (if d == n then none else some n)
      (if ltb_ℤ (pos 0) (pos i) then some (pos_part (pos i)) else none) m

-- The messages of a new valid route, when sendmsg takes them.
abbrev pub new_route_msgs : ℕ → ℕ → ℕ → ℕ → RtFlags → ℕ → List NlMsg → List NlMsg
new_route_msgs d n m l f i log = rtm_new d n m i ∷ Node.add_route d n l i f.inet_dest f.repair ∷ log

add_route-nl_sent :
    (d n m l : ℕ) (f : RtFlags) (i : ℕ) (s : State)
    → ((x : NlMsg) (a : ℕ) → s.env.sendmsg x a ≡ true)
    → (nl_send_add_route_msg d n m l f i s).1.nl_sent ≡ new_route_msgs d n m l f i s.nl_sent
unfolding nl_send_add_route_msg nl_send_aodv nl_kernel_route nl_send_rt
add_route-nl_sent d n m l f i s ok =
    rw
      (
        ok (Node.add_route d n l i f.inet_dest f.repair) (s.aodvnl_seqno + 1),
        ok (rtm_new d n m i) (s.rtnl_seqno + 1),
      )
      refl

end_seek-nl_sent : (d : ℕ) (b : Bool) (s : State) → (when b (end_seek d) s).1.nl_sent ≡ s.nl_sent
unfolding end_seek seek_list_check seek_list_remove
end_seek-nl_sent d b s = ground arith

set_if-nl_sent :
    (d life : ℕ) (s : State)
    → (when (not (life == 0)) (set_timeout (rt_timer d) (pos life)) s).1.nl_sent ≡ s.nl_sent
unfolding gettimeofday
set_if-nl_sent d life s = ground arith

pub insert-nl_sent :
    (d n h q l : ℕ) (f : RtFlags) (s : State)
    → lookup d s.rt_tbl ≡ none
    → ((x : NlMsg) (a : ℕ) → s.env.sendmsg x a ≡ true)
    → (rt_table_insert d n h q l valid f s).1.nl_sent
      ≡ new_route_msgs d n h l f s.this_host.ifindex s.nl_sent
unfolding rt_table_insert lookup link_route start_route gettimeofday
insert-nl_sent d n h q l f s p ok =
    let s1 : State = (link_route d n h q valid f s).1 in
    let (life, s2) = start_route d n h l valid f s1 in
    let s1' : State = record s1 {
      rt_tbl = record (s1.rt_tbl) { num_active = inc_u32 s1.rt_tbl.num_active };
    } in
    rw (p, rt_table_insert)
      (end_seek-nl_sent d true _
        ∙ set_if-nl_sent d life s2
        ∙ add_route-nl_sent d n h l f s.this_host.ifindex s1' ok)

-- The daemon's table and the module's routes agree about a new route: after rt_table_insert of a valid
-- route to a destination that the daemon's table has no entry for, the daemon's table has the entry, and
-- the module, once it has received what the daemon sent, has a route to the destination by the same next
-- hop, on the node's interface, with the entry's flags for gateways and repair and the deadline that the
-- lifetime gives. It is so when sendmsg takes every message and the daemon has sent none before, the
-- module's allocations succeed, no destination has two routes in the module, `expl_len` counts them and
-- is below 1025, and messages are long enough.
pub insert-agrees :
    (d n h q l : ℕ) (f : RtFlags) (s : State) (len : ℕ) (k : Kernel)
    → lookup d s.rt_tbl ≡ none
    → ((x : NlMsg) (a : ℕ) → s.env.sendmsg x a ≡ true)
    → s.nl_sent ≡ []
    → ((a : ℕ) → k.env.kmalloc a ≡ true)
    → IsExact k
    → length k.expl < 1025
    → k.env.rt_msg_size ≤ len
    → let s' = (rt_table_insert d n h q l valid f s).1 in
      (lookup d s'.rt_tbl ≡ some (new_entry d n h q valid f))
      × (kaodv_expl_get d (received len s'.nl_sent k)
          ≡ some (record {
            expires = deadline l k;
            flags = record { gw_encap = f.inet_dest; repair = f.repair };
            daddr = d;
            nhop = n;
            ifindex = s.this_host.ifindex;
          }))
unfolding kaodv_expl_get
insert-agrees d n h q l f s len k p ok start memory x b long =
    let m : PeerMsg =
      Peer.addroute d n l (record { gw_encap = f.inet_dest; repair = f.repair })
        s.this_host.ifindex in
    (
      (rt_table_insert-lookup d n h q l valid f s p).1 d ∙ ground arith,
      rw (insert-nl_sent d n h q l f s p ok, start)
          ((receive-HasObeyed k memory x b m len long).0 d ∙ ground arith),
    )

find_seek-dest :
    (d : ℕ) (e : SeekEntry) (l : List SeekEntry) → find_seek d l ≡ some e → e.dest_addr ≡ d
unfolding find_seek
find_seek-dest d e [] h = ground (arith, h)
find_seek-dest d e (c ∷ l) h = ground (arith, h, find_seek-dest d e l)

-- The end of a discovery that found nothing.
give_up-nl_sent :
    (d : ℕ) (e : SeekEntry) (s : State)
    → find_seek d s.sl ≡ some e
    → (rt_table_check d s).0 ≡ none
    → ((x : NlMsg) (a : ℕ) → s.env.sendmsg x a ≡ true)
    → (give_up_discovery d s).1.nl_sent ≡ Node.noroute_found d ∷ s.nl_sent
unfolding give_up_discovery seek_at nl_send_no_route_found_msg nl_send_aodv rt_table_check
    seek_list_remove
give_up-nl_sent d e s h r ok =
    rw
      (
        h,
        give_up_discovery,
        find_seek-dest d e s.sl h,
        ok (Node.noroute_found d) (s.aodvnl_seqno + 1),
        r,
      )
      refl

noroute-fates :
    (d len : ℕ) (k : Kernel)
    → IsQueueCounted k
    → k.env.rt_msg_size ≤ len
    → (kaodv_netlink_receive_peer (Peer.noroute_found d) len k).1.fates
      ≡ dropped (waiting_for d k.queue) k.fates
unfolding kaodv_netlink_receive_peer
noroute-fates d len k q h =
    rw (long k len h)
      (ap (λ (r : ℕ × Kernel). r.1.fates) (set_verdict-released kaodv_queue_drop d k q.0 q.1))

-- A discovery that finds no route ends the wait of its packets: when its timer expires after the last
-- RREQ and the destination has no entry in the daemon's table, the module, once it has received what
-- the daemon sent, has no packet for the destination waiting; it has told the sender of the first and freed each of
-- them, in the order of their arrival. It is so when sendmsg takes every message and the daemon has sent none before, the
-- message is long enough, and `queue_total` is the length of the queue, below 2^32.
pub given-up-dropped :
    (d : ℕ) (e : SeekEntry) (s : State) (len : ℕ) (k : Kernel)
    → find_seek d s.sl ≡ some e
    → ltb e.rreq_cnt rreq_retries ≡ false
    → (rt_table_check d s).0 ≡ none
    → ((x : NlMsg) (a : ℕ) → s.env.sendmsg x a ≡ true)
    → s.nl_sent ≡ []
    → IsQueueCounted k
    → k.env.rt_msg_size ≤ len
    → let k' = received len (route_discovery_timeout d s).1.nl_sent k in
      (kaodv_queue_check d k' ≡ false) × (k'.fates ≡ dropped (waiting_for d k.queue) k.fates)
unfolding route_discovery_timeout seek_at gettimeofday rt_table_check
given-up-dropped d e s len k h c r ok start q l =
    rw (h, route_discovery_timeout, c, give_up-nl_sent d e (gettimeofday s).1 h r ok, start)
      ((receive-releases (Peer.noroute_found d) d len k refl l q).0, noroute-fates d len k q l)
