-- ===== src/Kaodv/Hold.antt =====
-- A packet of this node that has no route: it is held, the daemon is asked, and the route sends it on.
use aodv.Base.{
  ℕ, ◌+◌, ◌≤◌, ◌<◌, ◌≡◌, refl, sym, ◌∙◌, ap, subst, Bool, true, false, ◌||◌, Option, none, some,
  List, [], ◌∷◌, ◌++◌, length, length-append, leb, arith, ◌==◌, if◌then◌else◌, Bool-cases, inl, inr,
}
use aodv.Node.{inc_u32}
use aodv.Kaodv.Defs.{
  ExplFlags, ExplEntry, SkBuff, local_out, IfInfo, rt_msg, kaodvm_route_req, QueueEntry, Kernel,
  kmalloc, passed_on,
}
use aodv.Kaodv.Expl.{kaodv_expl_get}
use aodv.Kaodv.Notify.{broadcast, kaodv_netlink_send_rt_msg}
use aodv.Kaodv.Queue.{entry_of, kaodv_queue_check, enqueue_entry, kaodv_queue_enqueue_packet}
use aodv.Kaodv.Peer.{addroute, kaodv_netlink_receive_peer}
use aodv.Kaodv.Hook.{
  nf_stolen, inaddr_broadcast, in_multicast, wait_for_route, send_own, on_interface,
  if_info_from_ifindex, is_aodv, kaodv_hook,
}
use aodv.Kaodv.Routes.{OneEach}
use aodv.Kaodv.RouteMap.{IsExact, Core, core}
use aodv.Kaodv.Waiting.{waiting_for}
use aodv.Kaodv.Deliver.{Waits, waits}
use aodv.Kaodv.Pass.{passed_all, passed_all-append, waiting-append, addroute-passes}

-- Whether a packet goes to more than one host: to all, to a group, or to the interface's network.
abbrev pub to_many : SkBuff → IfInfo → Bool
to_many skb i =
    skb.iph.daddr == inaddr_broadcast || in_multicast skb.iph.daddr || skb.iph.daddr == i.bc_addr

local_out-waits :
    (skb : SkBuff) (dev : ℕ) (i : IfInfo) (k : Kernel)
    → is_aodv skb ≡ false
    → if_info_from_ifindex dev k.ifi ≡ some i
    → to_many skb i ≡ false
    → kaodv_expl_get skb.iph.daddr k ≡ none
    → kaodv_hook local_out skb dev k ≡ wait_for_route skb k
unfolding kaodv_hook
local_out-waits skb dev i k a f u g =
    rw (a, kaodv_hook)
      (ap (λ (o : Option IfInfo). on_interface local_out skb dev o k) f
        ∙ rw u refl
        ∙ ap (λ (o : Option ExplEntry). send_own skb dev o k) g)

wait-holds :
    (skb : SkBuff) (k : Kernel)
    → ((a : ℕ) → k.env.kmalloc a ≡ true)
    → k.queue_total < k.queue_maxlen
    → let (v, k') = wait_for_route skb k in
      (v ≡ nf_stolen)
      × (k'.queue ≡ k.queue ++ entry_of skb local_out ∷ [])
      × (k'.to_daemon ≡ (
          if kaodv_queue_check skb.iph.daddr k
          then k.to_daemon
          else rt_msg kaodvm_route_req 0 skb.iph.daddr ∷ k.to_daemon))
unfolding kaodv_queue_enqueue_packet enqueue_entry kmalloc kaodv_netlink_send_rt_msg broadcast
wait-holds skb k memory room = elim (Bool-cases (kaodv_queue_check skb.iph.daddr k)) [
  | inl h ↦ rw (h, memory k.allocs, full) (refl, refl, refl)
  | inr h ↦ rw (h, memory k.allocs, memory (k.allocs + 1), full) (refl, refl, refl)
]
  where
    full : leb k.queue_maxlen k.queue_total ≡ false
    full = ground (arith, room)

-- A packet that this node sends to one host for which the module has no route is held: the hook
-- NF_INET_LOCAL_OUT answers NF_STOLEN and puts the packet at the end of the queue, and it asks the daemon
-- for a route (KAODVM_ROUTE_REQ) unless another packet waits for the same destination. It is so for a packet
-- that is not AODV's, on an interface of the module, when there is memory and the queue has room.
pub hook-holds :
    (skb : SkBuff) (dev : ℕ) (i : IfInfo) (k : Kernel)
    → is_aodv skb ≡ false
    → if_info_from_ifindex dev k.ifi ≡ some i
    → to_many skb i ≡ false
    → kaodv_expl_get skb.iph.daddr k ≡ none
    → ((a : ℕ) → k.env.kmalloc a ≡ true)
    → k.queue_total < k.queue_maxlen
    → let (v, k') = kaodv_hook local_out skb dev k in
      (v ≡ nf_stolen)
      × (k'.queue ≡ k.queue ++ entry_of skb local_out ∷ [])
      × (k'.to_daemon ≡ (
          if kaodv_queue_check skb.iph.daddr k
          then k.to_daemon
          else rt_msg kaodvm_route_req 0 skb.iph.daddr ∷ k.to_daemon))
hook-holds skb dev i k a f u g memory room =
    rw (local_out-waits skb dev i k a f u g) (wait-holds skb k memory room)

-- The parts of the state that decide what becomes of the packets, and those with one packet more.
abbrev View : Type 0
View = Core × Waits

abbrev view : Kernel → View
view k = (core k, waits k)

abbrev queued : QueueEntry → Kernel → View
queued e k = (core k, (k.queue ++ e ∷ [], k.queue_total + 1, k.fates))

wait-rest :
    (skb : SkBuff) (k : Kernel)
    → ((a : ℕ) → k.env.kmalloc a ≡ true)
    → k.queue_total < k.queue_maxlen
    → k.queue_total + 1 < 4294967296
    → view (wait_for_route skb k).1 ≡ queued (entry_of skb local_out) k
unfolding kaodv_queue_enqueue_packet enqueue_entry kmalloc kaodv_netlink_send_rt_msg broadcast
wait-rest skb k memory room b = elim (Bool-cases (kaodv_queue_check skb.iph.daddr k)) [
  | inl h ↦ rw (h, memory k.allocs, full) (ap after inc)
  | inr h ↦ rw (h, memory k.allocs, memory (k.allocs + 1), full) (ap after inc)
]
  where
    full : leb k.queue_maxlen k.queue_total ≡ false
    full = ground (arith, room)

    inc : inc_u32 k.queue_total ≡ k.queue_total + 1
    inc = omega (arith, b)

    after : ℕ → View
    after c = (core k, (k.queue ++ entry_of skb local_out ∷ [], c, k.fates))

-- The packet at the end of the queue is the last that an ADDROUTE passes on.
queued-sent :
    (e : QueueEntry) (k x : Kernel) (n t : ℕ) (fl : ExplFlags) (ifindex len : ℕ)
    → view x ≡ queued e k
    → ((a : ℕ) → k.env.kmalloc a ≡ true)
    → IsExact k
    → length k.expl < 1025
    → k.queue_total ≡ length k.queue
    → k.queue_total + 1 < 4294967296
    → k.env.rt_msg_size ≤ len
    → fl.gw_encap ≡ false
    → (kaodv_netlink_receive_peer (addroute e.rt_info.daddr n t fl ifindex) len x).1.fates
      ≡ passed_on e.skb e.okfn ∷ passed_all (waiting_for e.rt_info.daddr k.queue) k.fates
queued-sent e k x n t fl ifindex len s memory exact b q m h plain =
    let d : ℕ = e.rt_info.daddr in
    let c : core x ≡ core k = ap (λ (p : View). p.0) s in
    let w : waits x ≡ (k.queue ++ e ∷ [], k.queue_total + 1, k.fates) = ap (λ (p : View). p.1) s in
    let env : x.env ≡ k.env = ap (λ (u : Core). u.3) c in
    let queue : x.queue ≡ k.queue ++ e ∷ [] = ap (λ (u : Waits). u.0) w in
    let total : x.queue_total ≡ k.queue_total + 1 = ap (λ (u : Waits). u.1) w in
    let counted : x.queue_total ≡ length x.queue =
      total ∙ omega (arith, q, length-append k.queue (e ∷ [])) ∙ ap length (sym queue) in
    addroute-passes d n t fl ifindex x (rw env memory)
      (subst (λ (u : Core). OneEach u.0 × (u.1 ≡ length u.0)) (sym c) exact)
      (rw (ap (λ (u : Core). u.0) c) b) len (rw env h) (counted, omega (arith, counted, total, m))
      plain
    ∙ ap (λ (u : Waits). passed_all (waiting_for d u.0) u.2) w
    ∙ ap (λ (l : List QueueEntry). passed_all l k.fates) (waiting-append d k.queue e refl)
    ∙ passed_all-append (waiting_for d k.queue) e k.fates

-- A packet that this node sends to one host, and that the module has no route for, is sent once there
-- is one: when NF_INET_LOCAL_OUT has had the packet and the daemon then gives a route to its destination that
-- is no gateway's, the packet is passed on as it came, after all those that waited for the same
-- destination before it, in their order. It is so for a packet that is not AODV's, on an interface of the module, when
-- every allocation succeeds, no destination has two routes, `expl_len` counts them and is below 1025,
-- `queue_total` is the length of the queue and below `queue_maxlen`, which is below 2^32, and the
-- message is long enough.
pub held-sent :
    (skb : SkBuff) (dev : ℕ) (i : IfInfo) (k : Kernel) (n t : ℕ) (fl : ExplFlags) (ifindex len : ℕ)
    → is_aodv skb ≡ false
    → if_info_from_ifindex dev k.ifi ≡ some i
    → to_many skb i ≡ false
    → kaodv_expl_get skb.iph.daddr k ≡ none
    → ((a : ℕ) → k.env.kmalloc a ≡ true)
    → IsExact k
    → length k.expl < 1025
    → k.queue_total ≡ length k.queue
    → k.queue_total < k.queue_maxlen
    → k.queue_maxlen < 4294967296
    → k.env.rt_msg_size ≤ len
    → fl.gw_encap ≡ false
    → let k' : Kernel = (kaodv_hook local_out skb dev k).1 in
      (kaodv_netlink_receive_peer (addroute skb.iph.daddr n t fl ifindex) len k').1.fates
      ≡ passed_on skb local_out ∷ passed_all (waiting_for skb.iph.daddr k.queue) k.fates
held-sent skb dev i k n t fl ifindex len a f u g memory x b q room m h plain =
    rw (local_out-waits skb dev i k a f u g) (
      queued-sent (entry_of skb local_out) k (wait_for_route skb k).1 n t fl ifindex len
        (wait-rest skb k memory room (omega (arith, room, m))) memory x b q (omega (arith, room, m))
        h plain)
