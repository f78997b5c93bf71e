-- ===== src/Kaodv/Deliver.antt =====
-- The packets that wait, when the daemon's messages come.
use aodv.Base.{
  ℕ, ◌≤◌, ◌<◌, ◌≡◌, refl, sym, ◌∙◌, ap, subst, false, Option, none, some, is_some, List, length,
  ltb, arith, if◌then◌else◌, if-keep, ℤ,
}
use aodv.Kaodv.Defs.{ExplFlags, QueueEntry, Kernel, Fate, kmalloc}
use aodv.Kaodv.Expl.{
  link_expl, add_expl, kaodv_expl_get, kaodv_expl_add, kaodv_expl_update, kaodv_expl_del,
}
use aodv.Kaodv.Queue.{kaodv_queue_check, Verdict, kaodv_queue_drop, kaodv_queue_send}
use aodv.Kaodv.Peer.{
  PeerMsg, addroute, delroute, noroute_found, config, unknown, set_verdict, add_route,
  kaodv_netlink_receive_peer,
}
use aodv.Kaodv.Waiting.{others, check-others}
use aodv.Kaodv.Release.{set_verdict-released}

-- The destination whose packets a message releases.
abbrev pub concerns : PeerMsg → Option ℕ
concerns (addroute d n t fl i) = some d
concerns (delroute d) = some d
concerns (noroute_found d) = some d
concerns (config t) = none
concerns unknown = none

-- The queue has the length that its count says.
abbrev pub IsQueueCounted : Kernel → Type 0
IsQueueCounted k = (k.queue_total ≡ length k.queue) × (length k.queue < 4294967296)

-- The parts of the state that the routes do not touch.
abbrev pub Waits : Type 0
Waits = List QueueEntry × ℕ × List Fate

abbrev pub waits : Kernel → Waits
waits k = (k.queue, k.queue_total, k.fates)

update-waits :
    (d n t : ℕ) (fl : ExplFlags) (i : ℕ) (k : Kernel)
    → waits (kaodv_expl_update d n t fl i k).1 ≡ waits k
unfolding kaodv_expl_update link_expl
update-waits d n t fl i k = ground arith

add-waits :
    (d n t : ℕ) (fl : ExplFlags) (i : ℕ) (k : Kernel)
    → waits (kaodv_expl_add d n t fl i k).1 ≡ waits k
unfolding kaodv_expl_add add_expl link_expl kmalloc
add-waits d n t fl i k = ground arith

del-waits : (d : ℕ) (k : Kernel) → waits (kaodv_expl_del d k).1 ≡ waits k
unfolding kaodv_expl_del
del-waits d k = ground arith

-- The state in which the packets for the new route are sent.
abbrev pub routed : ℕ → ℕ → ℕ → ExplFlags → ℕ → Kernel → Kernel
routed d n t fl i k =
    (if is_some (kaodv_expl_get d k)
      then kaodv_expl_update d n t fl i k
      else kaodv_expl_add d n t fl i k).1

pub routed-waits :
    (d n t : ℕ) (fl : ExplFlags) (i : ℕ) (k : Kernel) → waits (routed d n t fl i k) ≡ waits k
routed-waits d n t fl i k =
    if-keep (λ (r : ℤ × Kernel). waits r.1 ≡ waits k) (is_some (kaodv_expl_get d k))
      (update-waits d n t fl i k) (add-waits d n t fl i k)

-- What `x` says of the queue after the packets for `d` are released from the queue `q`.
abbrev pub HasReleased : ℕ → List QueueEntry → Kernel → Type 0
HasReleased d q x =
    (kaodv_queue_check d x ≡ false) × (x.queue ≡ others d q) × (x.queue_total ≡ length (others d q))

verdict-HasReleased :
    (v : Verdict) (d : ℕ) (x k : Kernel)
    → waits x ≡ waits k
    → IsQueueCounted k
    → HasReleased d k.queue (set_verdict v d x)
unfolding kaodv_queue_check
verdict-HasReleased v d x k w q =
    let same : x.queue ≡ k.queue = ap (λ (u : Waits). u.0) w in
    let total : x.queue_total ≡ length x.queue =
      ap (λ (u : Waits). u.1) w ∙ q.0 ∙ ap length (sym same) in
    subst (λ (l : List QueueEntry). HasReleased d l (set_verdict v d x)) same
      (subst (λ (r : ℕ × Kernel). HasReleased d x.queue r.1)
        (sym (set_verdict-released v d x total (rw same q.1)))
        (rw (check-others d x.queue) refl, refl, refl))

pub long : (k : Kernel) (len : ℕ) → k.env.rt_msg_size ≤ len → ltb len k.env.rt_msg_size ≡ false
long k len h = ground (arith, h)

named :
    (d e : ℕ) (l : List QueueEntry) (x : Kernel)
    → some e ≡ some d
    → HasReleased e l x
    → HasReleased d l x
named d e l x c h = subst (λ (a : ℕ). HasReleased a l x) (ground (arith, c)) h

-- A message ADDROUTE, DELROUTE or NOROUTE_FOUND that is long enough leaves no packet for its
-- destination waiting, whatever becomes of the route, and leaves the packets for other destinations in
-- the queue in their order, with their number in `queue_total`. It is so when `queue_total` is the
-- length of the queue before, below 2^32.
pub receive-releases :
    (m : PeerMsg) (d len : ℕ) (k : Kernel)
    → concerns m ≡ some d
    → k.env.rt_msg_size ≤ len
    → IsQueueCounted k
    → let k' = (kaodv_netlink_receive_peer m len k).1 in
      (kaodv_queue_check d k' ≡ false)
      × (k'.queue ≡ others d k.queue)
      × (k'.queue_total ≡ length (others d k.queue))
unfolding kaodv_netlink_receive_peer add_route
receive-releases (addroute e n t fl i) d len k c h q = rw (long k len h) (
    named d e k.queue _ c (
      verdict-HasReleased kaodv_queue_send e (routed e n t fl i k) k (routed-waits e n t fl i k) q))
receive-releases (delroute e) d len k c h q = rw (long k len h) (
    named d e k.queue _ c
      (verdict-HasReleased kaodv_queue_drop e (kaodv_expl_del e k).1 k (del-waits e k) q))
receive-releases (noroute_found e) d len k c h q =
    rw (long k len h) (named d e k.queue _ c (verdict-HasReleased kaodv_queue_drop e k k refl q))
receive-releases (config t) d len k c h q = ground (arith, c)
receive-releases unknown d len k c h q = ground (arith, c)
