-- ===== src/Kaodv/Invariant.antt =====
-- The module's two lists after any events.
use aodv.Base.{
  ℕ, ◌+◌, ◌≡◌, refl, is_some, List, [], ◌∷◌, ltb, ◌==◌, if-keep, ◌-◌, ℤ, pos, ltb_ℤ, arith,
}
use aodv.Node.{dec_u32}
use aodv.Kaodv.Defs.{ExplFlags, QueueEntry, Kernel, kmalloc, log_fate, freed}
use aodv.Kaodv.Expl.{
  einval, link_expl, kaodv_expl_get, add_expl, kaodv_expl_add, kaodv_expl_update, kaodv_expl_del,
  kaodv_expl_flush,
}
use aodv.Kaodv.Queue.{Verdict, kaodv_queue_flush, flush_entries, kaodv_queue_send, kaodv_queue_drop}
use aodv.Kaodv.Peer.{
  PeerMsg, addroute, delroute, noroute_found, config, unknown, set_verdict, add_route,
  kaodv_netlink_receive_peer, nlmsghdr_size, NlSkb, netlink_ack, ecomm, ebusy, accept_peer,
  kaodv_netlink_rcv_skb, kaodv_netlink_rcv_nl_event,
}
use aodv.Kaodv.Hook.{KernelEvent, packet, netlink, release, elapse, kernel_step, kernel_run}
use aodv.Kaodv.Routes.{OneEach}
use aodv.Kaodv.Frame.{set_verdict-keep}
use aodv.Kaodv.Keep.{KeptByUpdate, KeptByEnqueue, hook-keep}
use aodv.Kaodv.Tables.{
  IsTable, update-IsTable, add-IsTable, del-IsTable, enqueue-IsTable, IsCounted, enqueue-IsCounted,
  without-IsCounted,
}

flush_expl-IsTable : (k : Kernel) → IsTable (kaodv_expl_flush k)
unfolding kaodv_expl_flush OneEach
flush_expl-IsTable k = (tt, tt)

-- Both lists.
unfoldable pub IsSound : Kernel → Type 0
IsSound k = IsTable k × IsCounted k

update-IsSound : KeptByUpdate IsSound
unfolding kaodv_expl_update link_expl IsSound
update-IsSound d n t fl i k p = (update-IsTable d n t fl i k p.0, ground (arith, p.1))

enqueue-IsSound : KeptByEnqueue IsSound
unfolding IsSound
enqueue-IsSound skb okfn k p = (enqueue-IsTable skb okfn k p.0, enqueue-IsCounted skb okfn k p.1)

flush_entries-IsSound :
    (l : List QueueEntry) (k : Kernel) → k.queue ≡ l → IsSound k → IsSound (flush_entries l k)
unfolding IsSound
flush_entries-IsSound [] k h p = p
flush_entries-IsSound (e ∷ l) k h p =
    flush_entries-IsSound l
      (log_fate (freed e.skb) (record k { queue = l; queue_total = dec_u32 k.queue_total })) refl
      (p.0, ground (arith, h, p.1))

pub flush-IsSound : (k : Kernel) → IsSound k → IsSound (kaodv_queue_flush k)
unfolding kaodv_queue_flush
flush-IsSound k p = flush_entries-IsSound k.queue k refl p

verdict-IsSound : (v : Verdict) (d : ℕ) (k : Kernel) → IsSound k → IsSound (set_verdict v d k)
unfolding IsSound
verdict-IsSound v d k p =
    set_verdict-keep IsSound (λ a f k' i. i) d (λ e k' h i. (i.0, without-IsCounted d e k' h i.1)) v
      k p

add-IsSound :
    (d n t : ℕ) (fl : ExplFlags) (i : ℕ) (k : Kernel)
    → IsSound k
    → IsSound (kaodv_expl_add d n t fl i k).1
unfolding kaodv_expl_add add_expl link_expl kmalloc IsSound
add-IsSound d n t fl i k p = (add-IsTable d n t fl i k p.0, ground (arith, p.1))

del-IsSound : (d : ℕ) (k : Kernel) → IsSound k → IsSound (kaodv_expl_del d k).1
unfolding kaodv_expl_del IsSound
del-IsSound d k p = (del-IsTable d k p.0, ground (arith, p.1))

add_route-IsSound :
    (d n t : ℕ) (fl : ExplFlags) (i : ℕ) (k : Kernel)
    → IsSound k
    → IsSound (add_route d n t fl i k).1
unfolding add_route
add_route-IsSound d n t fl i k p = verdict-IsSound kaodv_queue_send d _ (
    if-keep (λ (r : ℤ × Kernel). IsSound r.1) (is_some (kaodv_expl_get d k))
      (update-IsSound d n t fl i k p) (add-IsSound d n t fl i k p))

peer-IsSound :
    (m : PeerMsg) (len : ℕ) (k : Kernel)
    → IsSound k
    → IsSound (kaodv_netlink_receive_peer m len k).1
unfolding kaodv_netlink_receive_peer IsSound
peer-IsSound (addroute d n t fl i) len k p =
    if-keep (λ (r : ℤ × Kernel). IsSound r.1) (ltb len k.env.rt_msg_size) p
      (add_route-IsSound d n t fl i k p)
peer-IsSound (delroute d) len k p =
    if-keep (λ (r : ℤ × Kernel). IsSound r.1) (ltb len k.env.rt_msg_size) p
      (verdict-IsSound kaodv_queue_drop d _ (del-IsSound d k p))
peer-IsSound (noroute_found d) len k p =
    if-keep (λ (r : ℤ × Kernel). IsSound r.1) (ltb len k.env.rt_msg_size) p
      (verdict-IsSound kaodv_queue_drop d k p)
peer-IsSound (config t) len k p =
    if-keep (λ (r : ℤ × Kernel). IsSound r.1) (ltb len k.env.conf_msg_size) p p
peer-IsSound unknown len k p = p

accept-IsSound : (m : NlSkb) (k : Kernel) → IsSound k → IsSound (accept_peer m k)
unfolding accept_peer IsSound
accept-IsSound m k p =
    let (status, k') = kaodv_netlink_receive_peer m.msg (m.skblen - nlmsghdr_size) k in
    let p' : IsSound k' = peer-IsSound m.msg (m.skblen - nlmsghdr_size) k p in
    if-keep IsSound (ltb_ℤ status (pos 0)) p' (if-keep IsSound m.ack p' p')

ack-IsSound : (err : ℤ) (k : Kernel) → IsSound k → IsSound (netlink_ack err k)
unfolding IsSound
ack-IsSound err k p = p

meet-IsSound : (pid : ℕ) (k : Kernel) → IsSound k → IsSound (record k { peer_pid = pid })
unfolding IsSound
meet-IsSound pid k p = p

rcv_skb-IsSound : (m : NlSkb) (k : Kernel) → IsSound k → IsSound (kaodv_netlink_rcv_skb m k)
unfolding kaodv_netlink_rcv_skb
rcv_skb-IsSound m k p = if-keep IsSound _ p (
    if-keep IsSound _ (ack-IsSound einval k p) (
      if-keep IsSound m.trunc (ack-IsSound ecomm k p) (
        if-keep IsSound (k.peer_pid == 0) (accept-IsSound m _ (meet-IsSound m.pid k p))
          (if-keep IsSound (k.peer_pid == m.pid) (accept-IsSound m k p) (ack-IsSound ebusy k p)))))

release-IsSound : (n : ℕ) (k : Kernel) → IsSound k → IsSound (kaodv_netlink_rcv_nl_event n k)
unfolding kaodv_netlink_rcv_nl_event IsSound
release-IsSound n k p =
    if-keep IsSound _ (flush-IsSound _ (flush_expl-IsTable (record k { peer_pid = 0 }), p.1)) p

-- The kernel module keeps its lists after any events in any order: the routes stand in the order in
-- which they expire, no destination has two, `queue_total` is the length of the queue of packets, and
-- that is at most `queue_maxlen`; provided that it is so at first and `queue_maxlen` is below 2^32.
pub kernel_run-IsSound : (l : List KernelEvent) (k : Kernel) → IsSound k → IsSound (kernel_run l k)
unfolding kernel_run kernel_step IsSound
kernel_run-IsSound [] k p = p
kernel_run-IsSound (packet h skb dev ∷ l) k p =
    kernel_run-IsSound l _
      (hook-keep IsSound (λ m a f k' i. i) update-IsSound enqueue-IsSound h skb dev k p)
kernel_run-IsSound (netlink m ∷ l) k p = kernel_run-IsSound l _ (rcv_skb-IsSound m k p)
kernel_run-IsSound (release n ∷ l) k p = kernel_run-IsSound l _ (release-IsSound n k p)
kernel_run-IsSound (elapse n ∷ l) k p =
    kernel_run-IsSound l (record k { jiffies = k.jiffies + n }) p
