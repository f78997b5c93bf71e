-- ===== src/Kaodv/Queue.antt =====
-- kaodv_queue.c: the packets that wait for a route.
use aodv.Base.{
  ℕ, zero, suc, ◌+◌, Bool, Option, none, some, is_some, List, [], ◌∷◌, ◌++◌, length, ℤ, pos, leb,
  ◌==◌, if◌then◌else◌,
}
use aodv.Node.{inc_u32, dec_u32}
use aodv.Kaodv.Defs.{
  ExplEntry, SkBuff, Hooknum, QueueEntry, Kernel, kmalloc, log_fate, freed, passed_on,
  icmp_unreachable,
}
use aodv.Kaodv.Expl.{kaodv_expl_get, enospc, enomem}
use aodv.Kaodv.Ipenc.{ip_pkt_encapsulate}

-- __kaodv_queue_enqueue_entry
unfoldable pub enqueue_entry : QueueEntry → Kernel → ℤ × Kernel
enqueue_entry entry k =
    if leb k.queue_maxlen k.queue_total
    then (enospc, k)
    else (pos 0, record k { queue = k.queue ++ entry ∷ []; queue_total = inc_u32 k.queue_total })

abbrev pub entry_of : SkBuff → Hooknum → QueueEntry
entry_of skb okfn = record {
  skb = skb;
  okfn = okfn;
  rt_info = record { tos = skb.iph.tos; daddr = skb.iph.daddr; saddr = skb.iph.saddr };
}

unfoldable pub kaodv_queue_enqueue_packet : SkBuff → Hooknum → Kernel → ℤ × Kernel
unfolding kmalloc enqueue_entry
kaodv_queue_enqueue_packet skb okfn k =
    let (ok, k') = kmalloc k in if ok then enqueue_entry (entry_of skb okfn) k' else (enomem, k')

-- dest_cmp
abbrev pub dest_cmp : ℕ → QueueEntry → Bool
dest_cmp daddr e = daddr == e.rt_info.daddr

-- __kaodv_queue_check_entry with dest_cmp
unfoldable pub check_entry : ℕ → List QueueEntry → Option QueueEntry
check_entry daddr [] = none
check_entry daddr (e ∷ l) = if dest_cmp daddr e then some e else check_entry daddr l

-- list_del of that entry
unfoldable pub unlink_queued : ℕ → List QueueEntry → List QueueEntry
unlink_queued daddr [] = []
unlink_queued daddr (e ∷ l) = if dest_cmp daddr e then l else e ∷ unlink_queued daddr l

unfoldable pub kaodv_queue_check : ℕ → Kernel → Bool
unfolding check_entry
kaodv_queue_check daddr k = is_some (check_entry daddr k.queue)

-- The entry out of the queue, as kaodv_queue_check_delqueue_entry takes it.
abbrev pub without : ℕ → Kernel → Kernel
without daddr k = record k {
  queue = unlink_queued daddr k.queue;
  queue_total = dec_u32 k.queue_total;
}

-- __kaodv_queue_flush: from the first entry on, each packet is freed.
abbrev pub flush_entries : List QueueEntry → Kernel → Kernel
flush_entries [] k = k
flush_entries (e ∷ l) k =
    flush_entries l
      (log_fate (freed e.skb) (record k { queue = l; queue_total = dec_u32 k.queue_total }))

unfoldable pub kaodv_queue_flush : Kernel → Kernel
kaodv_queue_flush k = flush_entries k.queue k

-- A round of the loop of KAODV_QUEUE_DROP for an entry; the first packet's sender gets an ICMP message.
abbrev pub drop_entry : ℕ → QueueEntry → Kernel → Kernel
drop_entry pkts e k =
    log_fate (freed e.skb) (if pkts == 0 then log_fate (icmp_unreachable e.skb) k else k)

-- The loop of KAODV_QUEUE_DROP.
unfoldable pub drop_loop : ℕ → ℕ → ℕ → Kernel → ℕ × Kernel
unfolding check_entry
drop_loop zero daddr pkts k = (pkts, k)
drop_loop (suc fuel) daddr pkts k = elim (check_entry daddr k.queue) [
  | none ↦ (pkts, k)
  | some e ↦ drop_loop fuel daddr (pkts + 1) (drop_entry pkts e (without daddr k))
]

-- A round of the loop of KAODV_QUEUE_SEND for an entry: whether it counts, and the state.
abbrev pub pass_on : QueueEntry → Option SkBuff → Kernel → ℕ × Kernel
pass_on e none k = (0, k)
pass_on e (some skb) k = (1, log_fate (passed_on skb e.okfn) k)

abbrev pub send_by : QueueEntry → Option ExplEntry → Kernel → ℕ × Kernel
send_by e none k = (0, log_fate (freed e.skb) k)
send_by e (some r) k =
    if r.flags.gw_encap
    then (let (skb, k') = ip_pkt_encapsulate e.skb r.nhop k in pass_on e skb k')
    else pass_on e (some e.skb) k

unfoldable pub send_entry : ℕ → QueueEntry → Kernel → ℕ × Kernel
unfolding kaodv_expl_get ip_pkt_encapsulate
send_entry daddr e k = send_by e (kaodv_expl_get daddr k) k

-- The loop of KAODV_QUEUE_SEND.
unfoldable pub send_loop : ℕ → ℕ → ℕ → Kernel → ℕ × Kernel
unfolding check_entry send_entry
send_loop zero daddr pkts k = (pkts, k)
send_loop (suc fuel) daddr pkts k = elim (check_entry daddr k.queue) [
  | none ↦ (pkts, k)
  | some e ↦
      let (n, k') = send_entry daddr e (without daddr k) in send_loop fuel daddr (pkts + n) k'
]

-- KAODV_QUEUE_DROP and KAODV_QUEUE_SEND
pub data Verdict : Type 0 where
  kaodv_queue_drop kaodv_queue_send : Verdict

-- Each round takes one entry out of the queue: as many rounds as the queue is long are enough.
unfoldable pub kaodv_queue_set_verdict : Verdict → ℕ → Kernel → ℕ × Kernel
unfolding drop_loop send_loop
kaodv_queue_set_verdict kaodv_queue_drop daddr k = drop_loop (length k.queue) daddr 0 k
kaodv_queue_set_verdict kaodv_queue_send daddr k = send_loop (length k.queue) daddr 0 k
