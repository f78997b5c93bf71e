-- ===== src/Kaodv/Session.antt =====
-- kaodv_netlink.c: the daemon that the module listens to, from its first message to the end of its socket.
use aodv.Base.{
  ℕ, ◌+◌, ◌<◌, ◌≡◌, refl, ap, ap₂, subst, sym, ◌-◌, ◌≤◌, ◌∙◌, false, not, ◌&&◌, List, [], ◌∷◌, All,
  map, length, ℤ, ◌==◌, if◌then◌else◌, if-keep, arith,
}
use aodv.Node.{dec_u32}
use aodv.Kaodv.Defs.{ExplEntry, QueueEntry, Kernel}
use aodv.Kaodv.Expl.{count_off, kaodv_expl_flush, einval}
use aodv.Kaodv.Queue.{kaodv_queue_flush, flush_entries}
use aodv.Kaodv.Peer.{
  NlSkb, netlink_ack, ecomm, ebusy, kaodv_netlink_rcv_skb, kaodv_netlink_rcv_nl_event,
}
use aodv.Kaodv.Hook.{netlink, release, kernel_step, kernel_run}
use aodv.Kaodv.Waiting.{freed_all}

-- Nothing but the acknowledgements differs.
unfoldable OnlyAcks : Kernel → Kernel → Type 0
OnlyAcks k x = x ≡ record k { acks = x.acks }

same-OnlyAcks : (k : Kernel) → OnlyAcks k k
unfolding OnlyAcks
same-OnlyAcks k = refl

ack-OnlyAcks : (err : ℤ) (k : Kernel) → OnlyAcks k (netlink_ack err k)
unfolding OnlyAcks
ack-OnlyAcks err k = refl

rcv_skb-OnlyAcks :
    (m : NlSkb) (k : Kernel)
    → (k.peer_pid == 0) ≡ false
    → (k.peer_pid == m.pid) ≡ false
    → OnlyAcks k (kaodv_netlink_rcv_skb m k)
unfolding kaodv_netlink_rcv_skb
rcv_skb-OnlyAcks m k z s =
    rw (z, s, kaodv_netlink_rcv_skb)
      (if-keep (OnlyAcks k) _ (same-OnlyAcks k) (
        if-keep (OnlyAcks k) _ (ack-OnlyAcks einval k)
          (if-keep (OnlyAcks k) m.trunc (ack-OnlyAcks ecomm k) (ack-OnlyAcks ebusy k))))

-- While the module has a peer, messages from other processes change nothing in it, not its routes, not
-- the packets that wait, not its peer: all that they get is acknowledgements. It is so for any
-- messages none of which has the peer's number.
pub strangers-change-nothing :
    (l : List NlSkb) (k : Kernel)
    → (k.peer_pid == 0) ≡ false
    → All (λ (m : NlSkb). (k.peer_pid == m.pid) ≡ false) l
    → kernel_run (map netlink l) k ≡ record k { acks = (kernel_run (map netlink l) k).acks }
unfolding kernel_run kernel_step OnlyAcks
strangers-change-nothing [] k z a = refl
strangers-change-nothing (m ∷ l) k z a =
    let x : Kernel = kaodv_netlink_rcv_skb m k in
    subst
      (λ (y : Kernel).
        kernel_run (map netlink l) y ≡ record k { acks = (kernel_run (map netlink l) y).acks })
      (sym (rcv_skb-OnlyAcks m k z a.0))
      (strangers-change-nothing l (record k { acks = x.acks }) z a.1)

flush_entries-clears :
    (l : List QueueEntry) (k : Kernel)
    → k.queue ≡ l
    → k.queue_total ≡ length l
    → length l < 4294967296
    → flush_entries l k ≡ record k { queue = []; queue_total = 0; fates = freed_all l k.fates }
flush_entries-clears [] k q t b =
    ap₂ (λ (l : List QueueEntry) (n : ℕ). record k { queue = l; queue_total = n }) q t
flush_entries-clears (e ∷ l) k q t b =
    flush_entries-clears l _ refl (omega (arith, t, b)) (omega (arith, b))

count-off :
    (l : List ExplEntry) (n : ℕ) → length l ≤ n → n < 4294967296 → count_off l n + length l ≡ n
count-off [] n h b = omega arith
count-off (e ∷ l) n h b =
    omega (arith, count-off l (dec_u32 n) (omega (arith, h, b)) (omega (arith, h, b)), h, b)

-- When the peer's socket is released, the module forgets the peer and every route and frees each packet
-- that waits, in the order of their arrival, and `expl_len` goes down by the number of routes; the
-- release of any other socket changes nothing. It is so when `queue_total` is the length of the queue, `expl_len`
-- is at least the number of routes, and both are below 2^32.
pub release-clears :
    (portid : ℕ) (k : Kernel)
    → k.queue_total ≡ length k.queue
    → length k.queue < 4294967296
    → length k.expl ≤ k.expl_len
    → k.expl_len < 4294967296
    → kernel_step (release portid) k ≡ (
        if not (portid == 0) && portid == k.peer_pid
        then record k {
          peer_pid = 0;
          expl = [];
          expl_len = k.expl_len - length k.expl;
          queue = [];
          queue_total = 0;
          fates = freed_all k.queue k.fates;
        }
        else k)
unfolding kernel_step kaodv_netlink_rcv_nl_event kaodv_expl_flush kaodv_queue_flush
release-clears portid k t b h c =
    ap (λ (x : Kernel). if not (portid == 0) && portid == k.peer_pid then x else k)
      (flush_entries-clears k.queue (kaodv_expl_flush (record k { peer_pid = 0 })) refl t b
        ∙ ap
            (λ (n : ℕ). record k {
              peer_pid = 0;
              expl = [];
              expl_len = n;
              queue = [];
              queue_total = 0;
              fates = freed_all k.queue k.fates;
            })
            (omega (arith, count-off k.expl k.expl_len h c)))
