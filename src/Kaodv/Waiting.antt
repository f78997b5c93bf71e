-- ===== src/Kaodv/Waiting.antt =====
-- The queue of packets as those that wait for one destination and the others.
use aodv.Base.{
  ℕ, ◌+◌, ◌≤◌, ◌≡◌, refl, Option, none, some, List, [], ◌∷◌, length, arith, if◌then◌else◌,
  Bool-cases, inl, inr,
}
use aodv.Kaodv.Defs.{ExplEntry, SkBuff, QueueEntry, Kernel, Fate, kmalloc, freed, icmp_unreachable}
use aodv.Kaodv.Expl.{kaodv_expl_get}
use aodv.Kaodv.Ipenc.{ip_pkt_encapsulate, encapsulated}
use aodv.Kaodv.Queue.{
  dest_cmp, check_entry, unlink_queued, pass_on, send_by, send_entry, Verdict, kaodv_queue_drop,
  kaodv_queue_send,
}

-- The packets for `d`, and those for other destinations, in the order of their arrival.
abbrev pub waiting_for : ℕ → List QueueEntry → List QueueEntry
waiting_for d [] = []
waiting_for d (e ∷ l) = if dest_cmp d e then e ∷ waiting_for d l else waiting_for d l

abbrev pub others : ℕ → List QueueEntry → List QueueEntry
others d [] = []
others d (e ∷ l) = if dest_cmp d e then others d l else e ∷ others d l

-- The log when the packets are freed, and when the first one's sender is told before.
abbrev pub freed_all : List QueueEntry → List Fate → List Fate
freed_all [] f = f
freed_all (e ∷ l) f = freed_all l (freed e.skb ∷ f)

abbrev pub dropped : List QueueEntry → List Fate → List Fate
dropped [] f = f
dropped (e ∷ l) f = freed_all l (freed e.skb ∷ icmp_unreachable e.skb ∷ f)

-- Each packet of a list sent, one after the other.
abbrev pub send_each : ℕ → List QueueEntry → ℕ → Kernel → ℕ × Kernel
send_each d [] pkts k = (pkts, k)
send_each d (e ∷ l) pkts k = let (n, k') = send_entry d e k in send_each d l (pkts + n) k'

abbrev pub released : Verdict → ℕ → List QueueEntry → Kernel → ℕ × Kernel
released kaodv_queue_drop d l k = (length l, record k { fates = dropped l k.fates })
released kaodv_queue_send d l k = send_each d l 0 k

-- The queue holds `q`, and its count says so.
abbrev pub holding : List QueueEntry → Kernel → Kernel
holding q k = record k { queue = q; queue_total = length q }

pub check-none :
    (d : ℕ) (l : List QueueEntry)
    → check_entry d l ≡ none
    → (waiting_for d l ≡ []) × (others d l ≡ l)
unfolding check_entry
check-none d [] h = (refl, refl)
check-none d (e ∷ l) h = ground (arith, h, check-none d l)

pub check-some :
    (d : ℕ) (e : QueueEntry) (l : List QueueEntry)
    → check_entry d l ≡ some e
    → (waiting_for d l ≡ e ∷ waiting_for d (unlink_queued d l))
      × (others d l ≡ others d (unlink_queued d l))
      × (length l ≡ length (unlink_queued d l) + 1)
unfolding check_entry unlink_queued
check-some d e [] h = ground (arith, h)
check-some d e (c ∷ l) h = ground (arith, h, check-some d e l)

pub check-others : (d : ℕ) (l : List QueueEntry) → check_entry d (others d l) ≡ none
unfolding check_entry
check-others d [] = refl
check-others d (e ∷ l) = ground (arith, check-others d l)

length-waiting : (d : ℕ) (l : List QueueEntry) → length (waiting_for d l) ≤ length l
length-waiting d [] = omega arith
length-waiting d (e ∷ l) = ground (arith, length-waiting d l)

encapsulate-holding :
    (skb : SkBuff) (n : ℕ) (q : List QueueEntry) (k : Kernel)
    → ip_pkt_encapsulate skb n (holding q k)
      ≡ let (o, k') = ip_pkt_encapsulate skb n k in (o, holding q k')
unfolding ip_pkt_encapsulate kmalloc encapsulated
encapsulate-holding skb n q k = elim (Bool-cases (k.env.kmalloc k.allocs)) [
  | inl h ↦ rw (h, ip_pkt_encapsulate) refl
  | inr h ↦ rw (h, ip_pkt_encapsulate) refl
]

pass_on-holding :
    (e : QueueEntry) (o : Option SkBuff) (q : List QueueEntry) (k : Kernel)
    → pass_on e o (holding q k) ≡ let (n, k') = pass_on e o k in (n, holding q k')
pass_on-holding e none q k = refl
pass_on-holding e (some skb) q k = refl

-- Sending a packet does not look at the queue.
send_by-holding :
    (e : QueueEntry) (o : Option ExplEntry) (q : List QueueEntry) (k : Kernel)
    → send_by e o (holding q k) ≡ let (n, k') = send_by e o k in (n, holding q k')
send_by-holding e none q k = refl
send_by-holding e (some r) q k = elim (Bool-cases r.flags.gw_encap) [
  | inl h ↦
      let (o, k') = ip_pkt_encapsulate e.skb r.nhop k in
      rw (h, encapsulate-holding e.skb r.nhop q k) (pass_on-holding e o q k')
  | inr h ↦ rw h refl
]

pub send_entry-holding :
    (d : ℕ) (e : QueueEntry) (q : List QueueEntry) (k : Kernel)
    → send_entry d e (holding q k) ≡ let (n, k') = send_entry d e k in (n, holding q k')
unfolding send_entry kaodv_expl_get
send_entry-holding d e q k = send_by-holding e (kaodv_expl_get d k) q k
