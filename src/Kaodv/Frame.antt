-- ===== src/Kaodv/Frame.antt =====
-- What a verdict on the queue keeps: any property that a round of its loops keeps.
use aodv.Base.{
  ℕ, zero, suc, ◌+◌, ◌≡◌, Option, none, some, List, length, ◌==◌, Option-cases, Bool-cases, inl,
  inr,
}
use aodv.Kaodv.Defs.{ExplEntry, SkBuff, QueueEntry, Kernel, Fate, kmalloc}
use aodv.Kaodv.Expl.{kaodv_expl_get}
use aodv.Kaodv.Ipenc.{ip_pkt_encapsulate}
use aodv.Kaodv.Queue.{
  check_entry, drop_entry, drop_loop, pass_on, send_by, send_entry, send_loop, without, Verdict,
  kaodv_queue_drop, kaodv_queue_send, kaodv_queue_set_verdict,
}

-- Nothing but the fates and the count of allocations changes.
abbrev pub Calm {ℓ} : (Kernel → Type ℓ) → Type ℓ
Calm P = (a : ℕ) (f : List Fate) (k : Kernel) → P k → P (record k { allocs = a; fates = f })

-- An entry for `d` leaves the queue.
abbrev pub KeptByTaking {ℓ} : (Kernel → Type ℓ) → ℕ → Type ℓ
KeptByTaking P d =
    (e : QueueEntry) (k : Kernel) → check_entry d k.queue ≡ some e → P k → P (without d k)

module _ {ℓ} (P : Kernel → Type ℓ) (calm : Calm P) where
  pub drop_entry-keep : (p : ℕ) (e : QueueEntry) (k : Kernel) → P k → P (drop_entry p e k)
  drop_entry-keep p e k i = elim (Bool-cases (p == 0)) [
    | inl h ↦ rw h (calm k.allocs _ k i)
    | inr h ↦ rw h (calm k.allocs _ k i)
  ]

  encapsulate-keep : (skb : SkBuff) (d : ℕ) (k : Kernel) → P k → P (ip_pkt_encapsulate skb d k).1
  unfolding ip_pkt_encapsulate kmalloc
  encapsulate-keep skb d k i = elim (Bool-cases (k.env.kmalloc k.allocs)) [
    | inl h ↦ rw (h, ip_pkt_encapsulate) (calm _ k.fates k i)
    | inr h ↦ rw (h, ip_pkt_encapsulate) (calm _ _ k i)
  ]

  pass_on-keep : (e : QueueEntry) (o : Option SkBuff) (k : Kernel) → P k → P (pass_on e o k).1
  pass_on-keep e none k i = i
  pass_on-keep e (some skb) k i = calm k.allocs _ k i

  send_by-keep : (e : QueueEntry) (o : Option ExplEntry) (k : Kernel) → P k → P (send_by e o k).1
  send_by-keep e none k i = calm k.allocs _ k i
  send_by-keep e (some r) k i =
      let (o, k') = ip_pkt_encapsulate e.skb r.nhop k in
      elim (Bool-cases r.flags.gw_encap) [
        | inl h ↦ rw h (pass_on-keep e o k' (encapsulate-keep e.skb r.nhop k i))
        | inr h ↦ rw h (pass_on-keep e (some e.skb) k i)
      ]

  pub send_entry-keep : (d : ℕ) (e : QueueEntry) (k : Kernel) → P k → P (send_entry d e k).1
  unfolding send_entry
  send_entry-keep d e k i = send_by-keep e (kaodv_expl_get d k) k i

  module _ (d : ℕ) (taking : KeptByTaking P d) where
    drop_loop-keep : (n p : ℕ) (k : Kernel) → P k → P (drop_loop n d p k).1
    unfolding drop_loop
    drop_loop-keep zero p k i = i
    drop_loop-keep (suc n) p k i = elim (Option-cases (check_entry d k.queue)) [
      | inl h ↦ rw (h, drop_loop) i
      | inr (e, h) ↦
          rw (h, drop_loop)
            (drop_loop-keep n (p + 1) _ (drop_entry-keep p e (without d k) (taking e k h i)))
    ]

    send_loop-keep : (n p : ℕ) (k : Kernel) → P k → P (send_loop n d p k).1
    unfolding send_loop
    send_loop-keep zero p k i = i
    send_loop-keep (suc n) p k i = elim (Option-cases (check_entry d k.queue)) [
      | inl h ↦ rw (h, send_loop) i
      | inr (e, h) ↦
          rw (h, send_loop)
            (send_loop-keep n _ _ (send_entry-keep d e (without d k) (taking e k h i)))
    ]

    pub set_verdict-keep : (v : Verdict) (k : Kernel) → P k → P (kaodv_queue_set_verdict v d k).1
    unfolding kaodv_queue_set_verdict
    set_verdict-keep kaodv_queue_drop k i = drop_loop-keep (length k.queue) 0 k i
    set_verdict-keep kaodv_queue_send k i = send_loop-keep (length k.queue) 0 k i
