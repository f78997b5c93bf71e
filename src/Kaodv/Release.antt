-- ===== src/Kaodv/Release.antt =====
-- What a verdict on a destination does to the queue, against the packets that wait for it as a list.
use aodv.Base.{
  ℕ, zero, suc, ◌+◌, ◌≤◌, ◌<◌, ◌≡◌, refl, ◌∙◌, ap, false, some, List, [], ◌∷◌, length, arith, ◌==◌,
  Option-cases, inl, inr,
}
use aodv.Kaodv.Defs.{QueueEntry, Kernel, freed, icmp_unreachable}
use aodv.Kaodv.Queue.{
  check_entry, unlink_queued, drop_entry, drop_loop, send_entry, send_loop, without, Verdict,
  kaodv_queue_drop, kaodv_queue_send, kaodv_queue_set_verdict,
}
use aodv.Kaodv.Waiting.{
  waiting_for, others, freed_all, dropped, send_each, released, holding, check-none, check-some,
  send_entry-holding,
}

without-holding :
    (d : ℕ) (e : QueueEntry) (q : List QueueEntry) (k : Kernel)
    → length q < 4294967296
    → check_entry d q ≡ some e
    → without d (holding q k) ≡ holding (unlink_queued d q) k
without-holding d e q k b h =
    ap (λ (n : ℕ). record k { queue = unlink_queued d q; queue_total = n })
      (omega (arith, b, (check-some d e q h).2))

-- The rounds after the first of KAODV_QUEUE_DROP.
drop_loop-holding :
    (n d p : ℕ) (q : List QueueEntry) (k : Kernel)
    → (p == 0) ≡ false
    → length q < 4294967296
    → length q ≤ n
    → drop_loop n d p (holding q k) ≡ (
      p + length (waiting_for d q),
      holding (others d q) (record k { fates = freed_all (waiting_for d q) k.fates }),
    )
unfolding drop_loop
drop_loop-holding zero d p [] k z b f = ap (λ (m : ℕ). (m, holding [] k)) (omega arith)
drop_loop-holding zero d p (e ∷ q) k z b f = absurd (omega (arith, f))
drop_loop-holding (suc n) d p q k z b f = elim (Option-cases (check_entry d q)) [
  | inl h ↦
      rw (h, drop_loop, (check-none d q h).0, (check-none d q h).1)
        (ap (λ (m : ℕ). (m, holding q k)) (omega arith))
  | inr (e, h) ↦
      let (w, o, l) = check-some d e q h in
      let k' : Kernel = record k { fates = freed e.skb ∷ k.fates } in
      let q' : List QueueEntry = unlink_queued d q in
      rw (h, drop_loop, without-holding d e q k b h, w, o, z)
        (drop_loop-holding n d (p + 1) q' k' (ground arith) (omega (arith, b, l))
            (omega (arith, f, l))
          ∙ ap
              (λ (m : ℕ). (
                m,
                holding (others d q') (record k' { fates = freed_all (waiting_for d q') k'.fates }),
              ))
              (omega arith))
]

-- All rounds of KAODV_QUEUE_SEND.
send_loop-holding :
    (n d p : ℕ) (q : List QueueEntry) (k : Kernel)
    → length q < 4294967296
    → length q ≤ n
    → send_loop n d p (holding q k)
      ≡ let (m, k') = send_each d (waiting_for d q) p k in (m, holding (others d q) k')
unfolding send_loop
send_loop-holding zero d p [] k b f = refl
send_loop-holding zero d p (e ∷ q) k b f = absurd (omega (arith, f))
send_loop-holding (suc n) d p q k b f = elim (Option-cases (check_entry d q)) [
  | inl h ↦ rw (h, send_loop, (check-none d q h).0, (check-none d q h).1) refl
  | inr (e, h) ↦
      let (w, o, l) = check-some d e q h in
      let (m, k') = send_entry d e k in
      rw
        (
          h,
          send_loop,
          without-holding d e q k b h,
          w,
          o,
          send_entry-holding d e (unlink_queued d q) k,
        )
        (send_loop-holding n d (p + m) (unlink_queued d q) k' (omega (arith, b, l))
          (omega (arith, f, l)))
]

drop_all-holding :
    (n d : ℕ) (q : List QueueEntry) (k : Kernel)
    → length q < 4294967296
    → length q ≤ n
    → drop_loop n d 0 (holding q k) ≡ (
      length (waiting_for d q),
      holding (others d q) (record k { fates = dropped (waiting_for d q) k.fates }),
    )
unfolding drop_loop
drop_all-holding zero d [] k b f = refl
drop_all-holding zero d (e ∷ q) k b f = absurd (omega (arith, f))
drop_all-holding (suc n) d q k b f = elim (Option-cases (check_entry d q)) [
  | inl h ↦ rw (h, drop_loop, (check-none d q h).0, (check-none d q h).1) refl
  | inr (e, h) ↦
      let (w, o, l) = check-some d e q h in
      let k' : Kernel = record k { fates = freed e.skb ∷ icmp_unreachable e.skb ∷ k.fates } in
      let q' : List QueueEntry = unlink_queued d q in
      rw (h, drop_loop, w, o)
        (ap (λ (x : Kernel). drop_loop n d 1 (drop_entry 0 e x)) (without-holding d e q k b h)
          ∙ drop_loop-holding n d 1 q' k' refl (omega (arith, b, l)) (omega (arith, f, l))
          ∙ ap
              (λ (m : ℕ). (
                m,
                holding (others d q') (record k' { fates = freed_all (waiting_for d q') k'.fates }),
              ))
              (omega arith))
]

counted : (k : Kernel) → k.queue_total ≡ length k.queue → k ≡ holding k.queue k
counted k t = ap (λ (n : ℕ). record k { queue_total = n }) t

-- A verdict on a destination takes exactly its packets out of the queue and keeps the others in their
-- order and their number in `queue_total`; those for the destination are released one after the other
-- in the order of their arrival: KAODV_QUEUE_DROP tells the sender of the first and frees each, and
-- KAODV_QUEUE_SEND sends each as its route says. The length of the queue is enough rounds. It is so
-- when `queue_total` is the length of the queue and below 2^32.
pub set_verdict-released :
    (v : Verdict) (d : ℕ) (k : Kernel)
    → k.queue_total ≡ length k.queue
    → length k.queue < 4294967296
    → kaodv_queue_set_verdict v d k
      ≡ let (n, k') = released v d (waiting_for d k.queue) k in (n, holding (others d k.queue) k')
unfolding kaodv_queue_set_verdict
set_verdict-released kaodv_queue_drop d k t b =
    ap (drop_loop (length k.queue) d 0) (counted k t)
    ∙ drop_all-holding (length k.queue) d k.queue k b (omega arith)
set_verdict-released kaodv_queue_send d k t b =
    ap (send_loop (length k.queue) d 0) (counted k t)
    ∙ send_loop-holding (length k.queue) d 0 k.queue k b (omega arith)
