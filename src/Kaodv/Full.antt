-- ===== src/Kaodv/Full.antt =====
-- `expl_len` counts routes that were refused: what becomes of a list that it calls full.
use aodv.Base.{
  ℕ, suc, ◌+◌, ◌≤◌, ◌<◌, ◌≡◌, refl, true, none, is_some, List, [], ◌∷◌, length, ltb, if-keep, subst,
  sym, arith, Option-cases, Bool-cases, inl, inr, ℤ,
}
use aodv.Kaodv.Defs.{ExplFlags, ExplEntry, Kernel, kmalloc}
use aodv.Kaodv.Expl.{
  expl_max_len, check_expl, unlink_expl, link_expl, add_expl, kaodv_expl_get, kaodv_expl_add,
  kaodv_expl_update, kaodv_expl_del,
}
use aodv.Kaodv.Queue.{kaodv_queue_send, kaodv_queue_drop}
use aodv.Kaodv.Peer.{
  PeerMsg, addroute, delroute, noroute_found, config, unknown, add_route,
  kaodv_netlink_receive_peer,
}
use aodv.Kaodv.RouteMap.{Core, core, verdict-core, length-unlink, receive_all}

unlink_none :
    (x d : ℕ) (l : List ExplEntry) → check_expl x l ≡ none → check_expl x (unlink_expl d l) ≡ none
unfolding check_expl unlink_expl
unlink_none x d [] h = refl
unlink_none x d (e ∷ l) h = ground (arith, h, unlink_none x d l)

-- A count that is 1025 above the routes that there are, and stays below 2^32 for `n` more.
abbrev pub IsStuck : ℕ → ℕ → List ExplEntry → Type 0
IsStuck n count l = (length l + 1025 ≤ count) × (count + n < 4294967296)

module _ (n : ℕ) (k : Kernel) (x : IsStuck (suc n) k.expl_len k.expl) where
  -- No destination gains a route, and the count is stuck for `n` more messages.
  unfoldable NoGain : Core → Type 0
  NoGain c = ((d : ℕ) → check_expl d k.expl ≡ none → check_expl d c.0 ≡ none) × IsStuck n c.1 c.0

  same-NoGain : NoGain (core k)
  unfolding NoGain
  same-NoGain = ((λ d h. h), omega (arith, x))

  full : ltb expl_max_len k.expl_len ≡ true
  full = ground (arith, x)

  add-NoGain : (d h t : ℕ) (fl : ExplFlags) (i : ℕ) → NoGain (core (kaodv_expl_add d h t fl i k).1)
  unfolding NoGain kaodv_expl_add kaodv_expl_get add_expl link_expl kmalloc
  add-NoGain d h t fl i = elim (Option-cases (check_expl d k.expl)) [
    | inr (e, f) ↦ rw f same-NoGain
    | inl f ↦ elim (Bool-cases (k.env.kmalloc k.allocs)) [
      | inr m ↦ rw (f, m) same-NoGain
      | inl m ↦ rw (f, m, full) ((λ x' p. p), omega (arith, x))
    ]
  ]

  update-NoGain :
      (d h t : ℕ) (fl : ExplFlags) (i : ℕ) → NoGain (core (kaodv_expl_update d h t fl i k).1)
  unfolding NoGain kaodv_expl_update link_expl
  update-NoGain d h t fl i = elim (Option-cases (check_expl d k.expl)) [
    | inl f ↦ rw (f, kaodv_expl_update) same-NoGain
    | inr (e, f) ↦
        rw (f, kaodv_expl_update, full)
          ((λ x' p. unlink_none x' d k.expl p), omega (arith, x, length-unlink d e k.expl f))
  ]

  del-NoGain : (d : ℕ) → NoGain (core (kaodv_expl_del d k).1)
  unfolding NoGain kaodv_expl_del
  del-NoGain d = elim (Option-cases (check_expl d k.expl)) [
    | inl f ↦ rw (f, kaodv_expl_del) same-NoGain
    | inr (e, f) ↦
        rw (f, kaodv_expl_del)
          ((λ x' p. unlink_none x' d k.expl p), omega (arith, x, length-unlink d e k.expl f))
  ]

  receive-NoGain : (m : PeerMsg) (len : ℕ) → NoGain (core (kaodv_netlink_receive_peer m len k).1)
  unfolding kaodv_netlink_receive_peer add_route
  receive-NoGain (addroute d h t fl i) len =
      if-keep (λ (r : ℤ × Kernel). NoGain (core r.1)) (ltb len k.env.rt_msg_size) same-NoGain
        (subst NoGain (sym (verdict-core kaodv_queue_send d _)) (
          if-keep (λ (r : ℤ × Kernel). NoGain (core r.1)) (is_some (kaodv_expl_get d k))
            (update-NoGain d h t fl i) (add-NoGain d h t fl i)))
  receive-NoGain (delroute d) len =
      if-keep (λ (r : ℤ × Kernel). NoGain (core r.1)) (ltb len k.env.rt_msg_size) same-NoGain
        (subst NoGain (sym (verdict-core kaodv_queue_drop d _)) (del-NoGain d))
  receive-NoGain (noroute_found d) len =
      if-keep (λ (r : ℤ × Kernel). NoGain (core r.1)) (ltb len k.env.rt_msg_size) same-NoGain
        (subst NoGain (sym (verdict-core kaodv_queue_drop d k)) same-NoGain)
  receive-NoGain (config t) len =
      if-keep (λ (r : ℤ × Kernel). NoGain (core r.1)) (ltb len k.env.conf_msg_size) same-NoGain
        same-NoGain
  receive-NoGain unknown len = same-NoGain

-- Once `expl_len` is 1025 above the number of routes, no messages of the daemon give a route to a
-- destination that has none, whatever routes they delete, as long as the count with one more for each
-- message stays below 2^32.
pub receive_all_stuck :
    (l : List PeerMsg) (len d : ℕ) (k : Kernel)
    → IsStuck (length l) k.expl_len k.expl
    → kaodv_expl_get d k ≡ none
    → kaodv_expl_get d (receive_all l len k) ≡ none
unfolding kaodv_expl_get NoGain
receive_all_stuck [] len d k x h = h
receive_all_stuck (m ∷ l) len d k x h =
    let k' : Kernel = (kaodv_netlink_receive_peer m len k).1 in
    let (g, x') = receive-NoGain (length l) k x m len in receive_all_stuck l len d k' x' (g d h)
