-- ===== src/Trace/Kept/Rounds.antt =====
-- The rounds of the timers, while the timer of a record is not due.
use aodv.Base.{
  ℕ, zero, suc, ◌+◌, ◌≤◌, ◌≡◌, refl, sym, subst, ap, ap₂, ◌∙◌, true, false, ◌&&◌, ◌==◌, Option,
  none, some, List, [], ◌∷◌, arith, Bool-cases, Option-cases, inl, inr, ltb_ℤ, pos,
}
use aodv.Timer.{
  Timeval, us, timeval_diff, TimerRef, Timer, Timers, rec_timer, Handler, is_timer, linked,
  expired_prefix, collect_expired, pop_expired,
}
use aodv.Node.{State, gettimeofday}
use aodv.Protocol.Records.{has_record, remove_record}
use aodv.Protocol.Timeout.{owner, record_id, call_handler, rreq_record_timeout}
use aodv.Protocol.Loop.{
  tick, handle, run_handler, fire_next, fire_all, timer_timeout, timer_age_queue,
}
use aodv.Trace.Step.{is_rec, is_forgetting}
use aodv.Trace.Messages.{call_handler-Steps}
use aodv.Trace.Kept.{IsKept, Steps-IsKept, is_timer-eq}

prefix-unexpired :
    (f : TimerRef → Timer) (now : Timeval) (q : TimerRef) (l : List TimerRef)
    → ltb_ℤ (pos 0) (timeval_diff (f q).timeout now) ≡ true
    → linked q (expired_prefix f now l).0 ≡ false
unfolding linked expired_prefix
prefix-unexpired f now q [] late = refl
prefix-unexpired f now q (r ∷ l) late =
    elim (Bool-cases (ltb_ℤ (pos 0) (timeval_diff (f r).timeout now))) [
      | inl later ↦ rw (later, expired_prefix) refl
      | inr due ↦ elim (Bool-cases (is_timer q r)) [
        | inl y ↦
            let clash : true ≡ false =
              sym late
              ∙ ap (λ x. ltb_ℤ (pos 0) (timeval_diff (f x).timeout now)) (is_timer-eq q r y)
              ∙ due in
            cc
        | inr n ↦ rw (due, n, expired_prefix, linked) (prefix-unexpired f now q l late)
      ]
    ]

remove-others :
    (a i b j : ℕ) (l : List _)
    → (b == a && j == i) ≡ false
    → has_record a i l ≡ true
    → has_record a i (remove_record b j l) ≡ true
unfolding has_record remove_record
remove-others a i b j [] e h = h
remove-others a i b j (r ∷ l) e h = ground (arith, e, h, remove-others a i b j l e)

is_timer_refl : (r : TimerRef) → is_timer r r ≡ true
is_timer_refl r = ground arith

other_owner :
    (r : TimerRef) (a i : ℕ)
    → is_rec r ≡ true
    → is_timer r (rec_timer a i) ≡ false
    → (owner r == a && record_id r == i) ≡ false
other_owner (rec_timer b j) a i y n = elim (Bool-cases (b == a && j == i)) [
  | inl both ↦
      let same : rec_timer b j ≡ rec_timer a i =
        ap₂ rec_timer (ground (arith, both)) (ground (arith, both)) in
      let clash : true ≡ false =
        sym (is_timer_refl (rec_timer b j)) ∙ ap (is_timer (rec_timer b j)) same ∙ n in
      cc
  | inr e ↦ e
]
other_owner _ a i y n = cc

module _ (a i due : ℕ) where
  collects-IsKept :
      (s : State) (now : Timeval)
      → us now + 1000 ≤ due
      → IsKept a i due s
      → IsKept a i due (record s { timer = collect_expired now s.timer })
  unfolding collect_expired
  collects-IsKept s now early k = record {
    recorded = k.recorded;
    until = k.until;
    alone = k.alone;
    unexpired =
        prefix-unexpired s.timer.timers now (rec_timer a i) s.timer.tq
          (ground (arith, early, k.until));
  }

  pops-IsKept :
      (s : State) (r : TimerRef) (t : Timers)
      → pop_expired s.timer ≡ some (r, t)
      → IsKept a i due s
      → IsKept a i due (record s { timer = t }) × (is_timer r (rec_timer a i) ≡ false)
  unfolding pop_expired linked
  pops-IsKept s r t p k = (
    record {
      recorded = k.recorded;
      until = ground (arith, p, k.until);
      alone = λ q f. ground (arith, p, k.alone q, k.alone r, f);
      unexpired = ground (arith, p, k.unexpired);
    },
    ground (arith, p, k.unexpired),
  )

  forgets-IsKept :
      (s : State) (r : TimerRef)
      → (s.timer.timers r).handler ≡ Handler.rreq_record_timeout
      → is_timer r (rec_timer a i) ≡ false
      → IsKept a i due s
      → IsKept a i due (rreq_record_timeout (owner r) (record_id r) s).1
  unfolding rreq_record_timeout
  forgets-IsKept s r f n k = record {
    recorded =
        remove-others a i (owner r) (record_id r) s.rreq_records
          (other_owner r a i (k.alone r (ap is_forgetting f)) n) k.recorded;
    until = k.until;
    alone = k.alone;
    unexpired = k.unexpired;
  }

  forgetting-IsKept :
      (r : TimerRef) (s : State)
      → (s.timer.timers r).handler ≡ Handler.rreq_record_timeout
      → is_timer r (rec_timer a i) ≡ false
      → IsKept a i due s
      → IsKept a i due (call_handler r (s.timer.timers r).handler s).1
  unfolding call_handler
  forgetting-IsKept r s f n k =
      subst (λ g. IsKept a i due (call_handler r g s).1) (sym f) (forgets-IsKept s r f n k)

  -- A timer that expires is another one, and its handler leaves the record.
  run-IsKept :
      (o : Option (TimerRef × Timers)) (s s' : State)
      → pop_expired s.timer ≡ o
      → run_handler o s ≡ some s'
      → IsKept a i due s
      → IsKept a i due s'
  run-IsKept none s s' p e k = cc
  run-IsKept (some (r, t)) s s' p e k =
      let s1 : State = record s { timer = t } in
      let (k1, apart) = pops-IsKept s r t p k in
      let f : Handler = (t.timers r).handler in
      subst (IsKept a i due) (some_inj e) (elim (Bool-cases (is_forgetting f)) [
        | inl y ↦ forgetting-IsKept r s1 (is_it f y) apart k1
        | inr n ↦ Steps-IsKept a i due (call_handler-Steps r f s1 refl n) k1
      ])
    where
      some_inj : {s t : State} → some s ≡ some t → s ≡ t
      some_inj e = cc

      is_it : (f : Handler) → is_forgetting f ≡ true → f ≡ Handler.rreq_record_timeout
      is_it f y = ground (arith, y)

  fire_all-IsKept : (n : ℕ) (s : State) → IsKept a i due s → IsKept a i due (fire_all n s).1
  unfolding fire_all
  fire_all-IsKept zero s k = k
  fire_all-IsKept (suc n) s k = elim (Option-cases (fire_next s)) [
    | inl e ↦ rw (e, fire_all) k
    | inr (s', e) ↦
        rw (e, fire_all)
          (fire_all-IsKept n s'
            (run-IsKept (pop_expired s.timer) s s' refl (unfold fire_next in e) k))
  ]

  pub tick-IsKept :
      (s : State)
      → us (s.env.clock s.reads) + 1000 ≤ due
      → IsKept a i due s
      → IsKept a i due (handle tick s)
  unfolding handle timer_age_queue timer_timeout gettimeofday
  tick-IsKept s early k =
      let s1 : State = record s { reads = s.reads + 1 } in
      let k1 : IsKept a i due s1 = record {
        recorded = k.recorded;
        until = k.until;
        alone = k.alone;
        unexpired = k.unexpired;
      } in
      fire_all-IsKept _ _ (collects-IsKept s1 (s.env.clock s.reads) early k1)
