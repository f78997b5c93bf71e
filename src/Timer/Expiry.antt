-- ===== src/Timer/Expiry.antt =====
-- Which timers `timer_timeout` takes off the queue.
use aodv.Base.{
  ◌+◌, ◌<◌, ◌≤◌, ◌≡◌, refl, ap, true, false, List, [], ◌∷◌, ◌++◌, All, arith, ltb_ℤ, pos, inl, inr,
  Bool-cases,
}
use aodv.Timer.Defs.{
  TimerRef, Timer, Timers, Timeval, us, timeval_diff, expired_prefix, collect_expired,
}
use aodv.Timer.Order.{InOrder}

diff_pos : (a b : Timeval) → ltb_ℤ (pos 0) (timeval_diff a b) ≡ true → us b + 1000 ≤ us a
diff_pos a b h = ground arith

diff_nonpos : (a b : Timeval) → ltb_ℤ (pos 0) (timeval_diff a b) ≡ false → us a < us b + 1000
diff_nonpos a b h = ground arith

module _ (f : TimerRef → Timer) (now : Timeval) where
  -- Due by `now`, or less than 1 ms after it.
  abbrev IsDue : TimerRef → Type 0
  IsDue r = us (f r).timeout < us now + 1000

  abbrev IsLater : TimerRef → Type 0
  IsLater r = us now < us (f r).timeout

  -- A queue splits into what is due and what is later.
  abbrev Splits : List TimerRef → List TimerRef × List TimerRef → Type 0
  Splits l (due, rest) = (due ++ rest ≡ l) × All IsDue due × All IsLater rest

  -- All that stands behind a timer that is due 1 ms after `now` is due after `now`.
  behind :
      (r : TimerRef) (l : List TimerRef)
      → us now + 1000 ≤ us (f r).timeout
      → All (λ q. us (f r).timeout < us (f q).timeout + 1000) l
      → All IsLater l
  behind r [] h a = tt
  behind r (q ∷ l) h a = (omega (arith, a.0), behind r l h a.1)

  expired_prefix-Splits : (l : List TimerRef) → InOrder f l → Splits l (expired_prefix f now l)
  unfolding expired_prefix
  expired_prefix-Splits [] h = (refl, tt, tt)
  expired_prefix-Splits (r ∷ l) h =
      elim (Bool-cases (ltb_ℤ (pos 0) (timeval_diff (f r).timeout now))) [
        | inl e ↦
            let late : us now + 1000 ≤ us (f r).timeout = diff_pos (f r).timeout now e in
            rw (e, expired_prefix) (refl, tt, (omega (arith, late), behind r l late h.0))
        | inr e ↦
            let (whole, due, later) = expired_prefix-Splits l h.1 in
            rw (e, expired_prefix) (ap (◌∷◌ r) whole, (diff_nonpos (f r).timeout now e, due), later)
      ]

-- What timer_timeout takes off an ordered queue is its front, each timer of which is due by `now` or
-- within the next millisecond; every timer that it leaves in the queue is due after `now`.
pub collect_expired-Splits :
    (now : Timeval) (s : Timers)
    → InOrder s.timers s.tq
    → let s' = collect_expired now s in
      (s'.exptq ++ s'.tq ≡ s.tq)
      × All (λ r. us (s.timers r).timeout < us now + 1000) s'.exptq
      × All (λ r. us now < us (s.timers r).timeout) s'.tq
unfolding collect_expired
collect_expired-Splits now s h = expired_prefix-Splits s.timers now s.tq h
