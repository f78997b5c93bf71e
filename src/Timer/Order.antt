-- ===== src/Timer/Order.antt =====
-- The order of the queue: a timer may stand behind one that is due later, but by less than 1 ms.
use aodv.Base.{
  ℕ, ◌+◌, ◌<◌, ◌≤◌, ◌≡◌, refl, true, false, List, [], ◌∷◌, All, arith, ltb_ℤ, pos, inl, inr,
  Bool-cases, if◌then◌else◌,
}
use aodv.Timer.Defs.{
  TimerRef, Timer, Timeval, us, timeval_diff, is_timer, insert_timer, unlink, linked,
}

-- Each timer is due less than 1 ms after every timer behind it.
abbrev pub InOrder : (TimerRef → Timer) → List TimerRef → Type 0
InOrder f [] = Unit
InOrder f (r ∷ l) = All (λ q. us (f r).timeout < us (f q).timeout + 1000) l × InOrder f l

-- No timer is linked twice.
abbrev pub Distinct : List TimerRef → Type 0
Distinct [] = Unit
Distinct (r ∷ l) = (linked r l ≡ false) × Distinct l

pub diff_neg : (a b : Timeval) → ltb_ℤ (timeval_diff a b) (pos 0) ≡ true → us a + 1000 ≤ us b
diff_neg a b h = ground arith

pub diff_nonneg : (a b : Timeval) → ltb_ℤ (timeval_diff a b) (pos 0) ≡ false → us b < us a + 1000
diff_nonneg a b h = ground arith

module _ (f : TimerRef → Timer) where
  abbrev Before : ℕ → TimerRef → Type 0
  Before n q = n < us (f q).timeout + 1000

  Before-insert :
      (n : ℕ) (r : TimerRef) (l : List TimerRef)
      → Before n r
      → All (Before n) l
      → All (Before n) (insert_timer f r l)
  unfolding insert_timer
  Before-insert n r [] h a = (h, tt)
  Before-insert n r (q ∷ l) h a =
      elim (Bool-cases (ltb_ℤ (timeval_diff (f r).timeout (f q).timeout) (pos 0))) [
        | inl e ↦ rw (e, insert_timer) (h, a)
        | inr e ↦ rw (e, insert_timer) (a.0, Before-insert n r l h a.1)
      ]

  -- What stands behind a timer that is due 1 ms later than `r` is due after `r`.
  Before-front :
      (r q : TimerRef) (l : List TimerRef)
      → us (f r).timeout + 1000 ≤ us (f q).timeout
      → All (Before (us (f q).timeout)) l
      → All (Before (us (f r).timeout)) l
  Before-front r q [] h a = tt
  Before-front r q (p ∷ l) h a = (omega (arith, a.0), Before-front r q l h a.1)

  -- The place that `timer_add` chooses keeps the order.
  pub insert_timer-InOrder :
      (r : TimerRef) (l : List TimerRef) → InOrder f l → InOrder f (insert_timer f r l)
  unfolding insert_timer
  insert_timer-InOrder r [] h = (tt, tt)
  insert_timer-InOrder r (q ∷ l) h =
      elim (Bool-cases (ltb_ℤ (timeval_diff (f r).timeout (f q).timeout) (pos 0))) [
        | inl e ↦
            rw (e, insert_timer)
              (
                (
                  omega (arith, diff_neg (f r).timeout (f q).timeout e),
                  Before-front r q l (diff_neg (f r).timeout (f q).timeout e) h.0,
                ),
                h,
              )
        | inr e ↦
            rw (e, insert_timer)
              (
                Before-insert (us (f q).timeout) r l (diff_nonneg (f r).timeout (f q).timeout e)
                    h.0,
                insert_timer-InOrder r l h.1,
              )
      ]

-- The order depends on the times alone.
module _ (f g : TimerRef → Timer) where
  Before-ext :
      (n : ℕ) (l : List TimerRef)
      → All (λ q. (f q).timeout ≡ (g q).timeout) l
      → All (Before f n) l
      → All (Before g n) l
  Before-ext n [] e a = tt
  Before-ext n (q ∷ l) e a = (rw (← e.0) a.0, Before-ext n l e.1 a.1)

  pub InOrder-ext :
      (l : List TimerRef) → All (λ q. (f q).timeout ≡ (g q).timeout) l → InOrder f l → InOrder g l
  InOrder-ext [] e h = tt
  InOrder-ext (q ∷ l) e h = (rw (← e.0) (Before-ext _ l e.1 h.0), InOrder-ext l e.1 h.1)

module _ (P : TimerRef → Type 0) where
  pub All-unlink : (r : TimerRef) (l : List TimerRef) → All P l → All P (unlink r l)
  unfolding unlink
  All-unlink r [] a = tt
  All-unlink r (q ∷ l) a = ground (arith, All-unlink r l a.1)

pub unlink-InOrder :
    (f : TimerRef → Timer) (r : TimerRef) (l : List TimerRef) → InOrder f l → InOrder f (unlink r l)
unfolding unlink
unlink-InOrder f r [] h = tt
unlink-InOrder f r (q ∷ l) h =
    ground (arith, unlink-InOrder f r l h.1, All-unlink (Before f (us (f q).timeout)) r l h.0)

pub linked-unlink : (r : TimerRef) (l : List TimerRef) → Distinct l → linked r (unlink r l) ≡ false
unfolding unlink linked
linked-unlink r [] h = refl
linked-unlink r (q ∷ l) h = ground (arith, linked-unlink r l h.1)

pub linked-unlink_ne :
    (r q : TimerRef) (l : List TimerRef) → linked q l ≡ false → linked q (unlink r l) ≡ false
unfolding unlink linked
linked-unlink_ne r q [] h = refl
linked-unlink_ne r q (p ∷ l) h = ground (arith, linked-unlink_ne r q l)

pub unlink-Distinct : (r : TimerRef) (l : List TimerRef) → Distinct l → Distinct (unlink r l)
unfolding unlink
unlink-Distinct r [] h = tt
unlink-Distinct r (q ∷ l) h = ground (arith, unlink-Distinct r l h.1, linked-unlink_ne r q l)

-- A timer that is not linked is none of those in the list.
pub not_linked :
    (r : TimerRef) (l : List TimerRef) → linked r l ≡ false → All (λ q. is_timer r q ≡ false) l
unfolding linked
not_linked r [] h = tt
not_linked r (q ∷ l) h = ground (arith, not_linked r l)

pub linked-insert_timer :
    (f : TimerRef → Timer) (r q : TimerRef) (l : List TimerRef)
    → linked q (insert_timer f r l) ≡ (if is_timer q r then true else linked q l)
unfolding linked insert_timer
linked-insert_timer f r q [] = refl
linked-insert_timer f r q (p ∷ l) = ground (arith, linked-insert_timer f r q l)

pub insert_timer-Distinct :
    (f : TimerRef → Timer) (r : TimerRef) (l : List TimerRef)
    → linked r l ≡ false
    → Distinct l
    → Distinct (insert_timer f r l)
unfolding insert_timer linked
insert_timer-Distinct f r [] n h = (refl, tt)
insert_timer-Distinct f r (p ∷ l) n h =
    ground (arith, insert_timer-Distinct f r l, linked-insert_timer f r p l)
