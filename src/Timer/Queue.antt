-- ===== src/Timer/Queue.antt =====
-- The invariant of the timers, and that every operation keeps it.
use aodv.Base.{
  ℕ, ◌+◌, ◌*◌, ◌≡◌, ◌/◌, ◌%◌, refl, ◌∙◌, true, false, ◌||◌, List, [], ◌∷◌, All, arith, ℤ, pos,
  negsuc, if◌then◌else◌, Bool-cases, inl, inr,
}
use aodv.Timer.Defs.{
  TimerRef, Timer, Timers, Timeval, us, is_timer, is_null, insert_timer, unlink, linked,
  timer_remove, timer_add, timer_set_timeout, put_timer, update_timer,
}
use aodv.Timer.Order.{
  InOrder, Distinct, insert_timer-InOrder, InOrder-ext, unlink-InOrder, linked-unlink,
  unlink-Distinct, not_linked, linked-insert_timer, insert_timer-Distinct,
}

-- The queue is in order, no timer is linked twice, and `used` says that a timer is linked.
pub record IsQueue (s : Timers) : Type 0 where
  pub ordered : InOrder s.timers s.tq
  pub distinct : Distinct s.tq
  pub distinct_expired : Distinct s.exptq
  pub marks : (r : TimerRef) → (linked r s.tq || linked r s.exptq) ≡ (s.timers r).used

linked-unlink_other :
    (r q : TimerRef) (l : List TimerRef) → is_timer r q ≡ false → linked q (unlink r l) ≡ linked q l
unfolding unlink linked
linked-unlink_other r q [] h = refl
linked-unlink_other r q (p ∷ l) h = ground (arith, linked-unlink_other r q l h)

-- A write to a timer that is not in the list leaves the order of the list.
put-InOrder :
    (f : TimerRef → Timer) (r : TimerRef) (t : Timer) (l : List TimerRef)
    → linked r l ≡ false
    → InOrder f l
    → InOrder (update_timer f r t) l
put-InOrder f r t l n h = InOrder-ext f (update_timer f r t) l (same l (not_linked r l n)) h
  where
    same :
        (l : List TimerRef)
        → All (λ q. is_timer r q ≡ false) l
        → All (λ q. (f q).timeout ≡ (update_timer f r t q).timeout) l
    same [] a = tt
    same (q ∷ l) a = (rw a.0, same l a.1)

-- A write that keeps a timer's time leaves the order of every list.
put_same-InOrder :
    (f : TimerRef → Timer) (r : TimerRef) (t : Timer) (l : List TimerRef)
    → t.timeout ≡ (f r).timeout
    → InOrder f l
    → InOrder (update_timer f r t) l
put_same-InOrder f r t l e h = InOrder-ext f (update_timer f r t) l (same l) h
  where
    same : (l : List TimerRef) → All (λ q. (f q).timeout ≡ (update_timer f r t q).timeout) l
    same [] = tt
    same (q ∷ l) = (ground arith, same l)

-- From timers in order, timer_remove leaves timers in order: the queue sorted to the millisecond, no
-- timer linked twice, and `used` set for exactly those that are linked.
pub timer_remove-IsQueue : (r : TimerRef) (s : Timers) → IsQueue s → IsQueue (timer_remove r s).1
unfolding timer_remove
timer_remove-IsQueue r s v = record {
  ordered =
      put_same-InOrder s.timers r (record (s.timers r) { used = false }) (unlink r s.tq) refl
        (unlink-InOrder s.timers r s.tq v.ordered);
  distinct = unlink-Distinct r s.tq v.distinct;
  distinct_expired = unlink-Distinct r s.exptq v.distinct_expired;
  marks = λ q. ground (
    arith,
    v.marks q,
    linked-unlink r s.tq v.distinct,
    linked-unlink r s.exptq v.distinct_expired,
    linked-unlink_other r q s.tq,
    linked-unlink_other r q s.exptq,
  );
}

put-IsQueue :
    (r : TimerRef) (t : Timer) (s : Timers)
    → linked r s.tq ≡ false
    → t.used ≡ (s.timers r).used
    → IsQueue s
    → IsQueue (put_timer r t s)
put-IsQueue r t s n e v = record {
  ordered = put-InOrder s.timers r t s.tq n v.ordered;
  distinct = v.distinct;
  distinct_expired = v.distinct_expired;
  marks = λ q. ground (arith, v.marks q, e);
}

-- A timer that is not used is not in the queue.
unused : (r : TimerRef) (s : Timers) → (s.timers r).used ≡ false → IsQueue s → linked r s.tq ≡ false
unused r s u v = ground (arith, v.marks r)

is_timer-sym : (r q : TimerRef) → is_timer r q ≡ is_timer q r
is_timer-sym r q = ground arith

pub timer_add-IsQueue : (r : TimerRef) (s : Timers) → IsQueue s → IsQueue (timer_add r s)
unfolding timer_add
timer_add-IsQueue r s v = elim (Bool-cases (is_null (s.timers r).handler)) [
  | inl e ↦ rw (e, timer_add) v
  | inr e ↦ elim (Bool-cases (s.timers r).used) [
    | inl u ↦ rw (e, u, timer_add) v
    | inr u ↦ rw (e, u, timer_add) (added u)
  ]
]
  where
    on : Timer
    on = record (s.timers r) { used = true }

    added :
        (s.timers r).used ≡ false
        → IsQueue (record s {
          timers = update_timer s.timers r on;
          tq = insert_timer (update_timer s.timers r on) r s.tq;
        })
    added u = record {
      ordered =
          insert_timer-InOrder (update_timer s.timers r on) r s.tq
            (put_same-InOrder s.timers r on s.tq refl v.ordered);
      distinct =
          insert_timer-Distinct (update_timer s.timers r on) r s.tq (unused r s u v) v.distinct;
      distinct_expired = v.distinct_expired;
      marks = λ q. ground (
        arith,
        v.marks q,
        linked-insert_timer (update_timer s.timers r on) r q s.tq,
        is_timer-sym r q,
      );
    }

-- `timer_set_timeout` first takes the timer off, if it is used.
abbrev taken_off : TimerRef → Timers → Timers
taken_off r s = if (s.timers r).used then (timer_remove r s).1 else s

taken_off-IsQueue : (r : TimerRef) (s : Timers) → IsQueue s → IsQueue (taken_off r s)
taken_off-IsQueue r s v = ground (arith, v, timer_remove-IsQueue r s v)

taken_off-used : (r : TimerRef) (s : Timers) → ((taken_off r s).timers r).used ≡ false
unfolding timer_remove
taken_off-used r s = ground arith

taken_off-put :
    (r : TimerRef) (t : Timer) (s : Timers)
    → t.used ≡ ((taken_off r s).timers r).used
    → IsQueue s
    → IsQueue (put_timer r t (taken_off r s))
taken_off-put r t s e v =
    let w : IsQueue (taken_off r s) = taken_off-IsQueue r s v in
    put-IsQueue r t (taken_off r s) (unused r (taken_off r s) (taken_off-used r s) w) e w

-- From timers in order, timer_set_timeout leaves timers in order, for any number of milliseconds,
-- negative ones too: the queue sorted to the millisecond, no timer linked twice, and `used` set for
-- exactly those that are linked.
pub timer_set_timeout-IsQueue :
    (r : TimerRef) (msec : ℤ) (now : Timeval) (s : Timers)
    → IsQueue s
    → IsQueue (timer_set_timeout r msec now s)
unfolding timer_set_timeout
timer_set_timeout-IsQueue r (negsuc m) now s v = taken_off-put r _ s refl v
timer_set_timeout-IsQueue r (pos m) now s v = timer_add-IsQueue r _ (taken_off-put r _ s refl v)

module _ (r : TimerRef) (s : Timers) where
  timer_add-linked :
      is_null (s.timers r).handler ≡ false
      → (s.timers r).used ≡ false
      → linked r (timer_add r s).tq ≡ true
  unfolding timer_add
  timer_add-linked h u = ground (arith, linked-insert_timer (timer_add r s).timers r r s.tq)

  timer_add-used : is_null (s.timers r).handler ≡ false → ((timer_add r s).timers r).used ≡ true
  unfolding timer_add
  timer_add-used h = ground arith

  timer_add-timeout : ((timer_add r s).timers r).timeout ≡ (s.timers r).timeout
  unfolding timer_add
  timer_add-timeout = ground arith

  timer_add-other : (q : TimerRef) → is_timer r q ≡ false → (timer_add r s).timers q ≡ s.timers q
  unfolding timer_add
  timer_add-other q ne = ground arith

  taken_off-handler : ((taken_off r s).timers r).handler ≡ (s.timers r).handler
  unfolding timer_remove
  taken_off-handler = ground arith

  taken_off-other : (q : TimerRef) → is_timer r q ≡ false → (taken_off r s).timers q ≡ s.timers q
  unfolding timer_remove
  taken_off-other q ne = ground arith

put_same : (r : TimerRef) (t : Timer) (s : Timers) → (put_timer r t s).timers r ≡ t
put_same r t s = ground arith

-- The timer is in the queue, used, due `msec` milliseconds after `now`, and the timer `q` is as before.
abbrev pub IsSetFor : TimerRef → ℕ → Timeval → Timers → TimerRef → Timers → Type 0
IsSetFor r msec now s q s' =
    (linked r s'.tq ≡ true)
    × ((s'.timers r).used ≡ true)
    × (us (s'.timers r).timeout ≡ us now + 1000 * msec)
    × (s'.timers q ≡ s.timers q)

-- For timers in order and a timer that has a handler, timer_set_timeout puts the timer in the queue, due
-- `msec` milliseconds after the time that it reads, and leaves any other timer `q` as it was.
pub timer_set_timeout-linked :
    (r : TimerRef) (msec : ℕ) (now : Timeval) (s : Timers) (q : TimerRef)
    → is_null (s.timers r).handler ≡ false
    → IsQueue s
    → is_timer r q ≡ false
    → IsSetFor r msec now s q (timer_set_timeout r (pos msec) now s)
unfolding timer_set_timeout timer_add timer_remove
timer_set_timeout-linked r msec now s q h v ne = (
  timer_add-linked r s2 (ground (arith, taken_off-handler r s))
      (ground (arith, taken_off-used r s)),
  timer_add-used r s2 (ground (arith, taken_off-handler r s)),
  ground (arith, timer_add-timeout r s2),
  timer_add-other r s2 q ne ∙ ground (arith, taken_off-other r s q ne),
)
  where
    usec : ℕ
    usec = now.tv_usec + msec * 1000

    t : Timer
    t = record ((taken_off r s).timers r) {
      timeout = record { tv_sec = now.tv_sec + usec / 1000000; tv_usec = usec % 1000000 };
    }

    s2 : Timers
    s2 = put_timer r t (taken_off r s)
