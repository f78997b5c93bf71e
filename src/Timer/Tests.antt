-- ===== src/Timer/Tests.antt =====
-- The theorems about the timers, at a queue of two timers.
use aodv.Base.{ℕ, ◌+◌, ◌<◌, ◌≡◌, refl, false, [], ◌∷◌, ◌++◌, All, arith, pos}
use aodv.Timer.Defs.{
  Timeval, Timers, us, rt_timer, own_hello_timer, is_timer, hello_send, timer_set_timeout,
  collect_expired, linked, zero_time,
}
use aodv.Timer.Queue.{IsQueue, timer_set_timeout-IsQueue}
use aodv.Timer.Expiry.{collect_expired-Splits}

abbrev at : ℕ → ℕ → Timeval
at sec usec = record { tv_sec = sec; tv_usec = usec }

abbrev idle : Timers
idle = record {
  timers = λ r. record { used = false; timeout = zero_time; handler = hello_send };
  tq = [];
  exptq = [];
}

idle-IsQueue : IsQueue idle
unfolding linked
idle-IsQueue = record { ordered = tt; distinct = tt; distinct_expired = tt; marks = λ r. refl }

-- Two timers, set at second 100.
abbrev two : Timers
two =
    timer_set_timeout (rt_timer 5) (pos 3000) (at 100 0)
      (timer_set_timeout own_hello_timer (pos 1000) (at 100 0) idle)

two-IsQueue : IsQueue two
two-IsQueue =
    timer_set_timeout-IsQueue (rt_timer 5) (pos 3000) (at 100 0) _
      (timer_set_timeout-IsQueue own_hello_timer (pos 1000) (at 100 0) idle idle-IsQueue)

timer_set_timeout-IsQueue_example :
    IsQueue (timer_set_timeout (rt_timer 5) (pos 500) (at 100 0) two)
timer_set_timeout-IsQueue_example =
    timer_set_timeout-IsQueue (rt_timer 5) (pos 500) (at 100 0) two two-IsQueue

-- A queue of one timer.
abbrev armed : Timers
armed = record {
  timers = λ r. record {
    used = is_timer r own_hello_timer;
    timeout = at 103 250000;
    handler = hello_send;
  };
  tq = own_hello_timer ∷ [];
  exptq = [];
}

armed-IsQueue : IsQueue armed
unfolding linked
armed-IsQueue = record {
  ordered = (tt, tt);
  distinct = (refl, tt);
  distinct_expired = tt;
  marks = λ r. ground arith;
}

collect_expired-Splits_example :
    let s' = collect_expired (at 101 0) two in
    (s'.exptq ++ s'.tq ≡ two.tq)
    × All (λ r. us (two.timers r).timeout < us (at 101 0) + 1000) s'.exptq
    × All (λ r. us (at 101 0) < us (two.timers r).timeout) s'.tq
collect_expired-Splits_example = collect_expired-Splits (at 101 0) two two-IsQueue.ordered
