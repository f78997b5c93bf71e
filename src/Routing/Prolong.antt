-- ===== src/Routing/Prolong.antt =====
-- rt_table_update_timeout never brings a route's end forward.
use aodv.Base.{ℕ, ◌+◌, ◌*◌, ◌≤◌, ◌≡◌, arith, pos}
use aodv.Timer.{Timeval, Timers, TimerRef, us, rt_timer, timer_set_timeout, timer_add, timer_remove}
use aodv.Node.{State, gettimeofday}
use aodv.Routing.Route.{rt_table_update_timeout}

set_timeout-us :
    (r : TimerRef) (m : ℕ) (now : Timeval) (s : Timers)
    → us ((timer_set_timeout r (pos m) now s).timers r).timeout ≡ us now + 1000 * m
unfolding timer_set_timeout timer_add timer_remove
set_timeout-us r m now s = ground arith

-- With a clock that does not run backwards between two readings, rt_table_update_timeout leaves the
-- time at which the route's timer is due, or puts it off; it never brings it forward.
pub rt_table_update_timeout-later :
    (rt life : ℕ) (s : State)
    → us (s.env.clock s.reads) ≤ us (s.env.clock (s.reads + 1))
    → us (s.timer.timers (rt_timer rt)).timeout
      ≤ us ((rt_table_update_timeout rt life s).1.timer.timers (rt_timer rt)).timeout
unfolding rt_table_update_timeout gettimeofday
rt_table_update_timeout-later rt life s mono =
    ground (arith, mono, set_timeout-us (rt_timer rt) life (s.env.clock (s.reads + 1)) s.timer)
