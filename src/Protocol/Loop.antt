-- ===== src/Protocol/Loop.antt =====
-- timer_queue.c: timer_timeout and timer_age_queue, which call the handlers; and the events of the
-- main loop (main.c).
use aodv.Base.{ℕ, zero, suc, Option, none, some, List, [], ◌∷◌, ℤ, length}
use aodv.Timer.{Timeval, TimerRef, Timers, collect_expired, pop_expired, timer_age_remaining}
use aodv.Node.{State, ⊤, M, get, gets, ◌>>=◌, ◌>>◌, gettimeofday, on_timers}
use aodv.Protocol.Timeout.{call_handler}
use aodv.Protocol.Receive.{Datagram, aodv_socket_read}
use aodv.Protocol.Kernel.{KernelMsg, nl_kaodv_callback}

abbrev pub run_handler : Option (TimerRef × Timers) → State → Option State
run_handler none s = none
run_handler (some (r, t)) s = some (call_handler r (t.timers r).handler (record s { timer = t })).1

-- One round of the loop `while(!list_is_empty(&exptq))`; `none` where the list is empty.
unfoldable pub fire_next : State → Option State
unfolding pop_expired call_handler
fire_next s = run_handler (pop_expired s.timer) s

-- The loop with fuel.
unfoldable pub fire_all : ℕ → M ⊤
unfolding fire_next
fire_all zero s = (tt, s)
fire_all (suc fuel) s = elim (fire_next s) [ none ↦ (tt, s) | some s' ↦ fire_all fuel s' ]

-- No handler puts a timer on `exptq`, so its length is fuel enough.
unfoldable pub timer_timeout : Timeval → M ⊤
unfolding collect_expired fire_all
timer_timeout now = do on_timers (collect_expired now); s ← get; fire_all (length s.timer.exptq)

-- `none` is the NULL that makes select wait for ever.
unfoldable pub timer_age_queue : M (Option (ℤ × ℕ))
unfolding gettimeofday timer_timeout timer_age_remaining
timer_age_queue = do
  now ← gettimeofday
  timer_timeout now
  gets λ s. timer_age_remaining now s.timer

-- What the main loop reacts to: a round of the timers, a datagram, a message of the kernel.
pub data Event : Type 0 where
  tick : Event
  datagram : Datagram → Event
  kernel : KernelMsg → Event

unfoldable pub handle : Event → State → State
unfolding timer_age_queue aodv_socket_read nl_kaodv_callback
handle tick s = (timer_age_queue s).1
handle (datagram p) s = (aodv_socket_read p s).1
handle (kernel m) s = (nl_kaodv_callback m s).1

-- The main loop, over the events that select reports.
unfoldable pub handle_all : List Event → State → State
handle_all [] s = s
handle_all (v ∷ l) s = handle_all l (handle v s)
