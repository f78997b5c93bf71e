-- ===== src/Trace/Expiry.antt =====
-- The loop of `timer_timeout` ends: each round takes a timer off `exptq`, and no handler puts one on.
use aodv.Base.{
  ℕ, zero, suc, ◌≤◌, ◌≡◌, List, [], ◌∷◌, none, some, inl, inr, ℤ, pos, negsuc, length, arith,
  Option-cases,
}
use aodv.Protocol.Records.{path_discovery_time}
use aodv.Timer.{
  rec_timer, Timeval, TimerRef, Timers, unlink, timer_init, timer_remove, timer_set_timeout,
  collect_expired, pop_expired,
}
use aodv.Node.{State}
use aodv.Protocol.Loop.{fire_next, fire_all, timer_timeout}
use aodv.Trace.Step.{
  Step, Steps, Ran, ran, forgets, here, then_step, reads_clock, inits, removes, sets, handles,
  writes_table, writes_seeks, remembers, writes_blacklist, writes_seqno, writes_rreq_id,
  writes_forward_time, ends_wait, writes_buffer, sends, writes_log, asks_kernel, asks_rtnl,
}
use aodv.Socket.Frame.{send-timer}
use aodv.Trace.Events.{fire_next-Fires}

length-unlink : (r : TimerRef) (l : List TimerRef) → length (unlink r l) ≤ length l
unfolding unlink
length-unlink r [] = omega arith
length-unlink r (q ∷ l) = ground (arith, length-unlink r l)

set_timeout-exptq :
    (r : TimerRef) (msec : ℤ) (now : Timeval) (s : Timers)
    → length (timer_set_timeout r msec now s).exptq ≤ length s.exptq
unfolding timer_set_timeout
set_timeout-exptq r (negsuc n) now s = ground (arith, length-unlink r s.exptq)
set_timeout-exptq r (pos n) now s = ground (arith, length-unlink r s.exptq)

Step-exptq : {s t : State} → Step s t → length t.timer.exptq ≤ length s.timer.exptq
unfolding timer_init timer_remove
Step-exptq (reads_clock s n) = omega arith
Step-exptq (inits s r f e _) = omega arith
Step-exptq (removes s r) = length-unlink r s.timer.exptq
Step-exptq (sets s r msec now _) = set_timeout-exptq r msec now s.timer
Step-exptq (handles s r f e _) = omega arith
Step-exptq (writes_table s t _) = omega arith
Step-exptq (writes_seeks s l) = omega arith
Step-exptq (remembers s a i n now _) =
    set_timeout-exptq (rec_timer a i) (pos path_discovery_time) now _
Step-exptq (writes_blacklist s l) = omega arith
Step-exptq (writes_seqno s n) = omega arith
Step-exptq (writes_rreq_id s n) = omega arith
Step-exptq (writes_forward_time s t) = omega arith
Step-exptq (ends_wait s r e) = omega arith
Step-exptq (writes_buffer s m) = omega arith
Step-exptq (sends s d l t) = rw (send-timer d l t s) (omega arith)
Step-exptq (writes_log s l) = omega arith
Step-exptq (asks_kernel s n l) = omega arith
Step-exptq (asks_rtnl s n l) = omega arith

Steps-exptq : {s t : State} → Steps s t → length t.timer.exptq ≤ length s.timer.exptq
Steps-exptq (here _) = omega arith
Steps-exptq (then_step p st) = omega (arith, Steps-exptq p, Step-exptq st)

Ran-exptq : {s t : State} → Ran s t → length t.timer.exptq ≤ length s.timer.exptq
Ran-exptq (ran p) = Steps-exptq p
Ran-exptq (forgets s l) = omega arith

pop-exptq :
    (s : Timers) (r : TimerRef) (t : Timers)
    → pop_expired s ≡ some (r, t)
    → suc (length t.exptq) ≡ length s.exptq
unfolding pop_expired
pop-exptq s r t e = ground arith

-- A round leaves fewer expired timers, whatever its handler does.
fire_next-exptq :
    (s s' : State) → fire_next s ≡ some s' → suc (length s'.timer.exptq) ≤ length s.timer.exptq
fire_next-exptq s s' e =
    let (r, t, p, st) = fire_next-Fires s s' e in
    omega (arith, pop-exptq s.timer r t p, Ran-exptq st)

fire_next-none : (s : State) → fire_next s ≡ none → s.timer.exptq ≡ []
unfolding fire_next pop_expired
fire_next-none s e = ground arith

-- Fuel for each expired timer is enough: the loop ends with none left.
pub fire_all-exptq :
    (n : ℕ) (s : State) → length s.timer.exptq ≤ n → (fire_all n s).1.timer.exptq ≡ []
unfolding fire_all
fire_all-exptq zero s h = ground arith
fire_all-exptq (suc n) s h = elim (Option-cases (fire_next s)) [
  | inl e ↦ rw (e, fire_all) (fire_next-none s e)
  | inr (s', e) ↦ rw (e, fire_all) (fire_all-exptq n s' (omega (arith, fire_next-exptq s s' e)))
]

-- The loop of timer_timeout ends, whatever the handlers do: one round for each expired timer is
-- enough, and `exptq` is empty when it returns.
pub timer_timeout-exptq : (now : Timeval) (s : State) → (timer_timeout now s).1.timer.exptq ≡ []
unfolding timer_timeout
timer_timeout-exptq now s =
    let s' : State = record s { timer = collect_expired now s.timer } in
    fire_all-exptq (length s'.timer.exptq) s' (omega arith)
