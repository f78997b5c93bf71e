-- ===== src/Trace/Reboot.antt =====
-- The wait after a reboot (`wait_on_reboot`, main.c) and what it does to the replies.
use aodv.Base.{refl, ℕ, ◌≡◌, sym, ◌∙◌, true, false, List, some, ℤ, pos, negsuc, All, arith}
use mathlib.Core.Bool.{false≢true}
use aodv.Protocol.Records.{path_discovery_time}
use aodv.Timer.{
  Handler, rec_timer, Timeval, TimerRef, Timers, timer_init, timer_remove, timer_set_timeout,
  collect_expired, pop_expired,
}
use aodv.Msg.{Packet}
use aodv.Node.{State, gettimeofday}
use aodv.Socket.{aodv_socket_send, check_limit, pass_limit, transmit, is_rrep}
use aodv.Protocol.Loop.{Event, handle_all}
use aodv.Trace.Step.{
  special-reboot, Step, Steps, ran, forgets, here, then_step, reads_clock, inits, removes, sets,
  handles, writes_table, writes_seeks, remembers, writes_blacklist, writes_seqno, writes_rreq_id,
  writes_forward_time, ends_wait, writes_buffer, sends, writes_log, asks_kernel, asks_rtnl,
  is_reboot,
}
use aodv.Socket.Frame.{send-timer}
use aodv.Trace.Events.{Round, works, collects, pops, handle_all-inv}

-- No timer has the handler that ends the wait.
abbrev pub NoReboot : Timers → Type 0
NoReboot t = (r : TimerRef) → is_reboot (t.timers r).handler ≡ false

abbrev pub NoRrep : List Packet → Type 0
NoRrep l = All (λ p. is_rrep p.msg ≡ false) l

-- The daemon waits, nothing will end the wait, and no RREP has gone out.
pub record IsMute (s : State) : Type 0 where
  pub waits : s.wait_on_reboot ≡ true
  pub unending : NoReboot s.timer
  pub silent : NoRrep s.sent

init-NoReboot :
    (r : TimerRef) (f : _) (s : Timers)
    → is_reboot f ≡ false
    → NoReboot s
    → NoReboot (timer_init r f s)
unfolding timer_init
init-NoReboot r f s e h q = ground (arith, h q)

remove-NoReboot : (r : TimerRef) (s : Timers) → NoReboot s → NoReboot (timer_remove r s).1
unfolding timer_remove
remove-NoReboot r s h q = ground (arith, h q, h r)

set_timeout-NoReboot :
    (r : TimerRef) (msec : ℤ) (now : Timeval) (s : Timers)
    → NoReboot s
    → NoReboot (timer_set_timeout r msec now s)
unfolding timer_set_timeout
set_timeout-NoReboot r (negsuc n) now s h q = ground (arith, h q, h r)
set_timeout-NoReboot r (pos n) now s h q = ground (arith, h q, h r)

pop-NoReboot :
    (s : Timers) (r : TimerRef) (t : Timers) → pop_expired s ≡ some (r, t) → NoReboot s → NoReboot t
unfolding pop_expired
pop-NoReboot s r t e h q = ground (arith, h q, h r)

-- While the daemon waits, a RREP in the buffer is not sent.
send-NoRrep :
    (d l : ℕ) (t : ℤ) (s : State)
    → s.wait_on_reboot ≡ true
    → NoRrep s.sent
    → NoRrep (aodv_socket_send d l t s).1.sent
unfolding aodv_socket_send check_limit transmit pass_limit gettimeofday
send-NoRrep d l t s w h = ground arith

send-wait :
    (d l : ℕ) (t : ℤ) (s : State) → (aodv_socket_send d l t s).1.wait_on_reboot ≡ s.wait_on_reboot
unfolding aodv_socket_send check_limit transmit pass_limit gettimeofday
send-wait d l t s = ground arith

-- A step neither ends the wait nor sends a RREP.
Step-IsMute : {s t : State} → Step s t → IsMute s → IsMute t
Step-IsMute (reads_clock s n) m = record {
  waits = m.waits;
  unending = m.unending;
  silent = m.silent;
}
Step-IsMute (inits s r f e _) m = record {
  waits = m.waits;
  unending = init-NoReboot r f s.timer (special-reboot f e) m.unending;
  silent = m.silent;
}
Step-IsMute (removes s r) m = record {
  waits = m.waits;
  unending = remove-NoReboot r s.timer m.unending;
  silent = m.silent;
}
Step-IsMute (sets s r msec now _) m = record {
  waits = m.waits;
  unending = set_timeout-NoReboot r msec now s.timer m.unending;
  silent = m.silent;
}
Step-IsMute (handles s r f e _) m = record {
  waits = m.waits;
  unending = λ q. ground (arith, m.unending q, special-reboot f e);
  silent = m.silent;
}
Step-IsMute (writes_table s t _) m = record {
  waits = m.waits;
  unending = m.unending;
  silent = m.silent;
}
Step-IsMute (writes_seeks s l) m = record {
  waits = m.waits;
  unending = m.unending;
  silent = m.silent;
}
Step-IsMute (remembers s a i n now _) m = record {
  waits = m.waits;
  unending =
      set_timeout-NoReboot (rec_timer a i) (pos path_discovery_time) now _
        (init-NoReboot (rec_timer a i) Handler.rreq_record_timeout s.timer refl m.unending);
  silent = m.silent;
}
Step-IsMute (writes_blacklist s l) m = record {
  waits = m.waits;
  unending = m.unending;
  silent = m.silent;
}
Step-IsMute (writes_seqno s n) m = record {
  waits = m.waits;
  unending = m.unending;
  silent = m.silent;
}
Step-IsMute (writes_rreq_id s n) m = record {
  waits = m.waits;
  unending = m.unending;
  silent = m.silent;
}
Step-IsMute (writes_forward_time s t) m = record {
  waits = m.waits;
  unending = m.unending;
  silent = m.silent;
}
Step-IsMute (ends_wait s r e) m = absurd (false≢true (sym (m.unending r) ∙ e))
Step-IsMute (writes_buffer s b) m = record {
  waits = m.waits;
  unending = m.unending;
  silent = m.silent;
}
Step-IsMute (sends s d l t) m = record {
  waits = rw (send-wait d l t s) m.waits;
  unending = rw (send-timer d l t s) m.unending;
  silent = send-NoRrep d l t s m.waits m.silent;
}
Step-IsMute (writes_log s l) m = record {
  waits = m.waits;
  unending = m.unending;
  silent = m.silent;
}
Step-IsMute (asks_kernel s n l) m = record {
  waits = m.waits;
  unending = m.unending;
  silent = m.silent;
}
Step-IsMute (asks_rtnl s n l) m = record {
  waits = m.waits;
  unending = m.unending;
  silent = m.silent;
}

pub Steps-IsMute : {s t : State} → Steps s t → IsMute s → IsMute t
Steps-IsMute (here _) m = m
Steps-IsMute (then_step p st) m = Step-IsMute st (Steps-IsMute p m)

Round-IsMute : (s t : State) → Round s t → IsMute s → IsMute t
unfolding collect_expired
Round-IsMute s t (works (ran p)) m = Steps-IsMute p m
Round-IsMute s t (works (forgets _ l)) m = record {
  waits = m.waits;
  unending = m.unending;
  silent = m.silent;
}
Round-IsMute s t (collects _ now) m = record {
  waits = m.waits;
  unending = m.unending;
  silent = m.silent;
}
Round-IsMute s t (pops _ r q e) m = record {
  waits = m.waits;
  unending = pop-NoReboot s.timer r q e m.unending;
  silent = m.silent;
}

-- From a state that waits after a reboot, in which no timer would end the wait and no RREP has been
-- sent, no events whatever make the daemon send a RREP or end the wait.
pub handle_all-IsMute : (l : List Event) (s : State) → IsMute s → IsMute (handle_all l s)
handle_all-IsMute l s m = handle_all-inv IsMute Round-IsMute l s m
