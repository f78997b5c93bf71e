-- ===== src/Trace/Flood.antt =====
-- A RREQ is processed once, for as long as it is remembered.
use aodv.Base.{
  ℕ, ◌+◌, ◌*◌, ◌≤◌, Bool, true, false, not, ◌&&◌, ◌||◌, ◌==◌, ltb, ◌≡◌, ap, sym, ◌∙◌, List, [], ◌∷◌,
  All, arith, pos,
}
use aodv.Timer.{
  Timeval, us, Timers, TimerRef, rec_timer, Handler, timer_init, timer_remove, timer_add,
  timer_set_timeout, linked,
}
use aodv.Msg.{Rreq, rreq_size}
use aodv.Node.{State, gettimeofday}
use aodv.Protocol.Records.{
  has_record, has_addr, rreq_record_check, rreq_record_insert, rreq_blacklist_check,
  path_discovery_time,
}
use aodv.Protocol.Rreq.{rreq_process}
use aodv.Protocol.Loop.{Event, tick, datagram, kernel, handle, handle_all}
use aodv.Trace.Step.{is_forgetting}
use aodv.Trace.Kept.{
  IsKept, ForgetsAlone, Steps-IsKept, set_timeout-handler, set_timeout-unexpired, init-alone,
}
use aodv.Trace.Kept.Rounds.{tick-IsKept}
use aodv.Trace.Handlers.{Runs-rreq_accept}
use aodv.Trace.Messages.{Runs-read, Runs-callback}

-- The tests of rreq_process but the one for a RREQ that was seen.
abbrev pub is_welcome : Rreq → ℕ → ℕ → State → Bool
is_welcome m len src s =
    not (m.orig_addr == s.this_host.ipaddr)
    && not (ltb len rreq_size)
    && not (has_addr src s.rreq_blacklists)

-- A RREQ that is remembered is dropped.
seen_again :
    (m : Rreq) (len src ttl : ℕ) (s : State)
    → has_record m.orig_addr m.rreq_id s.rreq_records ≡ true
    → rreq_process m len src ttl s ≡ (tt, s)
unfolding rreq_process rreq_blacklist_check rreq_record_check
seen_again m len src ttl s h = ground (arith, h)

set_timeout-due :
    (r : TimerRef) (n : ℕ) (now : Timeval) (s : Timers)
    → us ((timer_set_timeout r (pos n) now s).timers r).timeout ≡ us now + n * 1000
unfolding timer_set_timeout timer_remove timer_add
set_timeout-due r n now s = ground arith

init-unexpired :
    (r : TimerRef) (f : Handler) (s : Timers)
    → s.exptq ≡ []
    → linked r (timer_init r f s).exptq ≡ false
unfolding timer_init linked
init-unexpired r f s none_due = ap (linked r) none_due

-- A RREQ that is new is kept until PATH_DISCOVERY_TIME has passed.
insert-IsKept :
    (a i : ℕ) (s : State)
    → ForgetsAlone s.timer
    → s.timer.exptq ≡ []
    → has_record a i s.rreq_records ≡ false
    → IsKept a i (us (s.env.clock s.reads) + 5600000) (rreq_record_insert a i s).1
unfolding rreq_record_insert rreq_record_check gettimeofday has_record
insert-IsKept a i s alone none_due new =
    let t : Timers = timer_init (rec_timer a i) Handler.rreq_record_timeout s.timer in
    rw new (record {
      recorded = ground arith;
      until = set_timeout-due (rec_timer a i) path_discovery_time (s.env.clock s.reads) t;
      alone = λ r f. init-alone a i s.timer alone r (
          ap is_forgetting (
            sym (
              set_timeout-handler (rec_timer a i) r (pos path_discovery_time) (s.env.clock s.reads)
                t))
          ∙ f);
      unexpired =
          set_timeout-unexpired (rec_timer a i) (rec_timer a i) (pos path_discovery_time)
            (s.env.clock s.reads) t
            (init-unexpired (rec_timer a i) Handler.rreq_record_timeout s.timer none_due);
    })

process-IsKept :
    (m : Rreq) (len src ttl : ℕ) (s : State)
    → ForgetsAlone s.timer
    → s.timer.exptq ≡ []
    → is_welcome m len src s ≡ true
    → has_record m.orig_addr m.rreq_id s.rreq_records ≡ false
    → IsKept m.orig_addr m.rreq_id
        (us (s.env.clock s.reads) + 5600000)
        (rreq_process m len src ttl s).1
unfolding rreq_process rreq_blacklist_check rreq_record_check
process-IsKept m len src ttl s alone none_due w new =
    let due : ℕ = us (s.env.clock s.reads) + 5600000 in
    let s' : State = (rreq_record_insert m.orig_addr m.rreq_id s).1 in
    let passes : (m.orig_addr == s.this_host.ipaddr
          || ltb len rreq_size
          || has_addr src s.rreq_blacklists
          || has_record m.orig_addr m.rreq_id s.rreq_records)
        ≡ false =
      ground (arith, w, new) in
    rw (passes, rreq_process)
      (Steps-IsKept m.orig_addr m.rreq_id due ((Runs-rreq_accept m len src ttl).run s')
        (insert-IsKept m.orig_addr m.rreq_id s alone none_due new))

-- What the clock reads in the rounds of the timers among the events.
unfoldable pub ticks_at : List Event → State → List Timeval
unfolding handle
ticks_at [] s = []
ticks_at (tick ∷ l) s = s.env.clock s.reads ∷ ticks_at l (handle tick s)
ticks_at (datagram p ∷ l) s = ticks_at l (handle (datagram p) s)
ticks_at (kernel m ∷ l) s = ticks_at l (handle (kernel m) s)

handle_all-IsKept :
    (a i due : ℕ) (l : List Event) (s : State)
    → All (λ now. us now + 1000 ≤ due) (ticks_at l s)
    → IsKept a i due s
    → IsKept a i due (handle_all l s)
unfolding handle_all ticks_at handle
handle_all-IsKept a i due [] s h k = k
handle_all-IsKept a i due (tick ∷ l) s h k =
    handle_all-IsKept a i due l (handle tick s) h.1 (tick-IsKept a i due s h.0 k)
handle_all-IsKept a i due (datagram p ∷ l) s h k =
    handle_all-IsKept a i due l (handle (datagram p) s) h
      (Steps-IsKept a i due ((Runs-read p).run s) k)
handle_all-IsKept a i due (kernel m ∷ l) s h k =
    handle_all-IsKept a i due l (handle (kernel m) s) h
      (Steps-IsKept a i due ((Runs-callback m).run s) k)

-- Once rreq_process has had a new RREQ, it drops every copy of it, whatever its hop count, its TTL and its
-- sender, and changes nothing, after any datagrams, kernel messages and rounds of the timers, as long as each of
-- these rounds reads the clock 1 ms before PATH_DISCOVERY_TIME (5600 ms) has passed since, or
-- earlier. It is so for a RREQ that is not the node's own, not too short and not from a neighbor on the
-- blacklist, in a state in which no expired timer is left to run and the handler that forgets a record is
-- that of records' timers only.
pub rreq_process_again :
    (m copy : Rreq) (len src ttl len' src' ttl' : ℕ) (l : List Event) (s : State)
    → ForgetsAlone s.timer
    → s.timer.exptq ≡ []
    → is_welcome m len src s ≡ true
    → has_record m.orig_addr m.rreq_id s.rreq_records ≡ false
    → All
        (λ now. us now + 1000 ≤ us (s.env.clock s.reads) + 5600000)
        (ticks_at l (rreq_process m len src ttl s).1)
    → copy.orig_addr ≡ m.orig_addr
    → copy.rreq_id ≡ m.rreq_id
    → let t = handle_all l (rreq_process m len src ttl s).1 in
      rreq_process copy len' src' ttl' t ≡ (tt, t)
rreq_process_again m copy len src ttl len' src' ttl' l s alone none_due w new early same_orig
      same_id =
    let due : ℕ = us (s.env.clock s.reads) + 5600000 in
    let s' : State = (rreq_process m len src ttl s).1 in
    let k : IsKept m.orig_addr m.rreq_id due (handle_all l s') =
      handle_all-IsKept m.orig_addr m.rreq_id due l s' early
        (process-IsKept m len src ttl s alone none_due w new) in
    seen_again copy len' src' ttl' (handle_all l s') (rw (same_orig, same_id) k.recorded)
