-- ===== src/Trace/Step.antt =====
-- The elementary steps that the daemon's functions are made of.
use aodv.Base.{pos, ◌∷◌, ℕ, Bool, true, false, List, none, ◌≡◌, refl, arith, ℤ, if◌then◌else◌}
use aodv.Timer.{
  Timeval, TimerRef, rec_timer, Handler, timer_init, timer_remove, timer_set_timeout, set_handler,
}
use aodv.Msg.{Msg}
use aodv.Node.{
  State, M, pure, skip, get, gets, modify, ◌>>=◌, gettimeofday, on_timers, inc_u32, dec_u32,
  RtEntry, RtFlags, RtState, RoutingTable, SeekEntry, RreqRecord, NlMsg, LogLine, init_timer,
  remove_timer, set_timeout,
}
use aodv.Socket.{aodv_socket_send}
use aodv.Protocol.Records.{has_record, path_discovery_time}
use aodv.Routing.Table.{on_table, write_rt, write_table, link_entry, unlink_table, lookup}
use aodv.Routing.Route.{add_precursor, drop_precursors}

abbrev pub is_reboot : Handler → Bool
is_reboot Handler.wait_on_reboot_timeout = true
is_reboot _ = false

-- The timers of the records, and the handler that they have.
abbrev pub is_rec : TimerRef → Bool
is_rec (rec_timer a i) = true
is_rec _ = false

abbrev pub is_forgetting : Handler → Bool
is_forgetting Handler.rreq_record_timeout = true
is_forgetting _ = false

abbrev pub is_special : Handler → Bool
is_special Handler.wait_on_reboot_timeout = true
is_special Handler.rreq_record_timeout = true
is_special _ = false

pub special-reboot : (f : Handler) → is_special f ≡ false → is_reboot f ≡ false
special-reboot f e = ground (arith, e)

pub special-forgetting : (f : Handler) → is_special f ≡ false → is_forgetting f ≡ false
special-forgetting f e = ground (arith, e)

-- A write to an entry that leaves its place in the table.
pub record KeepsPlace (f : RtEntry → RtEntry) : Type 0 where
  pub same_dest : (e : RtEntry) → (f e).dest_addr ≡ e.dest_addr
  pub same_hash : (e : RtEntry) → (f e).hash ≡ e.hash

-- The writes to the routing table.
pub data Moves : RoutingTable → RoutingTable → Type 0 where
  counts : (t : RoutingTable) (n m : ℕ) → Moves t (record t { num_entries = n; num_active = m })
  changes :
      (t : RoutingTable) (d : ℕ) (f : RtEntry → RtEntry)
      → KeepsPlace f
      → Moves t (write_table d f t)
  links :
      (t : RoutingTable) (e : RtEntry)
      → e.hash ≡ e.dest_addr
      → lookup e.dest_addr t ≡ none
      → Moves t (link_entry e t)
  unlinks : (t : RoutingTable) (d : ℕ) → Moves t (unlink_table d t)

-- One write to the state, or one call of `aodv_socket_send`, or the entry of a new record with its timer. Other
-- timers get no handler that would end the wait after a reboot or forget a record, and only a timer with that
-- handler ends the wait.
pub data Step : State → State → Type 0 where
  reads_clock : (s : State) (n : ℕ) → Step s (record s { reads = n })
  inits :
      (s : State) (r : TimerRef) (f : Handler)
      → is_special f ≡ false
      → is_rec r ≡ false
      → Step s (record s { timer = timer_init r f s.timer })
  removes : (s : State) (r : TimerRef) → Step s (record s { timer = (timer_remove r s.timer).1 })
  sets :
      (s : State) (r : TimerRef) (msec : ℤ) (now : Timeval)
      → is_rec r ≡ false
      → Step s (record s { timer = timer_set_timeout r msec now s.timer })
  handles :
      (s : State) (r : TimerRef) (f : Handler)
      → is_special f ≡ false
      → is_rec r ≡ false
      → Step s (record s { timer = set_handler r f s.timer })
  writes_table :
      (s : State) (t : RoutingTable) → Moves s.rt_tbl t → Step s (record s { rt_tbl = t })
  writes_seeks : (s : State) (l : List SeekEntry) → Step s (record s { sl = l })
  remembers :
      (s : State) (a i n : ℕ) (now : Timeval)
      → has_record a i s.rreq_records ≡ false
      → Step s (record s {
        timer =
            timer_set_timeout
              (rec_timer a i)
              (pos path_discovery_time)
              now
              (timer_init (rec_timer a i) Handler.rreq_record_timeout s.timer);
        rreq_records = record { orig_addr = a; rreq_id = i } ∷ s.rreq_records;
        reads = n;
      })
  writes_blacklist : (s : State) (l : List ℕ) → Step s (record s { rreq_blacklists = l })
  writes_seqno :
      (s : State) (n : ℕ) → Step s (record s { this_host = record (s.this_host) { seqno = n } })
  writes_rreq_id :
      (s : State) (n : ℕ) → Step s (record s { this_host = record (s.this_host) { rreq_id = n } })
  writes_forward_time :
      (s : State) (t : Timeval)
      → Step s (record s { this_host = record (s.this_host) { last_forward_time = t } })
  ends_wait :
      (s : State) (r : TimerRef)
      → is_reboot (s.timer.timers r).handler ≡ true
      → Step s (record s { wait_on_reboot = false })
  writes_buffer : (s : State) (m : Msg) → Step s (record s { send_buf = m })
  sends : (s : State) (dest len : ℕ) (ttl : ℤ) → Step s (aodv_socket_send dest len ttl s).1
  writes_log : (s : State) (l : List LogLine) → Step s (record s { rt_log = l })
  asks_kernel :
      (s : State) (n : ℕ) (l : List NlMsg) → Step s (record s { aodvnl_seqno = n; nl_sent = l })
  asks_rtnl :
      (s : State) (n : ℕ) (l : List NlMsg) → Step s (record s { rtnl_seqno = n; nl_sent = l })

-- The steps of a handler.
pub data Steps : State → State → Type 0 where
  here : (s : State) → Steps s s
  then_step : {s t u : State} → Steps s t → Step t u → Steps s u

-- The run of a timer's handler: steps, or the end of the time of a record.
pub data Ran : State → State → Type 0 where
  ran : {s t : State} → Steps s t → Ran s t
  forgets : (s : State) (l : List RreqRecord) → Ran s (record s { rreq_records = l })

pub Steps-trans : {s t u : State} → Steps s t → Steps t u → Steps s u
Steps-trans p (here _) = p
Steps-trans p (then_step q st) = then_step (Steps-trans p q) st

-- Every run of a function is a sequence of steps.
pub record Runs {A : Type 0} (m : M A) : Type 0 where
  pub run : (s : State) → Steps s (m s).1

pub one : {s t : State} → Step s t → Steps s t
one {s} st = then_step (here s) st

module _ {A : Type 0} where
  pub Runs-pure : (a : A) → Runs (pure a)
  Runs-pure a = record { run = λ s. here s }

  pub Runs-gets : (f : State → A) → Runs (gets f)
  Runs-gets f = record { run = λ s. here s }

  pub Runs-if : (c : Bool) {m k : M A} → Runs m → Runs k → Runs (if c then m else k)
  Runs-if true p q = p
  Runs-if false p q = q

pub Runs-bind :
    {A B : Type 0} {m : M A} {f : A → M B} → Runs m → ((a : A) → Runs (f a)) → Runs (m >>= f)
Runs-bind {m = m} p q = record { run = λ s. Steps-trans (p.run s) ((q (m s).0).run (m s).1) }

pub Runs-skip : Runs skip
Runs-skip = record { run = λ s. here s }

pub Runs-get : Runs get
Runs-get = record { run = λ s. here s }

pub Runs-gettimeofday : Runs gettimeofday
unfolding gettimeofday
Runs-gettimeofday = record { run = λ s. one (reads_clock s _) }

pub Runs-remove_timer : (r : TimerRef) → Runs (remove_timer r)
Runs-remove_timer r = record { run = λ s. one (removes s r) }

pub Runs-set_timeout : (r : TimerRef) (msec : ℤ) → is_rec r ≡ false → Runs (set_timeout r msec)
Runs-set_timeout r msec plain =
    Runs-bind Runs-gettimeofday (λ now. record { run = λ s. one (sets s r msec now plain) })

pub Runs-send : (dest len : ℕ) (ttl : ℤ) → Runs (aodv_socket_send dest len ttl)
Runs-send dest len ttl = record { run = λ s. one (sends s dest len ttl) }

module _ (r : TimerRef) (f : Handler) (e : is_special f ≡ false) (plain : is_rec r ≡ false) where
  pub Runs-init_timer : Runs (init_timer r f)
  Runs-init_timer = record { run = λ s. one (inits s r f e plain) }

  pub Runs-set_handler : Runs (on_timers (set_handler r f))
  Runs-set_handler = record { run = λ s. one (handles s r f e plain) }

pub Runs-incr_active : Runs (on_table λ t. record t { num_active = inc_u32 t.num_active })
Runs-incr_active = record {
  run = λ s. one (writes_table s _ (counts s.rt_tbl s.rt_tbl.num_entries _));
}

pub Runs-decr_active : Runs (on_table λ t. record t { num_active = dec_u32 t.num_active })
Runs-decr_active = record {
  run = λ s. one (writes_table s _ (counts s.rt_tbl s.rt_tbl.num_entries _));
}

pub Runs-decr_entries : Runs (on_table λ t. record t { num_entries = dec_u32 t.num_entries })
Runs-decr_entries = record {
  run = λ s. one (writes_table s _ (counts s.rt_tbl _ s.rt_tbl.num_active));
}

pub Runs-unlink_table : (d : ℕ) → Runs (on_table (unlink_table d))
Runs-unlink_table d = record { run = λ s. one (writes_table s _ (unlinks s.rt_tbl d)) }

pub Runs-write_rt : (d : ℕ) (f : RtEntry → RtEntry) → KeepsPlace f → Runs (write_rt d f)
Runs-write_rt d f k = record { run = λ s. one (writes_table s _ (changes s.rt_tbl d f k)) }

-- A write to the fields that a function changes after the entry is linked.
module _ (g : RtEntry → RtFlags) (q n h c : RtEntry → ℕ) (st : RtEntry → RtState)
    (l : RtEntry → Timeval) where
  pub KeepsPlace-fields : KeepsPlace (λ e. record e {
    dest_seqno = q e;
    next_hop = n e;
    hopcnt = h e;
    flags = g e;
    state = st e;
    last_hello_time = l e;
    hello_cnt = c e;
  })
  KeepsPlace-fields = record { same_dest = λ e. refl; same_hash = λ e. refl }

pub KeepsPlace-add_precursor : (a : ℕ) → KeepsPlace (add_precursor a)
unfolding add_precursor
KeepsPlace-add_precursor a = record { same_dest = λ e. ground arith; same_hash = λ e. ground arith }

pub KeepsPlace-drop_precursors : KeepsPlace drop_precursors
unfolding drop_precursors
KeepsPlace-drop_precursors = record { same_dest = λ e. refl; same_hash = λ e. refl }

pub Runs-write_seeks : (f : State → List SeekEntry) → Runs (modify λ s. record s { sl = f s })
Runs-write_seeks f = record { run = λ s. one (writes_seeks s (f s)) }

pub Runs-write_blacklist :
    (f : State → List ℕ) → Runs (modify λ s. record s { rreq_blacklists = f s })
Runs-write_blacklist f = record { run = λ s. one (writes_blacklist s (f s)) }

pub Runs-write_buffer : (f : State → Msg) → Runs (modify λ s. record s { send_buf = f s })
Runs-write_buffer f = record { run = λ s. one (writes_buffer s (f s)) }

pub Runs-write_log : (f : State → List LogLine) → Runs (modify λ s. record s { rt_log = f s })
Runs-write_log f = record { run = λ s. one (writes_log s (f s)) }

pub ruleset runs = (
  Runs-pure, Runs-gets, Runs-if, Runs-bind, Runs-skip, Runs-get, Runs-gettimeofday,
  Runs-remove_timer, Runs-set_timeout, Runs-send, Runs-init_timer, Runs-set_handler,
  Runs-incr_active, Runs-decr_active, Runs-decr_entries, Runs-unlink_table, Runs-write_rt,
  KeepsPlace-fields, KeepsPlace-add_precursor, KeepsPlace-drop_precursors, Runs-write_seeks,
  Runs-write_blacklist, Runs-write_buffer, Runs-write_log,
)
