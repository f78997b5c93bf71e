-- ===== src/Log/Routes.antt =====
-- debug.c: print_rt_table, the handler of `rt_log_timer`, which writes the table of routes to its log
-- and arms the timer again. The calls of write are taken to succeed; their results are not used.
use aodv.Base.{ℕ, not, Option, none, some, List, [], ◌∷◌, pos, ◌==◌, if◌then◌else◌}
use aodv.Timer.{Timeval, timeval_diff, rt_timer, rt_log_timer, Handler}
use aodv.Node.{
  State, ⊤, M, when, get, modify, ◌>>=◌, ◌>>◌, gettimeofday, init_timer, set_timeout, RtEntry,
  RouteLine, LogLine, heading, columns, route_line, precursor_line,
}
use aodv.Routing.Table.{deref, for_buckets, rt_tablesize}
use aodv.Log.Text.{rt_flags_to_str, state_to_str}

abbrev pub log_line : LogLine → M ⊤
log_line l = modify λ s. record s { rt_log = l ∷ s.rt_log }

abbrev pub first : List ℕ → Option ℕ
first [] = none
first (p ∷ l) = some p

-- The text of an entry whose timer is due at `due`. A negative difference is printed with %lu, as a
-- large number.
unfoldable pub line_of : Timeval → Timeval → RtEntry → RouteLine
unfolding rt_flags_to_str state_to_str
line_of due now e = record {
  dest_addr = e.dest_addr;
  next_hop = e.next_hop;
  hopcnt = e.hopcnt;
  state = state_to_str e.state;
  dest_seqno = if e.dest_seqno == 0 then none else some e.dest_seqno;
  expire = if e.hopcnt == 255 then pos 0 else timeval_diff due now;
  flags = rt_flags_to_str e.flags;
  precursor = first e.precursors;
}

-- The loop over the precursors but the first.
unfoldable pub log_precursors : List ℕ → M ⊤
log_precursors [] s = (tt, s)
log_precursors (p ∷ l) s = log_precursors l (log_line (precursor_line p) s).1

abbrev pub rest : List ℕ → List ℕ
rest [] = []
rest (p ∷ l) = l

-- The body of the loop over the table for one entry.
unfoldable pub log_route : Timeval → ℕ → ⊤ → M ⊤
unfolding line_of log_precursors
log_route now rt v = do
  e ← deref rt
  s ← get
  log_line (route_line (line_of (s.timer.timers (rt_timer rt)).timeout now e))
  log_precursors (rest e.precursors)

abbrev pub heading_of : Timeval → State → LogLine
heading_of now s =
    heading now s.this_host.ipaddr s.this_host.seqno s.rt_tbl.num_entries s.rt_tbl.num_active

-- The part of print_rt_table that an empty table skips.
unfoldable pub log_table : M ⊤
unfolding gettimeofday for_buckets log_route
log_table = do
  now ← gettimeofday
  s ← get
  log_line (heading_of now s)
  log_line columns
  for_buckets rt_tablesize 0 (log_route now) tt

unfoldable pub print_rt_table : M ⊤
unfolding gettimeofday log_table
print_rt_table = do
  s ← get
  when (not (s.rt_tbl.num_entries == 0)) log_table
  set_timeout rt_log_timer (pos s.conf.rt_log_interval)

unfoldable pub log_rt_table_init : M ⊤
unfolding gettimeofday
log_rt_table_init = do
  s ← get
  init_timer rt_log_timer Handler.print_rt_table
  set_timeout rt_log_timer (pos s.conf.rt_log_interval)
