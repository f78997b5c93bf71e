-- ===== src/Log/Report.antt =====
-- The log of routes shows the whole routing table.
use aodv.Base.{
  ℕ, zero, suc, ◌+◌, ◌≡◌, refl, sym, ap, ◌∙◌, List, [], ◌∷◌, ◌++◌, map, All, All-map, none, some,
  pos, ◌==◌, if◌then◌else◌, arith, Bool-cases, inl, inr,
}
use aodv.Timer.{Timeval, TimerRef, Timer, rt_timer, rt_log_timer, timer_set_timeout}
use aodv.Node.{State, ⊤, gettimeofday, RtEntry, LogLine, columns, route_line, precursor_line}
use aodv.Routing.Table.{find, lookup, hashing, entry_at, for_each, for_buckets, rt_tablesize}
use aodv.Routing.Store.{IsTable, Once}
use aodv.Log.Routes.{
  line_of, rest, log_precursors, log_route, heading_of, log_table, print_rt_table,
}

-- Lines that go to a log whose latest line stands first.
unfoldable pub pushed : List LogLine → List LogLine → List LogLine
pushed [] log = log
pushed (x ∷ l) log = pushed l (x ∷ log)

pushed-append : (k l log : List LogLine) → pushed (k ++ l) log ≡ pushed l (pushed k log)
unfolding pushed
pushed-append [] l log = refl
pushed-append (x ∷ k) l log = pushed-append k l (x ∷ log)

-- The lines that a reader expects: those of an entry, of the entries of a bucket, and of the buckets
-- from `i` on.
module _ (timers : TimerRef → Timer) (now : Timeval) where
  abbrev pub entry_lines : RtEntry → List LogLine
  entry_lines e =
      route_line (line_of (timers (rt_timer e.dest_addr)).timeout now e)
      ∷ map precursor_line (rest e.precursors)

  unfoldable pub bucket_lines : List RtEntry → List LogLine
  bucket_lines [] = []
  bucket_lines (e ∷ l) = entry_lines e ++ bucket_lines l

  unfoldable pub table_lines : ℕ → ℕ → (ℕ → List RtEntry) → List LogLine
  unfolding bucket_lines
  table_lines zero i tbl = []
  table_lines (suc n) i tbl = bucket_lines (tbl i) ++ table_lines n (i + 1) tbl

log_precursors-pushed :
    (l : List ℕ) (s : State)
    → log_precursors l s ≡ (tt, record s { rt_log = pushed (map precursor_line l) s.rt_log })
unfolding log_precursors pushed
log_precursors-pushed [] s = refl
log_precursors-pushed (p ∷ l) s =
    log_precursors-pushed l (record s { rt_log = precursor_line p ∷ s.rt_log })

-- Each entry of a bucket is what the table has for its destination.
find-tail :
    (e : RtEntry) (l : List RtEntry) (x : RtEntry)
    → find e.dest_addr l ≡ none
    → find x.dest_addr l ≡ some x
    → find x.dest_addr (e ∷ l) ≡ some x
unfolding find
find-tail e l x h k = ground (arith, h, k)

find_self : (l : List RtEntry) → Once l → All (λ (x : RtEntry). find x.dest_addr l ≡ some x) l
unfolding find Once
find_self [] h = tt
find_self (e ∷ l) h = (
  ground arith,
  All-map (λ (x : RtEntry). find x.dest_addr l ≡ some x)
      (λ (x : RtEntry). find x.dest_addr (e ∷ l) ≡ some x) (λ x k. find-tail e l x h.0 k) l
      (find_self l h.1),
)

abbrev IsFound : State → RtEntry → Type 0
IsFound s e = entry_at e.dest_addr s ≡ e

module _ (s : State) (v : IsTable s.rt_tbl) (i : ℕ) where
  IsFound-from :
      (l : List RtEntry)
      → All (λ (x : RtEntry). (hashing x.dest_addr ≡ i) × (x.hash ≡ x.dest_addr)) l
      → All (λ (x : RtEntry). find x.dest_addr (s.rt_tbl.tbl i) ≡ some x) l
      → All (IsFound s) l
  unfolding entry_at lookup
  IsFound-from [] h k = tt
  IsFound-from (e ∷ l) h k = (ground (arith, h.0.0, k.0), IsFound-from l h.1 k.1)

  bucket-IsFound : All (IsFound s) (s.rt_tbl.tbl i)
  bucket-IsFound = IsFound-from (s.rt_tbl.tbl i) (v.home i) (find_self (s.rt_tbl.tbl i) (v.once i))

module _ (now : Timeval) (s : State) where
  log_route-pushed :
      (e : RtEntry) (log : List LogLine)
      → IsFound s e
      → log_route now e.dest_addr tt (record s { rt_log = log })
        ≡ (tt, record s { rt_log = pushed (entry_lines s.timer.timers now e) log })
  unfolding log_route pushed entry_at
  log_route-pushed e log h = rw h (log_precursors-pushed (rest e.precursors) _)

  for_each-pushed :
      (l : List RtEntry) (log : List LogLine)
      → All (IsFound s) l
      → for_each
          (log_route now)
          (map (λ (e : RtEntry). e.dest_addr) l)
          tt
          (record s { rt_log = log })
        ≡ (tt, record s { rt_log = pushed (bucket_lines s.timer.timers now l) log })
  unfolding for_each pushed bucket_lines
  for_each-pushed [] log h = refl
  for_each-pushed (e ∷ l) log h =
      ap
        (λ (r : ⊤ × State). for_each (log_route now) (map (λ (e : RtEntry). e.dest_addr) l) r.0 r.1)
        (log_route-pushed e log h.0)
      ∙ for_each-pushed l (pushed (entry_lines s.timer.timers now e) log) h.1
      ∙ ap (λ x. (tt, record s { rt_log = x }))
          (sym (
            pushed-append (entry_lines s.timer.timers now e) (bucket_lines s.timer.timers now l)
              log))

  for_buckets-pushed :
      (n i : ℕ) (log : List LogLine)
      → IsTable s.rt_tbl
      → for_buckets n i (log_route now) tt (record s { rt_log = log })
        ≡ (tt, record s { rt_log = pushed (table_lines s.timer.timers now n i s.rt_tbl.tbl) log })
  unfolding for_buckets table_lines pushed
  for_buckets-pushed zero i log v = refl
  for_buckets-pushed (suc n) i log v =
      let f = s.timer.timers in
      ap (λ (r : ⊤ × State). for_buckets n (i + 1) (log_route now) r.0 r.1)
        (for_each-pushed (s.rt_tbl.tbl i) log (bucket-IsFound s v i))
      ∙ for_buckets-pushed n (i + 1) (pushed (bucket_lines f now (s.rt_tbl.tbl i)) log) v
      ∙ ap (λ x. (tt, record s { rt_log = x }))
          (sym (
            pushed-append (bucket_lines f now (s.rt_tbl.tbl i))
              (table_lines f now n (i + 1) s.rt_tbl.tbl) log))

-- What print_rt_table adds to the log: nothing for a table that counts no entry, and otherwise the
-- heading, the names of the columns, and the lines of every entry.
abbrev pub report : State → List LogLine
report s =
    if s.rt_tbl.num_entries == 0
    then []
    else let now : Timeval = s.env.clock s.reads in
      heading_of now s ∷ columns ∷ table_lines s.timer.timers now rt_tablesize 0 s.rt_tbl.tbl

-- The readings of the clock that are left after the report.
abbrev pub reads_after : State → ℕ
reads_after s = if s.rt_tbl.num_entries == 0 then s.reads else s.reads + 1

log_table-pushed :
    (s : State)
    → IsTable s.rt_tbl
    → log_table s ≡ (
      tt,
      record s {
        rt_log =
            pushed
              (heading_of (s.env.clock s.reads) s
                ∷ columns
                ∷ table_lines s.timer.timers (s.env.clock s.reads) rt_tablesize 0 s.rt_tbl.tbl)
              s.rt_log;
        reads = s.reads + 1;
      },
    )
unfolding log_table gettimeofday pushed
log_table-pushed s v =
    let now : Timeval = s.env.clock s.reads in
    for_buckets-pushed now (record s { reads = s.reads + 1 }) rt_tablesize 0
      (columns ∷ heading_of now s ∷ s.rt_log) v

-- On a table in order, print_rt_table adds to the log the whole report (nothing if the table counts no
-- entry; otherwise the heading, the names of the columns, and for each entry of the 64 buckets in turn
-- its line and one line for each precursor but the first), arms its timer again for the log's interval
-- from the next reading of the clock on, and changes nothing else.
pub print_rt_table-report :
    (s : State)
    → IsTable s.rt_tbl
    → print_rt_table s ≡ (
      tt,
      record s {
        rt_log = pushed (report s) s.rt_log;
        reads = reads_after s + 1;
        timer =
            timer_set_timeout rt_log_timer
              (pos s.conf.rt_log_interval)
              (s.env.clock (reads_after s))
              s.timer;
      },
    )
unfolding print_rt_table gettimeofday pushed
print_rt_table-report s v = elim (Bool-cases (s.rt_tbl.num_entries == 0)) [
  | inl e ↦ rw e refl
  | inr e ↦ rw (e, log_table-pushed s v) refl
]
