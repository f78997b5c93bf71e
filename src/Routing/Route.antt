-- ===== src/Routing/Route.antt =====
-- routing_table.c: the operations on one route, and the precursors.
use aodv.Base.{
  ℕ, ◌+◌, Bool, true, false, not, ◌&&◌, ◌||◌, Option, none, some, List, [], ◌∷◌, pos, ltb_ℤ, to_u8,
  ◌==◌, is_some, if◌then◌else◌,
}
use aodv.Timer.{
  zero_time, timeval_diff, timeval_add_msec, rt_timer, ack_timer, hello_timer, set_handler,
  route_expire_timeout, route_delete_timeout, local_repair_timeout, rrep_ack_timeout, hello_timeout,
}
use aodv.Node.{
  ⊤, M, pure, skip, when, get, ◌>>=◌, ◌>>◌, gettimeofday, on_timers, is_used, init_timer,
  remove_timer, set_timeout, RtFlags, RtState, invalid, is_valid, RtEntry, inc_u32, dec_u32,
}
use aodv.Netlink.{nl_send_add_route_msg, nl_send_del_route_msg}
use aodv.Routing.Table.{
  hashing, find, deref, on_table, write_rt, link_entry, unlink_table, rt_table_check, for_buckets,
  rt_tablesize,
}
use aodv.Routing.Seek.{seek_list_check, seek_list_remove}

-- The macro seqno_incr: 0 stays 0, and the largest value is followed by 1.
unfoldable pub seqno_incr : ℕ → ℕ
seqno_incr s = if s == 0 then 0 else if s == 4294967295 then 1 else s + 1

abbrev pub new_entry : ℕ → ℕ → ℕ → ℕ → RtState → RtFlags → RtEntry
new_entry dest next hops seqno state flags = record {
  dest_addr = dest;
  dest_seqno = seqno;
  next_hop = next;
  hopcnt = to_u8 hops;
  flags = flags;
  state = state;
  last_hello_time = zero_time;
  hello_cnt = 0;
  hash = dest;
  nprecursor = 0;
  precursors = [];
}

abbrev incr_active : M ⊤
incr_active = on_table λ t. record t { num_active = inc_u32 t.num_active }

abbrev pub decr_active : M ⊤
decr_active = on_table λ t. record t { num_active = dec_u32 t.num_active }

-- A valid route ends the discovery of its destination.
unfoldable pub end_seek : ℕ → M ⊤
unfolding seek_list_check seek_list_remove
end_seek dest = do entry ← seek_list_check dest; seek_list_remove entry; skip

-- The lifetime of a new entry: that of an invalid one is set by the handler that waits for it.
unfoldable pub start_route : ℕ → ℕ → ℕ → ℕ → RtState → RtFlags → M ℕ
unfolding nl_send_add_route_msg
start_route dest next hops lifetime state flags = do
  s ← get
  if is_valid state
      then (do
        incr_active
        nl_send_add_route_msg dest next hops lifetime flags s.this_host.ifindex
        pure lifetime)
      else if flags.repair
      then (do
        on_timers (set_handler (rt_timer dest) local_repair_timeout)
        pure s.conf.active_route_timeout)
      else (do
        on_timers (set_handler (rt_timer dest) route_delete_timeout)
        pure s.conf.delete_period)

-- The part of rt_table_insert that allocates and links the entry.
unfoldable pub link_route : ℕ → ℕ → ℕ → ℕ → RtState → RtFlags → M ⊤
unfolding link_entry
link_route dest next hops seqno state flags = do
  init_timer (rt_timer dest) route_expire_timeout
  init_timer (ack_timer dest) rrep_ack_timeout
  init_timer (hello_timer dest) hello_timeout
  on_table λ t. record t { num_entries = inc_u32 t.num_entries }
  on_table (link_entry (new_entry dest next hops seqno state flags))

-- rt_table_insert; `none` is the NULL for a destination that is in the table.
unfoldable pub rt_table_insert : ℕ → ℕ → ℕ → ℕ → ℕ → RtState → RtFlags → M (Option ℕ)
unfolding find link_route start_route end_seek
rt_table_insert dest next hops seqno lifetime state flags = do
  s ← get
  if is_some (find dest (s.rt_tbl.tbl (hashing dest))) then pure none else (do
    link_route dest next hops seqno state flags
    life ← start_route dest next hops lifetime state flags
    when (not (life == 0)) (set_timeout (rt_timer dest) (pos life))
    when (is_valid state) (end_seek dest)
    pure (some dest))

-- rt_table_update_timeout: a valid route is prolonged, never shortened.
unfoldable pub rt_table_update_timeout : ℕ → ℕ → M ⊤
unfolding gettimeofday
rt_table_update_timeout rt lifetime = do
  e ← deref rt
  when (is_valid e.state) (do
    now ← gettimeofday
    s ← get
    let old = (s.timer.timers (rt_timer rt)).timeout
    when (ltb_ℤ (timeval_diff old (timeval_add_msec now lifetime)) (pos 0))
        (set_timeout (rt_timer rt) (pos lifetime)))

-- The route to the next hop of `rt`, which is prolonged with `rt` while its HELLOs are awaited.
abbrev pub prolong_next_hop : ℕ → Option ℕ → M ⊤
prolong_next_hop rt none = skip
prolong_next_hop rt (some hop) = do
  s ← get
  n ← deref hop
  e ← deref rt
  used ← is_used (hello_timer rt)
  when (is_valid n.state && not (n.dest_addr == e.dest_addr) && used)
      (rt_table_update_timeout hop s.conf.active_route_timeout)

abbrev pub prolong_fwd : ℕ → M ⊤
prolong_fwd rt = do
  s ← get
  e ← deref rt
  used ← is_used (hello_timer rt)
  when (is_valid e.state) (do
    when (e.flags.inet_dest || not (e.hopcnt == 1) || used)
        (rt_table_update_timeout rt s.conf.active_route_timeout)
    hop ← rt_table_check e.next_hop
    prolong_next_hop rt hop)

-- The source tests `hello_cnt` here, where the forward route's test is on `hopcnt`.
abbrev pub prolong_rev : ℕ → M ⊤
prolong_rev rt = do
  s ← get
  e ← deref rt
  used ← is_used (hello_timer rt)
  when (is_valid e.state) (do
    when (not (e.hello_cnt == 1) || used) (rt_table_update_timeout rt s.conf.active_route_timeout)
    hop ← rt_table_check e.next_hop
    prolong_next_hop rt hop)

abbrev pub if_some : Option ℕ → (ℕ → M ⊤) → M ⊤
if_some none f = skip
if_some (some p) f = f p

unfoldable pub rt_table_update_route_timeouts : Option ℕ → Option ℕ → M ⊤
unfolding rt_table_update_timeout rt_table_check
rt_table_update_route_timeouts fwd_rt rev_rt = do
  if_some fwd_rt prolong_fwd
  if_some rev_rt prolong_rev

-- What rt_table_invalidate writes to the entry.
abbrev pub invalidated : RtEntry → RtEntry
invalidated e = record e {
  state = invalid;
  hello_cnt = 0;
  dest_seqno = seqno_incr e.dest_seqno;
  last_hello_time = zero_time;
}

abbrev pub remove_timers : ℕ → M ⊤
remove_timers rt = do
  remove_timer (rt_timer rt)
  remove_timer (hello_timer rt)
  remove_timer (ack_timer rt)

-- The end of rt_table_invalidate: how long the invalid entry is kept.
unfoldable pub keep_invalid : ℕ → M ⊤
keep_invalid rt = do
  s ← get
  e ← deref rt
  if e.flags.repair
      then (do
        on_timers (set_handler (rt_timer rt) local_repair_timeout)
        set_timeout (rt_timer rt) (pos s.conf.active_route_timeout))
      else (do
        on_timers (set_handler (rt_timer rt) route_delete_timeout)
        set_timeout (rt_timer rt) (pos s.conf.delete_period))

-- rt_table_invalidate; `true` is 0, `false` is the -1 for a route that is invalid already.
unfoldable pub rt_table_invalidate : ℕ → M Bool
unfolding gettimeofday nl_send_del_route_msg keep_invalid
rt_table_invalidate rt = do
  now ← gettimeofday
  e ← deref rt
  if is_valid e.state
      then (do
        remove_timers rt
        write_rt rt invalidated
        decr_active
        nl_send_del_route_msg e.dest_addr e.next_hop e.hopcnt
        keep_invalid rt
        pure true)
      else pure false

abbrev pub member : ℕ → List ℕ → Bool
member a [] = false
member a (p ∷ l) = if p == a then true else member a l

unfoldable pub add_precursor : ℕ → RtEntry → RtEntry
add_precursor addr e =
    if member addr e.precursors
    then e
    else record e { precursors = addr ∷ e.precursors; nprecursor = inc_u32 e.nprecursor }

unfoldable pub precursor_add : ℕ → ℕ → M ⊤
unfolding add_precursor
precursor_add rt addr = write_rt rt (add_precursor addr)

abbrev pub erase : ℕ → List ℕ → List ℕ
erase a [] = []
erase a (p ∷ l) = if p == a then l else p ∷ erase a l

unfoldable pub remove_precursor : ℕ → RtEntry → RtEntry
remove_precursor addr e =
    if member addr e.precursors
    then record e { precursors = erase addr e.precursors; nprecursor = dec_u32 e.nprecursor }
    else e

unfoldable pub precursor_remove : ℕ → ℕ → M ⊤
unfolding remove_precursor
precursor_remove rt addr = write_rt rt (remove_precursor addr)

-- One round of the loop for each precursor.
abbrev pub count_down : List ℕ → ℕ → ℕ
count_down [] n = n
count_down (p ∷ l) n = count_down l (dec_u32 n)

unfoldable pub drop_precursors : RtEntry → RtEntry
drop_precursors e = record e { precursors = []; nprecursor = count_down e.precursors e.nprecursor }

unfoldable pub precursor_list_destroy : ℕ → M ⊤
unfolding drop_precursors
precursor_list_destroy rt = write_rt rt drop_precursors

-- rt_table_delete: the entry is unlinked first, and read through its pointer after that.
unfoldable pub rt_table_delete : ℕ → M ⊤
unfolding nl_send_del_route_msg unlink_table
rt_table_delete rt = do
  e ← deref rt
  on_table (unlink_table rt)
  when (is_valid e.state) (do nl_send_del_route_msg e.dest_addr e.next_hop e.hopcnt; decr_active)
  remove_timers rt
  on_table λ t. record t { num_entries = dec_u32 t.num_entries }

unfoldable pub rt_table_destroy : M ⊤
unfolding rt_table_delete for_buckets
rt_table_destroy = for_buckets rt_tablesize 0 (λ rt v. rt_table_delete rt) tt
