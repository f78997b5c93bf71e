-- ===== src/Routing/Neighbor.antt =====
-- aodv_neighbor.c: the break of a link; rt_table_update of routing_table.c, which calls it;
-- neighbor_add, with hello_update_timeout of aodv_hello.c.
use aodv.Base.{
  ℕ, ◌+◌, Bool, true, false, not, ◌&&◌, Option, none, some, List, [], ◌∷◌, pos, to_u8, ltb, leb,
  ◌==◌, if◌then◌else◌,
}
use aodv.Timer.{Timeval, zero_time, rt_timer, hello_timer, set_handler, route_expire_timeout}
use aodv.Msg.{aodv_broadcast}
use aodv.Node.{
  ⊤, M, pure, when, get, ◌>>=◌, ◌>>◌, gettimeofday, on_timers, is_used, remove_timer, set_timeout,
  RtFlags, RtState, valid, is_valid, inc_u32, no_flags,
}
use aodv.Netlink.{nl_send_add_route_msg}
use aodv.Socket.{aodv_socket_send}
use aodv.Routing.Table.{deref, on_table, write_rt, rt_table_check, for_buckets, rt_tablesize}
use aodv.Routing.Rerr.{rerr_create, rerr_add_udest, buffer_size}
use aodv.Routing.Route.{
  rt_table_insert, rt_table_update_timeout, rt_table_invalidate, precursor_list_destroy, end_seek,
}

-- MAX_REPAIR_TTL, 3 * NET_DIAMETER / 10
abbrev pub max_repair_ttl : ℕ
max_repair_ttl = 10

-- The locals of a function that builds a RERR: whether `rerr` is not NULL, and the address
-- `rerr_unicast_dest`, which is 0 if the RERR is to be broadcast.
pub record Pending : Type 0 where
  pub rerr : Bool
  pub unicast : ℕ

abbrev pub no_pending : Pending
no_pending = record { rerr = false; unicast = 0 }

-- FIRST_PREC
abbrev first_prec : List ℕ → ℕ
first_prec [] = 0
first_prec (p ∷ l) = p

-- The loop over the precursors that ends at one that is not the unicast destination.
abbrev pub same_precursors : ℕ → List ℕ → Bool
same_precursors u [] = true
same_precursors u (p ∷ l) = if p == u then same_precursors u l else false

-- An unreachable destination opens the RERR, or is added to it. `n` is the flag of a new RERR.
unfoldable pub report_udest : Bool → ℕ → Pending → M Pending
unfolding rerr_create rerr_add_udest
report_udest n rt v = do
  e ← deref rt
  if v.rerr
      then (do
        rerr_add_udest e.dest_addr e.dest_seqno
        pure (record v {
          unicast = if same_precursors v.unicast e.precursors then v.unicast else 0;
        }))
      else (do
        rerr_create n e.dest_addr e.dest_seqno
        pure (record {
          rerr = true;
          unicast = if e.nprecursor == 1 then first_prec e.precursors else v.unicast;
        }))

-- Sends the RERR in the buffer.
unfoldable pub send_rerr : ℕ → M ⊤
unfolding aodv_socket_send
send_rerr dest = do len ← buffer_size; aodv_socket_send dest len (pos 1)

-- The body of the loop of neighbor_link_break for one entry of the table.
unfoldable pub break_route : ℕ → ℕ → Pending → M Pending
unfolding rt_table_invalidate precursor_list_destroy report_udest
break_route rt rt_u v = do
  e ← deref rt
  u ← deref rt_u
  if is_valid u.state && u.next_hop == e.dest_addr && not (u.dest_addr == e.dest_addr)
      then (if e.flags.repair && leb u.hopcnt max_repair_ttl
          then (do
            write_rt rt_u λ x. record x { flags = record (x.flags) { repair = true } }
            rt_table_invalidate rt_u
            pure v)
          else (do
            rt_table_invalidate rt_u
            u' ← deref rt_u
            v' ← (if u'.nprecursor == 0 then pure v else report_udest false rt_u v)
            precursor_list_destroy rt_u
            pure v'))
      else pure v

-- `rt_u` is looked up, and `rt`, which is not NULL, is tested: so the RERR always goes out.
unfoldable pub finish_break : Pending → M ⊤
unfolding send_rerr
finish_break v = when v.rerr (send_rerr (if v.unicast == 0 then aodv_broadcast else v.unicast))

unfoldable pub neighbor_link_break : ℕ → M ⊤
unfolding break_route finish_break for_buckets
neighbor_link_break rt = do
  e ← deref rt
  when (e.hopcnt == 1) (do
    rt_table_invalidate rt
    e' ← deref rt
    v ←
        (if not (e'.nprecursor == 0) && not e'.flags.repair
          then report_udest false rt no_pending
          else pure no_pending)
    when (not e'.flags.repair) (precursor_list_destroy rt)
    v' ← for_buckets rt_tablesize 0 (break_route rt) v
    finish_break v')

-- The first test of rt_table_update: the kernel hears of a new route or a new next hop. The result
-- is `flags`, less RT_REPAIR if the route was under repair.
unfoldable pub announce : ℕ → ℕ → ℕ → ℕ → RtState → RtFlags → M RtFlags
unfolding nl_send_add_route_msg
announce rt next hops lifetime state flags = do
  s ← get
  e ← deref rt
  if not (is_valid e.state) && is_valid state
      then (do
        on_table λ t. record t { num_active = inc_u32 t.num_active }
        let flags' = (if e.flags.repair then record flags { repair = false } else flags)
        nl_send_add_route_msg e.dest_addr next hops lifetime flags' s.this_host.ifindex
        pure flags')
      else if not (e.next_hop == 0) && not (e.next_hop == next)
      then (do
        nl_send_add_route_msg e.dest_addr next hops lifetime flags s.this_host.ifindex
        pure flags)
      else pure flags

-- The second test: a neighbor that is now further away.
unfoldable pub leave_neighbor : ℕ → ℕ → M ⊤
unfolding neighbor_link_break
leave_neighbor rt hops = do
  e ← deref rt
  when (ltb 1 hops && e.hopcnt == 1) (do
    write_rt rt λ x. record x { last_hello_time = zero_time; hello_cnt = 0 }
    remove_timer (hello_timer rt)
    neighbor_link_break rt)

unfoldable pub rt_table_update : ℕ → ℕ → ℕ → ℕ → ℕ → RtState → RtFlags → M ℕ
unfolding announce leave_neighbor rt_table_update_timeout end_seek
rt_table_update rt next hops seqno lifetime state flags = do
  flags' ← announce rt next hops lifetime state flags
  leave_neighbor rt hops
  write_rt rt
      λ x. record x { flags = flags'; dest_seqno = seqno; next_hop = next; hopcnt = to_u8 hops }
  on_timers (set_handler (rt_timer rt) route_expire_timeout)
  when (not flags'.inet_dest) (rt_table_update_timeout rt lifetime)
  write_rt rt λ x. record x { state = state }
  when (is_valid state) (end_seek rt)
  pure rt

-- HELLO_DELAY is 50.
unfoldable pub hello_update_timeout : ℕ → Timeval → ℕ → M ⊤
hello_update_timeout rt now time = do
  set_timeout (hello_timer rt) (pos (time + 50))
  write_rt rt λ x. record x { last_hello_time = now }

-- ALLOWED_HELLO_LOSS * HELLO_INTERVAL
abbrev pub hello_loss_time : ℕ
hello_loss_time = 2000

abbrev pub refresh_hello : Timeval → ℕ → M ⊤
refresh_hello now rt = do
  used ← is_used (hello_timer rt)
  when used (hello_update_timeout rt now hello_loss_time)

abbrev pub refresh_neighbor : ℕ → Option ℕ → Timeval → M ⊤
refresh_neighbor src none now = do
  s ← get
  new ← rt_table_insert src src 1 0 s.conf.active_route_timeout valid no_flags
  refresh_hello now src
refresh_neighbor src (some rt) now = do
  s ← get
  e ← deref rt
  when (not e.flags.unidir) (do
    rt_table_update rt src 1 e.dest_seqno s.conf.active_route_timeout valid e.flags
    refresh_hello now rt)

unfoldable pub neighbor_add : ℕ → M ⊤
unfolding gettimeofday rt_table_insert rt_table_update rt_table_check hello_update_timeout
neighbor_add src = do now ← gettimeofday; found ← rt_table_check src; refresh_neighbor src found now
