-- ===== src/Protocol/Rreq.antt =====
-- aodv_rreq.c: the route requests, the discovery of a route and its local repair.
use aodv.Base.{
  ℕ, ◌+◌, ◌-◌, ◌*◌, is_some, Bool, not, ◌&&◌, ◌||◌, Option, none, some, pos, ltb, ltb_ℤ, ◌==◌,
  if◌then◌else◌, s32_lt, s32_le, to_u8, sub_u32, of_ℤ,
}
use Prim.Native.Nat.{max, ◌/◌}
use aodv.Timer.{Timeval, timeval_diff, rt_timer, seek_timer, set_handler, Handler}
use aodv.Msg.{Rreq, RreqFlags, no_rreq_flags, rreq, rreq_size, rrep_size, aodv_broadcast}
use aodv.Node.{
  ⊤, M, pure, skip, when, get, on_host, on_timers, ◌>>=◌, ◌>>◌, gettimeofday, set_timeout, no_flags,
  valid, is_valid, RtEntry, inc_u32,
}
use aodv.Socket.{aodv_socket_new_msg, aodv_socket_queue_msg, aodv_socket_send}
use aodv.Routing.Table.{deref, rt_table_check}
use aodv.Routing.Seek.{seek_list_check, seek_list_insert}
use aodv.Routing.Route.{rt_table_insert, rt_table_update_timeout, seqno_incr}
use aodv.Routing.Neighbor.{rt_table_update}
use aodv.Protocol.Records.{
  rreq_record_check, rreq_record_insert, rreq_blacklist_check, path_discovery_time,
}
use aodv.Protocol.Rrep.{rrep_create, rrep_send}

-- NET_DIAMETER, NET_TRAVERSAL_TIME and RING_TRAVERSAL_TIME
abbrev pub net_diameter : ℕ
net_diameter = 35

abbrev pub net_traversal_time : ℕ
net_traversal_time = 2800

abbrev pub ring_traversal_time : ℕ → ℕ
ring_traversal_time ttl = 2 * 40 * (ttl + 2)

abbrev pub incr_rreq_id : M ⊤
incr_rreq_id = on_host λ h. record h { rreq_id = inc_u32 h.rreq_id }

abbrev pub incr_seqno : M ⊤
incr_seqno = on_host λ h. record h { seqno = seqno_incr h.seqno }

unfoldable pub rreq_create : RreqFlags → ℕ → ℕ → ℕ → M ⊤
unfolding aodv_socket_new_msg seqno_incr
rreq_create flags dest_addr dest_seqno orig_addr = do
  aodv_socket_new_msg
  s ← get
  incr_rreq_id
  incr_seqno
  s' ← get
  aodv_socket_queue_msg (
      rreq (record {
        flags = flags;
        hopcnt = 0;
        rreq_id = s.this_host.rreq_id;
        dest_addr = dest_addr;
        dest_seqno = dest_seqno;
        orig_addr = orig_addr;
        orig_seqno = s'.this_host.seqno;
      }))

unfoldable pub rreq_send : ℕ → ℕ → ℕ → RreqFlags → M ⊤
unfolding rreq_create aodv_socket_send
rreq_send dest_addr dest_seqno ttl flags = do
  s ← get
  when s.this_host.enabled (do
    rreq_create flags dest_addr dest_seqno s.this_host.ipaddr
    aodv_socket_send aodv_broadcast rreq_size (pos ttl))

unfoldable pub rreq_forward : Rreq → ℕ → ℕ → M ⊤
unfolding aodv_socket_queue_msg aodv_socket_send
rreq_forward m len ttl = do
  aodv_socket_queue_msg (rreq (record m { hopcnt = to_u8 (m.hopcnt + 1) }))
  aodv_socket_send aodv_broadcast len (pos ttl)

-- PATH_DISCOVERY_TIME - 2 * rreq_new_hopcnt * NODE_TRAVERSAL_TIME, on u32_t.
abbrev pub reverse_life : ℕ → ℕ
reverse_life hopcnt = sub_u32 path_discovery_time (2 * hopcnt * 40)

-- Whether a RREQ is news for the entry of its originator.
abbrev pub rreq_is_news : Rreq → RtEntry → Bool
rreq_is_news m e =
    e.dest_seqno == 0
    || s32_lt e.dest_seqno m.orig_seqno
    || (m.orig_seqno == e.dest_seqno && (not (is_valid e.state) || ltb (m.hopcnt + 1) e.hopcnt))

abbrev pub update_reverse : Rreq → ℕ → Option ℕ → M ⊤
update_reverse m ip_src none = do
  new ←
      rt_table_insert m.orig_addr ip_src (m.hopcnt + 1) m.orig_seqno (reverse_life (m.hopcnt + 1))
        valid no_flags
  skip
update_reverse m ip_src (some rev_rt) = do
  e ← deref rev_rt
  when (rreq_is_news m e) (do
    rt_table_update rev_rt ip_src (m.hopcnt + 1) m.orig_seqno (reverse_life (m.hopcnt + 1)) valid
        e.flags
    skip)

-- The reverse route to the originator.
unfoldable pub reverse_route : Rreq → ℕ → M ⊤
unfolding rt_table_check rt_table_insert rt_table_update
reverse_route m ip_src = do rev_rt ← rt_table_check m.orig_addr; update_reverse m ip_src rev_rt

-- The sequence number of the destination, before it answers.
abbrev pub answer_seqno : ℕ → ℕ → ℕ
answer_seqno own dest_seqno =
    if dest_seqno == 0
    then own
    else if s32_lt own dest_seqno
    then dest_seqno
    else if own == dest_seqno
    then seqno_incr own
    else own

-- The answer of the destination itself; MY_ROUTE_TIMEOUT is twice the active route timeout.
unfoldable pub answer_as_dest : Rreq → M ⊤
unfolding rrep_create rrep_send seqno_incr
answer_as_dest m = do
  on_host λ h. record h { seqno = answer_seqno h.seqno m.dest_seqno }
  s ← get
  rrep_create 0 0 s.this_host.ipaddr s.this_host.seqno m.orig_addr (2 * s.conf.active_route_timeout)
  rrep_send (some m.orig_addr) none rrep_size

-- The answer of a node with a route, with the gratuitous RREP to the destination.
unfoldable pub answer_with_route : Rreq → Timeval → M ⊤
unfolding rrep_create rrep_send
answer_with_route m now = do
  fwd ← deref m.dest_addr
  s ← get
  let lifetime = of_ℤ (timeval_diff (s.timer.timers (rt_timer m.dest_addr)).timeout now)
  rrep_create 0 fwd.hopcnt fwd.dest_addr fwd.dest_seqno m.orig_addr lifetime
  rrep_send (some m.orig_addr) (some m.dest_addr) rrep_size
  when m.flags.g (do
    rev ← deref m.orig_addr
    rrep_create 0 rev.hopcnt rev.dest_addr rev.dest_seqno m.dest_addr lifetime
    rrep_send (some m.dest_addr) (some m.orig_addr) rrep_size)

-- The label `forward`; a newer sequence number of the route goes into the RREQ.
abbrev pub newest_seqno : Rreq → Option ℕ → M Rreq
newest_seqno m none = pure m
newest_seqno m (some fwd_rt) = do
  fwd ← deref fwd_rt
  if not fwd.flags.inet_dest && s32_lt m.dest_seqno fwd.dest_seqno
      then pure (record m { dest_seqno = fwd.dest_seqno })
      else pure m

unfoldable pub forward_rreq : Rreq → ℕ → Option ℕ → ℕ → M ⊤
unfolding rreq_forward
forward_rreq m len fwd_rt ip_ttl =
    when (ltb 1 ip_ttl) (do m' ← newest_seqno m fwd_rt; rreq_forward m' len (ip_ttl - 1))

-- Whether the route is new enough to answer for the destination.
abbrev pub can_answer : Rreq → RtEntry → Bool
can_answer m fwd = not (fwd.dest_seqno == 0) && s32_le m.dest_seqno fwd.dest_seqno

abbrev pub answer_or_forward : Rreq → ℕ → Option ℕ → ℕ → M ⊤
answer_or_forward m len none ip_ttl = forward_rreq m len none ip_ttl
answer_or_forward m len (some fwd_rt) ip_ttl = do
  fwd ← deref fwd_rt
  if is_valid fwd.state && not m.flags.d
      then (do
        now ← gettimeofday
        if can_answer m fwd
            then answer_with_route m now
            else forward_rreq m len (some fwd_rt) ip_ttl)
      else forward_rreq m len (some fwd_rt) ip_ttl

-- rreq_process from the reverse route on.
unfoldable pub rreq_accept : Rreq → ℕ → ℕ → ℕ → M ⊤
unfolding reverse_route answer_as_dest answer_with_route forward_rreq rt_table_check gettimeofday
rreq_accept m len ip_src ip_ttl = do
  reverse_route m ip_src
  s ← get
  if m.dest_addr == s.this_host.ipaddr
      then answer_as_dest m
      else (do fwd_rt ← rt_table_check m.dest_addr; answer_or_forward m len fwd_rt ip_ttl)

unfoldable pub rreq_process : Rreq → ℕ → ℕ → ℕ → M ⊤
unfolding rreq_accept rreq_blacklist_check rreq_record_check rreq_record_insert
rreq_process m len ip_src ip_ttl = do
  s ← get
  black ← rreq_blacklist_check ip_src
  seen ← rreq_record_check m.orig_addr m.rreq_id
  if m.orig_addr == s.this_host.ipaddr || ltb len rreq_size || black || seen
      then skip
      else (do rreq_record_insert m.orig_addr m.rreq_id; rreq_accept m len ip_src ip_ttl)

-- A route whose timer ends soon is kept while it is sought.
unfoldable pub hold_route : ℕ → Timeval → M ⊤
unfolding rt_table_update_timeout
hold_route rt now = do
  s ← get
  let left = timeval_diff (s.timer.timers (rt_timer rt)).timeout now
  when (ltb_ℤ left (pos (2 * net_traversal_time)))
      (rt_table_update_timeout rt (2 * net_traversal_time))

-- The sequence number and the TTL of a RREQ for a destination with or without an entry.
abbrev pub seek_params : Option ℕ → Timeval → M (ℕ × ℕ)
seek_params none now = do
  s ← get
  pure (0, if s.conf.expanding_ring_search then s.conf.ttl_start else net_diameter)
seek_params (some rt) now = do
  s ← get
  e ← deref rt
  hold_route rt now
  pure (e.dest_seqno, if s.conf.expanding_ring_search then e.hopcnt + 2 else net_diameter)

-- Sends a RREQ and waits for its answer.
unfoldable pub start_seek : ℕ → ℕ → ℕ → RreqFlags → ℕ → M ⊤
unfolding rreq_send seek_list_insert
start_seek dest_addr dest_seqno ttl flags ring_time = do
  rreq_send dest_addr dest_seqno ttl flags
  entry ← seek_list_insert dest_addr dest_seqno ttl flags
  s ← get
  set_timeout (seek_timer dest_addr)
      (pos (if s.conf.expanding_ring_search then ring_time else net_traversal_time))

unfoldable pub rreq_route_discovery : ℕ → RreqFlags → M ⊤
unfolding gettimeofday seek_list_check rt_table_check hold_route start_seek
rreq_route_discovery dest_addr flags = do
  now ← gettimeofday
  seeking ← seek_list_check dest_addr
  if is_some seeking then skip else (do
    rt ← rt_table_check dest_addr
    (dest_seqno, ttl) ← seek_params rt now
    start_seek dest_addr dest_seqno ttl flags (ring_traversal_time ttl))

-- `(s32_t)(max(rt->hopcnt, 0.5 * rt_entry->hopcnt) + LOCAL_ADD_TTL)`
abbrev pub repair_ttl : RtEntry → Option ℕ → M ℕ
repair_ttl e none = pure (e.hopcnt + 2)
repair_ttl e (some src_rt) = do o ← deref src_rt; pure (max e.hopcnt (o.hopcnt / 2) + 2)

unfoldable pub rreq_local_repair : ℕ → ℕ → M ⊤
unfolding gettimeofday seek_list_check rt_table_check hold_route start_seek
rreq_local_repair rt src_addr = do
  e ← deref rt
  seeking ← seek_list_check e.dest_addr
  if is_some seeking || not e.flags.repair then skip else (do
    now ← gettimeofday
    src_rt ← rt_table_check src_addr
    ttl ← repair_ttl e src_rt
    on_timers (set_handler (rt_timer rt) Handler.route_expire_timeout)
    hold_route rt now
    start_seek e.dest_addr e.dest_seqno ttl no_rreq_flags (2 * ttl * 40))
