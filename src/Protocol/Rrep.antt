-- ===== src/Protocol/Rrep.antt =====
-- aodv_rrep.c: the route replies.
use aodv.Base.{
  ℕ, ◌+◌, Bool, true, false, not, ◌&&◌, ◌||◌, Option, none, some, ℤ, pos, sub_ℕ, ltb, s32_lt, ◌==◌,
  if◌then◌else◌,
}
use aodv.Timer.{hello_timer, ack_timer}
use aodv.Msg.{Rrep, rrep, rrep_ack, rrep_size, aodv_broadcast}
use aodv.Node.{
  ⊤, M, pure, skip, when, get, modify, ◌>>=◌, ◌>>◌, is_used, remove_timer, set_timeout, no_flags,
  valid, is_valid, RtEntry,
}
use aodv.Socket.{aodv_socket_new_msg, aodv_socket_queue_msg, aodv_socket_send}
use aodv.Routing.Table.{deref, write_rt, rt_table_check}
use aodv.Routing.Rerr.{rerr_create}
use aodv.Routing.Route.{rt_table_insert, rt_table_update_timeout, precursor_add}
use aodv.Routing.Neighbor.{rt_table_update, neighbor_link_break, send_rerr}

-- NEXT_HOP_WAIT and MAXTTL
abbrev pub next_hop_wait : ℕ
next_hop_wait = 50

abbrev pub max_ttl : ℤ
max_ttl = pos 255

-- The flags RREP_REPAIR and RREP_ACK are 0 in every call.
unfoldable pub rrep_create : ℕ → ℕ → ℕ → ℕ → ℕ → ℕ → M ⊤
unfolding aodv_socket_new_msg
rrep_create prefix hopcnt dest_addr dest_seqno orig_addr life = do
  aodv_socket_new_msg
  modify λ s. record s {
    send_buf = rrep (record {
      r = false;
      a = false;
      prefix = prefix;
      hopcnt = hopcnt;
      dest_addr = dest_addr;
      dest_seqno = dest_seqno;
      orig_addr = orig_addr;
      lifetime = life;
    });
  }

unfoldable pub rrep_ack_create : M ⊤
unfolding aodv_socket_new_msg
rrep_ack_create = do aodv_socket_new_msg; modify λ s. record s { send_buf = rrep_ack }

abbrev pub drop_ack_timer : Option ℕ → M ⊤
drop_ack_timer none = skip
drop_ack_timer (some rt) = remove_timer (ack_timer rt)

unfoldable pub rrep_ack_process : ℕ → M ⊤
unfolding rt_table_check
rrep_ack_process ip_src = do rt ← rt_table_check ip_src; drop_ack_timer rt

-- An acknowledgement is awaited from the neighbor of a one-way link.
abbrev pub await_ack : Option ℕ → M ⊤
await_ack none = skip
await_ack (some neighbor) = do
  n ← deref neighbor
  used ← is_used (ack_timer neighbor)
  when (is_valid n.state && not used) (do
    write_rt neighbor λ x. record x { flags = record (x.flags) { unidir = true } }
    remove_timer (hello_timer neighbor)
    neighbor_link_break neighbor
    set_timeout (ack_timer neighbor) (pos next_hop_wait))

abbrev pub add_precursors : ℕ → ℕ → M ⊤
add_precursors fwd_rt rev_rt = do
  rev ← deref rev_rt
  precursor_add fwd_rt rev.next_hop
  fwd ← deref fwd_rt
  precursor_add rev_rt fwd.next_hop

abbrev pub if_fwd : Option ℕ → ℕ → M ⊤
if_fwd none rev_rt = skip
if_fwd (some fwd_rt) rev_rt = add_precursors fwd_rt rev_rt

-- What goes out is `send_buf`, also where `neighbor_link_break` has put a RERR there since.
unfoldable pub rrep_send : Option ℕ → Option ℕ → ℕ → M ⊤
unfolding rt_table_check neighbor_link_break aodv_socket_send precursor_add
rrep_send none fwd_rt len = skip
rrep_send (some rev_rt) fwd_rt len = do
  e ← deref rev_rt
  when (is_valid e.state && e.flags.unidir)
      (do neighbor ← rt_table_check e.next_hop; await_ack neighbor)
  e' ← deref rev_rt
  aodv_socket_send e'.next_hop len max_ttl
  if_fwd fwd_rt rev_rt

-- The RREP as rrep_forward changes it in the receive buffer.
abbrev pub mark_neighbor : Option ℕ → Rrep → M Rrep
mark_neighbor none m = pure m
mark_neighbor (some neighbor) m = do
  used ← is_used (ack_timer neighbor)
  if used then pure m else (do
    write_rt neighbor λ x. record x { flags = record (x.flags) { unidir = true } }
    set_timeout (ack_timer neighbor) (pos next_hop_wait)
    pure (record m { a = true }))

-- rrep_forward for routes that are not NULL.
unfoldable pub rrep_forward : Rrep → ℕ → ℕ → ℕ → ℤ → M ⊤
unfolding rt_table_check aodv_socket_queue_msg aodv_socket_send precursor_add
    rt_table_update_timeout
rrep_forward m len rev_rt fwd_rt ttl = do
  rev ← deref rev_rt
  neighbor ←
      (if not (rev.dest_addr == rev.next_hop)
        then rt_table_check rev.next_hop
        else pure (some rev_rt))
  m' ← mark_neighbor neighbor m
  fwd ← deref fwd_rt
  aodv_socket_queue_msg (rrep (record m' { hopcnt = fwd.hopcnt }))
  aodv_socket_send rev.next_hop len ttl
  add_precursors fwd_rt rev_rt
  s ← get
  rt_table_update_timeout rev_rt s.conf.active_route_timeout

-- The entry before the update: `pre_repair_hcnt` and the RT_REPAIR of `pre_repair_flags`.
pub record PreRepair : Type 0 where
  pub hcnt : ℕ
  pub repair : Bool

-- Whether a RREP is news for the entry of its destination.
abbrev pub rrep_is_news : Rrep → RtEntry → Bool
rrep_is_news m e =
    e.dest_seqno == 0
    || s32_lt e.dest_seqno m.dest_seqno
    || (m.dest_seqno == e.dest_seqno
        && (not (is_valid e.state) || e.flags.unidir || ltb (m.hopcnt + 1) e.hopcnt))

-- The forward route, made or updated; `none` if the RREP is dropped.
abbrev pub forward_route : Rrep → ℕ → Option ℕ → M (Option PreRepair)
forward_route m ip_src none = do
  new ← rt_table_insert m.dest_addr ip_src (m.hopcnt + 1) m.dest_seqno m.lifetime valid no_flags
  pure (some (record { hcnt = 0; repair = false }))
forward_route m ip_src (some fwd_rt) = do
  e ← deref fwd_rt
  if rrep_is_news m e
      then (do
        rt_table_update fwd_rt ip_src (m.hopcnt + 1) m.dest_seqno m.lifetime valid e.flags
        pure (some (record { hcnt = e.hopcnt; repair = e.flags.repair })))
      else pure none

-- The length of the acknowledgement is NEXT_HOP_WAIT in the source.
unfoldable pub acknowledge : Rrep → ℕ → M ⊤
unfolding rrep_ack_create aodv_socket_send
acknowledge m fwd_rt =
    when m.a
      (do rrep_ack_create; e ← deref fwd_rt; aodv_socket_send e.next_hop next_hop_wait max_ttl)

-- A RREP for this host, which may have made a repaired route longer.
unfoldable pub rrep_for_us : PreRepair → ℕ → M ⊤
unfolding rerr_create send_rerr
rrep_for_us pre fwd_rt = do
  e ← deref fwd_rt
  when (pre.repair && ltb pre.hcnt e.hopcnt) (do
    rerr_create true e.dest_addr e.dest_seqno
    when (not (e.nprecursor == 0)) (send_rerr aodv_broadcast))

abbrev pub forward_rrep : Rrep → ℕ → Option ℕ → ℤ → M ⊤
forward_rrep m len none ttl = skip
forward_rrep m len (some rev_rt) ttl = do
  e ← deref rev_rt
  when (is_valid e.state) (rrep_forward m len rev_rt m.dest_addr ttl)

abbrev pub deliver_rrep : Rrep → ℕ → Option ℕ → ℕ → Option PreRepair → M ⊤
deliver_rrep m len rev_rt ip_ttl none = skip
deliver_rrep m len rev_rt ip_ttl (some pre) = do
  s ← get
  acknowledge m m.dest_addr
  if m.orig_addr == s.this_host.ipaddr
      then rrep_for_us pre m.dest_addr
      else forward_rrep (record m { a = false }) len rev_rt (sub_ℕ ip_ttl 1)

unfoldable pub rrep_process : Rrep → ℕ → ℕ → ℕ → M ⊤
unfolding rt_table_check rt_table_insert rt_table_update acknowledge rrep_for_us rrep_forward
rrep_process m len ip_src ip_ttl = do
  s ← get
  if ltb len rrep_size || m.dest_addr == s.this_host.ipaddr then skip else (do
    fwd_rt ← rt_table_check m.dest_addr
    rev_rt ← rt_table_check m.orig_addr
    pre ← forward_route m ip_src fwd_rt
    deliver_rrep m len rev_rt ip_ttl pre)
