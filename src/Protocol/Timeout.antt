-- ===== src/Protocol/Timeout.antt =====
-- aodv_timeout.c: the handlers of the timers, by the object that their timer serves.
use aodv.Base.{
  ℕ, ◌+◌, ◌*◌, true, false, not, ◌&&◌, some, List, ◌∷◌, pos, ltb, leb, ◌==◌, if◌then◌else◌,
}
use aodv.Timer.{
  Timeval, rt_timer, seek_timer, set_handler, TimerRef, ack_timer, hello_timer, bl_timer, rec_timer,
  own_hello_timer, worb_timer, rt_log_timer, Handler,
}
use aodv.Msg.{aodv_broadcast}
use aodv.Node.{
  ⊤, M, skip, when, get, modify, ◌>>=◌, ◌>>◌, gettimeofday, on_timers, set_timeout, is_valid,
  RtEntry,
}
use aodv.Netlink.{nl_send_del_route_msg, nl_send_no_route_found_msg}
use aodv.Routing.Table.{deref, write_rt, rt_table_check}
use aodv.Routing.Seek.{deref_seek, on_seek, seek_list_remove}
use aodv.Routing.Rerr.{rerr_create}
use aodv.Routing.Route.{rt_table_invalidate, rt_table_delete, precursor_list_destroy, if_some}
use aodv.Routing.Neighbor.{neighbor_link_break, send_rerr, max_repair_ttl}
use aodv.Protocol.Records.{remove_record, remove_addr, rreq_blacklist_insert}
use aodv.Protocol.Rreq.{
  hold_route, rreq_send, net_diameter, net_traversal_time, ring_traversal_time,
}
use aodv.Protocol.Hello.{hello_send}
use aodv.Log.Routes.{print_rt_table}

unfoldable pub rreq_record_timeout : ℕ → ℕ → M ⊤
unfolding remove_record
rreq_record_timeout a i = modify λ s. record s { rreq_records = remove_record a i s.rreq_records }

unfoldable pub rreq_blacklist_timeout : ℕ → M ⊤
unfolding remove_addr
rreq_blacklist_timeout a =
    modify λ s. record s { rreq_blacklists = remove_addr a s.rreq_blacklists }

abbrev pub first_or : ℕ → List ℕ → ℕ
first_or d l = elim l [ p ∷ _ ↦ p | _ ↦ d ]

-- The RERR about a route whose repair has failed.
abbrev pub rerr_of : RtEntry → M ⊤
rerr_of e = when (not (e.nprecursor == 0)) (do
  rerr_create false e.dest_addr e.dest_seqno
  send_rerr (if e.nprecursor == 1 then first_or 0 e.precursors else aodv_broadcast))

unfoldable pub local_repair_timeout : ℕ → M ⊤
unfolding nl_send_del_route_msg rerr_create send_rerr precursor_list_destroy
local_repair_timeout rt = do
  write_rt rt λ x. record x { flags = record (x.flags) { repair = false } }
  e ← deref rt
  nl_send_del_route_msg e.dest_addr e.next_hop e.hopcnt
  rerr_of e
  precursor_list_destroy rt
  s ← get
  on_timers (set_handler (rt_timer rt) Handler.route_delete_timeout)
  set_timeout (rt_timer rt) (pos s.conf.delete_period)

-- RREQ_RETRIES, and the TTL of the next ring: TTL_THRESHOLD is 7, TTL_INCREMENT is 2.
abbrev pub rreq_retries : ℕ
rreq_retries = 2

abbrev pub next_ttl : ℕ → ℕ
next_ttl ttl = if ltb ttl 7 then ttl + 2 else net_diameter

-- A further RREQ, in a wider ring.
unfoldable pub retry_discovery : ℕ → Timeval → M ⊤
unfolding rt_table_check hold_route rreq_send
retry_discovery entry now = do
  s ← get
  if s.conf.expanding_ring_search
      then (do
        on_seek entry λ e. record e { ttl = next_ttl e.ttl }
        e ← deref_seek entry
        set_timeout (seek_timer entry) (pos (ring_traversal_time e.ttl)))
      else (do
        e ← deref_seek entry
        set_timeout (seek_timer entry) (pos (e.rreq_cnt * 2 * net_traversal_time)))
  e ← deref_seek entry
  rt ← rt_table_check e.dest_addr
  if_some rt λ p. hold_route p now
  rreq_send e.dest_addr e.dest_seqno e.ttl e.flags
  on_seek entry λ x. record x { rreq_cnt = x.rreq_cnt + 1 }

abbrev pub fail_repair : ℕ → M ⊤
fail_repair rt = do e ← deref rt; when e.flags.repair (local_repair_timeout rt)

unfoldable pub give_up_discovery : ℕ → M ⊤
unfolding nl_send_no_route_found_msg rt_table_check seek_list_remove local_repair_timeout
give_up_discovery entry = do
  e ← deref_seek entry
  nl_send_no_route_found_msg e.dest_addr
  repair_rt ← rt_table_check e.dest_addr
  seek_list_remove (some entry)
  if_some repair_rt fail_repair

unfoldable pub route_discovery_timeout : ℕ → M ⊤
unfolding gettimeofday retry_discovery give_up_discovery
route_discovery_timeout entry = do
  now ← gettimeofday
  e ← deref_seek entry
  if ltb e.rreq_cnt rreq_retries then retry_discovery entry now else give_up_discovery entry

unfoldable pub route_expire_timeout : ℕ → M ⊤
unfolding neighbor_link_break rt_table_invalidate precursor_list_destroy
route_expire_timeout rt = do
  e ← deref rt
  if e.hopcnt == 1
      then neighbor_link_break rt
      else (do rt_table_invalidate rt; precursor_list_destroy rt)

unfoldable pub route_delete_timeout : ℕ → M ⊤
unfolding rt_table_delete
route_delete_timeout rt = rt_table_delete rt

unfoldable pub hello_timeout : ℕ → M ⊤
unfolding gettimeofday neighbor_link_break
hello_timeout rt = do
  now ← gettimeofday
  s ← get
  e ← deref rt
  when (is_valid e.state && not e.flags.unidir) (do
    when (s.conf.local_repair && leb e.hopcnt max_repair_ttl)
        (write_rt rt λ x. record x { flags = record (x.flags) { repair = true } })
    neighbor_link_break rt)

unfoldable pub rrep_ack_timeout : ℕ → M ⊤
unfolding rreq_blacklist_insert
rrep_ack_timeout rt = do e ← deref rt; rreq_blacklist_insert e.dest_addr

unfoldable pub wait_on_reboot_timeout : M ⊤
wait_on_reboot_timeout = modify λ s. record s { wait_on_reboot = false }

-- The destination that names the object of a timer: `t->data` for all but a record's timer.
abbrev pub owner : TimerRef → ℕ
owner (rt_timer d) = d
owner (ack_timer d) = d
owner (hello_timer d) = d
owner (seek_timer d) = d
owner (bl_timer d) = d
owner (rec_timer a i) = a
owner own_hello_timer = 0
owner worb_timer = 0
owner rt_log_timer = 0

abbrev pub record_id : TimerRef → ℕ
record_id (rec_timer a i) = i
record_id _ = 0

-- `t->handler(t->data)`; a NULL handler is not called.
unfoldable pub call_handler : TimerRef → Handler → M ⊤
unfolding rreq_record_timeout rreq_blacklist_timeout route_discovery_timeout local_repair_timeout
    route_expire_timeout route_delete_timeout hello_timeout rrep_ack_timeout hello_send
    wait_on_reboot_timeout print_rt_table
call_handler r Handler.null_handler = skip
call_handler r Handler.rreq_record_timeout = rreq_record_timeout (owner r) (record_id r)
call_handler r Handler.rreq_blacklist_timeout = rreq_blacklist_timeout (owner r)
call_handler r Handler.route_discovery_timeout = route_discovery_timeout (owner r)
call_handler r Handler.local_repair_timeout = local_repair_timeout (owner r)
call_handler r Handler.route_expire_timeout = route_expire_timeout (owner r)
call_handler r Handler.route_delete_timeout = route_delete_timeout (owner r)
call_handler r Handler.hello_timeout = hello_timeout (owner r)
call_handler r Handler.rrep_ack_timeout = rrep_ack_timeout (owner r)
call_handler r Handler.hello_send = hello_send
call_handler r Handler.wait_on_reboot_timeout = wait_on_reboot_timeout
call_handler r Handler.print_rt_table = print_rt_table
