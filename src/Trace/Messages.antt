-- ===== src/Trace/Messages.antt =====
-- The other handlers of messages, and those of timers, are made of steps.
use aodv.Protocol.Rerr
use aodv.Protocol.Hello
use aodv.Protocol.Timeout
use aodv.Base.{
  false, true, arith, Bool-cases, inl, inr, subst, sym, ℕ, Bool, List, [], ◌∷◌, Option, none, some,
  ◌≡◌, ap,
}
use aodv.Timer.{Timeval, TimerRef, Handler}
use aodv.Msg.{Msg, Rrep, Rerr, Udest}
use aodv.Node.{State, RtEntry, LogLine, columns}
use aodv.Routing.Neighbor.{Pending}
use aodv.Protocol.Receive.{
  dispatch, aodv_socket_package_process, aodv_socket_read, Datagram, read_with_ttl,
}
use aodv.Protocol.Kernel.{
  KernelMsg, nl_kaodv_callback, rerr_about, rerr_dest, expire_valid, send_unsolicited, timeout,
  route_req, repair, route_update, send_rerr, other,
}
use aodv.Routing.Table.{for_buckets, rt_tablesize}
use aodv.Log.Routes.{
  heading_of, log_line, log_precursors, log_route, log_table, print_rt_table, log_rt_table_init,
}
use aodv.Trace.Step.{
  is_reboot, is_forgetting, Step, Steps, Ran, ran, forgets, Runs, runs, one, here, Steps-trans,
  ends_wait, Runs-skip, Runs-bind, Runs-get, Runs-gettimeofday, writes_log,
}
use aodv.Trace.Routing.{
  Runs-if_some, Runs-update_route_timeouts, Runs-insert, Runs-update, Runs-update_timeout,
  Runs-link_break, Runs-invalidate, Runs-rerr_create, Runs-report_udest, Runs-send_rerr,
  Runs-delete, Runs-hello_update_timeout, Runs-neighbor_add, Runs-del_route, Runs-no_route_found,
  Runs-seek_list_remove, Runs-for_buckets,
}
use aodv.Trace.Handlers.{
  Runs-rrep_create, Runs-rrep_process, Runs-rrep_ack_process, Runs-rreq_process, Runs-rreq_send,
  Runs-hold_route, Runs-route_discovery, Runs-local_repair, Runs-blacklist_insert,
  Runs-write_forward_time,
}

Runs-lose_route : (n : Bool) (u : Udest) (d : ℕ) (v : Pending) → Runs (Rerr.lose_route n u d v)
unfolding Rerr.lose_route
Runs-lose_route n u d v = search (runs, Runs-invalidate, Runs-report_udest) depth 14

Runs-process_found :
    (n : Bool) (a : ℕ) (u : Udest) (o : Option ℕ) (v : Pending)
    → Runs (Rerr.process_found n a u o v)
Runs-process_found n a u none v = search runs
Runs-process_found n a u (some d) v = search (runs, Runs-lose_route)

pub Runs-process_udest :
    (n : Bool) (a : ℕ) (u : Udest) (v : Pending) → Runs (Rerr.process_udest n a u v)
unfolding Rerr.process_udest
Runs-process_udest n a u v = search (runs, Runs-process_found)

process_udests-Steps :
    (n : Bool) (a : ℕ) (l : List Udest) (v : Pending) (s : State)
    → Steps s (Rerr.process_udests n a l v s).1
unfolding Rerr.process_udests
process_udests-Steps n a [] v s = here s
process_udests-Steps n a (u ∷ l) v s =
    Steps-trans ((Runs-process_udest n a u v).run s) (process_udests-Steps n a l _ _)

Runs-process_udests :
    (n : Bool) (a : ℕ) (l : List Udest) (v : Pending) → Runs (Rerr.process_udests n a l v)
Runs-process_udests n a l v = record { run = process_udests-Steps n a l v }

Runs-send_unicast : (d : ℕ) (o : Option ℕ) → Runs (Rerr.send_unicast d o)
Runs-send_unicast d none = search runs
Runs-send_unicast d (some p) = search (runs, Runs-send_rerr)

Runs-rerr_process : (m : Rerr) (l a : ℕ) → Runs (Rerr.rerr_process m l a)
unfolding Rerr.rerr_process Rerr.finish_rerr
Runs-rerr_process m l a =
    search (runs, Runs-process_udests, Runs-send_unicast, Runs-send_rerr) depth 12

Runs-hello_send : Runs Hello.hello_send
unfolding Hello.hello_send Hello.hello_stop
Runs-hello_send = search (runs, Runs-rrep_create) depth 12

pub Runs-hello_start : Runs Hello.hello_start
unfolding Hello.hello_start
Runs-hello_start = search (runs, Runs-write_forward_time, Runs-hello_send) depth 12

Runs-hello_from : (m : Rrep) (now : Timeval) (o : Option ℕ) → Runs (Hello.hello_from m now o)
unfolding Hello.count_hello
Runs-hello_from m now none = search (runs, Runs-insert) depth 10
Runs-hello_from m now (some p) = search (runs, Runs-update, Runs-hello_update_timeout) depth 12

Runs-hello_process : (m : Rrep) → Runs (Hello.hello_process m)
unfolding Hello.hello_process
Runs-hello_process m = search (runs, Runs-hello_from) depth 8

Runs-dispatch : (m : Msg) (l a t : ℕ) → Runs (dispatch m l a t)
unfolding dispatch
Runs-dispatch (Msg.hello m) l a t = Runs-hello_process m
Runs-dispatch (Msg.rreq m) l a t = Runs-rreq_process m l a t
Runs-dispatch (Msg.rrep m) l a t = Runs-rrep_process m l a t
Runs-dispatch (Msg.rerr m) l a t = Runs-rerr_process m l a
Runs-dispatch Msg.rrep_ack l a t = Runs-rrep_ack_process a
Runs-dispatch Msg.blank l a t = Runs-skip
Runs-dispatch (Msg.unknown x) l a t = Runs-skip

Runs-read_with_ttl : (p : Datagram) (o : Option ℕ) → Runs (read_with_ttl p o)
unfolding aodv_socket_package_process
Runs-read_with_ttl p none = search runs
Runs-read_with_ttl p (some t) = search (runs, Runs-neighbor_add, Runs-dispatch) depth 10

-- A datagram is handled in steps.
pub Runs-read : (p : Datagram) → Runs (aodv_socket_read p)
unfolding aodv_socket_read
Runs-read p = Runs-read_with_ttl p p.ttl

Runs-rerr_of : (e : RtEntry) → Runs (Timeout.rerr_of e)
Runs-rerr_of e = search (runs, Runs-rerr_create, Runs-send_rerr) depth 8

Runs-repair_timeout : (d : ℕ) → Runs (Timeout.local_repair_timeout d)
unfolding Timeout.local_repair_timeout
Runs-repair_timeout d = search (runs, Runs-del_route, Runs-rerr_of) depth 16

Runs-retry_discovery : (d : ℕ) (now : Timeval) → Runs (Timeout.retry_discovery d now)
unfolding Timeout.retry_discovery
Runs-retry_discovery d now = search (runs, Runs-if_some, Runs-hold_route, Runs-rreq_send) depth 16

Runs-fail_repair : (d : ℕ) → Runs (Timeout.fail_repair d)
Runs-fail_repair d = search (runs, Runs-repair_timeout) depth 8

Runs-give_up_discovery : (d : ℕ) → Runs (Timeout.give_up_discovery d)
unfolding Timeout.give_up_discovery
Runs-give_up_discovery d =
    search (runs, Runs-no_route_found, Runs-seek_list_remove, Runs-if_some, Runs-fail_repair) depth
      12

Runs-discovery_timeout : (d : ℕ) → Runs (Timeout.route_discovery_timeout d)
unfolding Timeout.route_discovery_timeout
Runs-discovery_timeout d = search (runs, Runs-retry_discovery, Runs-give_up_discovery) depth 8

Runs-expire_timeout : (d : ℕ) → Runs (Timeout.route_expire_timeout d)
unfolding Timeout.route_expire_timeout
Runs-expire_timeout d = search (runs, Runs-link_break, Runs-invalidate) depth 8

Runs-hello_timeout : (d : ℕ) → Runs (Timeout.hello_timeout d)
unfolding Timeout.hello_timeout
Runs-hello_timeout d = search (runs, Runs-link_break) depth 12

Runs-ack_timeout : (d : ℕ) → Runs (Timeout.rrep_ack_timeout d)
unfolding Timeout.rrep_ack_timeout
Runs-ack_timeout d = search (runs, Runs-blacklist_insert)

record_timeout-Ran : (a i : ℕ) (s : State) → Ran s (Timeout.rreq_record_timeout a i s).1
unfolding Timeout.rreq_record_timeout
record_timeout-Ran a i s = forgets s _

Runs-blacklist_timeout : (a : ℕ) → Runs (Timeout.rreq_blacklist_timeout a)
unfolding Timeout.rreq_blacklist_timeout
Runs-blacklist_timeout a = search runs

Runs-delete_timeout : (d : ℕ) → Runs (Timeout.route_delete_timeout d)
unfolding Timeout.route_delete_timeout
Runs-delete_timeout d = Runs-delete d

-- The log of routes.
Runs-log_line : (l : LogLine) → Runs (log_line l)
Runs-log_line l = record { run = λ s. one (writes_log s (l ∷ s.rt_log)) }

log_precursors-Steps : (l : List ℕ) (s : State) → Steps s (log_precursors l s).1
unfolding log_precursors
log_precursors-Steps [] s = here s
log_precursors-Steps (p ∷ l) s = Steps-trans (one (writes_log s _)) (log_precursors-Steps l _)

Runs-log_precursors : (l : List ℕ) → Runs (log_precursors l)
Runs-log_precursors l = record { run = log_precursors-Steps l }

Runs-log_route : (now : Timeval) (d : ℕ) (v : Unit) → Runs (log_route now d v)
unfolding log_route
Runs-log_route now d v = search (runs, Runs-log_precursors) depth 10

Runs-log_routes : (now : Timeval) → Runs (for_buckets rt_tablesize 0 (log_route now) tt)
Runs-log_routes now = Runs-for_buckets (log_route now) (Runs-log_route now) rt_tablesize 0 tt

Runs-log_table : Runs log_table
unfolding log_table
Runs-log_table = Runs-bind Runs-gettimeofday (λ now. Runs-bind Runs-get (λ s.
    Runs-bind (Runs-log_line (heading_of now s))
      (λ u. Runs-bind (Runs-log_line columns) (λ w. Runs-log_routes now))))

Runs-print_rt_table : Runs print_rt_table
unfolding print_rt_table
Runs-print_rt_table = search (runs, Runs-log_table) depth 8

pub Runs-log_rt_table_init : Runs log_rt_table_init
unfolding log_rt_table_init
Runs-log_rt_table_init = search runs depth 10

-- The call of the handler that a timer has, other than the one that forgets a record, is made of steps.
pub call_handler-Steps :
    (r : TimerRef) (f : Handler) (s : State)
    → (s.timer.timers r).handler ≡ f
    → is_forgetting f ≡ false
    → Steps s (Timeout.call_handler r f s).1
unfolding Timeout.call_handler
call_handler-Steps r Handler.null_handler s e plain = here s
call_handler-Steps r Handler.rreq_record_timeout s e plain = cc
call_handler-Steps r Handler.rreq_blacklist_timeout s e plain = (Runs-blacklist_timeout _).run s
call_handler-Steps r Handler.route_discovery_timeout s e plain = (Runs-discovery_timeout _).run s
call_handler-Steps r Handler.local_repair_timeout s e plain = (Runs-repair_timeout _).run s
call_handler-Steps r Handler.route_expire_timeout s e plain = (Runs-expire_timeout _).run s
call_handler-Steps r Handler.route_delete_timeout s e plain = (Runs-delete_timeout _).run s
call_handler-Steps r Handler.hello_timeout s e plain = (Runs-hello_timeout _).run s
call_handler-Steps r Handler.rrep_ack_timeout s e plain = (Runs-ack_timeout _).run s
call_handler-Steps r Handler.hello_send s e plain = Runs-hello_send.run s
call_handler-Steps r Handler.print_rt_table s e plain = Runs-print_rt_table.run s
call_handler-Steps r Handler.wait_on_reboot_timeout s e plain = one (reboot s r (ap is_reboot e))
  where
    reboot :
        (s : State) (r : TimerRef)
        → is_reboot (s.timer.timers r).handler ≡ true
        → Step s (Timeout.wait_on_reboot_timeout s).1
    reboot s r h = unfold Timeout.wait_on_reboot_timeout in ends_wait s r h

-- The call of any handler.
pub call_handler-Ran :
    (r : TimerRef) (f : Handler) (s : State)
    → (s.timer.timers r).handler ≡ f
    → Ran s (Timeout.call_handler r f s).1
call_handler-Ran r f s e = elim (Bool-cases (is_forgetting f)) [
  | inl y ↦ subst (λ g. Ran s (Timeout.call_handler r g s).1) (sym (is_it f y)) (forgetting r s)
  | inr n ↦ ran (call_handler-Steps r f s e n)
]
  where
    is_it : (f : Handler) → is_forgetting f ≡ true → f ≡ Handler.rreq_record_timeout
    is_it f y = ground (arith, y)

    forgetting :
        (r : TimerRef) (s : State) → Ran s (Timeout.call_handler r Handler.rreq_record_timeout s).1
    forgetting r s = unfold Timeout.call_handler in record_timeout-Ran _ _ s

Runs-expire_valid : (d : ℕ) → Runs (expire_valid d)
Runs-expire_valid d = search (runs, Runs-expire_timeout)

Runs-rerr_about : (d : ℕ) (o : Option ℕ) → Runs (rerr_about d o)
Runs-rerr_about d none = search (runs, Runs-rerr_create)
Runs-rerr_about d (some p) = search (runs, Runs-rerr_create, Runs-update_timeout) depth 8

Runs-rerr_dest : (o : Option ℕ) → Runs (rerr_dest o)
Runs-rerr_dest none = search runs
Runs-rerr_dest (some p) = search runs

Runs-send_unsolicited : (d a : ℕ) → Runs (send_unsolicited d a)
unfolding send_unsolicited
Runs-send_unsolicited d a = search (runs, Runs-rerr_about, Runs-rerr_dest, Runs-send_rerr) depth 14

-- A message of the kernel module is handled in steps.
pub Runs-callback : (m : KernelMsg) → Runs (nl_kaodv_callback m)
unfolding nl_kaodv_callback
Runs-callback (timeout d) = search (runs, Runs-if_some, Runs-expire_valid)
Runs-callback (route_req d) = Runs-route_discovery d _
Runs-callback (repair d a) = search (runs, Runs-if_some, Runs-local_repair)
Runs-callback (route_update d a) = search (runs, Runs-update_route_timeouts) depth 8
Runs-callback (send_rerr d a) = search (runs, Runs-send_unsolicited) depth 8
Runs-callback other = search runs
