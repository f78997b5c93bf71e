-- ===== src/Trace/Tests.antt =====
-- The theorems about the daemon at concrete states: a node with one radio, started at second 100.
use aodv.Base.{
  ltb, ℕ, ◌+◌, ◌<◌, ◌≤◌, ◌≡◌, ◌≢◌, refl, true, false, none, some, List, [], ◌∷◌, arith, pos,
  if◌then◌else◌, ◌==◌, not, s32_lt, zero, suc, length,
}
use aodv.Timer.{
  Timeval, Timers, us, rt_timer, rt_log_timer, timer_set_timeout, null_handler, zero_time,
}
use aodv.Msg.{Rreq, Msg, rreq, rreq_size, no_rreq_flags, aodv_broadcast}
use aodv.Node.{State, RtEntry, no_flags, valid, invalid, dec_u32}
use aodv.Socket.Bounds.{FitLimits}
use aodv.Socket.Limit.{no_stamps, Spaced}
use aodv.Socket.Send.{admit}
use aodv.Socket.Run.{Call, rreqs, rerrs, all_out, aodv_socket_send-Spaced}
use aodv.Routing.Table.{lookup, find, rt_table_init, rt_table_check}
use aodv.Routing.Store.{Once, IsTable}
use aodv.Routing.Route.{
  seqno_incr, new_entry, rt_table_insert, rt_table_invalidate, rt_table_delete,
  rt_table_update_timeout, add_precursor, member,
}
use aodv.Routing.Contract.{
  rt_table_insert-lookup, rt_table_invalidate-lookup, rt_table_delete-lookup,
}
use aodv.Routing.Find.{rt_table_check-insert}
use aodv.Routing.Fields.{AreCounted, seqno_incr-newer, add_precursor-member}
use aodv.Routing.Neighbor.{rt_table_update}
use aodv.Routing.Prolong.{rt_table_update_timeout-later}
use aodv.Routing.Revalidate.{due, rt_table_update-due}
use aodv.Log.Routes.{print_rt_table}
use aodv.Log.Report.{pushed, report, reads_after, print_rt_table-report}
use aodv.Trace.Flood.{rreq_process_again}
use aodv.Protocol.Records.{has_record, has_addr}
use aodv.Trace.Clock.{Steps-env, ticks_at-early}
use aodv.Trace.Handlers.{Runs-rreq_process}
use aodv.Protocol.Rreq.{rreq_process, rreq_route_discovery}
use aodv.Protocol.Discovery.{rreq_route_discovery_twice}
use aodv.Protocol.Receive.{Datagram}
use aodv.Protocol.Kernel.{route_req}
use aodv.Protocol.Loop.{Event, tick, datagram, kernel, handle_all, timer_timeout}
use aodv.Trace.Expiry.{timer_timeout-exptq}
use aodv.Protocol.Start.{
  start, HostEnv, Started, globals, host_init, nl_init, aodv_socket_init, set_rcvbuf,
  attach_callback_func, set_kernel_options,
}
use aodv.Trace.Reboot.{NoRrep}
use aodv.Trace.Started.{started-safe}
use aodv.Trace.Table.{init-IsTable, handle_all-IsTable}

abbrev no_timers : Timers
no_timers = record {
  timers = λ r. record { used = false; timeout = zero_time; handler = null_handler };
  tq = [];
  exptq = [];
}

abbrev at : ℕ → Timeval
at sec = record { tv_sec = sec; tv_usec = 0 }

abbrev pub boot : State
boot = record {
  timer = no_timers;
  rt_tbl = record { num_entries = 0; num_active = 0; tbl = λ i. [] };
  sl = [];
  rreq_records = [];
  rreq_blacklists = [];
  this_host = record {
    seqno = 0;
    rreq_id = 0;
    last_forward_time = zero_time;
    last_broadcast_time = at 100;
    enabled = true;
    ifindex = 2;
    ipaddr = 1;
    broadcast = 255;
  };
  conf = record {
    ratelimit = true;
    expanding_ring_search = true;
    receive_n_hellos = 0;
    local_repair = false;
    active_route_timeout = 10000;
    ttl_start = 2;
    delete_period = 15000;
    log_to_file = true;
    rt_log_interval = 10000;
  };
  wait_on_reboot = true;
  send_buf = Msg.blank;
  rreq_limit = no_stamps;
  rerr_limit = no_stamps;
  aodvnl_seqno = 0;
  rtnl_seqno = 0;
  env = record { clock = λ n. at (100 + n); set_ip_ttl = λ t. true; sendmsg = λ m q. true };
  reads = 0;
  sent = [];
  nl_sent = [];
  rt_log = [];
}

abbrev pub cleared : State
cleared = (rt_table_init boot).1

-- A RREQ of node 9 for node 1, and its way by the neighbor 5.
abbrev pub flooded : Rreq
flooded = record {
  flags = no_rreq_flags;
  hopcnt = 1;
  rreq_id = 7;
  dest_addr = 1;
  dest_seqno = 0;
  orig_addr = 9;
  orig_seqno = 3;
}

abbrev request : Datagram
request = record {
  msg = rreq flooded;
  len = rreq_size;
  src = 5;
  dest = some aodv_broadcast;
  ttl = some 4;
}

abbrev pub events : List Event
events = datagram request ∷ kernel (route_req 8) ∷ tick ∷ []

handle_all-IsTable_example : IsTable (handle_all events cleared).rt_tbl
handle_all-IsTable_example = handle_all-IsTable events cleared (init-IsTable boot)

timer_timeout-exptq_example :
    (timer_timeout (at 200) (handle_all events cleared)).1.timer.exptq ≡ []
timer_timeout-exptq_example = timer_timeout-exptq (at 200) (handle_all events cleared)

abbrev open_host : HostEnv
open_host = record {
  geteuid = 0;
  open_log = true;
  open_rt_log = true;
  siocgifindex = some 2;
  siocgifaddr = some 1;
  siocgifnetmask = some 16777215;
  siocgifbrdaddr = some 255;
  insmod = true;
  write = λ f. true;
  aodvnl = true;
  rtnl = true;
  udp = true;
  so_rcvbuf = λ n. true;
}

unfoldable running : Started
unfolding start
running = elim (start open_host boot.env) [ none ↦ globals boot.env | some s ↦ s ]

started-safe_example :
    let t = handle_all events running.state in IsTable t.rt_tbl × FitLimits t × NoRrep t.sent
unfolding running start host_init nl_init aodv_socket_init set_rcvbuf attach_callback_func
    set_kernel_options
started-safe_example = started-safe open_host boot.env events running refl

-- Ten RREQs at one reading of the clock, one more that is stopped, and one a second later.
abbrev request_at : ℕ → Call
request_at n = record {
  msg = rreq flooded;
  dest = aodv_broadcast;
  len = rreq_size;
  ttl = pos 1;
  reads = n;
}

abbrev burst : ℕ → List Call → List Call
burst zero l = l
burst (suc n) l = request_at 0 ∷ burst n l

burst_stopped : length (all_out rreqs (burst 11 (request_at 1 ∷ [])) boot) ≡ 11
unfolding all_out admit
burst_stopped = refl

aodv_socket_send-Spaced_example :
    Spaced (all_out rreqs (burst 11 (request_at 1 ∷ [])) boot)
    × Spaced (all_out rerrs (burst 11 (request_at 1 ∷ [])) boot)
aodv_socket_send-Spaced_example =
    aodv_socket_send-Spaced (burst 11 (request_at 1 ∷ [])) boot refl refl refl

-- A route to the neighbor 5, and the table that holds it.
abbrev pub neighbor : RtEntry
neighbor = new_entry 5 5 1 3 valid no_flags

abbrev pub with_route : State
with_route = record boot {
  rt_tbl = record {
    num_entries = 1;
    num_active = 1;
    tbl = λ i. if i == 5 then neighbor ∷ [] else [];
  };
}

abbrev lost : RtEntry
lost = record neighbor { state = invalid }

abbrev with_lost : State
with_lost = record boot {
  rt_tbl = record { num_entries = 1; num_active = 0; tbl = λ i. if i == 5 then lost ∷ [] else [] };
}

rt_table_insert-lookup_example :
    let (r, s') = rt_table_insert 7 5 2 4 3000 valid no_flags boot in
    (r ≡ some 7)
    × ((k : ℕ)
        → lookup k s'.rt_tbl
          ≡ (if k == 7 then some (new_entry 7 5 2 4 valid no_flags) else lookup k boot.rt_tbl))
unfolding lookup find
rt_table_insert-lookup_example = rt_table_insert-lookup 7 5 2 4 3000 valid no_flags boot refl

rt_table_invalidate-lookup_example :
    let (r, s') = rt_table_invalidate 5 with_route in
    (r ≡ true)
    × (s'.rt_tbl.num_active ≡ dec_u32 1)
    × (s'.rt_tbl.num_entries ≡ 1)
    × ((k : ℕ)
        → lookup k s'.rt_tbl ≡ (
            if 5 == k
            then some (record neighbor {
              state = invalid;
              hello_cnt = 0;
              dest_seqno = seqno_incr 3;
              last_hello_time = zero_time;
            })
            else lookup k with_route.rt_tbl))
unfolding lookup find
rt_table_invalidate-lookup_example = rt_table_invalidate-lookup 5 with_route neighbor refl refl

rt_table_delete-lookup_example :
    let s' = (rt_table_delete 5 (handle_all events cleared)).1 in
    (s'.rt_tbl.num_entries ≡ dec_u32 (handle_all events cleared).rt_tbl.num_entries)
    × ((k : ℕ)
        → lookup k s'.rt_tbl
          ≡ (if 5 == k then none else lookup k (handle_all events cleared).rt_tbl))
rt_table_delete-lookup_example =
    rt_table_delete-lookup 5 (handle_all events cleared)
      (handle_all-IsTable events cleared (init-IsTable boot))

pub with_route-IsTable : IsTable with_route.rt_tbl
unfolding Once find
with_route-IsTable = record { home = λ i. ground arith; once = λ i. ground arith }

rt_table_check-insert_example :
    let s' = (rt_table_insert 7 5 2 4 3000 valid no_flags with_route).1 in
    rt_table_check 7 s' ≡ (some 7, s')
unfolding lookup find
rt_table_check-insert_example =
    rt_table_check-insert 7 5 2 4 3000 valid no_flags with_route with_route-IsTable refl
      (omega arith)

rt_table_update_timeout-later_example :
    us (with_route.timer.timers (rt_timer 5)).timeout
    ≤ us ((rt_table_update_timeout 5 3000 with_route).1.timer.timers (rt_timer 5)).timeout
rt_table_update_timeout-later_example =
    rt_table_update_timeout-later 5 3000 with_route (omega arith)

rt_table_update-due_example :
    due 5 (rt_table_update 5 5 1 4 10000 valid no_flags with_lost).1 ≡ due 5 with_lost
unfolding lookup find
rt_table_update-due_example =
    rt_table_update-due 5 5 4 10000 valid no_flags with_lost lost refl refl

rreq_route_discovery_twice_example :
    let s' = (rreq_route_discovery 8 no_rreq_flags boot).1 in
    rreq_route_discovery 8 no_rreq_flags s' ≡ (tt, record s' { reads = s'.reads + 1 })
rreq_route_discovery_twice_example = rreq_route_discovery_twice 8 no_rreq_flags no_rreq_flags boot

seqno_incr-newer_example :
    (seqno_incr 2147483647 < 4294967296)
    × (seqno_incr 2147483647 ≢ 0)
    × (s32_lt 2147483647 (seqno_incr 2147483647) ≡ not (2147483647 == 2147483647))
seqno_incr-newer_example = seqno_incr-newer 2147483647 (omega arith) (omega arith)

abbrev with_precursor : RtEntry
with_precursor = record neighbor { precursors = 6 ∷ []; nprecursor = 1 }

add_precursor-member_example :
    AreCounted (add_precursor 7 with_precursor)
    × ((b : ℕ)
        → member b (add_precursor 7 with_precursor).precursors
          ≡ (if 7 == b then true else member b (6 ∷ [])))
add_precursor-member_example =
    add_precursor-member 7 with_precursor
      (record { number = refl; single = (refl, tt); room = omega arith }) (omega arith)

-- Node 1 with a clock that a reading moves on by a microsecond, up to a second.
abbrev quick : State
quick = record cleared {
  env = record (cleared.env) {
    clock = λ n. record { tv_sec = 100; tv_usec = if ltb n 999999 then n else 999999 };
  };
}

abbrev between : List Event
between = tick ∷ kernel (route_req 8) ∷ tick ∷ datagram request ∷ tick ∷ []

rreq_process_again_example :
    let t = handle_all between (rreq_process flooded 24 5 4 quick).1 in
    rreq_process (record flooded { hopcnt = 2 }) 24 6 3 t ≡ (tt, t)
unfolding has_addr has_record rt_table_init
rreq_process_again_example =
    rreq_process_again flooded (record flooded { hopcnt = 2 }) 24 5 4 24 6 3 between quick
      (λ r f. cc) refl refl refl
      (ticks_at-early quick.env 105600000 (λ n. ground arith) between _
        (Steps-env quick.env ((Runs-rreq_process flooded 24 5 4).run quick) refl))
      refl refl

print_rt_table-report_example : print_rt_table with_route ≡ (
  tt,
  record with_route {
    rt_log = pushed (report with_route) [];
    reads = reads_after with_route + 1;
    timer = timer_set_timeout rt_log_timer (pos 10000) (with_route.env.clock 1) with_route.timer;
  },
)
print_rt_table-report_example = print_rt_table-report with_route with_route-IsTable
