-- ===== src/Protocol/Hello.antt =====
-- aodv_hello.c: the HELLO messages.
use aodv.Base.{
  ℕ, ◌+◌, ◌-◌, not, ◌&&◌, Option, none, some, pos, ltb, ltb_ℤ, sub_ℤ, to_u8, ◌==◌, if◌then◌else◌,
}
use aodv.Timer.{Timeval, timeval_diff, own_hello_timer, Handler}
use aodv.Msg.{Rrep, rrep_size, aodv_broadcast}
use aodv.Node.{
  ⊤, M, skip, get, on_host, ◌>>=◌, ◌>>◌, gettimeofday, is_used, init_timer, remove_timer,
  set_timeout, valid, invalid, is_valid, no_flags,
}
use aodv.Socket.{aodv_socket_send}
use aodv.Routing.Table.{deref, write_rt, rt_table_check}
use aodv.Routing.Route.{rt_table_insert}
use aodv.Routing.Neighbor.{rt_table_update, hello_update_timeout, hello_loss_time}
use aodv.Protocol.Rrep.{rrep_create}

-- HELLO_INTERVAL
abbrev pub hello_interval : ℕ
hello_interval = 1000

unfoldable pub hello_stop : M ⊤
hello_stop = remove_timer own_hello_timer

-- A HELLO is a RREP about this host, unless a broadcast went out in the last interval.
unfoldable pub hello_send : M ⊤
unfolding gettimeofday hello_stop rrep_create aodv_socket_send
hello_send = do
  now ← gettimeofday
  s ← get
  if ltb_ℤ (pos s.conf.active_route_timeout) (timeval_diff now s.this_host.last_forward_time)
      then hello_stop
      else (do
        let time_diff = timeval_diff now s.this_host.last_broadcast_time
        if ltb_ℤ time_diff (pos hello_interval)
            then set_timeout own_hello_timer (sub_ℤ (pos hello_interval) time_diff)
            else (do
              rrep_create 0 0 s.this_host.ipaddr s.this_host.seqno s.this_host.ipaddr
                  hello_loss_time
              aodv_socket_send aodv_broadcast rrep_size (pos 1)
              set_timeout own_hello_timer (pos hello_interval)))

unfoldable pub hello_start : M ⊤
unfolding hello_send
hello_start = do
  used ← is_used own_hello_timer
  if used then skip else (do
    now ← gettimeofday
    on_host λ h. record h { last_forward_time = now }
    init_timer own_hello_timer Handler.hello_send
    hello_send)

-- ALLOWED_HELLO_LOSS * hello_interval + ROUTE_TIMEOUT_SLACK
abbrev pub hello_lifetime : ℕ
hello_lifetime = hello_loss_time + 100

-- A HELLO that is only counted: so many must come in time before the link is used.
unfoldable pub count_hello : ℕ → Timeval → M ⊤
count_hello rt now = write_rt rt λ e. record e {
  hello_cnt =
      if ltb_ℤ (timeval_diff now e.last_hello_time) (pos 1500) then to_u8 (e.hello_cnt + 1) else 1;
  last_hello_time = now;
}

abbrev pub hello_from : Rrep → Timeval → Option ℕ → M ⊤
hello_from m now none = do
  s ← get
  let state = (if s.conf.receive_n_hellos == 0 then valid else invalid)
  new ← rt_table_insert m.dest_addr m.dest_addr 1 m.dest_seqno hello_lifetime state no_flags
  write_rt m.dest_addr λ e. record e { hello_cnt = 1 }
hello_from m now (some rt) = do
  s ← get
  e ← deref rt
  let n = s.conf.receive_n_hellos
  if e.flags.unidir && is_valid e.state && ltb 1 e.hopcnt
      then hello_update_timeout rt now hello_loss_time
      else if not (n == 0) && ltb e.hello_cnt (n - 1)
      then count_hello rt now
      else (do
        rt_table_update rt m.dest_addr 1 m.dest_seqno hello_lifetime valid e.flags
        hello_update_timeout rt now hello_loss_time)

unfoldable pub hello_process : Rrep → M ⊤
unfolding gettimeofday rt_table_check rt_table_insert rt_table_update hello_update_timeout
    count_hello
hello_process m = do now ← gettimeofday; rt ← rt_table_check m.dest_addr; hello_from m now rt
