-- ===== src/Routing/Frame.antt =====
-- What rt_table_insert leaves alone: all but the timers, the table, the discoveries, the clock's count
-- and the messages to the kernel.
use aodv.Base.{ℕ, ◌≡◌, ◌∙◌, Bool, not, none, List, pos, ◌==◌, arith}
use aodv.Timer.{rt_timer}
use aodv.Msg.{Msg, Packet}
use aodv.Node.{
  State, when, set_timeout, gettimeofday, RtFlags, RtState, valid, invalid, is_valid, HostInfo,
  Settings, Env, RateLimit, RreqRecord,
}
use aodv.Netlink.{nl_send_aodv, nl_send_rt, nl_kernel_route, nl_send_add_route_msg}
use aodv.Routing.Table.{lookup}
use aodv.Routing.Seek.{seek_list_check, seek_list_remove}
use aodv.Routing.Route.{start_route, link_route, end_seek, rt_table_insert}

abbrev pub Host : Type 0
Host = HostInfo × Settings × Bool × Env

abbrev pub Rest : Type 0
Rest = Host × (Msg × List Packet) × (RateLimit × RateLimit) × (List RreqRecord × List ℕ)

abbrev pub rest_of : State → Rest
rest_of s = (
  (s.this_host, s.conf, s.wait_on_reboot, s.env),
  (s.send_buf, s.sent),
  (s.rreq_limit, s.rerr_limit),
  (s.rreq_records, s.rreq_blacklists),
)

add_route-rest :
    (d n m l : ℕ) (f : RtFlags) (i : ℕ) (s : State)
    → rest_of (nl_send_add_route_msg d n m l f i s).1 ≡ rest_of s
unfolding nl_send_add_route_msg nl_send_aodv nl_kernel_route nl_send_rt
add_route-rest d n m l f i s = ground arith

start_route-rest :
    (d n h l : ℕ) (st : RtState) (f : RtFlags) (s : State)
    → rest_of (start_route d n h l st f s).1 ≡ rest_of s
unfolding start_route
start_route-rest d n h l valid f s = add_route-rest d n h l f s.this_host.ifindex _
start_route-rest d n h l invalid f s = ground arith

end_seek-rest : (d : ℕ) (b : Bool) (s : State) → rest_of (when b (end_seek d) s).1 ≡ rest_of s
unfolding end_seek seek_list_check seek_list_remove
end_seek-rest d b s = ground arith

set_if-rest :
    (d life : ℕ) (s : State)
    → rest_of (when (not (life == 0)) (set_timeout (rt_timer d) (pos life)) s).1 ≡ rest_of s
unfolding gettimeofday
set_if-rest d life s = ground arith

pub insert-rest :
    (d n h q l : ℕ) (st : RtState) (f : RtFlags) (s : State)
    → lookup d s.rt_tbl ≡ none
    → rest_of (rt_table_insert d n h q l st f s).1 ≡ rest_of s
unfolding rt_table_insert lookup link_route
insert-rest d n h q l st f s p =
    let (life, s2) = start_route d n h l st f (link_route d n h q st f s).1 in
    rw (p, rt_table_insert)
      (end_seek-rest d (is_valid st) _
        ∙ set_if-rest d life s2
        ∙ start_route-rest d n h l st f (link_route d n h q st f s).1)
