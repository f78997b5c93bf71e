-- ===== src/Routing/Revalidate.antt =====
-- rt_table_update on a route that has expired.
use aodv.Base.{
  ℕ, ◌≡◌, refl, ap, ◌∙◌, Bool, true, false, not, ◌&&◌, ◌==◌, some, arith, if◌then◌else◌, to_u8,
  Bool-cases, inl, inr,
}
use aodv.Timer.{Timers, Timeval, rt_timer, timer_remove, set_handler, route_expire_timeout}
use aodv.Node.{State, ◌>>◌, when, after, on_timers, RtFlags, RtState, RtEntry, is_valid, inc_u32}
use aodv.Netlink.{nl_send_aodv, nl_send_rt, nl_kernel_route, nl_send_add_route_msg}
use aodv.Routing.Table.{lookup, entry_at, write_rt}
use aodv.Routing.Store.{lookup-write_table}
use aodv.Routing.Seek.{seek_list_check, seek_list_remove}
use aodv.Routing.Route.{rt_table_update_timeout, end_seek}
use aodv.Routing.Neighbor.{announce, leave_neighbor, rt_table_update}
use aodv.Routing.Contract.{add_route-rt_tbl}

abbrev pub due : ℕ → State → Timeval
due rt s = (s.timer.timers (rt_timer rt)).timeout

add_route-timer :
    (d n m l : ℕ) (f : RtFlags) (i : ℕ) (s : State)
    → (nl_send_add_route_msg d n m l f i s).1.timer ≡ s.timer
unfolding nl_send_add_route_msg nl_send_aodv nl_kernel_route nl_send_rt
add_route-timer d n m l f i s = ground arith

announce-timer :
    (d n h l : ℕ) (st : RtState) (f : RtFlags) (s : State)
    → (announce d n h l st f s).1.timer ≡ s.timer
unfolding announce entry_at
announce-timer d n h l st f s =
    elim (Bool-cases (not (is_valid (entry_at d s).state) && is_valid st)) [
      | inl e ↦
          let x : RtEntry = entry_at d s in
          let f' : RtFlags = (if x.flags.repair then record f { repair = false } else f) in
          let s1 : State = record s {
            rt_tbl = record (s.rt_tbl) { num_active = inc_u32 s.rt_tbl.num_active };
          } in
          rw (e, announce) (add_route-timer x.dest_addr n h l f' s.this_host.ifindex s1)
      | inr e ↦
          elim (Bool-cases
            (not ((entry_at d s).next_hop == 0) && not ((entry_at d s).next_hop == n))) [
              | inl e' ↦
                  rw (e, e', announce)
                    (add_route-timer (entry_at d s).dest_addr n h l f s.this_host.ifindex s)
              | inr e' ↦ rw (e, e', announce) refl
            ]
    ]

announce-lookup :
    (d n h l : ℕ) (st : RtState) (f : RtFlags) (k : ℕ) (s : State)
    → lookup k (announce d n h l st f s).1.rt_tbl ≡ lookup k s.rt_tbl
unfolding announce entry_at lookup
announce-lookup d n h l st f k s =
    elim (Bool-cases (not (is_valid (entry_at d s).state) && is_valid st)) [
      | inl e ↦
          let x : RtEntry = entry_at d s in
          let f' : RtFlags = (if x.flags.repair then record f { repair = false } else f) in
          let s1 : State = record s {
            rt_tbl = record (s.rt_tbl) { num_active = inc_u32 s.rt_tbl.num_active };
          } in
          rw (e, announce)
            (ap (lookup k) (add_route-rt_tbl x.dest_addr n h l f' s.this_host.ifindex s1))
      | inr e ↦
          elim (Bool-cases
            (not ((entry_at d s).next_hop == 0) && not ((entry_at d s).next_hop == n))) [
              | inl e' ↦
                  rw (e, e', announce)
                    (ap (lookup k)
                      (add_route-rt_tbl (entry_at d s).dest_addr n h l f s.this_host.ifindex s))
              | inr e' ↦ rw (e, e', announce) refl
            ]
    ]

end_seek-due : (d k : ℕ) (s : State) → due k (end_seek d s).1 ≡ due k s
unfolding end_seek seek_list_check seek_list_remove timer_remove
end_seek-due d k s = ground arith

if_seek-due : (d k : ℕ) (b : Bool) (s : State) → due k (when b (end_seek d) s).1 ≡ due k s
if_seek-due d k true s = end_seek-due d k s
if_seek-due d k false s = refl

update_timeout_invalid :
    (rt l : ℕ) (s : State) (e : RtEntry)
    → lookup rt s.rt_tbl ≡ some e
    → is_valid e.state ≡ false
    → rt_table_update_timeout rt l s ≡ (tt, s)
unfolding rt_table_update_timeout entry_at
update_timeout_invalid rt l s e p v = rw (p, v, rt_table_update_timeout) refl

if_update :
    (rt l : ℕ) (b : Bool) (s : State) (e : RtEntry)
    → lookup rt s.rt_tbl ≡ some e
    → is_valid e.state ≡ false
    → after (when b (rt_table_update_timeout rt l)) s ≡ s
if_update rt l true s e p v = ap (λ r. r.1) (update_timeout_invalid rt l s e p v)
if_update rt l false s e p v = refl

set_handler-due :
    (rt : ℕ) (s : State)
    → due rt (after (on_timers (set_handler (rt_timer rt) route_expire_timeout)) s) ≡ due rt s
set_handler-due rt s = ground arith

-- A route that has expired and is set valid again by rt_table_update, for a neighbor, keeps the time at
-- which its timer is due: rt_table_update_timeout is called while the route still is invalid.
pub rt_table_update-due :
    (rt next q life : ℕ) (st : RtState) (f : RtFlags) (s : State) (e : RtEntry)
    → lookup rt s.rt_tbl ≡ some e
    → is_valid e.state ≡ false
    → due rt (rt_table_update rt next 1 q life st f s).1 ≡ due rt s
unfolding rt_table_update leave_neighbor entry_at
rt_table_update-due rt next q life st f s e p v =
    let (f', s1) = announce rt next 1 life st f s in
    let w : RtEntry → RtEntry =
      λ x. record x { flags = f'; dest_seqno = q; next_hop = next; hopcnt = to_u8 1 } in
    let s2 : State =
      after (write_rt rt w >> on_timers (set_handler (rt_timer rt) route_expire_timeout)) s1 in
    let there : lookup rt s2.rt_tbl ≡ some (w e) =
      lookup-write_table rt w (λ x. refl) rt s1.rt_tbl
      ∙ ground (arith, announce-lookup rt next 1 life st f rt s, p) in
    let s3 : State = after (when (not f'.inet_dest) (rt_table_update_timeout rt life)) s2 in
    if_seek-due rt rt (is_valid st) (after (write_rt rt λ x. record x { state = st }) s3)
    ∙ ap (due rt) (if_update rt life (not f'.inet_dest) s2 (w e) there v)
    ∙ set_handler-due rt s1
    ∙ ap (λ (t : Timers). (t.timers (rt_timer rt)).timeout) (announce-timer rt next 1 life st f s)
