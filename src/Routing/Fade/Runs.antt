-- ===== src/Routing/Fade/Runs.antt =====
-- The functions of which the routing table only fades.
use aodv.Base.{ℕ, ◌≡◌, refl, sym, subst, Bool, true, false, not, ◌&&◌, ◌==◌, if◌then◌else◌, ℤ}
use aodv.Timer.{Timers, TimerRef}
use aodv.Msg.{Msg}
use aodv.Node.{
  State, M, when, pure, skip, get, gets, modify, ◌>>=◌, ◌>>◌, gettimeofday, on_timers, set_timeout,
  RtEntry, RtFlags, RoutingTable, dec_u32, is_valid,
}
use aodv.Netlink.{nl_send_del_route_msg}
use aodv.Socket.{aodv_socket_send, aodv_socket_new_msg}
use aodv.Socket.Frame.{send-rt_tbl}
use aodv.Routing.Table.{lookup, deref, write_rt}
use aodv.Routing.Contract.{del_route-rt_tbl}
use aodv.Routing.Rerr.{rerr_create, rerr_add_udest}
use aodv.Routing.Route.{
  drop_precursors, invalidated, keep_invalid, rt_table_invalidate, precursor_list_destroy,
  decr_active,
}
use aodv.Routing.Neighbor.{Pending, no_pending, report_udest, break_route, send_rerr, finish_break}
use aodv.Routing.Fade.{Fainter, Fades, Fades-refl, Fades-trans, write_table-Fades}

pub record OnlyFades {A : Type 0} (m : M A) : Type 0 where
  pub run : (s : State) → Fades s.rt_tbl (m s).1.rt_tbl

-- A function that leaves the table.
module _ {A : Type 0} where
  pub leaves : (m : M A) → ((s : State) → (m s).1.rt_tbl ≡ s.rt_tbl) → OnlyFades m
  leaves m h = record { run = λ s. subst (λ t. Fades s.rt_tbl t) (sym (h s)) (Fades-refl s.rt_tbl) }

  OnlyFades-gets : (f : State → A) → OnlyFades (gets f)
  OnlyFades-gets f = leaves (gets f) (λ s. refl)

  pub OnlyFades-pure : (a : A) → OnlyFades (pure a)
  OnlyFades-pure a = leaves (pure a) (λ s. refl)

  OnlyFades-if : (c : Bool) {m k : M A} → OnlyFades m → OnlyFades k → OnlyFades (if c then m else k)
  OnlyFades-if true p q = p
  OnlyFades-if false p q = q

OnlyFades-bind :
    {A B : Type 0} {m : M A} {f : A → M B}
    → OnlyFades m
    → ((a : A) → OnlyFades (f a))
    → OnlyFades (m >>= f)
OnlyFades-bind {m = m} p q = record { run = λ s. Fades-trans (p.run s) ((q (m s).0).run (m s).1) }

OnlyFades-skip : OnlyFades skip
OnlyFades-skip = leaves skip (λ s. refl)

OnlyFades-get : OnlyFades get
OnlyFades-get = leaves get (λ s. refl)

OnlyFades-gettimeofday : OnlyFades gettimeofday
unfolding gettimeofday
OnlyFades-gettimeofday = leaves gettimeofday (λ s. refl)

OnlyFades-on_timers : (f : Timers → Timers) → OnlyFades (on_timers f)
OnlyFades-on_timers f = leaves (on_timers f) (λ s. refl)

OnlyFades-set_timeout : (r : TimerRef) (msec : ℤ) → OnlyFades (set_timeout r msec)
unfolding gettimeofday
OnlyFades-set_timeout r msec = leaves (set_timeout r msec) (λ s. refl)

OnlyFades-buffer : (f : State → Msg) → OnlyFades (modify λ s. record s { send_buf = f s })
OnlyFades-buffer f = leaves (modify λ s. record s { send_buf = f s }) (λ s. refl)

OnlyFades-send : (d l : ℕ) (t : ℤ) → OnlyFades (aodv_socket_send d l t)
OnlyFades-send d l t = leaves (aodv_socket_send d l t) (send-rt_tbl d l t)

OnlyFades-del_route : (d n m : ℕ) → OnlyFades (nl_send_del_route_msg d n m)
OnlyFades-del_route d n m = leaves (nl_send_del_route_msg d n m) (del_route-rt_tbl d n m)

OnlyFades-write_rt :
    (d : ℕ) (f : RtEntry → RtEntry) → ((e : RtEntry) → Fainter e (f e)) → OnlyFades (write_rt d f)
OnlyFades-write_rt d f h = record { run = λ s. write_table-Fades d f h s.rt_tbl }

Fades-decr : (t : RoutingTable) → Fades t (record t { num_active = dec_u32 t.num_active })
unfolding lookup
Fades-decr t = record { keys = λ i. refl; entries = λ k. (Fades-refl t).entries k }

OnlyFades-decr_active : OnlyFades decr_active
OnlyFades-decr_active = record { run = λ s. Fades-decr s.rt_tbl }

-- The writes.
Fainter-flags : (g : RtEntry → RtFlags) (e : RtEntry) → Fainter e (record e { flags = g e })
Fainter-flags g e = record { same_dest = refl; same_hop = refl; stays_invalid = λ h. h }

Fainter-seqno : (q : ℕ) (e : RtEntry) → Fainter e (record e { dest_seqno = q })
Fainter-seqno q e = record { same_dest = refl; same_hop = refl; stays_invalid = λ h. h }

Fainter-invalidated : (e : RtEntry) → Fainter e (invalidated e)
Fainter-invalidated e = record { same_dest = refl; same_hop = refl; stays_invalid = λ h. refl }

Fainter-dropped : (e : RtEntry) → Fainter e (drop_precursors e)
unfolding drop_precursors
Fainter-dropped e = record { same_dest = refl; same_hop = refl; stays_invalid = λ h. h }

ruleset fading = (
  OnlyFades-gets, OnlyFades-pure, OnlyFades-if, OnlyFades-bind, OnlyFades-skip, OnlyFades-get,
  OnlyFades-gettimeofday, OnlyFades-on_timers, OnlyFades-set_timeout, OnlyFades-buffer,
  OnlyFades-send, OnlyFades-del_route, OnlyFades-write_rt, OnlyFades-decr_active, Fainter-flags,
  Fainter-invalidated, Fainter-dropped,
)

OnlyFades-keep_invalid : (rt : ℕ) → OnlyFades (keep_invalid rt)
unfolding keep_invalid
OnlyFades-keep_invalid rt = search fading depth 10

pub OnlyFades-invalidate : (rt : ℕ) → OnlyFades (rt_table_invalidate rt)
unfolding rt_table_invalidate
OnlyFades-invalidate rt = search (fading, OnlyFades-keep_invalid) depth 14

pub OnlyFades-precursors : (rt : ℕ) → OnlyFades (precursor_list_destroy rt)
unfolding precursor_list_destroy
OnlyFades-precursors rt = search fading

OnlyFades-rerr_create : (n : Bool) (d q : ℕ) → OnlyFades (rerr_create n d q)
unfolding rerr_create aodv_socket_new_msg
OnlyFades-rerr_create n d q = search fading depth 8

OnlyFades-add_udest : (d q : ℕ) → OnlyFades (rerr_add_udest d q)
unfolding rerr_add_udest
OnlyFades-add_udest d q = search fading

pub OnlyFades-report : (n : Bool) (d : ℕ) (v : Pending) → OnlyFades (report_udest n d v)
unfolding report_udest
OnlyFades-report n d v = search (fading, OnlyFades-rerr_create, OnlyFades-add_udest) depth 10

pub OnlyFades-break_route : (rt u : ℕ) (v : Pending) → OnlyFades (break_route rt u v)
unfolding break_route
OnlyFades-break_route rt u v =
    search (fading, OnlyFades-invalidate, OnlyFades-report, OnlyFades-precursors) depth 14

pub OnlyFades-finish : (v : Pending) → OnlyFades (finish_break v)
unfolding finish_break send_rerr
OnlyFades-finish v = search fading depth 10

-- What break_route does after a route is invalid.
pub OnlyFades-lose :
    (rt_u : ℕ) (v : Pending)
    → OnlyFades (do
      u' ← deref rt_u
      v' ← (if u'.nprecursor == 0 then pure v else report_udest false rt_u v)
      precursor_list_destroy rt_u
      pure v')
OnlyFades-lose rt_u v = search (fading, OnlyFades-report, OnlyFades-precursors) depth 10

-- What neighbor_link_break does before its loop.
pub OnlyFades-opening :
    (rt : ℕ)
    → OnlyFades (do
      e' ← deref rt
      v ←
          (if not (e'.nprecursor == 0) && not e'.flags.repair
            then report_udest false rt no_pending
            else pure no_pending)
      when (not e'.flags.repair) (precursor_list_destroy rt)
      pure v)
OnlyFades-opening rt = search (fading, OnlyFades-report, OnlyFades-precursors) depth 10

-- What a RERR does to a route that it has made invalid.
pub OnlyFades-renumber :
    (rt q : ℕ) (v : Pending)
    → OnlyFades (do
      write_rt rt λ x. record x { dest_seqno = q }
      e ← deref rt
      v' ←
          (if not (e.nprecursor == 0) && not e.flags.repair
            then report_udest false rt v
            else pure v)
      when (not (is_valid e.state)) (precursor_list_destroy rt)
      pure v')
OnlyFades-renumber rt q v =
    search (fading, Fainter-seqno, OnlyFades-report, OnlyFades-precursors) depth 12
