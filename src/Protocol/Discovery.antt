-- ===== src/Protocol/Discovery.antt =====
-- A destination is sought once at a time.
use aodv.Base.{ℕ, ◌+◌, ◌≡◌, true, is_some, arith, Option-cases, inl, inr}
use aodv.Msg.{RreqFlags}
use aodv.Node.{State, gettimeofday}
use aodv.Routing.Table.{rt_table_check}
use aodv.Routing.Seek.{find_seek, seek_list_check, seek_list_insert}
use aodv.Protocol.Rreq.{start_seek, rreq_route_discovery, seek_params, ring_traversal_time}

start_seek-seeks :
    (d q t : ℕ) (f : RreqFlags) (r : ℕ) (s : State)
    → is_some (find_seek d (start_seek d q t f r s).1.sl) ≡ true
unfolding start_seek seek_list_insert gettimeofday find_seek
start_seek-seeks d q t f r s = ground arith

-- Whatever the state, after rreq_route_discovery the destination is sought.
pub rreq_route_discovery-seeks :
    (d : ℕ) (f : RreqFlags) (s : State)
    → is_some (find_seek d (rreq_route_discovery d f s).1.sl) ≡ true
unfolding rreq_route_discovery seek_list_check gettimeofday
rreq_route_discovery-seeks d f s = elim (Option-cases (find_seek d s.sl)) [
  | inl e ↦
      let (rt, s1) = rt_table_check d (gettimeofday s).1 in
      let ((q, ttl), s2) = seek_params rt (gettimeofday s).0 s1 in
      rw (e, rreq_route_discovery) (start_seek-seeks d q ttl f (ring_traversal_time ttl) s2)
  | inr (x, e) ↦ rw (e, rreq_route_discovery) (ground (arith, e))
]

-- While a destination is sought, rreq_route_discovery reads the clock and does no more.
sought :
    (d : ℕ) (f : RreqFlags) (s : State)
    → is_some (find_seek d s.sl) ≡ true
    → rreq_route_discovery d f s ≡ (tt, record s { reads = s.reads + 1 })
unfolding rreq_route_discovery seek_list_check gettimeofday
sought d f s h = ground (arith, h)

-- Whatever the state, a second route discovery for a destination right after the first sends nothing
-- and changes nothing but the number of clock readings.
pub rreq_route_discovery_twice :
    (d : ℕ) (f g : RreqFlags) (s : State)
    → let s' = (rreq_route_discovery d f s).1 in
      rreq_route_discovery d g s' ≡ (tt, record s' { reads = s'.reads + 1 })
rreq_route_discovery_twice d f g s =
    sought d g (rreq_route_discovery d f s).1 (rreq_route_discovery-seeks d f s)
