-- ===== src/Protocol/Request/Accept.antt =====
-- A RREQ that was not seen before, for an originator to which there is no route yet: what both the
-- destination and a node on the way do with it.
use aodv.Base.{ℕ, ◌+◌, ◌≤◌, ◌≡◌, ◌≢◌, refl, ap, false, ◌||◌, none, ltb, ◌==◌, if◌then◌else◌, arith}
use aodv.Msg.{Rreq, rreq_size}
use aodv.Node.{State, gettimeofday, skip, ◌>>◌, no_flags, valid}
use aodv.Routing.Table.{lookup, rt_table_check}
use aodv.Routing.Store.{IsTable}
use aodv.Routing.Frame.{rest_of, insert-rest}
use aodv.Routing.Route.{rt_table_insert}
use aodv.Protocol.Records.{
  has_record, has_addr, rreq_record_check, rreq_record_insert, rreq_blacklist_check,
}
use aodv.Protocol.Rreq.{reverse_life, update_reverse, reverse_route, rreq_accept, rreq_process}
use aodv.Protocol.Reply.{check-none}

-- The state in which the RREQ is on record.
abbrev pub recorded : Rreq → State → State
recorded m s = (rreq_record_insert m.orig_addr m.rreq_id s).1

-- The state in which there is a route back to the originator.
abbrev pub reversed : Rreq → ℕ → State → State
reversed m src t =
    (rt_table_insert m.orig_addr src (m.hopcnt + 1) m.orig_seqno (reverse_life (m.hopcnt + 1)) valid
      no_flags t).1

pub reversed-rest :
    (m : Rreq) (src : ℕ) (t : State)
    → lookup m.orig_addr t.rt_tbl ≡ none
    → rest_of (reversed m src t) ≡ rest_of t
reversed-rest m src t p =
    insert-rest m.orig_addr src (m.hopcnt + 1) m.orig_seqno (reverse_life (m.hopcnt + 1)) valid
      no_flags t p

pub recorded-rt_tbl : (m : Rreq) (s : State) → (recorded m s).rt_tbl ≡ s.rt_tbl
unfolding rreq_record_insert gettimeofday
recorded-rt_tbl m s = ground arith

pub recorded-kept : (m : Rreq) (s : State) → (rest_of (recorded m s)).0 ≡ (rest_of s).0
unfolding rreq_record_insert gettimeofday
recorded-kept m s = ground arith

pub recorded-sent : (m : Rreq) (s : State) → (recorded m s).sent ≡ s.sent
unfolding rreq_record_insert gettimeofday
recorded-sent m s = ground arith

-- A RREQ that passes the tests at the start of rreq_process.
pub process-accepts :
    (m : Rreq) (len src ttl : ℕ) (s : State)
    → m.orig_addr ≢ s.this_host.ipaddr
    → rreq_size ≤ len
    → has_addr src s.rreq_blacklists ≡ false
    → has_record m.orig_addr m.rreq_id s.rreq_records ≡ false
    → rreq_process m len src ttl s ≡ rreq_accept m len src ttl (recorded m s)
unfolding rreq_process rreq_blacklist_check rreq_record_check
process-accepts m len src ttl s o l b r =
    let other : (m.orig_addr == s.this_host.ipaddr) ≡ false = ground (arith, o) in
    let fits : ltb len rreq_size ≡ false = ground (arith, l) in
    let passes : (m.orig_addr == s.this_host.ipaddr
          || ltb len rreq_size
          || has_addr src s.rreq_blacklists
          || has_record m.orig_addr m.rreq_id s.rreq_records)
        ≡ false =
      rw (other, fits, b, r) refl in
    ap
      (λ c.
        (if c
            then skip
            else (rreq_record_insert m.orig_addr m.rreq_id >> rreq_accept m len src ttl))
          s)
      passes

-- The route back for an originator without an entry.
pub reverse-inserts :
    (m : Rreq) (src : ℕ) (t : State)
    → IsTable t.rt_tbl
    → lookup m.orig_addr t.rt_tbl ≡ none
    → (reverse_route m src t).1 ≡ reversed m src t
unfolding reverse_route rt_table_check
reverse-inserts m src t v p = ap (λ o. (update_reverse m src o t).1) (check-none m.orig_addr t v p)
