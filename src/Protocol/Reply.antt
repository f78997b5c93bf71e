-- ===== src/Protocol/Reply.antt =====
-- A RREP that reaches the node that asked for it.
pub mod Mark
pub mod Relay
use aodv.Base.{ℕ, ◌+◌, ◌≤◌, ◌≡◌, ◌≢◌, refl, ap, true, false, none, ltb, ◌==◌, arith}
use aodv.Msg.{Rrep, rrep_size}
use aodv.Node.{State, no_flags, valid}
use aodv.Routing.Table.{lookup, rt_table_check}
use aodv.Routing.Store.{IsTable, check-lookup}
use aodv.Routing.Frame.{Rest, insert-rest}
use aodv.Routing.Route.{rt_table_insert}
use aodv.Protocol.Rrep.{acknowledge, rrep_for_us, rrep_process}

-- rt_table_check finds nothing where the table has nothing.
pub check-none :
    (d : ℕ) (s : State)
    → IsTable s.rt_tbl
    → lookup d s.rt_tbl ≡ none
    → (rt_table_check d s).0 ≡ none
unfolding rt_table_check
check-none d s v p = ground (arith, check-lookup d s.rt_tbl v, p)

pub rrep_process-inserts :
    (m : Rrep) (len src ttl : ℕ) (s : State)
    → IsTable s.rt_tbl
    → rrep_size ≤ len
    → m.dest_addr ≢ s.this_host.ipaddr
    → m.orig_addr ≡ s.this_host.ipaddr
    → m.a ≡ false
    → lookup m.dest_addr s.rt_tbl ≡ none
    → (rrep_process m len src ttl s).1
      ≡ (rt_table_insert m.dest_addr src (m.hopcnt + 1) m.dest_seqno m.lifetime valid no_flags s).1
unfolding rrep_process acknowledge rrep_for_us
rrep_process-inserts m len src ttl s v l other ours no_ack p =
    let s' : State =
      (rt_table_insert m.dest_addr src (m.hopcnt + 1) m.dest_seqno m.lifetime valid no_flags s).1 in
    let host : s'.this_host.ipaddr ≡ s.this_host.ipaddr =
      ap (λ (r : Rest). r.0.0.ipaddr)
        (insert-rest m.dest_addr src (m.hopcnt + 1) m.dest_seqno m.lifetime valid no_flags s p) in
    let fits : ltb len rrep_size ≡ false = ground (arith, l) in
    let not_us : (m.dest_addr == s.this_host.ipaddr) ≡ false = ground (arith, other) in
    let us : (m.orig_addr == s'.this_host.ipaddr) ≡ true = ground (arith, host, ours) in
    rw (fits, not_us, rrep_process, check-none m.dest_addr s v p, no_ack, us) refl
