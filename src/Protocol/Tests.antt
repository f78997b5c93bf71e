-- ===== src/Protocol/Tests.antt =====
-- The theorems about messages and links at concrete states.
use aodv.Base.{ℕ, ◌≡◌, refl, false, some, [], ◌∷◌, ◌==◌, if◌then◌else◌, pos, arith, All}
use aodv.Msg.{Rerr, Rreq, Rrep, rreq, rrep, rrep_size, aodv_broadcast}
use aodv.Node.{State, RtEntry, no_flags, valid, is_valid}
use aodv.Routing.Table.{lookup, find, rt_table_init}
use aodv.Routing.Route.{new_entry, rt_table_destroy}
use aodv.Routing.Fade.{Fades}
use aodv.Routing.Neighbor.{neighbor_link_break}
use aodv.Routing.Break.Cut.{neighbor_link_break-cuts}
use aodv.Routing.Destroy.{rt_table_destroy-empties}
use aodv.Socket.Bounds.{goes_out}
use aodv.Protocol.Records.{has_addr, has_record}
use aodv.Protocol.Rreq.{rreq_process}
use aodv.Protocol.Rrep.{max_ttl, rrep_process}
use aodv.Protocol.Request.Accept.{recorded, reversed}
use aodv.Protocol.Request.Answer.{rreq_process-answers}
use aodv.Protocol.Request.Relay.{relaying, rreq_process-relays}
use aodv.Routing.Store.{IsTable, Once}
use aodv.Protocol.Rerr.{rerr_process}
use aodv.Trace.Lost.One.{NoneBy}
use aodv.Trace.Lost.{rerr_process-loses}
use aodv.Protocol.Reply.Relay.{rrep_process-relays}
use aodv.Trace.Tests.{boot, cleared, flooded, neighbor, with_route, with_route-IsTable}
use aodv.Trace.Table.{init-IsTable}

-- Node 1 no longer waits after its start.
abbrev awake : State
awake = record cleared { wait_on_reboot = false }

rreq_process-answers_example :
    let s' = (rreq_process flooded 24 5 4 awake).1 in
    ((k : ℕ)
      → lookup k s'.rt_tbl
        ≡ (if k == 9 then some (new_entry 9 5 2 3 valid no_flags) else lookup k awake.rt_tbl))
    × (s'.this_host.seqno ≡ 0)
    × (s'.sent
        ≡ record {
          msg = rrep (record {
            r = false;
            a = false;
            prefix = 0;
            hopcnt = 0;
            dest_addr = 1;
            dest_seqno = 0;
            orig_addr = 9;
            lifetime = 20000;
          });
          dest = 5;
          len = rrep_size;
          ttl = max_ttl;
        }
          ∷ [])
unfolding lookup find has_addr has_record rt_table_init
rreq_process-answers_example =
    rreq_process-answers flooded 24 5 4 awake (init-IsTable boot) (omega arith) (omega arith) refl
      refl refl refl

-- The RREQ asks for node 7.
abbrev passing : Rreq
passing = record flooded { dest_addr = 7 }

rreq_process-relays_example :
    let s' = (rreq_process passing 24 5 4 cleared).1 in
    ((k : ℕ)
      → lookup k s'.rt_tbl
        ≡ (if k == 9 then some (new_entry 9 5 2 3 valid no_flags) else lookup k cleared.rt_tbl))
    × (s'.sent ≡ (
        if goes_out (pos 3) (relaying passing (reversed passing 5 (recorded passing cleared)))
        then record {
          msg = rreq (record passing { hopcnt = 2 });
          dest = aodv_broadcast;
          len = 24;
          ttl = pos 3;
        }
          ∷ []
        else []))
unfolding lookup find has_addr has_record rt_table_init
rreq_process-relays_example =
    rreq_process-relays passing 24 5 4 cleared (init-IsTable boot) (omega arith) (omega arith) refl
      refl refl refl (omega arith) (omega arith)

-- The answer of node 7 to node 1.
abbrev answer : Rrep
answer = record {
  r = false;
  a = false;
  prefix = 0;
  hopcnt = 2;
  dest_addr = 7;
  dest_seqno = 4;
  orig_addr = 1;
  lifetime = 6000;
}

-- The same answer, to node 5, comes by the neighbor 4 to node 1, which has a route to node 5 and still
-- waits after its start.
abbrev passed : Rrep
passed = record answer { orig_addr = 5 }

rrep_process-relays_example :
    let s' = (rrep_process passed 20 4 3 with_route).1 in
    ((e : RtEntry) × (lookup 7 s'.rt_tbl ≡ some e) × (e.next_hop ≡ 4) × (e.precursors ≡ 5 ∷ []))
    × (s'.sent ≡ [])
unfolding lookup find
rrep_process-relays_example =
    rrep_process-relays passed 20 4 3 with_route neighbor with_route-IsTable (omega arith)
      (omega arith) (omega arith) (omega arith) refl refl refl refl

-- A route to node 7 by the neighbor 5.
abbrev by_neighbor : State
by_neighbor = record with_route {
  rt_tbl = record {
    num_entries = 2;
    num_active = 2;
    tbl = λ i.
        if i == 5
        then neighbor ∷ []
        else if i == 7
        then new_entry 7 5 3 4 valid no_flags ∷ []
        else [];
  };
}

neighbor_link_break-cuts_example :
    let t = (neighbor_link_break 5 by_neighbor).1.rt_tbl in
    ((k : ℕ) (x : RtEntry) → lookup k t ≡ some x → x.next_hop ≡ 5 → is_valid x.state ≡ false)
    × Fades by_neighbor.rt_tbl t
unfolding lookup find
neighbor_link_break-cuts_example = neighbor_link_break-cuts 5 by_neighbor neighbor refl refl

by_neighbor-IsTable : IsTable by_neighbor.rt_tbl
unfolding Once find
by_neighbor-IsTable = record { home = λ i. ground arith; once = λ i. ground arith }

-- Node 5 has lost its route to node 7.
abbrev lost : Rerr
lost = record { n = false; udests = record { dest_addr = 7; dest_seqno = 6 } ∷ [] }

rerr_process-loses_example :
    All (NoneBy 5 (rerr_process lost 12 5 by_neighbor).1.rt_tbl) lost.udests
rerr_process-loses_example =
    rerr_process-loses lost 12 5 by_neighbor refl (omega arith) by_neighbor-IsTable (omega arith)

rt_table_destroy-empties_example : (rt_table_destroy with_route).1.rt_tbl.tbl 5 ≡ []
rt_table_destroy-empties_example =
    rt_table_destroy-empties with_route 5 with_route-IsTable (omega arith)
