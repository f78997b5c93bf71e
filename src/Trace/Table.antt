-- ===== src/Trace/Table.antt =====
-- The routing table stays in order, whatever happens to the daemon.
use aodv.Base.{List}
use aodv.Node.{State, RoutingTable}
use aodv.Routing.Table.{rt_table_init}
use aodv.Routing.Store.{
  IsTable, write_table-IsTable, link_entry-IsTable, unlink_table-IsTable, Once,
}
use aodv.Protocol.Loop.{Event, handle_all}
use aodv.Trace.Step.{
  Moves, counts, changes, links, unlinks, Step, Steps, ran, forgets, here, then_step, reads_clock,
  inits, removes, sets, handles, writes_table, writes_seeks, remembers, writes_blacklist,
  writes_seqno, writes_rreq_id, writes_forward_time, ends_wait, writes_buffer, sends, writes_log,
  asks_kernel, asks_rtnl,
}
use aodv.Socket.Frame.{send-rt_tbl}
use aodv.Trace.Events.{Round, works, collects, pops, handle_all-inv}

-- The table that rt_table_init leaves is in order.
pub init-IsTable : (s : State) → IsTable (rt_table_init s).1.rt_tbl
unfolding rt_table_init Once
init-IsTable s = record { home = λ i. tt; once = λ i. tt }

Moves-IsTable : {t u : RoutingTable} → Moves t u → IsTable t → IsTable u
Moves-IsTable (counts t n m) v = record { home = v.home; once = v.once }
Moves-IsTable (changes t d f k) v =
    write_table-IsTable d f (λ e. (k.same_dest e, k.same_hash e)) t v
Moves-IsTable (links t e h n) v = link_entry-IsTable e t h n v
Moves-IsTable (unlinks t d) v = unlink_table-IsTable d t v

Step-IsTable : {s t : State} → Step s t → IsTable s.rt_tbl → IsTable t.rt_tbl
Step-IsTable (reads_clock s n) v = v
Step-IsTable (inits s r f e _) v = v
Step-IsTable (removes s r) v = v
Step-IsTable (sets s r msec now _) v = v
Step-IsTable (handles s r f e _) v = v
Step-IsTable (writes_table s t m) v = Moves-IsTable m v
Step-IsTable (writes_seeks s l) v = v
Step-IsTable (remembers s a i n now _) v = v
Step-IsTable (writes_blacklist s l) v = v
Step-IsTable (writes_seqno s n) v = v
Step-IsTable (writes_rreq_id s n) v = v
Step-IsTable (writes_forward_time s t) v = v
Step-IsTable (ends_wait s r e) v = v
Step-IsTable (writes_buffer s b) v = v
Step-IsTable (sends s d l t) v = rw (send-rt_tbl d l t s) v
Step-IsTable (writes_log s l) v = v
Step-IsTable (asks_kernel s n l) v = v
Step-IsTable (asks_rtnl s n l) v = v

pub Steps-IsTable : {s t : State} → Steps s t → IsTable s.rt_tbl → IsTable t.rt_tbl
Steps-IsTable (here _) v = v
Steps-IsTable (then_step p st) v = Step-IsTable st (Steps-IsTable p v)

Round-IsTable : (s t : State) → Round s t → IsTable s.rt_tbl → IsTable t.rt_tbl
Round-IsTable s t (works (ran p)) v = Steps-IsTable p v
Round-IsTable s t (works (forgets _ l)) v = v
Round-IsTable s t (collects _ now) v = v
Round-IsTable s t (pops _ r q e) v = v

-- Any events, from a state whose routing table is in order, leave it in order: each entry is in the
-- bucket of its destination, its hash is that destination, and no destination has two entries.
pub handle_all-IsTable :
    (l : List Event) (s : State) → IsTable s.rt_tbl → IsTable (handle_all l s).rt_tbl
handle_all-IsTable l s v = handle_all-inv (λ s. IsTable s.rt_tbl) Round-IsTable l s v
