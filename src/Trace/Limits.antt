-- ===== src/Trace/Limits.antt =====
-- The arrays of the rate limits are never overrun, whatever happens to the daemon.
use aodv.Base.{List}
use aodv.Node.{State}
use aodv.Socket.Bounds.{FitLimits, send-FitLimits}
use aodv.Protocol.Loop.{Event, handle_all}
use aodv.Trace.Step.{
  Step, Steps, ran, forgets, here, then_step, reads_clock, inits, removes, sets, handles,
  writes_table, writes_seeks, remembers, writes_blacklist, writes_seqno, writes_rreq_id,
  writes_forward_time, ends_wait, writes_buffer, sends, writes_log, asks_kernel, asks_rtnl,
}
use aodv.Trace.Events.{Round, works, collects, pops, handle_all-inv}

Step-FitLimits : {s t : State} → Step s t → FitLimits s → FitLimits t
Step-FitLimits (reads_clock s n) v = v
Step-FitLimits (inits s r f e _) v = v
Step-FitLimits (removes s r) v = v
Step-FitLimits (sets s r msec now _) v = v
Step-FitLimits (handles s r f e _) v = v
Step-FitLimits (writes_table s t m) v = v
Step-FitLimits (writes_seeks s l) v = v
Step-FitLimits (remembers s a i n now _) v = v
Step-FitLimits (writes_blacklist s l) v = v
Step-FitLimits (writes_seqno s n) v = v
Step-FitLimits (writes_rreq_id s n) v = v
Step-FitLimits (writes_forward_time s t) v = v
Step-FitLimits (ends_wait s r e) v = v
Step-FitLimits (writes_buffer s b) v = v
Step-FitLimits (sends s d l t) v = send-FitLimits d l t s v
Step-FitLimits (writes_log s l) v = v
Step-FitLimits (asks_kernel s n l) v = v
Step-FitLimits (asks_rtnl s n l) v = v

pub Steps-FitLimits : {s t : State} → Steps s t → FitLimits s → FitLimits t
Steps-FitLimits (here _) v = v
Steps-FitLimits (then_step p st) v = Step-FitLimits st (Steps-FitLimits p v)

Round-FitLimits : (s t : State) → Round s t → FitLimits s → FitLimits t
Round-FitLimits s t (works (ran p)) v = Steps-FitLimits p v
Round-FitLimits s t (works (forgets _ l)) v = v
Round-FitLimits s t (collects _ now) v = v
Round-FitLimits s t (pops _ r q e) v = v

-- After any events, from a state where it is so, both rate limits count exactly the stamps in their arrays, and these are at
-- most ten: no write goes beyond RREQ_RATELIMIT or RERR_RATELIMIT.
pub handle_all-FitLimits : (l : List Event) (s : State) → FitLimits s → FitLimits (handle_all l s)
handle_all-FitLimits l s v = handle_all-inv FitLimits Round-FitLimits l s v
