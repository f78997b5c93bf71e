-- ===== src/Node/Defs.antt =====
-- The daemon's data types and its state.
use aodv.Base.{ℕ, ◌+◌, ◌%◌, Bool, true, false, List, Option, ℤ, u32_mod}
use aodv.Timer.{Timeval, Timers}
use aodv.Msg.{RreqFlags, Msg, Packet}

-- rt->flags: RT_UNIDIR, RT_REPAIR, RT_INV_SEQNO, RT_INET_DEST.
pub record RtFlags : Type 0 where
  pub unidir : Bool
  pub repair : Bool
  pub inv_seqno : Bool
  pub inet_dest : Bool

abbrev pub no_flags : RtFlags
no_flags = record { unidir = false; repair = false; inv_seqno = false; inet_dest = false }

pub data RtState : Type 0 where
  invalid valid : RtState

abbrev pub is_valid : RtState → Bool
is_valid invalid = false
is_valid valid = true

-- rt_table_t, less its three timers, which are `rt_timer`, `ack_timer` and `hello_timer` at its
-- `dest_addr`.
pub record RtEntry : Type 0 where
  pub dest_addr : ℕ
  pub dest_seqno : ℕ
  pub next_hop : ℕ
  pub hopcnt : ℕ
  pub flags : RtFlags
  pub state : RtState
  pub last_hello_time : Timeval
  pub hello_cnt : ℕ
  pub hash : ℕ
  pub nprecursor : ℕ
  pub precursors : List ℕ

-- struct routing_table; `tbl i` is the bucket `i`, below RT_TABLESIZE.
pub record RoutingTable : Type 0 where
  pub num_entries : ℕ
  pub num_active : ℕ
  pub tbl : ℕ → List RtEntry

-- seek_list_t, less `seek_timer` at its `dest_addr`.
pub record SeekEntry : Type 0 where
  pub dest_addr : ℕ
  pub dest_seqno : ℕ
  pub flags : RreqFlags
  pub rreq_cnt : ℕ
  pub ttl : ℕ

-- struct rreq_record, less `rec_timer` at its two fields.
pub record RreqRecord : Type 0 where
  pub orig_addr : ℕ
  pub rreq_id : ℕ

-- struct host_info, with the fields of `dev` that the daemon reads.
pub record HostInfo : Type 0 where
  pub seqno : ℕ
  pub rreq_id : ℕ
  pub last_forward_time : Timeval
  pub last_broadcast_time : Timeval
  pub enabled : Bool
  pub ifindex : ℕ
  pub ipaddr : ℕ
  pub broadcast : ℕ

-- The settings of main.c that nothing changes while the daemon runs.
pub record Settings : Type 0 where
  pub ratelimit : Bool
  pub expanding_ring_search : Bool
  pub receive_n_hellos : ℕ
  pub local_repair : Bool
  pub active_route_timeout : ℕ
  pub ttl_start : ℕ
  pub delete_period : ℕ
  pub log_to_file : Bool
  pub rt_log_interval : ℕ

-- num_rreq and rreq_ratelimit, num_rerr and rerr_ratelimit: the part of the array that is in use.
pub record RateLimit : Type 0 where
  pub num : ℕ
  pub stamps : List Timeval

-- The messages to the kernel, of nl.c: those of KAODVM_ADDROUTE, KAODVM_DELROUTE,
-- KAODVM_NOROUTE_FOUND, KAODVM_CONFIG, and those of rtnetlink.
pub data RtmAction : Type 0 where
  rtm_newroute rtm_delroute : RtmAction

-- An attribute that a rtnetlink message leaves out is `none`.
pub data NlMsg : Type 0 where
  add_route : (dest nhop time ifindex : ℕ) (gw_encap repair : Bool) → NlMsg
  del_route : (dest nhop : ℕ) → NlMsg
  noroute_found : (dest : ℕ) → NlMsg
  config : (active_route_timeout : ℕ) → NlMsg
  rtm : (action : RtmAction) (dest : ℕ) (gateway oif : Option ℕ) (metric : ℕ) → NlMsg

-- A line about a route in the log of routes, less the name of the interface. A `dest_seqno` of `none`
-- is printed as `-`, and the first precursor is left out where there is none. The texts are lists of
-- ASCII codes.
pub record RouteLine : Type 0 where
  pub dest_addr : ℕ
  pub next_hop : ℕ
  pub hopcnt : ℕ
  pub state : List ℕ
  pub dest_seqno : Option ℕ
  pub expire : ℤ
  pub flags : List ℕ
  pub precursor : Option ℕ

-- What print_rt_table writes: the line `# Time: ...`, the names of the columns, a route, and one more
-- precursor of the route above.
pub data LogLine : Type 0 where
  heading : (time : Timeval) (ip seqno entries active : ℕ) → LogLine
  columns : LogLine
  route_line : RouteLine → LogLine
  precursor_line : (neighbor : ℕ) → LogLine

-- What the operating system answers: the n-th reading of gettimeofday, whether setsockopt takes a
-- TTL, and whether sendmsg takes a message with its sequence number.
pub record Env : Type 0 where
  pub clock : ℕ → Timeval
  pub set_ip_ttl : ℤ → Bool
  pub sendmsg : NlMsg → ℕ → Bool

-- `sent`, `nl_sent` and `rt_log` hold what went out, the latest first. `reads` counts the readings of the
-- clock.
pub record State : Type 0 where
  pub timer : Timers
  pub rt_tbl : RoutingTable
  pub sl : List SeekEntry
  pub rreq_records : List RreqRecord
  pub rreq_blacklists : List ℕ
  pub this_host : HostInfo
  pub conf : Settings
  pub wait_on_reboot : Bool
  pub send_buf : Msg
  pub rreq_limit : RateLimit
  pub rerr_limit : RateLimit
  pub aodvnl_seqno : ℕ
  pub rtnl_seqno : ℕ
  pub env : Env
  pub reads : ℕ
  pub sent : List Packet
  pub nl_sent : List NlMsg
  pub rt_log : List LogLine

-- s++ and s-- on a u32_t.
abbrev pub inc_u32 : ℕ → ℕ
inc_u32 n = (n + 1) % u32_mod

abbrev pub dec_u32 : ℕ → ℕ
dec_u32 n = (n + 4294967295) % u32_mod
