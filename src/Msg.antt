-- ===== src/Msg.antt =====
-- The AODV messages (aodv_rreq.h, aodv_rrep.h, aodv_rerr.h, defs.h), with every field as the host
-- reads it: the calls of htonl and ntohl stand at the border of the model and undo one another.
-- The reserved bits are written as 0 and never read, so they are left out.
use aodv.Base.{ℕ, ◌+◌, ◌*◌, Bool, false, List, length, ℤ}

-- The flags of a RREQ: RREQ_JOIN, RREQ_REPAIR, RREQ_GRATUITOUS, RREQ_DEST_ONLY and
-- RREQ_UNKNOWN_SEQNO.
pub record RreqFlags : Type 0 where
  pub j : Bool
  pub r : Bool
  pub g : Bool
  pub d : Bool
  pub u : Bool

abbrev pub no_rreq_flags : RreqFlags
no_rreq_flags = record { j = false; r = false; g = false; d = false; u = false }

pub record Rreq : Type 0 where
  pub flags : RreqFlags
  pub hopcnt : ℕ
  pub rreq_id : ℕ
  pub dest_addr : ℕ
  pub dest_seqno : ℕ
  pub orig_addr : ℕ
  pub orig_seqno : ℕ

pub record Rrep : Type 0 where
  pub r : Bool
  pub a : Bool
  pub prefix : ℕ
  pub hopcnt : ℕ
  pub dest_addr : ℕ
  pub dest_seqno : ℕ
  pub orig_addr : ℕ
  pub lifetime : ℕ

-- RERR_udest
pub record Udest : Type 0 where
  pub dest_addr : ℕ
  pub dest_seqno : ℕ

-- `dest_count` is the length of `udests`, the first of which stands in the struct itself. A message
-- that holds more than fit in `send_buf` is out of the model's scope.
pub record Rerr : Type 0 where
  pub n : Bool
  pub udests : List Udest

-- AODV_msg by its `type`: AODV_HELLO, AODV_RREQ, AODV_RREP, AODV_RERR, AODV_RREP_ACK, or another
-- value. The zeroed buffer of `aodv_socket_new_msg` is `blank`.
pub data Msg : Type 0 where
  blank : Msg
  hello : Rrep → Msg
  rreq : Rreq → Msg
  rrep : Rrep → Msg
  rerr : Rerr → Msg
  rrep_ack : Msg
  unknown : ℕ → Msg

-- sizeof of the structs, and RERR_CALC_SIZE.
abbrev pub rreq_size : ℕ
rreq_size = 24

abbrev pub rrep_size : ℕ
rrep_size = 20

abbrev pub rerr_calc_size : Rerr → ℕ
rerr_calc_size m = 4 + 8 * length m.udests

abbrev pub aodv_broadcast : ℕ
aodv_broadcast = 4294967295

-- What `sendto` puts on the air.
pub record Packet : Type 0 where
  pub msg : Msg
  pub dest : ℕ
  pub len : ℕ
  pub ttl : ℤ
