-- ===== src/Log/Packet.antt =====
-- debug.c: log_pkt_fields, the lines that describe a message. Each call of DEBUG is one line, with the
-- values that it prints.
use aodv.Base.{ℕ, Bool, true, false, List, [], ◌∷◌, length}
use aodv.Msg.{Msg, rreq, rrep, rerr}
use aodv.Log.Text.{Text, rreq_flags_to_str, rrep_flags_to_str, codes}

pub data PktLine : Type 0 where
  rreq_fields : (flags : Text) (hopcnt rreq_id : ℕ) → PktLine
  rrep_fields : (flags : Text) (hopcnt : ℕ) → PktLine
  dest_line : (dest_addr dest_seqno : ℕ) → PktLine
  orig_line : (orig_addr orig_seqno : ℕ) → PktLine
  lifetime_line : (orig_addr lifetime : ℕ) → PktLine
  rerr_fields : (dest_count : ℕ) (flags : Text) → PktLine

abbrev n_flag : Bool → Text
n_flag true = codes "N"
n_flag false = codes "-"

unfoldable pub log_pkt_fields : Msg → List PktLine
unfolding rreq_flags_to_str rrep_flags_to_str
log_pkt_fields (rreq m) =
    rreq_fields (rreq_flags_to_str m.flags) m.hopcnt m.rreq_id
    ∷ dest_line m.dest_addr m.dest_seqno
    ∷ orig_line m.orig_addr m.orig_seqno
    ∷ []
log_pkt_fields (rrep m) =
    rrep_fields (rrep_flags_to_str m.r m.a) m.hopcnt
    ∷ dest_line m.dest_addr m.dest_seqno
    ∷ lifetime_line m.orig_addr m.lifetime
    ∷ []
log_pkt_fields (rerr m) = rerr_fields (length m.udests) (n_flag m.n) ∷ []
log_pkt_fields _ = []
