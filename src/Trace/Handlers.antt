-- ===== src/Trace/Handlers.antt =====
-- The handlers of messages are made of steps.
use aodv.Protocol.Rrep
use aodv.Protocol.Rreq
use aodv.Base.{◌+◌, Bool-cases, inl, inr, ℕ, Option, none, some, ℤ}
use aodv.Timer.{Timeval}
use aodv.Msg.{RreqFlags, Rrep, Rreq}
use aodv.Node.{gettimeofday, RtEntry, HostInfo, on_host}
use aodv.Protocol.Records.{has_record, rreq_record_check, rreq_record_insert, rreq_blacklist_insert}
use aodv.Trace.Step.{
  remembers, here, Runs, runs, one, writes_seqno, writes_rreq_id, writes_forward_time,
}
use aodv.Trace.Routing.{
  Runs-precursor_add, Runs-new_msg, Runs-queue_msg, Runs-insert, Runs-update, Runs-update_timeout,
  Runs-link_break, Runs-rerr_create, Runs-send_rerr, Runs-seek_list_insert,
}

pub Runs-record_insert : (a i : ℕ) → Runs (rreq_record_insert a i)
unfolding rreq_record_insert rreq_record_check gettimeofday
Runs-record_insert a i = record {
  run = λ s. elim (Bool-cases (has_record a i s.rreq_records)) [
    | inl e ↦ rw e (here s)
    | inr e ↦ rw e (one (remembers s a i (s.reads + 1) (s.env.clock s.reads) e))
  ];
}

pub Runs-blacklist_insert : (a : ℕ) → Runs (rreq_blacklist_insert a)
unfolding rreq_blacklist_insert
Runs-blacklist_insert a = search runs depth 10

-- The three writes to `this_host`.
pub Runs-write_seqno : (f : HostInfo → ℕ) → Runs (on_host λ h. record h { seqno = f h })
Runs-write_seqno f = record { run = λ s. one (writes_seqno s (f s.this_host)) }

pub Runs-write_rreq_id : (f : HostInfo → ℕ) → Runs (on_host λ h. record h { rreq_id = f h })
Runs-write_rreq_id f = record { run = λ s. one (writes_rreq_id s (f s.this_host)) }

pub Runs-write_forward_time : (t : Timeval) → Runs (on_host λ h. record h { last_forward_time = t })
Runs-write_forward_time t = record { run = λ s. one (writes_forward_time s t) }

pub Runs-rrep_create : (p h d q o l : ℕ) → Runs (Rrep.rrep_create p h d q o l)
unfolding Rrep.rrep_create
Runs-rrep_create p h d q o l = search (runs, Runs-new_msg)

Runs-drop_ack_timer : (o : Option ℕ) → Runs (Rrep.drop_ack_timer o)
Runs-drop_ack_timer none = search runs
Runs-drop_ack_timer (some p) = search runs

pub Runs-rrep_ack_process : (d : ℕ) → Runs (Rrep.rrep_ack_process d)
unfolding Rrep.rrep_ack_process
Runs-rrep_ack_process d = search (runs, Runs-drop_ack_timer)

Runs-await_ack : (o : Option ℕ) → Runs (Rrep.await_ack o)
Runs-await_ack none = search runs
Runs-await_ack (some p) = search (runs, Runs-link_break) depth 12

Runs-if_fwd : (o : Option ℕ) (d : ℕ) → Runs (Rrep.if_fwd o d)
Runs-if_fwd none d = search runs
Runs-if_fwd (some p) d = search (runs, Runs-precursor_add) depth 10

Runs-rrep_send : (a b : Option ℕ) (l : ℕ) → Runs (Rrep.rrep_send a b l)
unfolding Rrep.rrep_send
Runs-rrep_send none b l = search runs
Runs-rrep_send (some p) b l = search (runs, Runs-await_ack, Runs-if_fwd) depth 12

Runs-mark_neighbor : (o : Option ℕ) (m : Rrep) → Runs (Rrep.mark_neighbor o m)
Runs-mark_neighbor none m = search runs
Runs-mark_neighbor (some p) m = search runs depth 10

Runs-rrep_forward : (m : Rrep) (l r f : ℕ) (t : ℤ) → Runs (Rrep.rrep_forward m l r f t)
unfolding Rrep.rrep_forward
Runs-rrep_forward m l r f t =
    search (runs, Runs-mark_neighbor, Runs-queue_msg, Runs-update_timeout) depth 16

Runs-forward_route : (m : Rrep) (d : ℕ) (o : Option ℕ) → Runs (Rrep.forward_route m d o)
Runs-forward_route m d none = search (runs, Runs-insert) depth 8
Runs-forward_route m d (some p) = search (runs, Runs-update) depth 8

Runs-acknowledge : (m : Rrep) (d : ℕ) → Runs (Rrep.acknowledge m d)
unfolding Rrep.acknowledge Rrep.rrep_ack_create
Runs-acknowledge m d = search (runs, Runs-new_msg) depth 10

Runs-rrep_for_us : (p : Rrep.PreRepair) (d : ℕ) → Runs (Rrep.rrep_for_us p d)
unfolding Rrep.rrep_for_us
Runs-rrep_for_us p d = search (runs, Runs-rerr_create, Runs-send_rerr) depth 10

Runs-forward_rrep : (m : Rrep) (l : ℕ) (o : Option ℕ) (t : ℤ) → Runs (Rrep.forward_rrep m l o t)
Runs-forward_rrep m l none t = search runs
Runs-forward_rrep m l (some p) t = search (runs, Runs-rrep_forward) depth 8

Runs-deliver_rrep :
    (m : Rrep) (l : ℕ) (o : Option ℕ) (t : ℕ) (p : Option Rrep.PreRepair)
    → Runs (Rrep.deliver_rrep m l o t p)
Runs-deliver_rrep m l o t none = search runs
Runs-deliver_rrep m l o t (some p) =
    search (runs, Runs-acknowledge, Runs-rrep_for_us, Runs-forward_rrep) depth 10

pub Runs-rrep_process : (m : Rrep) (l d t : ℕ) → Runs (Rrep.rrep_process m l d t)
unfolding Rrep.rrep_process
Runs-rrep_process m l d t = search (runs, Runs-forward_route, Runs-deliver_rrep) depth 10

Runs-rreq_create : (f : RreqFlags) (d q o : ℕ) → Runs (Rreq.rreq_create f d q o)
unfolding Rreq.rreq_create
Runs-rreq_create f d q o =
    search (runs, Runs-new_msg, Runs-queue_msg, Runs-write_seqno, Runs-write_rreq_id) depth 12

pub Runs-rreq_send : (d q t : ℕ) (f : RreqFlags) → Runs (Rreq.rreq_send d q t f)
unfolding Rreq.rreq_send
Runs-rreq_send d q t f = search (runs, Runs-rreq_create) depth 8

Runs-update_reverse : (m : Rreq) (d : ℕ) (o : Option ℕ) → Runs (Rreq.update_reverse m d o)
Runs-update_reverse m d none = search (runs, Runs-insert) depth 8
Runs-update_reverse m d (some p) = search (runs, Runs-update) depth 8

Runs-reverse_route : (m : Rreq) (d : ℕ) → Runs (Rreq.reverse_route m d)
unfolding Rreq.reverse_route
Runs-reverse_route m d = search (runs, Runs-update_reverse)

Runs-answer_as_dest : (m : Rreq) → Runs (Rreq.answer_as_dest m)
unfolding Rreq.answer_as_dest
Runs-answer_as_dest m = search (runs, Runs-write_seqno, Runs-rrep_send) depth 10

Runs-answer_with_route : (m : Rreq) (now : Timeval) → Runs (Rreq.answer_with_route m now)
unfolding Rreq.answer_with_route
Runs-answer_with_route m now = search (runs, Runs-rrep_create, Runs-rrep_send) depth 14

Runs-newest_seqno : (m : Rreq) (o : Option ℕ) → Runs (Rreq.newest_seqno m o)
Runs-newest_seqno m none = search runs
Runs-newest_seqno m (some p) = search runs

Runs-forward_rreq : (m : Rreq) (l : ℕ) (o : Option ℕ) (t : ℕ) → Runs (Rreq.forward_rreq m l o t)
unfolding Rreq.forward_rreq Rreq.rreq_forward
Runs-forward_rreq m l o t = search (runs, Runs-newest_seqno, Runs-queue_msg) depth 10

Runs-answer_or_forward :
    (m : Rreq) (l : ℕ) (o : Option ℕ) (t : ℕ) → Runs (Rreq.answer_or_forward m l o t)
Runs-answer_or_forward m l none t = Runs-forward_rreq m l none t
Runs-answer_or_forward m l (some p) t =
    search (runs, Runs-answer_with_route, Runs-forward_rreq) depth 10

pub Runs-rreq_accept : (m : Rreq) (l d t : ℕ) → Runs (Rreq.rreq_accept m l d t)
unfolding Rreq.rreq_accept
Runs-rreq_accept m l d t =
    search (runs, Runs-reverse_route, Runs-answer_as_dest, Runs-answer_or_forward) depth 10

pub Runs-rreq_process : (m : Rreq) (l d t : ℕ) → Runs (Rreq.rreq_process m l d t)
unfolding Rreq.rreq_process
Runs-rreq_process m l d t = search (runs, Runs-record_insert, Runs-rreq_accept) depth 10

pub Runs-hold_route : (d : ℕ) (now : Timeval) → Runs (Rreq.hold_route d now)
unfolding Rreq.hold_route
Runs-hold_route d now = search (runs, Runs-update_timeout) depth 8

Runs-seek_params : (o : Option ℕ) (now : Timeval) → Runs (Rreq.seek_params o now)
Runs-seek_params none now = search runs
Runs-seek_params (some p) now = search (runs, Runs-hold_route) depth 8

Runs-start_seek : (d q t : ℕ) (f : RreqFlags) (r : ℕ) → Runs (Rreq.start_seek d q t f r)
unfolding Rreq.start_seek
Runs-start_seek d q t f r = search (runs, Runs-rreq_send, Runs-seek_list_insert) depth 10

pub Runs-route_discovery : (d : ℕ) (f : RreqFlags) → Runs (Rreq.rreq_route_discovery d f)
unfolding Rreq.rreq_route_discovery
Runs-route_discovery d f = search (runs, Runs-seek_params, Runs-start_seek) depth 12

Runs-repair_ttl : (e : RtEntry) (o : Option ℕ) → Runs (Rreq.repair_ttl e o)
Runs-repair_ttl e none = search runs
Runs-repair_ttl e (some p) = search runs

pub Runs-local_repair : (d a : ℕ) → Runs (Rreq.rreq_local_repair d a)
unfolding Rreq.rreq_local_repair
Runs-local_repair d a = search (runs, Runs-repair_ttl, Runs-hold_route, Runs-start_seek) depth 14
