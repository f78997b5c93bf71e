-- ===== src/Protocol/Request/Answer.antt =====
-- A RREQ at the node that it asks for.
use aodv.Base.{
  ℕ, ◌+◌, ◌*◌, ◌≤◌, ◌≡◌, ◌≢◌, refl, ap, ap₂, sym, subst, ◌∙◌, Bool, true, false, not, ◌&&◌, none,
  some, List, ◌∷◌, ◌==◌, if◌then◌else◌, arith,
}
use aodv.Msg.{Rreq, Packet, rrep, rreq_size, rrep_size}
use aodv.Node.{State, ⊤, after, when, is_valid, ◌>>◌, ◌>>=◌, RtEntry, RoutingTable, no_flags, valid}
use aodv.Socket.{aodv_socket_send, aodv_socket_new_msg}
use aodv.Socket.Frame.{send-rt_tbl, send-seqno}
use aodv.Socket.Bounds.{goes_out, aodv_socket_send-sent}
use aodv.Routing.Table.{lookup, rt_table_check, entry_at, deref}
use aodv.Routing.Store.{IsTable}
use aodv.Routing.Frame.{Host, Rest, rest_of}
use aodv.Routing.Route.{new_entry}
use aodv.Routing.Contract.{rt_table_insert-lookup}
use aodv.Protocol.Records.{has_record, has_addr}
use aodv.Protocol.Rrep.{max_ttl, await_ack, rrep_create, rrep_send}
use aodv.Protocol.Rreq.{
  reverse_life, answer_or_forward, answer_seqno, answer_as_dest, rreq_accept, rreq_process,
}
use aodv.Protocol.Request.Accept.{
  recorded, reversed, reversed-rest, recorded-rt_tbl, recorded-kept, recorded-sent, process-accepts,
  reverse-inserts,
}

-- The RREP of the destination, in the buffer.
abbrev pub answering : Rreq → State → State
answering m t =
    let seqno : ℕ = answer_seqno t.this_host.seqno m.dest_seqno in
    record t {
      this_host = record (t.this_host) { seqno = seqno };
      send_buf = rrep (record {
        r = false;
        a = false;
        prefix = 0;
        hopcnt = 0;
        dest_addr = t.this_host.ipaddr;
        dest_seqno = seqno;
        orig_addr = m.orig_addr;
        lifetime = 2 * t.conf.active_route_timeout;
      });
    }

-- A RREP by a route that is no one-way link goes to its next hop, and does nothing else.
send-plain :
    (rt len : ℕ) (u : State) (e : RtEntry)
    → entry_at rt u ≡ e
    → e.flags.unidir ≡ false
    → (rrep_send (some rt) none len u).1 ≡ (aodv_socket_send e.next_hop len max_ttl u).1
unfolding rrep_send rt_table_check
send-plain rt len u e p f =
    let send : RtEntry → Bool → State = λ x c.
      after
        (do
          when c (do neighbor ← rt_table_check x.next_hop; await_ack neighbor)
          e' ← deref rt
          aodv_socket_send e'.next_hop len max_ttl)
        u in
    let one_way : (is_valid e.state && e.flags.unidir) ≡ false = ground (arith, f) in
    ap (λ (x : RtEntry). send x (is_valid x.state && x.flags.unidir)) p
    ∙ ap (send e) one_way
    ∙ ap (λ (x : RtEntry). (aodv_socket_send x.next_hop len max_ttl u).1) p

-- The answer goes to the next hop of a new route.
answer-sends :
    (m : Rreq) (t : State) (src h q : ℕ)
    → lookup m.orig_addr t.rt_tbl ≡ some (new_entry m.orig_addr src h q valid no_flags)
    → (answer_as_dest m t).1 ≡ (aodv_socket_send src rrep_size max_ttl (answering m t)).1
unfolding answer_as_dest rrep_create aodv_socket_new_msg entry_at
answer-sends m t src h q e =
    send-plain m.orig_addr rrep_size (answering m t) (new_entry m.orig_addr src h q valid no_flags)
      (rw e refl) refl

accept-answers :
    (m : Rreq) (len src ttl : ℕ) (t : State)
    → IsTable t.rt_tbl
    → lookup m.orig_addr t.rt_tbl ≡ none
    → m.dest_addr ≡ t.this_host.ipaddr
    → (rreq_accept m len src ttl t).1
      ≡ (aodv_socket_send src rrep_size max_ttl (answering m (reversed m src t))).1
unfolding rreq_accept
accept-answers m len src ttl t v p us =
    let u : State = reversed m src t in
    let host : u.this_host.ipaddr ≡ t.this_host.ipaddr =
      ap (λ (r : Rest). r.0.0.ipaddr) (reversed-rest m src t p) in
    let go : State → Bool → State = λ x c.
      after
        (if c
          then answer_as_dest m
          else (do fwd_rt ← rt_table_check m.dest_addr; answer_or_forward m len fwd_rt ttl))
        x in
    let for_us : (m.dest_addr == u.this_host.ipaddr) ≡ true = ground (arith, host, us) in
    ap (λ (x : State). go x (m.dest_addr == x.this_host.ipaddr)) (reverse-inserts m src t v p)
    ∙ ap (go u) for_us
    ∙ answer-sends m u src (m.hopcnt + 1) m.orig_seqno (
        (rt_table_insert-lookup m.orig_addr src (m.hopcnt + 1) m.orig_seqno
            (reverse_life (m.hopcnt + 1)) valid no_flags t p).1
          m.orig_addr
        ∙ ground arith)

-- What has gone out when the answer has.
abbrev pub answer_packets : Rreq → ℕ → Host → List Packet → List Packet
answer_packets m src (host, conf, waits, env) sent =
    if not waits && env.set_ip_ttl max_ttl
    then record {
      msg = rrep (record {
        r = false;
        a = false;
        prefix = 0;
        hopcnt = 0;
        dest_addr = host.ipaddr;
        dest_seqno = answer_seqno host.seqno m.dest_seqno;
        orig_addr = m.orig_addr;
        lifetime = 2 * conf.active_route_timeout;
      });
      dest = src;
      len = rrep_size;
      ttl = max_ttl;
    }
      ∷ sent
    else sent

answering-goes_out :
    (m : Rreq) (u : State)
    → goes_out max_ttl (answering m u) ≡ (not u.wait_on_reboot && u.env.set_ip_ttl max_ttl)
answering-goes_out m u = ground arith

-- The node that a new RREQ asks for, when it has no route to the originator yet: the route back is
-- made, by the neighbor from which the RREQ came and one hop longer than the RREQ's way, with the
-- originator's sequence number; no other entry changes; and the RREP goes to that neighbor, unless the
-- wait after a reboot lasts or the socket does not take its TTL. The RREP has no hops behind it, twice
-- the route's usual lifetime, and the number that answer_seqno chooses, which is the node's own from then on.
-- It is so on a table in order, for a RREQ that is long enough, comes from no blacklisted neighbor, was
-- not seen before, and was not sent by this node.
pub rreq_process-answers :
    (m : Rreq) (len src ttl : ℕ) (s : State)
    → IsTable s.rt_tbl
    → m.orig_addr ≢ s.this_host.ipaddr
    → rreq_size ≤ len
    → has_addr src s.rreq_blacklists ≡ false
    → has_record m.orig_addr m.rreq_id s.rreq_records ≡ false
    → lookup m.orig_addr s.rt_tbl ≡ none
    → m.dest_addr ≡ s.this_host.ipaddr
    → let s' = (rreq_process m len src ttl s).1 in
      let number = answer_seqno s.this_host.seqno m.dest_seqno in
      ((k : ℕ)
        → lookup k s'.rt_tbl ≡ (
            if k == m.orig_addr
            then some (new_entry m.orig_addr src (m.hopcnt + 1) m.orig_seqno valid no_flags)
            else lookup k s.rt_tbl))
      × (s'.this_host.seqno ≡ number)
      × (s'.sent ≡ (
          if not s.wait_on_reboot && s.env.set_ip_ttl max_ttl
          then record {
            msg = rrep (record {
              r = false;
              a = false;
              prefix = 0;
              hopcnt = 0;
              dest_addr = s.this_host.ipaddr;
              dest_seqno = number;
              orig_addr = m.orig_addr;
              lifetime = 2 * s.conf.active_route_timeout;
            });
            dest = src;
            len = rrep_size;
            ttl = max_ttl;
          }
            ∷ s.sent
          else s.sent))
rreq_process-answers m len src ttl s v o l b r p us =
    let t : State = recorded m s in
    let same : t.rt_tbl ≡ s.rt_tbl = recorded-rt_tbl m s in
    let absent : lookup m.orig_addr t.rt_tbl ≡ none = ap (lookup m.orig_addr) same ∙ p in
    let u : State = reversed m src t in
    let kept : (rest_of u).0 ≡ (rest_of s).0 =
      ap (λ (x : Rest). x.0) (reversed-rest m src t absent) ∙ recorded-kept m s in
    let sent : u.sent ≡ s.sent =
      ap (λ (x : Rest). x.1.1) (reversed-rest m src t absent) ∙ recorded-sent m s in
    let run : (rreq_process m len src ttl s).1
        ≡ (aodv_socket_send src rrep_size max_ttl (answering m u)).1 =
      ap (λ (x : ⊤ × State). x.1) (process-accepts m len src ttl s o l b r)
      ∙ accept-answers m len src ttl t (subst IsTable (sym same) v) absent
          (us ∙ ap (λ (x : Host). x.0.ipaddr) (sym (recorded-kept m s))) in
    (
      λ k.
          ap (λ (x : State). lookup k x.rt_tbl) run
          ∙ ap (lookup k) (send-rt_tbl src rrep_size max_ttl (answering m u))
          ∙ (rt_table_insert-lookup m.orig_addr src (m.hopcnt + 1) m.orig_seqno
                (reverse_life (m.hopcnt + 1)) valid no_flags t absent).1
              k
          ∙ ap
              (λ (x : RoutingTable).
                if k == m.orig_addr
                then some (new_entry m.orig_addr src (m.hopcnt + 1) m.orig_seqno valid no_flags)
                else lookup k x)
              same,
      ap (λ (x : State). x.this_host.seqno) run
          ∙ send-seqno src rrep_size max_ttl (answering m u)
          ∙ ap (λ (x : Host). answer_seqno x.0.seqno m.dest_seqno) kept,
      ap (λ (x : State). x.sent) run
          ∙ aodv_socket_send-sent src rrep_size max_ttl (answering m u)
          ∙ ap
              (λ (c : Bool).
                if c
                then record {
                  msg = (answering m u).send_buf;
                  dest = src;
                  len = rrep_size;
                  ttl = max_ttl;
                }
                  ∷ u.sent
                else u.sent)
              (answering-goes_out m u)
          ∙ ap₂ (answer_packets m src) kept sent,
    )
