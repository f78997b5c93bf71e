-- ===== src/Protocol/Request/Relay.antt =====
-- A RREQ at a node on its way.
use aodv.Base.{
  Bool-cases, inl, inr, if-keep, ℕ, ◌+◌, ◌≤◌, ◌≡◌, ◌≢◌, refl, ap, sym, subst, ◌∙◌, Bool, false,
  ◌&&◌, none, some, List, ◌∷◌, ltb, ◌==◌, if◌then◌else◌, pos, arith, ◌-◌, to_u8,
}
use aodv.Msg.{Rreq, Packet, rreq, rreq_size, aodv_broadcast}
use aodv.Node.{State, ⊤, after, ◌>>=◌, RoutingTable, no_flags, valid}
use aodv.Socket.{aodv_socket_send, aodv_socket_queue_msg}
use aodv.Socket.Frame.{send-rt_tbl}
use aodv.Socket.Bounds.{goes_out, aodv_socket_send-sent}
use aodv.Routing.Table.{lookup, rt_table_check}
use aodv.Routing.Store.{IsTable}
use aodv.Routing.Frame.{Host, Rest}
use aodv.Routing.Route.{new_entry}
use aodv.Routing.Contract.{rt_table_insert-lookup}
use aodv.Protocol.Records.{has_record, has_addr}
use aodv.Protocol.Rreq.{
  reverse_life, answer_or_forward, answer_as_dest, rreq_accept, rreq_process, rreq_forward,
  forward_rreq,
}
use aodv.Protocol.Reply.{check-none}
use aodv.Routing.Find.{insert-IsTable}
use aodv.Protocol.Request.Accept.{
  recorded, reversed, reversed-rest, recorded-rt_tbl, recorded-kept, recorded-sent, process-accepts,
  reverse-inserts,
}

-- The copy of the RREQ, in the buffer.
abbrev pub relaying : Rreq → State → State
relaying m t = record t { send_buf = rreq (record m { hopcnt = to_u8 (m.hopcnt + 1) }) }

-- The state after the copy is sent, if its TTL allows it.
abbrev pub relayed : Rreq → ℕ → ℕ → State → State
relayed m len ttl t =
    if ltb 1 ttl then (aodv_socket_send aodv_broadcast len (pos (ttl - 1)) (relaying m t)).1 else t

forward-relayed :
    (m : Rreq) (len ttl : ℕ) (t : State) → (forward_rreq m len none ttl t).1 ≡ relayed m len ttl t
unfolding forward_rreq rreq_forward aodv_socket_queue_msg
forward-relayed m len ttl t = elim (Bool-cases (ltb 1 ttl)) [
  | inl e ↦ rw e refl
  | inr e ↦ rw e refl
]

relayed-rt_tbl : (m : Rreq) (len ttl : ℕ) (t : State) → (relayed m len ttl t).rt_tbl ≡ t.rt_tbl
relayed-rt_tbl m len ttl t =
    if-keep (λ (x : State). x.rt_tbl ≡ t.rt_tbl) (ltb 1 ttl)
      (send-rt_tbl aodv_broadcast len (pos (ttl - 1)) (relaying m t)) refl

relayed-sent :
    (m : Rreq) (len ttl : ℕ) (t : State)
    → (relayed m len ttl t).sent ≡ (
        if ltb 1 ttl && goes_out (pos (ttl - 1)) (relaying m t)
        then record {
          msg = rreq (record m { hopcnt = to_u8 (m.hopcnt + 1) });
          dest = aodv_broadcast;
          len = len;
          ttl = pos (ttl - 1);
        }
          ∷ t.sent
        else t.sent)
relayed-sent m len ttl t = elim (Bool-cases (ltb 1 ttl)) [
  | inl e ↦ rw e (aodv_socket_send-sent aodv_broadcast len (pos (ttl - 1)) (relaying m t))
  | inr e ↦ rw e refl
]

accept-relays :
    (m : Rreq) (len src ttl : ℕ) (t : State)
    → IsTable t.rt_tbl
    → lookup m.orig_addr t.rt_tbl ≡ none
    → lookup m.dest_addr t.rt_tbl ≡ none
    → m.dest_addr ≢ m.orig_addr
    → m.dest_addr ≢ t.this_host.ipaddr
    → (rreq_accept m len src ttl t).1 ≡ relayed m len ttl (reversed m src t)
unfolding rreq_accept
accept-relays m len src ttl t v p n d other =
    let u : State = reversed m src t in
    let host : u.this_host.ipaddr ≡ t.this_host.ipaddr =
      ap (λ (r : Rest). r.0.0.ipaddr) (reversed-rest m src t p) in
    let absent : lookup m.dest_addr u.rt_tbl ≡ none =
      (rt_table_insert-lookup m.orig_addr src (m.hopcnt + 1) m.orig_seqno
          (reverse_life (m.hopcnt + 1)) valid no_flags t p).1
        m.dest_addr
      ∙ ground (arith, d, n) in
    let in_order : IsTable u.rt_tbl =
      insert-IsTable m.orig_addr src (m.hopcnt + 1) m.orig_seqno (reverse_life (m.hopcnt + 1)) valid
        no_flags t p v in
    let not_us : (m.dest_addr == u.this_host.ipaddr) ≡ false = ground (arith, host, other) in
    let go : State → Bool → State = λ x c.
      after
        (if c
          then answer_as_dest m
          else (do fwd_rt ← rt_table_check m.dest_addr; answer_or_forward m len fwd_rt ttl))
        x in
    ap (λ (x : State). go x (m.dest_addr == x.this_host.ipaddr)) (reverse-inserts m src t v p)
    ∙ ap (go u) not_us
    ∙ ap (λ o. (answer_or_forward m len o ttl u).1) (check-none m.dest_addr u in_order absent)
    ∙ forward-relayed m len ttl u

-- What rreq_process does there: the RREQ is recorded, the route back made and the copy sent.
process-relayed :
    (m : Rreq) (len src ttl : ℕ) (s : State)
    → IsTable s.rt_tbl
    → m.orig_addr ≢ s.this_host.ipaddr
    → rreq_size ≤ len
    → has_addr src s.rreq_blacklists ≡ false
    → has_record m.orig_addr m.rreq_id s.rreq_records ≡ false
    → lookup m.orig_addr s.rt_tbl ≡ none
    → lookup m.dest_addr s.rt_tbl ≡ none
    → m.dest_addr ≢ m.orig_addr
    → m.dest_addr ≢ s.this_host.ipaddr
    → (rreq_process m len src ttl s).1 ≡ relayed m len ttl (reversed m src (recorded m s))
process-relayed m len src ttl s v o l b r p n d other =
    let t : State = recorded m s in
    let same : t.rt_tbl ≡ s.rt_tbl = recorded-rt_tbl m s in
    ap (λ (x : ⊤ × State). x.1) (process-accepts m len src ttl s o l b r)
    ∙ accept-relays m len src ttl t (subst IsTable (sym same) v) (ap (lookup m.orig_addr) same ∙ p)
        (ap (lookup m.dest_addr) same ∙ n) d
        (λ e. other (e ∙ ap (λ (x : Host). x.0.ipaddr) (recorded-kept m s)))

-- A node on the way of a new RREQ that has a route neither to the originator nor to the destination:
-- the route back is made, by the neighbor from which the RREQ came and one hop longer than its way; no
-- other entry changes; and one copy goes out to all neighbors, with one hop more in its count and one less
-- in its TTL, if its TTL was above 1 and the rules of goes_out let it pass. It is so on a table in order, for
-- a RREQ that is long enough, comes from no blacklisted neighbor, was not seen before, and that neither
-- was sent by this node nor asks for it or for its originator.
pub rreq_process-relays :
    (m : Rreq) (len src ttl : ℕ) (s : State)
    → IsTable s.rt_tbl
    → m.orig_addr ≢ s.this_host.ipaddr
    → rreq_size ≤ len
    → has_addr src s.rreq_blacklists ≡ false
    → has_record m.orig_addr m.rreq_id s.rreq_records ≡ false
    → lookup m.orig_addr s.rt_tbl ≡ none
    → lookup m.dest_addr s.rt_tbl ≡ none
    → m.dest_addr ≢ m.orig_addr
    → m.dest_addr ≢ s.this_host.ipaddr
    → let s' = (rreq_process m len src ttl s).1 in
      ((k : ℕ)
        → lookup k s'.rt_tbl ≡ (
            if k == m.orig_addr
            then some (new_entry m.orig_addr src (m.hopcnt + 1) m.orig_seqno valid no_flags)
            else lookup k s.rt_tbl))
      × (s'.sent ≡ (
          if ltb 1 ttl && goes_out (pos (ttl - 1)) (relaying m (reversed m src (recorded m s)))
          then record {
            msg = rreq (record m { hopcnt = to_u8 (m.hopcnt + 1) });
            dest = aodv_broadcast;
            len = len;
            ttl = pos (ttl - 1);
          }
            ∷ s.sent
          else s.sent))
rreq_process-relays m len src ttl s v o l b r p n d other =
    let t : State = recorded m s in
    let same : t.rt_tbl ≡ s.rt_tbl = recorded-rt_tbl m s in
    let absent : lookup m.orig_addr t.rt_tbl ≡ none = ap (lookup m.orig_addr) same ∙ p in
    let u : State = reversed m src t in
    let sent : u.sent ≡ s.sent =
      ap (λ (x : Rest). x.1.1) (reversed-rest m src t absent) ∙ recorded-sent m s in
    let run = process-relayed m len src ttl s v o l b r p n d other in
    (
      λ k.
          ap (λ (x : State). lookup k x.rt_tbl) run
          ∙ ap (lookup k) (relayed-rt_tbl m len ttl u)
          ∙ (rt_table_insert-lookup m.orig_addr src (m.hopcnt + 1) m.orig_seqno
                (reverse_life (m.hopcnt + 1)) valid no_flags t absent).1
              k
          ∙ ap
              (λ (x : RoutingTable).
                if k == m.orig_addr
                then some (new_entry m.orig_addr src (m.hopcnt + 1) m.orig_seqno valid no_flags)
                else lookup k x)
              same,
      ap (λ (x : State). x.sent) run
          ∙ relayed-sent m len ttl u
          ∙ ap
              (λ (l : List Packet).
                if ltb 1 ttl && goes_out (pos (ttl - 1)) (relaying m u)
                then record {
                  msg = rreq (record m { hopcnt = to_u8 (m.hopcnt + 1) });
                  dest = aodv_broadcast;
                  len = len;
                  ttl = pos (ttl - 1);
                }
                  ∷ l
                else l)
              sent,
    )
