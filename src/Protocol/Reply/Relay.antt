-- ===== src/Protocol/Reply/Relay.antt =====
-- A RREP at a node on its way back.
use aodv.Base.{
  ◌&&◌, ℕ, ◌+◌, ◌≤◌, ◌≡◌, ◌≢◌, refl, sym, ap, ap₂, ◌∙◌, Bool, true, false, not, Option, none, some,
  List, [], ◌∷◌, ltb, ◌==◌, if◌then◌else◌, Bool-cases, inl, inr, ℤ, sub_ℕ, to_u8, arith,
}
use aodv.Msg.{Rrep, Packet, rrep, rrep_size}
use aodv.Node.{State, ⊤, M, pure, get, ◌>>=◌, ◌>>◌, RtEntry, no_flags, valid, is_valid}
use aodv.Socket.{aodv_socket_send, aodv_socket_queue_msg}
use aodv.Socket.Frame.{send-rt_tbl}
use aodv.Socket.Bounds.{goes_out, aodv_socket_send-sent}
use aodv.Routing.Table.{lookup, entry_at, deref, rt_table_check, hashing}
use aodv.Routing.Store.{IsTable, as_key}
use aodv.Routing.Frame.{Rest, rest_of, insert-rest}
use aodv.Routing.Break.Route.{find-dest}
use aodv.Routing.Find.{rt_table_check-lookup}
use aodv.Routing.Route.{add_precursor, new_entry, rt_table_insert, rt_table_update_timeout}
use aodv.Routing.Contract.{rt_table_insert-lookup}
use aodv.Protocol.Rrep.{mark_neighbor, add_precursors, rrep_forward, rrep_process, acknowledge}
use aodv.Protocol.Reply.{check-none}
use aodv.Protocol.Reply.Mark.{
  asks, marked, mark-result, mark-rest, mark-hopcnt, precursors-sent, timeout-sent, entry-found,
  precursors-lookup, timeout-rt_tbl, mark-IsRoute, add-hop, add-first,
}

-- rrep_forward once the neighbor is found.
abbrev send_back : Rrep → ℕ → Option ℕ → RtEntry → ℕ → ℕ → ℤ → M ⊤
send_back m len neighbor rev rev_rt fwd_rt ttl = do
  m' ← mark_neighbor neighbor m
  fwd ← deref fwd_rt
  aodv_socket_queue_msg (rrep (record m' { hopcnt = fwd.hopcnt }))
  aodv_socket_send rev.next_hop len ttl
  add_precursors fwd_rt rev_rt
  s ← get
  rt_table_update_timeout rev_rt s.conf.active_route_timeout

send_back-sent :
    (m : Rrep) (len : ℕ) (o : Option ℕ) (rev : RtEntry) (orig dest : ℕ) (ttl : ℤ) (s : State)
    (fwd : RtEntry)
    → lookup dest s.rt_tbl ≡ some fwd
    → (send_back m len o rev orig dest ttl s).1.sent ≡ (
        if not s.wait_on_reboot && s.env.set_ip_ttl ttl
        then record {
          msg = rrep (record (marked o m s) { hopcnt = fwd.hopcnt });
          dest = rev.next_hop;
          len = len;
          ttl = ttl;
        }
          ∷ s.sent
        else s.sent)
unfolding aodv_socket_queue_msg
send_back-sent m len o rev orig dest ttl s fwd h =
    let (m', s2) = mark_neighbor o m s in
    let s3 : State = record s2 {
      send_buf = rrep (record m' { hopcnt = (entry_at dest s2).hopcnt });
    } in
    let s4 : State = (aodv_socket_send rev.next_hop len ttl s3).1 in
    let s5 : State = (add_precursors dest orig s4).1 in
    let packet : Rrep → Packet =
      λ x. record { msg = rrep x; dest = rev.next_hop; len = len; ttl = ttl } in
    let out : Rest → Bool = λ r. not r.0.2 && r.0.3.set_ip_ttl ttl in
    let goes : goes_out ttl s3 ≡ out (rest_of s) = ground arith ∙ ap out (mark-rest m s o) in
    timeout-sent orig s5.conf.active_route_timeout s5
    ∙ precursors-sent dest orig s4
    ∙ aodv_socket_send-sent rev.next_hop len ttl s3
    ∙ ap
        (λ (b : Bool).
          if b
          then packet (record m' { hopcnt = (entry_at dest s2).hopcnt }) ∷ s2.sent
          else s2.sent)
        goes
    ∙ ap₂ (λ (x : Rrep) (l : List Packet). if out (rest_of s) then packet x ∷ l else l)
        (ap₂ (λ (x : Rrep) (n : ℕ). record x { hopcnt = n }) (mark-result m s o)
          (mark-hopcnt m s o dest fwd h))
        (ap (λ (r : Rest). r.1.1) (mark-rest m s o))

send_back-route :
    (m : Rrep) (len : ℕ) (o : Option ℕ) (orig dest : ℕ) (ttl : ℤ) (s : State) (rev fwd : RtEntry)
    → lookup dest s.rt_tbl ≡ some fwd
    → lookup orig s.rt_tbl ≡ some rev
    → (orig == dest) ≡ false
    → fwd.precursors ≡ []
    → (e : RtEntry) × (lookup dest (send_back m len o rev orig dest ttl s).1.rt_tbl ≡ some e)
      × (e.next_hop ≡ fwd.next_hop)
      × (e.precursors ≡ rev.next_hop ∷ [])
unfolding aodv_socket_queue_msg
send_back-route m len o orig dest ttl s rev fwd h k apart bare =
    let (m', s2) = mark_neighbor o m s in
    let s3 : State = record s2 {
      send_buf = rrep (record m' { hopcnt = (entry_at dest s2).hopcnt });
    } in
    let s4 : State = (aodv_socket_send rev.next_hop len ttl s3).1 in
    let s5 : State = (add_precursors dest orig s4).1 in
    let (e, at_dest, hop, pre) = mark-IsRoute m o dest s fwd h in
    let (r, at_orig, back, _) = mark-IsRoute m o orig s rev k in
    let same : s4.rt_tbl ≡ s2.rt_tbl = send-rt_tbl rev.next_hop len ttl s3 in
    (
      add_precursor r.next_hop e,
      ap (lookup dest) (timeout-rt_tbl orig s5.conf.active_route_timeout s5)
          ∙ precursors-lookup dest orig s4 e r (ap (lookup dest) same ∙ at_dest)
              (ap (lookup orig) same ∙ at_orig) apart,
      add-hop r.next_hop e ∙ hop,
      add-first r.next_hop rev.next_hop e (pre ∙ bare) back,
    )

-- The neighbor to which the RREP goes: the entry of the reverse route, or of its next hop.
abbrev pub towards : ℕ → RtEntry → State → Option ℕ
towards rev_rt rev s =
    if not (rev.dest_addr == rev.next_hop) then (rt_table_check rev.next_hop s).0 else some rev_rt

towards-found :
    (b : Bool) (hop rev_rt : ℕ) (s : State)
    → (if b then rt_table_check hop else pure (some rev_rt)) s
      ≡ (if b then (rt_table_check hop s).0 else some rev_rt, s)
unfolding rt_table_check
towards-found true hop rev_rt s = refl
towards-found false hop rev_rt s = refl

forward-passes :
    (m : Rrep) (len orig dest : ℕ) (ttl : ℤ) (s : State) (rev : RtEntry)
    → lookup orig s.rt_tbl ≡ some rev
    → (rrep_forward m len orig dest ttl s).1
      ≡ (send_back m len (towards orig rev s) rev orig dest ttl s).1
unfolding rrep_forward entry_at
forward-passes m len orig dest ttl s rev h =
    rw (h, rrep_forward)
      (ap (λ (r : Option ℕ × State). (send_back m len r.0 rev orig dest ttl r.1).1)
        (towards-found (not (rev.dest_addr == rev.next_hop)) rev.next_hop orig s))

lookup-apart :
    (d k : ℕ) (s : State) (e : RtEntry)
    → lookup d s.rt_tbl ≡ none
    → lookup k s.rt_tbl ≡ some e
    → (k == d) ≡ false
lookup-apart d k s e p h = elim (Bool-cases (k == d)) [
  | inl y ↦
      let same : k ≡ d = ground (arith, y) in
      let clash : some e ≡ none = sym h ∙ ap (λ x. lookup x s.rt_tbl) same ∙ p in cc
  | inr n ↦ n
]

check-entry :
    (k : ℕ) (s : State) (e : RtEntry)
    → IsTable s.rt_tbl
    → s.rt_tbl.num_entries ≢ 0
    → lookup k s.rt_tbl ≡ some e
    → (rt_table_check k s).0 ≡ some k
check-entry k s e v n h =
    ap (λ (r : Option ℕ × State). r.0) (rt_table_check-lookup k s v n)
    ∙ ap as_key h
    ∙ ap (λ x. some x) (find-dest k (s.rt_tbl.tbl (hashing k)) e (unfold lookup in h))

asks-marked : (b : Bool) → (if b then true else false) ≡ b
asks-marked true = refl
asks-marked false = refl

-- The state once the forward route is entered.
abbrev pub entered : Rrep → ℕ → State → State
entered m src s =
    (rt_table_insert m.dest_addr src (m.hopcnt + 1) m.dest_seqno m.lifetime valid no_flags s).1

-- A node on the way of a RREP whose destination has no entry: the destination gets a route by the
-- neighbor from which the RREP came, with the next hop of the reverse route as its only precursor; and if
-- the wait after a reboot is over and the socket takes the TTL, one copy goes out to that next hop, with one
-- hop more in its count and one less in its TTL, which asks for an acknowledgement if that next hop has an
-- entry and none is awaited from it, and otherwise nothing goes out. It is so on a table in order that counts an entry and
-- has a valid reverse route, for a RREP that is long enough, asks for no acknowledgement, is not about this
-- node and was not asked for by it.
pub rrep_process-relays :
    (m : Rrep) (len src ttl : ℕ) (s : State) (rev : RtEntry)
    → IsTable s.rt_tbl
    → s.rt_tbl.num_entries ≢ 0
    → rrep_size ≤ len
    → m.dest_addr ≢ s.this_host.ipaddr
    → m.orig_addr ≢ s.this_host.ipaddr
    → m.a ≡ false
    → lookup m.dest_addr s.rt_tbl ≡ none
    → lookup m.orig_addr s.rt_tbl ≡ some rev
    → is_valid rev.state ≡ true
    → let s' = (rrep_process m len src ttl s).1 in
      ((e : RtEntry) × (lookup m.dest_addr s'.rt_tbl ≡ some e)
        × (e.next_hop ≡ src)
        × (e.precursors ≡ rev.next_hop ∷ []))
      × (s'.sent ≡ (
          if not s.wait_on_reboot && s.env.set_ip_ttl (sub_ℕ ttl 1)
          then record {
            msg = rrep (record m {
              a = asks (towards m.orig_addr rev (entered m src s)) (entered m src s);
              hopcnt = to_u8 (m.hopcnt + 1);
            });
            dest = rev.next_hop;
            len = len;
            ttl = sub_ℕ ttl 1;
          }
            ∷ s.sent
          else s.sent))
unfolding rrep_process acknowledge
rrep_process-relays m len src ttl s rev v n l other theirs no_ack p back up =
    let s' : State = entered m src s in
    let rest : rest_of s' ≡ rest_of s =
      insert-rest m.dest_addr src (m.hopcnt + 1) m.dest_seqno m.lifetime valid no_flags s p in
    let after_it =
      (rt_table_insert-lookup m.dest_addr src (m.hopcnt + 1) m.dest_seqno m.lifetime valid no_flags
        s p).1 in
    let apart : (m.orig_addr == m.dest_addr) ≡ false =
      lookup-apart m.dest_addr m.orig_addr s rev p back in
    let there : lookup m.orig_addr s'.rt_tbl ≡ some rev =
      after_it m.orig_addr ∙ ground (arith, apart, back) in
    let new : RtEntry = new_entry m.dest_addr src (m.hopcnt + 1) m.dest_seqno valid no_flags in
    let fwd : lookup m.dest_addr s'.rt_tbl ≡ some new = after_it m.dest_addr ∙ ground arith in
    let fits : ltb len rrep_size ≡ false = ground (arith, l) in
    let not_us : (m.dest_addr == s.this_host.ipaddr) ≡ false = ground (arith, other) in
    let host : s'.this_host.ipaddr ≡ s.this_host.ipaddr = ap (λ (r : Rest). r.0.0.ipaddr) rest in
    let not_ours : (m.orig_addr == s'.this_host.ipaddr) ≡ false = ground (arith, host, theirs) in
    let valid_rev : is_valid (entry_at m.orig_addr s').state ≡ true =
      ap (λ (x : RtEntry). is_valid x.state) (entry-found m.orig_addr s' rev there) ∙ up in
    let m' : Rrep = record m { a = false } in
    let run : (rrep_process m len src ttl s).1
        ≡ (rrep_forward m' len m.orig_addr m.dest_addr (sub_ℕ ttl 1) s').1 =
      rw
        (
          fits,
          not_us,
          rrep_process,
          check-none m.dest_addr s v p,
          check-entry m.orig_addr s rev v n back,
          no_ack,
          not_ours,
          valid_rev,
        )
        refl in
    let o : Option ℕ = towards m.orig_addr rev s' in
    let passes : (rrep_process m len src ttl s).1
        ≡ (send_back m' len o rev m.orig_addr m.dest_addr (sub_ℕ ttl 1) s').1 =
      run ∙ forward-passes m' len m.orig_addr m.dest_addr (sub_ℕ ttl 1) s' rev there in
    let packet : Bool → Packet = λ b. record {
      msg = rrep (record m { a = b; hopcnt = to_u8 (m.hopcnt + 1) });
      dest = rev.next_hop;
      len = len;
      ttl = sub_ℕ ttl 1;
    } in
    let out : Rest → Bool = λ r. not r.0.2 && r.0.3.set_ip_ttl (sub_ℕ ttl 1) in
    let (e, at_dest, hop, pre) =
      send_back-route m' len o m.orig_addr m.dest_addr (sub_ℕ ttl 1) s' rev new fwd there apart
        refl in
    (
      (e, ap (λ (x : State). lookup m.dest_addr x.rt_tbl) passes ∙ at_dest, hop, pre),
      ap (λ (x : State). x.sent) passes
          ∙ send_back-sent m' len o rev m.orig_addr m.dest_addr (sub_ℕ ttl 1) s' new fwd
          ∙ ap₂ (λ (r : Rest) (b : Bool). if out r then packet b ∷ r.1.1 else r.1.1) rest
              (asks-marked (asks o s')),
    )
