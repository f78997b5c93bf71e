-- ===== src/Routing/Contract.antt =====
-- What rt_table_insert, rt_table_invalidate and rt_table_delete do to the routing table.
use aodv.Base.{
  ℕ, ◌+◌, pos, ◌≡◌, refl, ap, ◌∙◌, Bool, true, false, not, none, some, ◌==◌, if◌then◌else◌, arith,
  Bool-cases, inl, inr,
}
use aodv.Timer.{rt_timer, zero_time}
use aodv.Node.{
  State, ◌>>◌, after, when, set_timeout, gettimeofday, RtFlags, RtState, is_valid, RtEntry,
  RoutingTable, invalid, valid, inc_u32, dec_u32,
}
use aodv.Netlink.{
  nl_send_aodv, nl_send_rt, nl_kernel_route, nl_send_add_route_msg, nl_send_del_route_msg,
}
use aodv.Routing.Table.{
  write_rt, hashing, lookup, find, entry_at, link_entry, unlink_table, write_table,
}
use aodv.Routing.Store.{IsTable, map_entry, lookup-unlink_table, lookup-write_table}
use aodv.Routing.Seek.{seek_list_check, seek_list_remove}
use aodv.Routing.Route.{
  seqno_incr, remove_timers, decr_active, new_entry, start_route, link_route, end_seek,
  rt_table_insert, invalidated, keep_invalid, rt_table_invalidate, rt_table_delete,
}

pub add_route-rt_tbl :
    (d n m l : ℕ) (f : RtFlags) (i : ℕ) (s : State)
    → (nl_send_add_route_msg d n m l f i s).1.rt_tbl ≡ s.rt_tbl
unfolding nl_send_add_route_msg nl_send_aodv nl_kernel_route nl_send_rt
add_route-rt_tbl d n m l f i s = ground arith

pub del_route-rt_tbl : (d n m : ℕ) (s : State) → (nl_send_del_route_msg d n m s).1.rt_tbl ≡ s.rt_tbl
unfolding nl_send_del_route_msg nl_send_aodv nl_kernel_route nl_send_rt
del_route-rt_tbl d n m s = ground arith

start_route-tbl :
    (d n h l : ℕ) (st : RtState) (f : RtFlags) (s : State)
    → (start_route d n h l st f s).1.rt_tbl.tbl ≡ s.rt_tbl.tbl
unfolding start_route
start_route-tbl d n h l valid f s =
    ap (λ (t : RoutingTable). t.tbl)
      (add_route-rt_tbl d n h l f s.this_host.ifindex
        (record s { rt_tbl = record (s.rt_tbl) { num_active = inc_u32 s.rt_tbl.num_active } }))
start_route-tbl d n h l invalid f s = ground arith

pub end_seek-rt_tbl : (d : ℕ) (s : State) → (end_seek d s).1.rt_tbl ≡ s.rt_tbl
unfolding end_seek seek_list_check seek_list_remove
end_seek-rt_tbl d s = ground arith

pub seek_if-rt_tbl : (d : ℕ) (b : Bool) (s : State) → (when b (end_seek d) s).1.rt_tbl ≡ s.rt_tbl
seek_if-rt_tbl d true s = end_seek-rt_tbl d s
seek_if-rt_tbl d false s = refl

pub set_if-rt_tbl :
    (d life : ℕ) (s : State)
    → (when (not (life == 0)) (set_timeout (rt_timer d) (pos life)) s).1.rt_tbl ≡ s.rt_tbl
unfolding gettimeofday
set_if-rt_tbl d life s = ground arith

keep_invalid-rt_tbl : (d : ℕ) (s : State) → (keep_invalid d s).1.rt_tbl ≡ s.rt_tbl
unfolding keep_invalid gettimeofday
keep_invalid-rt_tbl d s = ground arith

-- A destination that is in the table: rt_table_insert changes nothing, and returns NULL.
pub insert_present :
    (d n h q l : ℕ) (st : RtState) (f : RtFlags) (s : State) (e : RtEntry)
    → lookup d s.rt_tbl ≡ some e
    → rt_table_insert d n h q l st f s ≡ (none, s)
unfolding rt_table_insert lookup
insert_present d n h q l st f s e p = ground arith

pub insert-tbl :
    (d n h q l : ℕ) (st : RtState) (f : RtFlags) (s : State)
    → lookup d s.rt_tbl ≡ none
    → (rt_table_insert d n h q l st f s).1.rt_tbl.tbl ≡ (link_route d n h q st f s).1.rt_tbl.tbl
unfolding rt_table_insert lookup gettimeofday
insert-tbl d n h q l st f s p =
    let (life, s') = start_route d n h l st f (link_route d n h q st f s).1 in
    rw (p, rt_table_insert)
      (ap (λ (t : RoutingTable). t.tbl) (seek_if-rt_tbl d (is_valid st) _ ∙ set_if-rt_tbl d life _)
        ∙ start_route-tbl d n h l st f _)

-- For a destination that has no entry, rt_table_insert returns the new entry, which from then
-- on is the destination's, and leaves the entries of all other destinations.
pub rt_table_insert-lookup :
    (d n h q l : ℕ) (st : RtState) (f : RtFlags) (s : State)
    → lookup d s.rt_tbl ≡ none
    → let (r, s') = rt_table_insert d n h q l st f s in
      (r ≡ some d)
      × ((k : ℕ)
          → lookup k s'.rt_tbl
            ≡ (if k == d then some (new_entry d n h q st f) else lookup k s.rt_tbl))
unfolding lookup link_route link_entry find rt_table_insert
rt_table_insert-lookup d n h q l st f s p =
    (rw (p, rt_table_insert) refl, λ k. tbl-find k ∙ ground arith)
  where
    tbl-find :
        (k : ℕ)
        → lookup k (rt_table_insert d n h q l st f s).1.rt_tbl
          ≡ lookup k (link_route d n h q st f s).1.rt_tbl
    tbl-find k = ap (λ b. find k (b (hashing k))) (insert-tbl d n h q l st f s p)

invalidated_state :
    (rt : ℕ) (s : State) (e : RtEntry)
    → lookup rt s.rt_tbl ≡ some e
    → is_valid e.state ≡ true
    → (rt_table_invalidate rt s).1.rt_tbl ≡ (
        let t = write_table rt invalidated s.rt_tbl in
        record t { num_active = dec_u32 s.rt_tbl.num_active })
unfolding rt_table_invalidate entry_at gettimeofday write_table
invalidated_state rt s e p v =
    let s1 : State =
      after (gettimeofday >> remove_timers rt >> write_rt rt invalidated >> decr_active) s in
    let s2 : State = after (nl_send_del_route_msg e.dest_addr e.next_hop e.hopcnt) s1 in
    rw (p, v, rt_table_invalidate)
      (keep_invalid-rt_tbl rt s2 ∙ del_route-rt_tbl e.dest_addr e.next_hop e.hopcnt s1)

-- A valid route that rt_table_invalidate is called on stays in the table, invalid, with the next
-- sequence number, no HELLO counted, and one valid route less; no other destination's entry changes.
pub rt_table_invalidate-lookup :
    (rt : ℕ) (s : State) (e : RtEntry)
    → lookup rt s.rt_tbl ≡ some e
    → is_valid e.state ≡ true
    → let (r, s') = rt_table_invalidate rt s in
      (r ≡ true)
      × (s'.rt_tbl.num_active ≡ dec_u32 s.rt_tbl.num_active)
      × (s'.rt_tbl.num_entries ≡ s.rt_tbl.num_entries)
      × ((k : ℕ)
          → lookup k s'.rt_tbl ≡ (
              if rt == k
              then some (record e {
                state = invalid;
                hello_cnt = 0;
                dest_seqno = seqno_incr e.dest_seqno;
                last_hello_time = zero_time;
              })
              else lookup k s.rt_tbl))
unfolding rt_table_invalidate entry_at gettimeofday lookup write_table
rt_table_invalidate-lookup rt s e p v = (
  rw (p, v, rt_table_invalidate) refl,
  ap (λ (t : RoutingTable). t.num_active) (invalidated_state rt s e p v),
  ap (λ (t : RoutingTable). t.num_entries) (invalidated_state rt s e p v),
  λ k. at k ∙ ground (arith, p),
)
  where
    at :
        (k : ℕ)
        → lookup k (rt_table_invalidate rt s).1.rt_tbl
          ≡ (if rt == k then map_entry invalidated (lookup k s.rt_tbl) else lookup k s.rt_tbl)
    at k =
        ap (lookup k) (invalidated_state rt s e p v)
        ∙ lookup-write_table rt invalidated (λ x. refl) k s.rt_tbl

-- What is invalid already.
second :
    (rt : ℕ) (s : State) (e : RtEntry)
    → lookup rt s.rt_tbl ≡ some e
    → is_valid e.state ≡ false
    → rt_table_invalidate rt s ≡ (false, record s { reads = s.reads + 1 })
unfolding rt_table_invalidate entry_at gettimeofday
second rt s e p v = rw (p, v, rt_table_invalidate) refl

-- Called again on a route that was valid before the first call, rt_table_invalidate returns -1 and
-- reads the clock, no more.
pub rt_table_invalidate_twice :
    (rt : ℕ) (s : State) (e : RtEntry)
    → lookup rt s.rt_tbl ≡ some e
    → is_valid e.state ≡ true
    → let s' = (rt_table_invalidate rt s).1 in
      rt_table_invalidate rt s' ≡ (false, record s' { reads = s'.reads + 1 })
unfolding rt_table_invalidate entry_at gettimeofday
rt_table_invalidate_twice rt s e p v =
    let (_, _, _, after_it) = rt_table_invalidate-lookup rt s e p v in
    second rt (rt_table_invalidate rt s).1 (invalidated e) (after_it rt ∙ ground arith) refl

-- On a table in order, rt_table_delete leaves no entry for the destination, counts one entry less, and
-- leaves the entries of all other destinations.
pub rt_table_delete-lookup :
    (rt : ℕ) (s : State)
    → IsTable s.rt_tbl
    → let s' = (rt_table_delete rt s).1 in
      (s'.rt_tbl.num_entries ≡ dec_u32 s.rt_tbl.num_entries)
      × ((k : ℕ) → lookup k s'.rt_tbl ≡ (if rt == k then none else lookup k s.rt_tbl))
unfolding rt_table_delete lookup entry_at
rt_table_delete-lookup rt s v = elim (Bool-cases (is_valid (entry_at rt s).state)) [
  | inl e ↦
      let x : RtEntry = entry_at rt s in
      let s1 : State = record s { rt_tbl = unlink_table rt s.rt_tbl } in
      let q : (nl_send_del_route_msg x.dest_addr x.next_hop x.hopcnt s1).1.rt_tbl ≡ s1.rt_tbl =
        del_route-rt_tbl x.dest_addr x.next_hop x.hopcnt s1 in
      rw (e, rt_table_delete)
        (
          ap (λ (t : RoutingTable). dec_u32 t.num_entries) q,
          λ k. ap (lookup k) q ∙ lookup-unlink_table rt k s.rt_tbl v,
        )
  | inr e ↦ rw (e, rt_table_delete) (refl, λ k. lookup-unlink_table rt k s.rt_tbl v)
]
