-- ===== src/Routing/Find.antt =====
-- What rt_table_check finds.
use aodv.Base.{ℕ, ◌<◌, ◌≡◌, ◌≢◌, refl, ap, ◌∙◌, none, some, arith, sym}
use aodv.Node.{State, RtFlags, RtState, RoutingTable, valid, invalid, inc_u32, is_valid}
use aodv.Routing.Table.{lookup, rt_table_check, link_entry}
use aodv.Routing.Store.{IsTable, as_key, check-lookup, link_entry-IsTable}
use aodv.Routing.Route.{new_entry, start_route, link_route, rt_table_insert}
use aodv.Routing.Contract.{
  add_route-rt_tbl, seek_if-rt_tbl, set_if-rt_tbl, rt_table_insert-lookup, insert-tbl,
}

-- On a table in order that counts an entry, rt_table_check returns the destination if it has an entry,
-- and NULL if not, and changes nothing.
pub rt_table_check-lookup :
    (d : ℕ) (s : State)
    → IsTable s.rt_tbl
    → s.rt_tbl.num_entries ≢ 0
    → rt_table_check d s ≡ (as_key (lookup d s.rt_tbl), s)
unfolding rt_table_check
rt_table_check-lookup d s v n = ground (arith, check-lookup d s.rt_tbl v, n)

start_route-num :
    (d n h l : ℕ) (st : RtState) (f : RtFlags) (s : State)
    → (start_route d n h l st f s).1.rt_tbl.num_entries ≡ s.rt_tbl.num_entries
unfolding start_route
start_route-num d n h l valid f s =
    ap (λ (t : RoutingTable). t.num_entries)
      (add_route-rt_tbl d n h l f s.this_host.ifindex
        (record s { rt_tbl = record (s.rt_tbl) { num_active = inc_u32 s.rt_tbl.num_active } }))
start_route-num d n h l invalid f s = ground arith

insert-num :
    (d n h q l : ℕ) (st : RtState) (f : RtFlags) (s : State)
    → lookup d s.rt_tbl ≡ none
    → (rt_table_insert d n h q l st f s).1.rt_tbl.num_entries ≡ inc_u32 s.rt_tbl.num_entries
unfolding rt_table_insert lookup link_route link_entry
insert-num d n h q l st f s p =
    let (life, s') = start_route d n h l st f (link_route d n h q st f s).1 in
    rw (p, rt_table_insert)
      (ap (λ (t : RoutingTable). t.num_entries)
          (seek_if-rt_tbl d (is_valid st) _ ∙ set_if-rt_tbl d life _)
        ∙ start_route-num d n h l st f _)

IsTable-tbl : (t u : RoutingTable) → t.tbl ≡ u.tbl → IsTable t → IsTable u
IsTable-tbl t u e v = record { home = λ i. rw⁻¹ e (v.home i); once = λ i. rw⁻¹ e (v.once i) }

link_route-IsTable :
    (d n h q : ℕ) (st : RtState) (f : RtFlags) (s : State)
    → lookup d s.rt_tbl ≡ none
    → IsTable s.rt_tbl
    → IsTable (link_route d n h q st f s).1.rt_tbl
unfolding link_route lookup
link_route-IsTable d n h q st f s p v =
    link_entry-IsTable (new_entry d n h q st f)
      (record (s.rt_tbl) { num_entries = inc_u32 s.rt_tbl.num_entries }) refl p
      (record { home = v.home; once = v.once })

pub insert-IsTable :
    (d n h q l : ℕ) (st : RtState) (f : RtFlags) (s : State)
    → lookup d s.rt_tbl ≡ none
    → IsTable s.rt_tbl
    → IsTable (rt_table_insert d n h q l st f s).1.rt_tbl
insert-IsTable d n h q l st f s p v =
    IsTable-tbl (link_route d n h q st f s).1.rt_tbl (rt_table_insert d n h q l st f s).1.rt_tbl
      (sym (insert-tbl d n h q l st f s p)) (link_route-IsTable d n h q st f s p v)

-- For a destination without an entry, on a table in order that counts fewer than 2 ^ 32 - 1 entries,
-- rt_table_check finds the destination right after rt_table_insert, and changes nothing.
pub rt_table_check-insert :
    (d n h q l : ℕ) (st : RtState) (f : RtFlags) (s : State)
    → IsTable s.rt_tbl
    → lookup d s.rt_tbl ≡ none
    → s.rt_tbl.num_entries < 4294967295
    → let s' = (rt_table_insert d n h q l st f s).1 in rt_table_check d s' ≡ (some d, s')
rt_table_check-insert d n h q l st f s v p room =
    let s' : State = (rt_table_insert d n h q l st f s).1 in
    let v' : IsTable s'.rt_tbl = insert-IsTable d n h q l st f s p v in
    let there : lookup d s'.rt_tbl ≡ some (new_entry d n h q st f) =
      (rt_table_insert-lookup d n h q l st f s p).1 d ∙ ground arith in
    rt_table_check-lookup d s' v' (ground (arith, insert-num d n h q l st f s p, room))
    ∙ ap (λ o. (as_key o, s')) there
