-- ===== src/Routing/Destroy.antt =====
-- rt_table_destroy empties the table.
use aodv.Base.{
  ℕ, zero, suc, ◌+◌, ◌<◌, ◌≤◌, ◌≡◌, ◌≢◌, refl, sym, ap, ◌∙◌, List, [], ◌∷◌, map, All, All-map,
  subst, ℕ_discrete, Bool-cases, inl, inr, arith,
}
use aodv.Node.{State, ⊤, RtEntry, RoutingTable, is_valid}
use aodv.Routing.Table.{
  hashing, entry_at, unlink_entry, unlink_table, bucket_keys, for_each, for_buckets, rt_tablesize,
}
use aodv.Routing.Store.{IsTable}
use aodv.Routing.Route.{rt_table_delete, rt_table_destroy}
use aodv.Routing.Contract.{del_route-rt_tbl}

delete-tbl :
    (rt : ℕ) (s : State) → (rt_table_delete rt s).1.rt_tbl.tbl ≡ (unlink_table rt s.rt_tbl).tbl
unfolding rt_table_delete entry_at
delete-tbl rt s = elim (Bool-cases (is_valid (entry_at rt s).state)) [
  | inl e ↦
      let x : RtEntry = entry_at rt s in
      rw (e, rt_table_delete)
        (ap (λ (t : RoutingTable). t.tbl)
          (del_route-rt_tbl x.dest_addr x.next_hop x.hopcnt
            (record s { rt_tbl = unlink_table rt s.rt_tbl })))
  | inr e ↦ rw (e, rt_table_delete) refl
]

abbrev delete_one : ℕ → ⊤ → State → ⊤ × State
delete_one rt v = rt_table_delete rt

unlinked-first :
    (i : ℕ) (e : RtEntry) (l : List RtEntry) (s : State)
    → s.rt_tbl.tbl i ≡ e ∷ l
    → hashing e.dest_addr ≡ i
    → (unlink_table e.dest_addr s.rt_tbl).tbl i ≡ l
unfolding unlink_table unlink_entry
unlinked-first i e l s p h = ground (arith, p, h)

unlinked-other :
    (i j : ℕ) (e : RtEntry) (s : State)
    → hashing e.dest_addr ≡ i
    → j ≢ i
    → (unlink_table e.dest_addr s.rt_tbl).tbl j ≡ s.rt_tbl.tbl j
unfolding unlink_table
unlinked-other i j e s h o = ground (arith, h, o)

-- The loop over the keys of a bucket takes all entries out of it and leaves the other buckets.
bucket-emptied :
    (i : ℕ) (l : List RtEntry) (s : State)
    → s.rt_tbl.tbl i ≡ l
    → All (λ (e : RtEntry). hashing e.dest_addr ≡ i) l
    → let t = (for_each delete_one (map (λ (e : RtEntry). e.dest_addr) l) tt s).1.rt_tbl in
      (t.tbl i ≡ []) × ((j : ℕ) → j ≢ i → t.tbl j ≡ s.rt_tbl.tbl j)
unfolding for_each
bucket-emptied i [] s p h = (p, λ j o. refl)
bucket-emptied i (e ∷ l) s p h =
    let s' : State = (rt_table_delete e.dest_addr s).1 in
    let q : s'.rt_tbl.tbl i ≡ l =
      ap (λ (b : ℕ → List RtEntry). b i) (delete-tbl e.dest_addr s)
      ∙ unlinked-first i e l s p h.0 in
    let (done, others) = bucket-emptied i l s' q h.1 in
    (
      done,
      λ j o.
          others j o
          ∙ ap (λ (b : ℕ → List RtEntry). b j) (delete-tbl e.dest_addr s)
          ∙ unlinked-other i j e s h.0 o,
    )

abbrev AtHome : RoutingTable → Type 0
AtHome t = (j : ℕ) → All (λ (e : RtEntry). hashing e.dest_addr ≡ j) (t.tbl j)

-- The buckets from `i` on are emptied, and those before it stay.
buckets-emptied :
    (n i : ℕ) (s : State)
    → AtHome s.rt_tbl
    → let t = (for_buckets n i delete_one tt s).1.rt_tbl in
      ((j : ℕ) → i ≤ j → j < i + n → t.tbl j ≡ []) × ((j : ℕ) → j < i → t.tbl j ≡ s.rt_tbl.tbl j)
unfolding for_buckets
buckets-emptied zero i s v = (λ j lo hi. absurd (omega (arith, lo, hi)), λ j lo. refl)
buckets-emptied (suc n) i s v =
    let s' : State = (for_each delete_one (bucket_keys i s.rt_tbl) tt s).1 in
    let (done, others) = bucket-emptied i (s.rt_tbl.tbl i) s refl (v i) in
    let home : AtHome s'.rt_tbl = λ j. elim (ℕ_discrete j i) [
      | yes e ↦
          subst (λ a. All (λ (x : RtEntry). hashing x.dest_addr ≡ j) (s'.rt_tbl.tbl a)) (sym e)
            (subst (λ l. All (λ (x : RtEntry). hashing x.dest_addr ≡ j) l) (sym done) tt)
      | no o ↦
          subst (λ l. All (λ (x : RtEntry). hashing x.dest_addr ≡ j) l) (sym (others j o)) (v j)
    ] in
    let (later, before) = buckets-emptied n (i + 1) s' home in
    (
      λ j lo hi. elim (ℕ_discrete j i) [
        | yes e ↦ before j (omega (arith, e)) ∙ subst (λ a. s'.rt_tbl.tbl a ≡ []) (sym e) done
        | no o ↦ later j (omega (arith, lo, o)) (omega (arith, hi))
      ],
      λ j lo. before j (omega (arith, lo)) ∙ others j (omega (arith, lo)),
    )

-- On a table in order, rt_table_destroy leaves no entry in any of the 64 buckets.
pub rt_table_destroy-empties :
    (s : State) (i : ℕ)
    → IsTable s.rt_tbl
    → i < rt_tablesize
    → (rt_table_destroy s).1.rt_tbl.tbl i ≡ []
unfolding rt_table_destroy
rt_table_destroy-empties s i v h =
    (buckets-emptied rt_tablesize 0 s (λ j.
        All-map (λ (e : RtEntry). (hashing e.dest_addr ≡ j) × (e.hash ≡ e.dest_addr))
          (λ (e : RtEntry). hashing e.dest_addr ≡ j) (λ e p. p.0) (s.rt_tbl.tbl j) (v.home j))).0
      i (omega arith) (omega (arith, h))
