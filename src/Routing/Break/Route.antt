-- ===== src/Routing/Break/Route.antt =====
-- The body of the loop of neighbor_link_break: one route is cut.
use aodv.Base.{
  ℕ, ◌≡◌, ◌≢◌, refl, sym, subst, ◌∙◌, Bool, true, false, not, ◌&&◌, Option, some, List, [], ◌∷◌,
  leb, ◌==◌, if◌then◌else◌, if-keep, Bool-cases, inl, inr, arith,
}
use aodv.Node.{State, M, pure, ◌>>=◌, ◌>>◌, is_valid, RtEntry, RoutingTable}
use aodv.Routing.Table.{find, lookup, hashing, entry_at, deref, write_rt}
use aodv.Routing.Contract.{rt_table_invalidate-lookup}
use aodv.Routing.Route.{rt_table_invalidate, precursor_list_destroy}
use aodv.Routing.Fade.{Faded, absent, present, Fainter, Fades}
use aodv.Routing.Fade.Runs.{OnlyFades, OnlyFades-invalidate, OnlyFades-lose, OnlyFades-pure}
use aodv.Routing.Neighbor.{Pending, report_udest, break_route, max_repair_ttl}

-- The table has no valid route to `k` by the neighbor `n`.
abbrev pub IsCut : ℕ → ℕ → RoutingTable → Type 0
IsCut n k t = (e : RtEntry) → lookup k t ≡ some e → e.next_hop ≡ n → is_valid e.state ≡ false

Faded-back :
    {o p : Option RtEntry} (f : RtEntry)
    → Faded o p
    → p ≡ some f
    → (e : RtEntry) × (o ≡ some e) × Fainter e f
Faded-back f absent h = cc
Faded-back f (present e g x) h = (e, refl, subst (λ y. Fainter e y) (some_inj h) x)
  where
    some_inj : {x y : RtEntry} → some x ≡ some y → x ≡ y
    some_inj h = cc

pub IsCut-Fades : (n k : ℕ) {t u : RoutingTable} → Fades t u → IsCut n k t → IsCut n k u
IsCut-Fades n k x h f p hop =
    let (e, q, y) = Faded-back f (x.entries k) p in y.stays_invalid (h e q (sym y.same_hop ∙ hop))

-- After rt_table_invalidate the entry is invalid, if there is one.
pub invalidate-IsCut : (n u : ℕ) (s : State) → IsCut n u (rt_table_invalidate u s).1.rt_tbl
invalidate-IsCut n u s f p hop =
    let (e, q, y) = Faded-back f (((OnlyFades-invalidate u).run s).entries u) p in
    elim (Bool-cases (is_valid e.state)) [
      | inl h ↦ ground (arith, p, (rt_table_invalidate-lookup u s e q h).3 u)
      | inr h ↦ y.stays_invalid h
    ]

-- What follows the cut of a route leaves it cut.
IsCut-then :
    {A B : Type 0} (n u : ℕ) (m : M A) (k : A → M B) (s : State)
    → ((a : A) → OnlyFades (k a))
    → IsCut n u (m s).1.rt_tbl
    → IsCut n u ((m >>= k) s).1.rt_tbl
IsCut-then n u m k s h c = IsCut-Fades n u ((h (m s).0).run (m s).1) c

-- The entry that a lookup has found is the one for its key.
pub find-dest : (d : ℕ) (l : List RtEntry) (e : RtEntry) → find d l ≡ some e → e.dest_addr ≡ d
unfolding find
find-dest d [] e h = cc
find-dest d (x ∷ l) e h = ground (arith, h, find-dest d l e)

-- The test of the loop's body, and what it does where the test holds.
abbrev goes_by : RtEntry → RtEntry → Bool
goes_by e x = is_valid x.state && x.next_hop == e.dest_addr && not (x.dest_addr == e.dest_addr)

abbrev keep_for_repair : ℕ → Pending → M Pending
keep_for_repair rt_u v = do
  write_rt rt_u λ x. record x { flags = record (x.flags) { repair = true } }
  rt_table_invalidate rt_u
  pure v

abbrev lose : ℕ → Pending → M Pending
lose rt_u v = do
  rt_table_invalidate rt_u
  u' ← deref rt_u
  v' ← (if u'.nprecursor == 0 then pure v else report_udest false rt_u v)
  precursor_list_destroy rt_u
  pure v'

module _ (n u : ℕ) (v : Pending) (s : State) where
  keep-IsCut : IsCut n u (keep_for_repair u v s).1.rt_tbl
  keep-IsCut =
      IsCut-then n u (rt_table_invalidate u) (λ _. pure v)
        (write_rt u (λ x. record x { flags = record (x.flags) { repair = true } }) s).1
        (λ a. OnlyFades-pure v) (invalidate-IsCut n u _)

  lose-IsCut : IsCut n u (lose u v s).1.rt_tbl
  lose-IsCut =
      IsCut-then n u (rt_table_invalidate u)
        (λ _. do
          u' ← deref u
          v' ← (if u'.nprecursor == 0 then pure v else report_udest false u v)
          precursor_list_destroy u
          pure v')
        s (λ a. OnlyFades-lose u v) (invalidate-IsCut n u s)

-- Where the test fails, the route is cut already.
uncut-IsCut :
    (rt u : ℕ) (s : State)
    → u ≢ rt
    → (entry_at rt s).dest_addr ≡ rt
    → goes_by (entry_at rt s) (entry_at u s) ≡ false
    → IsCut rt u s.rt_tbl
unfolding entry_at lookup
uncut-IsCut rt u s other d h e p hop =
    let same : e.dest_addr ≡ u = find-dest u (s.rt_tbl.tbl (hashing u)) e p in
    ground (arith, other, d, h, p, hop, same)

-- The body of the loop cuts the route that it is called for.
pub break_route-IsCut :
    (rt u : ℕ) (v : Pending) (s : State)
    → (entry_at rt s).dest_addr ≡ rt
    → u ≢ rt
    → IsCut rt u (break_route rt u v s).1.rt_tbl
unfolding break_route
break_route-IsCut rt u v s d other =
    let e : RtEntry = entry_at rt s in
    let x : RtEntry = entry_at u s in
    let act : Bool → M Pending = λ c.
      if c
      then (if e.flags.repair && leb x.hopcnt max_repair_ttl then keep_for_repair u v else lose u v)
      else pure v in
    let cut : Bool → Type 0 = λ c. IsCut rt u (act c s).1.rt_tbl in
    elim (Bool-cases (goes_by e x)) [
      | inl h ↦ subst cut (sym h) (
          if-keep (λ (m : M Pending). IsCut rt u (m s).1.rt_tbl)
            (e.flags.repair && leb x.hopcnt max_repair_ttl) (keep-IsCut rt u v s)
            (lose-IsCut rt u v s))
      | inr h ↦ subst cut (sym h) (uncut-IsCut rt u s other d h)
    ]
