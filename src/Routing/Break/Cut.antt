-- ===== src/Routing/Break/Cut.antt =====
-- The break of a link cuts every route by the neighbor.
use aodv.Base.{
  ℕ, ◌≡◌, sym, subst, ap, ◌∙◌, true, false, not, ◌&&◌, Option, some, All, ℕ_discrete, ◌==◌,
  if◌then◌else◌, arith,
}
use aodv.Node.{State, ⊤, M, after, when, pure, ◌>>=◌, ◌>>◌, is_valid, RtEntry}
use aodv.Routing.Table.{
  or_null, lookup, hashing, entry_at, deref, bucket_keys, for_buckets, rt_tablesize,
}
use aodv.Routing.Route.{rt_table_invalidate, precursor_list_destroy}
use aodv.Routing.Fade.{Fades, Fades-trans}
use aodv.Routing.Fade.Runs.{OnlyFades-invalidate, OnlyFades-finish}
use aodv.Routing.Neighbor.{
  Pending, no_pending, report_udest, break_route, finish_break, neighbor_link_break,
}
use aodv.Routing.Break.Route.{IsCut, IsCut-Fades, invalidate-IsCut}
use aodv.Routing.Break.Loop.{
  IsThere, IsThere-Fades, Cut, All-Fades, buckets-Fades, buckets-Cut, key-All,
}
use aodv.Routing.Fade.Runs.{OnlyFades-opening}

-- What neighbor_link_break does between the invalidation of the neighbor's route and the loop.
abbrev opening : ℕ → M Pending
opening rt = do
  e' ← deref rt
  v ←
      (if not (e'.nprecursor == 0) && not e'.flags.repair
        then report_udest false rt no_pending
        else pure no_pending)
  when (not e'.flags.repair) (precursor_list_destroy rt)
  pure v

abbrev steps : ℕ → M ⊤
steps rt = do
  rt_table_invalidate rt
  v ← opening rt
  v' ← for_buckets rt_tablesize 0 (break_route rt) v
  finish_break v'

-- The break of the link to a neighbor, whose entry counts one hop: afterwards no route by the neighbor is
-- valid, its own included; the table has the same entries with the same next hops; and none that was invalid has become
-- valid.
pub neighbor_link_break-cuts :
    (rt : ℕ) (s : State) (e : RtEntry)
    → lookup rt s.rt_tbl ≡ some e
    → e.hopcnt ≡ 1
    → let t = (neighbor_link_break rt s).1.rt_tbl in
      ((k : ℕ) (x : RtEntry) → lookup k t ≡ some x → x.next_hop ≡ rt → is_valid x.state ≡ false)
      × Fades s.rt_tbl t
unfolding neighbor_link_break entry_at lookup
neighbor_link_break-cuts rt s e h one =
    let s1 : State = (rt_table_invalidate rt s).1 in
    let (v, s2) = opening rt s1 in
    let (v', s3) = for_buckets rt_tablesize 0 (break_route rt) v s2 in
    let f1 : Fades s.rt_tbl s1.rt_tbl = (OnlyFades-invalidate rt).run s in
    let f2 : Fades s1.rt_tbl s2.rt_tbl = (OnlyFades-opening rt).run s1 in
    let f3 : Fades s2.rt_tbl s3.rt_tbl = buckets-Fades rt rt_tablesize 0 v s2 in
    let f4 : Fades s3.rt_tbl (finish_break v' s3).1.rt_tbl = (OnlyFades-finish v').run s3 in
    let there : IsThere rt s2.rt_tbl = IsThere-Fades rt (Fades-trans f1 f2) (e, h) in
    let near : ((entry_at rt s).hopcnt == 1) ≡ true =
      ap (λ (o : Option RtEntry). (or_null o).hopcnt == 1) h ∙ ground (arith, one) in
    let run : (neighbor_link_break rt s).1 ≡ (finish_break v' s3).1 =
      ap (λ c. after (when c (steps rt)) s) near in
    subst
      (λ (x : State).
        ((k : ℕ) (y : RtEntry)
          → lookup k x.rt_tbl ≡ some y
          → y.next_hop ≡ rt
          → is_valid y.state ≡ false)
        × Fades s.rt_tbl x.rt_tbl)
      (sym run)
      (
        λ k y p hop. elim (ℕ_discrete k rt) [
          | yes same ↦
              IsCut-Fades rt k (Fades-trans f2 (Fades-trans f3 f4))
                (subst (λ a. IsCut rt a s1.rt_tbl) (sym same) (invalidate-IsCut rt rt s)) y p hop
          | no other ↦
              let all : All (Cut rt s3.rt_tbl) (bucket_keys (hashing k) s2.rt_tbl) =
                buckets-Cut rt rt_tablesize 0 v s2 (hashing k) there (omega arith) (omega arith) in
              let keys : bucket_keys (hashing k) s2.rt_tbl
                  ≡ bucket_keys (hashing k) (finish_break v' s3).1.rt_tbl =
                sym ((Fades-trans f3 f4).keys (hashing k)) in
              key-All (Cut rt (finish_break v' s3).1.rt_tbl)
                ((finish_break v' s3).1.rt_tbl.tbl (hashing k)) k y
                (subst (λ l. All (Cut rt (finish_break v' s3).1.rt_tbl) l) keys
                  (All-Fades rt f4 (bucket_keys (hashing k) s2.rt_tbl) all))
                p other y p hop
        ],
        Fades-trans (Fades-trans f1 f2) (Fades-trans f3 f4),
      )
