-- ===== src/Trace/Lost/One.antt =====
-- aodv_rerr.c: what the processing of one destination of a RERR does to the routing table.
use aodv.Base.{
  ℕ, ◌≡◌, ◌≢◌, ◌⊎◌, refl, sym, subst, ap, ◌∙◌, Bool, true, false, not, ◌&&◌, Option, none, some,
  s32_lt, ◌==◌, if◌then◌else◌, if-keep, Bool-cases, inl, inr, ℕ_discrete, arith,
}
use aodv.Msg.{Udest}
use aodv.Node.{State, ⊤, M, pure, is_valid, RtEntry, RoutingTable}
use aodv.Routing.Table.{lookup, hashing, entry_at, write_rt, write_table}
use aodv.Routing.Store.{IsTable, as_key, lookup-write_table}
use aodv.Routing.Find.{rt_table_check-lookup}
use aodv.Routing.Contract.{rt_table_invalidate-lookup}
use aodv.Routing.Route.{rt_table_invalidate, precursor_list_destroy, drop_precursors}
use aodv.Routing.Rerr.{rerr_create, rerr_add_udest}
use aodv.Routing.Neighbor.{Pending, report_udest}
use aodv.Routing.Fade.Runs.{OnlyFades-renumber}
use aodv.Routing.Break.Route.{IsCut, IsCut-Fades, invalidate-IsCut, find-dest}
use aodv.Socket.{aodv_socket_new_msg}
use aodv.Protocol.Rerr.{is_lost, lose_route, process_found, process_udest}

-- Between `t` and `u` only the entry for `d` changes.
pub record TouchesOnly (d : ℕ) (t u : RoutingTable) : Type 0 where
  pub others : (k : ℕ) → k ≢ d → lookup k u ≡ lookup k t
  pub count : u.num_entries ≡ t.num_entries

touches_trans :
    (d : ℕ) {t u w : RoutingTable} → TouchesOnly d t u → TouchesOnly d u w → TouchesOnly d t w
touches_trans d a b = record {
  others = λ k o. b.others k o ∙ a.others k o;
  count = b.count ∙ a.count;
}

touches_none : (d : ℕ) (t u : RoutingTable) → u ≡ t → TouchesOnly d t u
touches_none d t u e = record {
  others = λ k o. ap (lookup k) e;
  count = ap (λ (x : RoutingTable). x.num_entries) e;
}

module _ (d : ℕ) (f : RtEntry → RtEntry)
    (keep : (e : RtEntry) → (f e).dest_addr ≡ e.dest_addr) where
  write-touches : (t : RoutingTable) → TouchesOnly d t (write_table d f t)
  unfolding write_table
  write-touches t = record {
    others = λ k o. lookup-write_table d f keep k t ∙ ground (arith, o);
    count = refl;
  }

report-rt_tbl :
    (n : Bool) (rt : ℕ) (v : Pending) (s : State) → (report_udest n rt v s).1.rt_tbl ≡ s.rt_tbl
unfolding report_udest rerr_create rerr_add_udest aodv_socket_new_msg
report-rt_tbl n rt v s = ground arith

-- A route that is lost becomes invalid, and nothing else in the table changes.
module _ (ud : Udest) (rt : ℕ) (v : Pending) (s : State) (e : RtEntry)
    (h : lookup rt s.rt_tbl ≡ some e) (up : is_valid e.state ≡ true) where
  invalidate-touches : TouchesOnly rt s.rt_tbl (rt_table_invalidate rt s).1.rt_tbl
  invalidate-touches =
      let (_, _, entries, after) = rt_table_invalidate-lookup rt s e h up in
      record { others = λ k o. after k ∙ ground (arith, o); count = entries }

  lose-touches : TouchesOnly rt s.rt_tbl (lose_route false ud rt v s).1.rt_tbl
  unfolding lose_route precursor_list_destroy drop_precursors
  lose-touches =
      let s1 : State = (rt_table_invalidate rt s).1 in
      let s2 : State = (write_rt rt (λ x. record x { dest_seqno = ud.dest_seqno }) s1).1 in
      let x : RtEntry = entry_at rt s2 in
      let reporting : Bool = not (x.nprecursor == 0) && not x.flags.repair in
      let s3 : State = ((if reporting then report_udest false rt v else pure v) s2).1 in
      touches_trans rt invalidate-touches (
        touches_trans rt (write-touches rt _ (λ y. refl) s1.rt_tbl) (
          touches_trans rt
            (touches_none rt s2.rt_tbl s3.rt_tbl (
              if-keep (λ (m : M Pending). (m s2).1.rt_tbl ≡ s2.rt_tbl) reporting
                (report-rt_tbl false rt v s2) refl))
            (if-keep (λ (m : M ⊤). TouchesOnly rt s3.rt_tbl (m s3).1.rt_tbl)
              (not (is_valid x.state)) (write-touches rt _ (λ y. refl) s3.rt_tbl)
              (touches_none rt s3.rt_tbl s3.rt_tbl refl))))

  lose-IsCut : (n : ℕ) → IsCut n rt (lose_route false ud rt v s).1.rt_tbl
  unfolding lose_route
  lose-IsCut n =
      IsCut-Fades n rt ((OnlyFades-renumber rt ud.dest_seqno v).run (rt_table_invalidate rt s).1)
        (invalidate-IsCut n rt s)

-- No valid route to the destination of `ud` by the neighbor `src`, unless it is newer.
abbrev pub NoneBy : ℕ → RoutingTable → Udest → Type 0
NoneBy src t ud =
    (f : RtEntry)
    → lookup ud.dest_addr t ≡ some f
    → f.next_hop ≡ src
    → s32_lt ud.dest_seqno f.dest_seqno ≡ false
    → is_valid f.state ≡ false

-- What the processing of one destination has done: nothing, where there was nothing to do, or the route is
-- gone and all else the same.
abbrev pub Processed : ℕ → Udest → RoutingTable → RoutingTable → Type 0
Processed src ud t u =
    ((u ≡ t) × NoneBy src t ud)
    ⊎ (TouchesOnly ud.dest_addr t u × ((n : ℕ) → IsCut n ud.dest_addr u))

found-Processed :
    (src : ℕ) (ud : Udest) (v : Pending) (s : State) (e : RtEntry)
    → lookup ud.dest_addr s.rt_tbl ≡ some e
    → Processed src ud s.rt_tbl (process_found false src ud (some ud.dest_addr) v s).1.rt_tbl
unfolding entry_at
found-Processed src ud v s e h =
    let d : ℕ = ud.dest_addr in
    let at_it : entry_at d s ≡ e = rw h refl in
    let out : Bool → Type 0 =
      λ c. Processed src ud s.rt_tbl ((if c then lose_route false ud d v else pure v) s).1.rt_tbl in
    elim (Bool-cases (is_lost src ud (entry_at d s))) [
      | inl y ↦
          let up : is_valid e.state ≡ true = ground (arith, y, at_it) in
          subst out (sym y) (inr (lose-touches ud d v s e h up, lose-IsCut ud d v s e h up))
      | inr n ↦
          subst out (sym n) (inl (refl, λ f p hop old. ground (arith, n, at_it, h, p, hop, old)))
    ]

looked_up-Processed :
    (src : ℕ) (ud : Udest) (v : Pending) (s : State) (o : Option RtEntry)
    → lookup ud.dest_addr s.rt_tbl ≡ o
    → Processed src ud s.rt_tbl (process_found false src ud (as_key o) v s).1.rt_tbl
looked_up-Processed src ud v s none h = inl (refl, λ f p hop old. cc)
looked_up-Processed src ud v s (some e) h =
    let same : e.dest_addr ≡ ud.dest_addr = lookup-dest ud.dest_addr s.rt_tbl e h in
    subst (λ d. Processed src ud s.rt_tbl (process_found false src ud (some d) v s).1.rt_tbl)
      (sym same) (found-Processed src ud v s e h)
  where
    lookup-dest : (d : ℕ) (t : RoutingTable) (e : RtEntry) → lookup d t ≡ some e → e.dest_addr ≡ d
    lookup-dest d t e h = find-dest d (t.tbl (hashing d)) e (unfold lookup in h)

pub udest-Processed :
    (src : ℕ) (ud : Udest) (v : Pending) (s : State)
    → IsTable s.rt_tbl
    → s.rt_tbl.num_entries ≢ 0
    → Processed src ud s.rt_tbl (process_udest false src ud v s).1.rt_tbl
unfolding process_udest
udest-Processed src ud v s t n =
    subst
      (λ (r : Option ℕ × State).
        Processed src ud s.rt_tbl (process_found false src ud r.0 v r.1).1.rt_tbl)
      (sym (rt_table_check-lookup ud.dest_addr s t n))
      (looked_up-Processed src ud v s (lookup ud.dest_addr s.rt_tbl) refl)

pub Processed-num :
    (src : ℕ) (ud : Udest) {t u : RoutingTable}
    → Processed src ud t u
    → u.num_entries ≡ t.num_entries
Processed-num src ud (inl (e, stays)) = ap (λ (x : RoutingTable). x.num_entries) e
Processed-num src ud (inr (only, cut)) = only.count

-- The processing leaves no route to its destination, and brings back none to another.
pub Processed-NoneBy :
    (src : ℕ) (ud : Udest) {t u : RoutingTable} → Processed src ud t u → NoneBy src u ud
Processed-NoneBy src ud (inl (e, stays)) =
    subst (λ (x : RoutingTable). NoneBy src x ud) (sym e) stays
Processed-NoneBy src ud (inr (only, cut)) = λ f p hop old. cut src f p hop

pub keeps-NoneBy :
    (src : ℕ) (ud other : Udest) {t u : RoutingTable}
    → Processed src ud t u
    → NoneBy src t other
    → NoneBy src u other
keeps-NoneBy src ud other (inl (e, stays)) h =
    subst (λ (x : RoutingTable). NoneBy src x other) (sym e) h
keeps-NoneBy src ud other {t} {u} (inr (only, cut)) h = λ f p hop old.
    elim (ℕ_discrete other.dest_addr ud.dest_addr) [
      | yes same ↦ subst (λ d. IsCut src d u) (sym same) (cut src) f p hop
      | no apart ↦ h f (sym (only.others other.dest_addr apart) ∙ p) hop old
    ]
