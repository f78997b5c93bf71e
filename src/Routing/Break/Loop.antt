-- ===== src/Routing/Break/Loop.antt =====
-- The loops of neighbor_link_break over the table.
use aodv.Base.{
  ℕ, zero, suc, ◌+◌, ◌<◌, ◌≤◌, ◌≡◌, ◌≢◌, refl, sym, subst, Option, some, List, [], ◌∷◌, map, All,
  All-map, ℕ_discrete, arith,
}
use aodv.Node.{State, RtEntry, RoutingTable}
use aodv.Routing.Table.{find, lookup, hashing, entry_at, bucket_keys, for_each, for_buckets}
use aodv.Routing.Fade.{Faded, absent, present, Fades, Fades-refl, Fades-trans}
use aodv.Routing.Fade.Runs.{OnlyFades-break_route}
use aodv.Routing.Neighbor.{Pending, break_route}
use aodv.Routing.Break.Route.{IsCut, IsCut-Fades, find-dest, break_route-IsCut}

-- The neighbor's own entry stays in the table.
abbrev pub IsThere : ℕ → RoutingTable → Type 0
IsThere d t = (e : RtEntry) × (lookup d t ≡ some e)

Faded-forth :
    {o p : Option RtEntry} (e : RtEntry) → Faded o p → o ≡ some e → (f : RtEntry) × (p ≡ some f)
Faded-forth e absent h = cc
Faded-forth e (present x f y) h = (f, refl)

pub IsThere-Fades : (d : ℕ) {t u : RoutingTable} → Fades t u → IsThere d t → IsThere d u
IsThere-Fades d x (e, h) = Faded-forth e (x.entries d) h

there-dest : (d : ℕ) (s : State) → IsThere d s.rt_tbl → (entry_at d s).dest_addr ≡ d
unfolding entry_at lookup
there-dest d s (e, h) = rw h (find-dest d (s.rt_tbl.tbl (hashing d)) e h)

module _ (rt : ℕ) where
  -- Another route than the neighbor's own is cut.
  abbrev pub Cut : RoutingTable → ℕ → Type 0
  Cut t u = u ≢ rt → IsCut rt u t

  pub All-Fades : {t u : RoutingTable} → Fades t u → (l : List ℕ) → All (Cut t) l → All (Cut u) l
  All-Fades {t} {u} x l h = All-map (Cut t) (Cut u) (λ k c other. IsCut-Fades rt k x (c other)) l h

  loop-Fades :
      (l : List ℕ) (v : Pending) (s : State)
      → Fades s.rt_tbl (for_each (break_route rt) l v s).1.rt_tbl
  unfolding for_each
  loop-Fades [] v s = Fades-refl s.rt_tbl
  loop-Fades (u ∷ l) v s =
      let (v', s') = break_route rt u v s in
      Fades-trans ((OnlyFades-break_route rt u v).run s) (loop-Fades l v' s')

  loop-Cut :
      (l : List ℕ) (v : Pending) (s : State)
      → IsThere rt s.rt_tbl
      → All (Cut (for_each (break_route rt) l v s).1.rt_tbl) l
  unfolding for_each
  loop-Cut [] v s h = tt
  loop-Cut (u ∷ l) v s h =
      let (v', s') = break_route rt u v s in
      (
        λ other.
            IsCut-Fades rt u (loop-Fades l v' s')
              (break_route-IsCut rt u v s (there-dest rt s h) other),
        loop-Cut l v' s' (IsThere-Fades rt ((OnlyFades-break_route rt u v).run s) h),
      )

  pub buckets-Fades :
      (n i : ℕ) (v : Pending) (s : State)
      → Fades s.rt_tbl (for_buckets n i (break_route rt) v s).1.rt_tbl
  unfolding for_buckets
  buckets-Fades zero i v s = Fades-refl s.rt_tbl
  buckets-Fades (suc n) i v s =
      let (v', s') = for_each (break_route rt) (bucket_keys i s.rt_tbl) v s in
      Fades-trans (loop-Fades (bucket_keys i s.rt_tbl) v s) (buckets-Fades n (i + 1) v' s')

  pub buckets-Cut :
      (n i : ℕ) (v : Pending) (s : State) (j : ℕ)
      → IsThere rt s.rt_tbl
      → i ≤ j
      → j < i + n
      → All (Cut (for_buckets n i (break_route rt) v s).1.rt_tbl) (bucket_keys j s.rt_tbl)
  unfolding for_buckets
  buckets-Cut zero i v s j h lo hi = absurd (omega (arith, lo, hi))
  buckets-Cut (suc n) i v s j h lo hi =
      let (v', s') = for_each (break_route rt) (bucket_keys i s.rt_tbl) v s in
      let fades : Fades s.rt_tbl s'.rt_tbl = loop-Fades (bucket_keys i s.rt_tbl) v s in
      let end : RoutingTable = (for_buckets n (i + 1) (break_route rt) v' s').1.rt_tbl in
      elim (ℕ_discrete i j) [
        | yes e ↦
            subst (λ a. All (Cut end) (bucket_keys a s.rt_tbl)) e
              (All-Fades (buckets-Fades n (i + 1) v' s') (bucket_keys i s.rt_tbl)
                (loop-Cut (bucket_keys i s.rt_tbl) v s h))
        | no e ↦
            subst (λ l. All (Cut end) l) (fades.keys j)
              (buckets-Cut n (i + 1) v' s' j (IsThere-Fades rt fades h) (omega (arith, lo, e))
                (omega (arith, hi)))
      ]

-- What all keys of a bucket have, the key of an entry has.
pub key-All :
    (P : ℕ → Type 0) (l : List RtEntry) (k : ℕ) (e : RtEntry)
    → All P (map (λ (x : RtEntry). x.dest_addr) l)
    → find k l ≡ some e
    → P k
unfolding find
key-All P [] k e h p = cc
key-All P (x ∷ l) k e h p = elim (ℕ_discrete k x.dest_addr) [
  | yes same ↦ subst P (sym same) h.0
  | no other ↦ key-All P l k e h.1 (ground (arith, p, other))
]
