-- ===== src/Routing/Store.antt =====
-- The routing table as a finite map from destinations to entries.
use aodv.Base.{ℕ, ◌≡◌, refl, Option, none, some, List, [], ◌∷◌, All, ◌==◌, if◌then◌else◌, arith}
use aodv.Node.{RtEntry, RoutingTable}
use aodv.Routing.Table.{
  hashing, find, check_bucket, write_bucket, unlink_entry, lookup, write_table, link_entry,
  unlink_table,
}

-- Each entry is in the bucket of its destination, with the destination as its hash, and no
-- destination is there twice.
unfoldable pub Once : List RtEntry → Type 0
unfolding find
Once [] = Unit {0}
Once (e ∷ l) = (find e.dest_addr l ≡ none) × Once l

pub record IsTable (t : RoutingTable) : Type 0 where
  pub home :
      (i : ℕ) → All (λ (e : RtEntry). (hashing e.dest_addr ≡ i) × (e.hash ≡ e.dest_addr)) (t.tbl i)
  pub once : (i : ℕ) → Once (t.tbl i)

abbrev pub map_entry : (RtEntry → RtEntry) → Option RtEntry → Option RtEntry
map_entry f none = none
map_entry f (some e) = some (f e)

module _ (k : ℕ) (f : RtEntry → RtEntry)
    (keep : (e : RtEntry) → (f e).dest_addr ≡ e.dest_addr) where
  find-write_bucket :
      (d : ℕ) (l : List RtEntry)
      → find d (write_bucket k f l) ≡ (if k == d then map_entry f (find d l) else find d l)
  unfolding find write_bucket
  find-write_bucket d [] = ground arith
  find-write_bucket d (e ∷ l) = ground (arith, keep e, find-write_bucket d l)

  pub lookup-write_table :
      (d : ℕ) (t : RoutingTable)
      → lookup d (write_table k f t) ≡ (if k == d then map_entry f (lookup d t) else lookup d t)
  unfolding lookup write_table
  lookup-write_table d t = ground (arith, find-write_bucket d (t.tbl (hashing k)))

find-unlink_entry :
    (k d : ℕ) (l : List RtEntry)
    → Once l
    → find d (unlink_entry k l) ≡ (if k == d then none else find d l)
unfolding find unlink_entry Once
find-unlink_entry k d [] h = ground arith
find-unlink_entry k d (e ∷ l) h = ground (arith, h.0, find-unlink_entry k d l h.1)

pub lookup-link_entry :
    (e : RtEntry) (d : ℕ) (t : RoutingTable)
    → lookup d (link_entry e t) ≡ (if d == e.dest_addr then some e else lookup d t)
unfolding lookup link_entry find
lookup-link_entry e d t = ground arith

pub lookup-unlink_table :
    (k d : ℕ) (t : RoutingTable)
    → IsTable t
    → lookup d (unlink_table k t) ≡ (if k == d then none else lookup d t)
unfolding lookup unlink_table
lookup-unlink_table k d t v =
    ground (arith, find-unlink_entry k d (t.tbl (hashing k)) (v.once (hashing k)))

abbrev HomeIn : ℕ → RtEntry → Type 0
HomeIn i e = (hashing e.dest_addr ≡ i) × (e.hash ≡ e.dest_addr)

abbrev pub as_key : Option RtEntry → Option ℕ
as_key none = none
as_key (some e) = some e.dest_addr

check_bucket-find :
    (i d : ℕ) (l : List RtEntry) → All (HomeIn i) l → check_bucket d d l ≡ as_key (find d l)
unfolding find check_bucket
check_bucket-find i d [] h = refl
check_bucket-find i d (e ∷ l) h = ground (arith, h.0, check_bucket-find i d l h.1)

-- The loop of rt_table_check finds the entry of the destination, in a table that is in order.
pub check-lookup :
    (d : ℕ) (t : RoutingTable)
    → IsTable t
    → check_bucket d d (t.tbl (hashing d)) ≡ as_key (lookup d t)
unfolding lookup
check-lookup d t v = check_bucket-find (hashing d) d (t.tbl (hashing d)) (v.home (hashing d))

module _ (k : ℕ) where
  module _ (f : RtEntry → RtEntry)
      (keep : (e : RtEntry) → ((f e).dest_addr ≡ e.dest_addr) × ((f e).hash ≡ e.hash)) where
    write-Home : (i : ℕ) (l : List RtEntry) → All (HomeIn i) l → All (HomeIn i) (write_bucket k f l)
    unfolding write_bucket
    write-Home i [] h = tt
    write-Home i (e ∷ l) h = ground (arith, h.0, h.1, keep e, write-Home i l h.1)

    write-Once : (l : List RtEntry) → Once l → Once (write_bucket k f l)
    unfolding write_bucket Once
    write-Once [] h = tt
    write-Once (e ∷ l) h = ground (
      arith,
      h.0,
      h.1,
      keep e,
      write-Once l h.1,
      find-write_bucket k f (λ x. (keep x).0) e.dest_addr l,
    )

    pub write_table-IsTable : (t : RoutingTable) → IsTable t → IsTable (write_table k f t)
    unfolding write_table
    write_table-IsTable t v = record {
      home = λ i. ground (arith, v.home i, write-Home i (t.tbl i) (v.home i));
      once = λ i. ground (arith, v.once i, write-Once (t.tbl i) (v.once i));
    }

  unlink-Home : (i : ℕ) (l : List RtEntry) → All (HomeIn i) l → All (HomeIn i) (unlink_entry k l)
  unfolding unlink_entry
  unlink-Home i [] h = tt
  unlink-Home i (e ∷ l) h = ground (arith, h.0, h.1, unlink-Home i l h.1)

  unlink-Once : (l : List RtEntry) → Once l → Once (unlink_entry k l)
  unfolding unlink_entry Once
  unlink-Once [] h = tt
  unlink-Once (e ∷ l) h =
      ground (arith, h.0, h.1, unlink-Once l h.1, find-unlink_entry k e.dest_addr l h.1)

  pub unlink_table-IsTable : (t : RoutingTable) → IsTable t → IsTable (unlink_table k t)
  unfolding unlink_table
  unlink_table-IsTable t v = record {
    home = λ i. ground (arith, v.home i, unlink-Home i (t.tbl i) (v.home i));
    once = λ i. ground (arith, v.once i, unlink-Once (t.tbl i) (v.once i));
  }

pub link_entry-IsTable :
    (e : RtEntry) (t : RoutingTable)
    → e.hash ≡ e.dest_addr
    → lookup e.dest_addr t ≡ none
    → IsTable t
    → IsTable (link_entry e t)
unfolding link_entry lookup Once
link_entry-IsTable e t h n v = record {
  home = λ i. ground (arith, v.home i, h);
  once = λ i. ground (arith, v.once i, n);
}
