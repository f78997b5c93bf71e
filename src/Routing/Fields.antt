-- ===== src/Routing/Fields.antt =====
-- The sequence number and the precursors of an entry.
use aodv.Base.{
  ℕ, ◌+◌, ◌<◌, ◌≡◌, ◌≢◌, refl, true, false, not, List, [], ◌∷◌, length, arith, ◌==◌, if◌then◌else◌,
  s32_lt,
}
use aodv.Node.{RtEntry}
use aodv.Routing.Route.{
  seqno_incr, add_precursor, remove_precursor, drop_precursors, member, erase, count_down,
}

-- seqno_incr keeps a sequence number in its 32 bits and off 0, and the daemon's signed comparison
-- takes the result for newer, except for the largest positive number, whose successor is negative.
pub seqno_incr-newer :
    (q : ℕ)
    → q < 4294967296
    → q ≢ 0
    → (seqno_incr q < 4294967296)
      × (seqno_incr q ≢ 0)
      × (s32_lt q (seqno_incr q) ≡ not (q == 2147483647))
unfolding seqno_incr
seqno_incr-newer q lt ne = (ground arith, ground arith, ground arith)

-- No precursor is in the list twice, and nprecursor is their number.
abbrev NoRepeat : List ℕ → Type 0
NoRepeat [] = Unit {0}
NoRepeat (p ∷ l) = (member p l ≡ false) × NoRepeat l

pub record AreCounted (e : RtEntry) : Type 0 where
  pub number : e.nprecursor ≡ length e.precursors
  pub single : NoRepeat e.precursors
  pub room : length e.precursors < 4294967295

member-erase :
    (a b : ℕ) (l : List ℕ)
    → NoRepeat l
    → member b (erase a l) ≡ (if a == b then false else member b l)
member-erase a b [] h = ground arith
member-erase a b (p ∷ l) h = ground (arith, h.0, member-erase a b l h.1)

NoRepeat-erase : (a : ℕ) (l : List ℕ) → NoRepeat l → NoRepeat (erase a l)
NoRepeat-erase a [] h = tt
NoRepeat-erase a (p ∷ l) h =
    ground (arith, h.0, h.1, NoRepeat-erase a l h.1, member-erase a p l h.1)

length-erase : (a : ℕ) (l : List ℕ) → member a l ≡ true → length (erase a l) + 1 ≡ length l
length-erase a [] h = ground arith
length-erase a (p ∷ l) h = ground (arith, length-erase a l)

count_down-length : (l : List ℕ) (n : ℕ) → n ≡ length l → n < 4294967295 → count_down l n ≡ 0
count_down-length [] n e lt = e
count_down-length (p ∷ l) n e lt = count_down-length l _ (ground arith) (ground arith)

-- For an entry whose nprecursor counts its precursors, none of them twice and fewer than 2 ^ 32 - 2,
-- precursor_add makes the neighbor a precursor, keeps the others and adds no more, and nprecursor
-- counts as before.
pub add_precursor-member :
    (a : ℕ) (e : RtEntry)
    → AreCounted e
    → length e.precursors + 1 < 4294967295
    → AreCounted (add_precursor a e)
      × ((b : ℕ)
          → member b (add_precursor a e).precursors
            ≡ (if a == b then true else member b e.precursors))
unfolding add_precursor
add_precursor-member a e v lt = (
  record {
    number = ground (arith, v.number);
    single = ground (arith, v.single);
    room = ground (arith, v.room);
  },
  λ b. ground arith,
)

-- For an entry whose nprecursor counts its precursors, none of them twice and fewer than 2 ^ 32 - 1,
-- precursor_remove takes out the neighbor and no other, and nprecursor counts as before.
pub remove_precursor-member :
    (a : ℕ) (e : RtEntry)
    → AreCounted e
    → AreCounted (remove_precursor a e)
      × ((b : ℕ)
          → member b (remove_precursor a e).precursors
            ≡ (if a == b then false else member b e.precursors))
unfolding remove_precursor
remove_precursor-member a e v = (
  record {
    number = ground (arith, v.number, v.room, length-erase a e.precursors);
    single = ground (arith, v.single, NoRepeat-erase a e.precursors v.single);
    room = ground (arith, v.room, length-erase a e.precursors);
  },
  λ b. ground (arith, member-erase a b e.precursors v.single),
)

pub drop_precursors-none :
    (e : RtEntry)
    → AreCounted e
    → ((drop_precursors e).nprecursor ≡ 0) × ((drop_precursors e).precursors ≡ [])
unfolding drop_precursors
drop_precursors-none e v =
    (count_down-length e.precursors e.nprecursor v.number (ground (arith, v.number, v.room)), refl)
