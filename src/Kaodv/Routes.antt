-- ===== src/Kaodv/Routes.antt =====
-- The list of routes as a map from destinations, and its order.
use aodv.Base.{
  ℕ, ◌≤◌, ◌≡◌, refl, none, some, List, [], ◌∷◌, All, ltb, ◌==◌, if◌then◌else◌, arith, Bool-cases,
  inl, inr,
}
use aodv.Kaodv.Defs.{ExplEntry}
use aodv.Kaodv.Expl.{check_expl, insert_expl, unlink_expl}

-- The routes stand in the order in which they expire.
abbrev pub IsSorted : List ExplEntry → Type 0
IsSorted [] = Unit {0}
IsSorted (e ∷ l) = All (λ (f : ExplEntry). e.expires ≤ f.expires) l × IsSorted l

-- No destination has two routes.
unfoldable pub OneEach : List ExplEntry → Type 0
unfolding check_expl
OneEach [] = Unit {0}
OneEach (e ∷ l) = (check_expl e.daddr l ≡ none) × OneEach l

pub check-insert :
    (e : ExplEntry) (d : ℕ) (l : List ExplEntry)
    → check_expl e.daddr l ≡ none
    → check_expl d (insert_expl e l) ≡ (if e.daddr == d then some e else check_expl d l)
unfolding check_expl insert_expl
check-insert e d [] h = refl
check-insert e d (c ∷ l) h = ground (arith, check-insert e d l)

pub check-unlink :
    (x d : ℕ) (l : List ExplEntry)
    → OneEach l
    → check_expl d (unlink_expl x l) ≡ (if x == d then none else check_expl d l)
unfolding check_expl unlink_expl OneEach
check-unlink x d [] h = ground arith
check-unlink x d (c ∷ l) h = ground (arith, h.0, check-unlink x d l h.1)

pub insert-OneEach :
    (e : ExplEntry) (l : List ExplEntry)
    → check_expl e.daddr l ≡ none
    → OneEach l
    → OneEach (insert_expl e l)
unfolding check_expl insert_expl OneEach
insert-OneEach e [] h o = (refl, tt)
insert-OneEach e (c ∷ l) h o =
    ground (arith, h, o.0, o.1, insert-OneEach e l, check-insert e c.daddr l)

pub unlink-OneEach : (x : ℕ) (l : List ExplEntry) → OneEach l → OneEach (unlink_expl x l)
unfolding check_expl unlink_expl OneEach
unlink-OneEach x [] o = tt
unlink-OneEach x (c ∷ l) o =
    ground (arith, o.0, o.1, unlink-OneEach x l o.1, check-unlink x c.daddr l o.1)

All-le_insert :
    (n : ℕ) (e : ExplEntry) (l : List ExplEntry)
    → n ≤ e.expires
    → All (λ (f : ExplEntry). n ≤ f.expires) l
    → All (λ (f : ExplEntry). n ≤ f.expires) (insert_expl e l)
unfolding insert_expl
All-le_insert n e [] h a = (h, tt)
All-le_insert n e (c ∷ l) h a = ground (arith, h, a.0, a.1, All-le_insert n e l h a.1)

All-le_mono :
    (n m : ℕ) (l : List ExplEntry)
    → n ≤ m
    → All (λ (f : ExplEntry). m ≤ f.expires) l
    → All (λ (f : ExplEntry). n ≤ f.expires) l
All-le_mono n m [] h a = tt
All-le_mono n m (c ∷ l) h a = (omega (arith, a.0), All-le_mono n m l h a.1)

pub insert-IsSorted : (e : ExplEntry) (l : List ExplEntry) → IsSorted l → IsSorted (insert_expl e l)
unfolding insert_expl
insert-IsSorted e [] s = (tt, tt)
insert-IsSorted e (c ∷ l) s = elim (Bool-cases (ltb e.expires c.expires)) [
  | inl lt ↦
      rw (lt, insert_expl)
        ((ground (arith, lt), All-le_mono e.expires c.expires l (ground (arith, lt)) s.0), s)
  | inr ge ↦
      rw (ge, insert_expl)
        (All-le_insert c.expires e l (ground (arith, ge)) s.0, insert-IsSorted e l s.1)
]

All-le_unlink :
    (n x : ℕ) (l : List ExplEntry)
    → All (λ (f : ExplEntry). n ≤ f.expires) l
    → All (λ (f : ExplEntry). n ≤ f.expires) (unlink_expl x l)
unfolding unlink_expl
All-le_unlink n x [] a = tt
All-le_unlink n x (c ∷ l) a = ground (arith, a.0, a.1, All-le_unlink n x l a.1)

pub unlink-IsSorted : (x : ℕ) (l : List ExplEntry) → IsSorted l → IsSorted (unlink_expl x l)
unfolding unlink_expl
unlink-IsSorted x [] s = tt
unlink-IsSorted x (c ∷ l) s =
    ground (arith, s.0, s.1, unlink-IsSorted x l s.1, All-le_unlink c.expires x l s.0)

pub check-daddr :
    (d : ℕ) (e : ExplEntry) (l : List ExplEntry) → check_expl d l ≡ some e → e.daddr ≡ d
unfolding check_expl
check-daddr d e [] h = ground (arith, h)
check-daddr d e (c ∷ l) h = ground (arith, h, check-daddr d e l)

-- The route that is found is free for a new one once it is unlinked.
pub check-unlink_self :
    (d : ℕ) (e : ExplEntry) (l : List ExplEntry)
    → check_expl d l ≡ some e
    → OneEach l
    → check_expl e.daddr (unlink_expl d l) ≡ none
check-unlink_self d e l h o = ground (arith, check-daddr d e l h, check-unlink d e.daddr l o)
