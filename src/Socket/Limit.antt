-- ===== src/Socket/Limit.antt =====
-- The rate limit of aodv_socket_send.
use aodv.Base.{
  ℕ, zero, suc, ◌+◌, ◌-◌, ◌<◌, ◌≤◌, ◌≡◌, refl, ◌∙◌, ap, true, false, Option, none, some, List, [],
  ◌∷◌, ◌++◌, drop, length, length-append, arith, Bool-cases, inl, inr, ◌⊎◌, subst, ◌==◌, ltb_ℤ, pos,
}
use aodv.Timer.{Timeval, us, timeval_diff}
use aodv.Node.{RateLimit}
use aodv.Socket.Send.{admit, ratelimit_max, first_stamp}

abbrev pub no_stamps : RateLimit
no_stamps = record { num = 0; stamps = [] }

-- The stamp after `n` others.
unfoldable nth : ℕ → List Timeval → Option Timeval
nth n [] = none
nth zero (t ∷ l) = some t
nth (suc n) (t ∷ l) = nth n l

abbrev pub IsLate : Timeval → Option Timeval → Type 0
IsLate t none = Unit {0}
IsLate t (some u) = us t + 1000000 ≤ us u

-- Each stamp with ten behind it is a second before the tenth of them, or more.
unfoldable pub Spaced : List Timeval → Type 0
unfolding nth
Spaced [] = Unit {0}
Spaced (t ∷ l) = IsLate t (nth 9 l) × Spaced l

nth-short : (n : ℕ) (l : List Timeval) → length l ≤ n → nth n l ≡ none
unfolding nth
nth-short n [] h = refl
nth-short zero (t ∷ l) h = ground arith
nth-short (suc n) (t ∷ l) h = nth-short n l (omega arith)

nth-append : (n : ℕ) (l k : List Timeval) → n < length l → nth n (l ++ k) ≡ nth n l
unfolding nth
nth-append n [] k h = ground arith
nth-append zero (t ∷ l) k h = refl
nth-append (suc n) (t ∷ l) k h = nth-append n l k (omega arith)

nth-end : (n : ℕ) (l : List Timeval) (t : Timeval) → length l ≡ n → nth n (l ++ t ∷ []) ≡ some t
unfolding nth
nth-end zero [] t h = refl
nth-end (suc n) [] t h = ground arith
nth-end zero (u ∷ l) t h = ground arith
nth-end (suc n) (u ∷ l) t h = nth-end n l t (omega arith)

short-Spaced : (l : List Timeval) → length l ≤ 10 → Spaced l
unfolding Spaced
short-Spaced [] h = tt
short-Spaced (t ∷ l) h = (rw (nth-short 9 l (omega arith)) tt, short-Spaced l (omega arith))

-- A message that waits for the oldest of the last ten keeps the distance.
Spaced-snoc :
    (old l : List Timeval) (t : Timeval)
    → length l ≡ 10
    → us (first_stamp l) + 1000000 ≤ us t
    → Spaced (old ++ l)
    → Spaced ((old ++ l) ++ t ∷ [])
unfolding Spaced
Spaced-snoc [] [] t h late sp = ground arith
Spaced-snoc [] (s ∷ l) t h late sp = (
  rw (nth-end 9 l t (omega arith)) late,
  short-Spaced (l ++ t ∷ []) (omega (arith, length-append l (t ∷ []))),
)
Spaced-snoc (s ∷ old) l t h late sp = (
  rw (nth-append 9 (old ++ l) (t ∷ []) (omega (arith, length-append old l))) sp.0,
  Spaced-snoc old l t h late sp.1,
)

-- What the array holds are the last of the messages that went out: all of them, or ten.
pub record Keeps (l : RateLimit) (h : List Timeval) : Type 0 where
  counts : l.num ≡ length l.stamps
  within : length l.stamps ≤ 10
  split : (old : List Timeval) × (h ≡ old ++ l.stamps) × ((old ≡ []) ⊎ (length l.stamps ≡ 10))
  pub spaced : Spaced h

pub append-nil : (a : List Timeval) → a ++ [] ≡ a
append-nil [] = refl
append-nil (u ∷ a) = ap (◌∷◌ u) (append-nil a)

pub snoc_assoc : (a b : List Timeval) (t : Timeval) → (a ++ t ∷ []) ++ b ≡ a ++ t ∷ b
snoc_assoc [] b t = refl
snoc_assoc (u ∷ a) b t = ap (◌∷◌ u) (snoc_assoc a b t)

-- The oldest of the ten goes over to those before.
shift :
    (old l : List Timeval) (t : Timeval)
    → length l ≡ 10
    → (old ++ l) ++ t ∷ [] ≡ (old ++ first_stamp l ∷ []) ++ (drop 1 l ++ t ∷ [])
shift [] [] t h = ground arith
shift [] (s ∷ l) t h = refl
shift (u ∷ old) l t h = ap (◌∷◌ u) (shift old l t h)

length-drop : (l : List Timeval) → length (drop 1 l) ≡ length l - 1
length-drop [] = refl
length-drop (t ∷ l) = omega arith

module _ (t : Timeval) (l : RateLimit) (h : List Timeval) (k : Keeps l h) where
  room-Keeps :
      (l.num == ratelimit_max) ≡ false
      → Keeps (record { num = l.num + 1; stamps = l.stamps ++ t ∷ [] }) (h ++ t ∷ [])
  room-Keeps e =
      let (old, whole, room) = k.split in
      let free : length l.stamps < 10 = ground (arith, e, k.counts, k.within) in
      let first : old ≡ [] = ground (arith, room, free) in
      let all : h ≡ l.stamps = whole ∙ ap (◌++ l.stamps) first in
      record {
        counts = omega (arith, k.counts, length-append l.stamps (t ∷ []));
        within = omega (arith, free, length-append l.stamps (t ∷ []));
        split = ([], ap (◌++ t ∷ []) all, inl refl);
        spaced = rw all (
            short-Spaced (l.stamps ++ t ∷ [])
              (omega (arith, free, length-append l.stamps (t ∷ []))));
      }

  full-Keeps :
      (l.num == ratelimit_max) ≡ true
      → ltb_ℤ (timeval_diff t (first_stamp l.stamps)) (pos 1000) ≡ false
      → Keeps (record l { stamps = drop 1 l.stamps ++ t ∷ [] }) (h ++ t ∷ [])
  full-Keeps e late =
      let (old, whole, room) = k.split in
      let full : length l.stamps ≡ 10 = ground (arith, e, k.counts) in
      let wait : us (first_stamp l.stamps) + 1000000 ≤ us t = ground (arith, late) in
      record {
        counts =
            omega (
              arith,
              k.counts,
              full,
              length-drop l.stamps,
              length-append (drop 1 l.stamps) (t ∷ []),
            );
        within =
            omega (arith, full, length-drop l.stamps, length-append (drop 1 l.stamps) (t ∷ []));
        split = (
          old ++ first_stamp l.stamps ∷ [],
          ap (◌++ t ∷ []) whole ∙ shift old l.stamps t full,
          inr (omega (arith, full, length-drop l.stamps, length-append (drop 1 l.stamps) (t ∷ []))),
        );
        spaced = rw whole (Spaced-snoc old l.stamps t full wait (subst Spaced whole k.spaced));
      }

pub admit-Keeps :
    (t : Timeval) (l l' : RateLimit) (h : List Timeval)
    → admit t l ≡ some l'
    → Keeps l h
    → Keeps l' (h ++ t ∷ [])
unfolding admit
admit-Keeps t l l' h e k = elim (Bool-cases (l.num == ratelimit_max)) [
  | inl full ↦ elim (Bool-cases (ltb_ℤ (timeval_diff t (first_stamp l.stamps)) (pos 1000))) [
    | inl early ↦ ground (arith, full, early, e)
    | inr late ↦
        subst (λ x. Keeps x (h ++ t ∷ [])) (ground (arith, full, late, e))
          (full-Keeps t l h k full late)
  ]
  | inr free ↦
      subst (λ x. Keeps x (h ++ t ∷ [])) (ground (arith, free, e)) (room-Keeps t l h k free)
]

pub none-Keeps : Keeps no_stamps []
unfolding Spaced
none-Keeps = record {
  counts = refl;
  within = omega arith;
  split = ([], refl, inl refl);
  spaced = tt;
}
