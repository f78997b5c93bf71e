-- ===== src/Log/Address.antt =====
-- debug.c: ip_to_str, whose results stand in one static buffer of four slots. inet_ntoa, of the C
-- library, is a parameter: its text has at most 15 characters, none of them a zero.
use aodv.Base.{
  ℕ, ◌+◌, ◌*◌, ◌%◌, ◌<◌, ◌≤◌, ◌≡◌, refl, ◌∙◌, [], ◌∷◌, length, update, arith, ◌⊎◌, inl, inr,
}
use aodv.Log.Text.{Text}

-- The static variables; `buf` is the memory from its first byte on.
pub record IpBuf : Type 0 where
  pub buf : ℕ → ℕ
  pub index : ℕ

-- strcpy to the address `p`, with the zero at the end.
unfoldable pub strcpy : ℕ → Text → (ℕ → ℕ) → ℕ → ℕ
strcpy p [] b = update b p 0
strcpy p (c ∷ l) b = strcpy (p + 1) l (update b p c)

-- The pointer that is returned is an index into `buf`.
unfoldable pub ip_to_str : (ℕ → Text) → ℕ → IpBuf → ℕ × IpBuf
unfolding strcpy
ip_to_str inet_ntoa addr s =
    (s.index, record { buf = strcpy s.index (inet_ntoa addr) s.buf; index = (s.index + 16) % 64 })

-- The string that starts at an address.
unfoldable pub IsStr : (ℕ → ℕ) → ℕ → Text → Type 0
IsStr b p [] = b p ≡ 0
IsStr b p (c ∷ l) = (b p ≡ c) × IsStr b (p + 1) l

strcpy-before : (p : ℕ) (t : Text) (b : ℕ → ℕ) (q : ℕ) → q < p → strcpy p t b q ≡ b q
unfolding strcpy
strcpy-before p [] b q h = ground arith
strcpy-before p (c ∷ l) b q h =
    ground (arith, strcpy-before (p + 1) l (update b p c) q (omega arith))

strcpy-behind : (p : ℕ) (t : Text) (b : ℕ → ℕ) (q : ℕ) → p + length t < q → strcpy p t b q ≡ b q
unfolding strcpy
strcpy-behind p [] b q h = ground arith
strcpy-behind p (c ∷ l) b q h =
    ground (arith, strcpy-behind (p + 1) l (update b p c) q (omega arith))

strcpy-IsStr : (p : ℕ) (t : Text) (b : ℕ → ℕ) → IsStr (strcpy p t b) p t
unfolding strcpy IsStr
strcpy-IsStr p [] b = ground arith
strcpy-IsStr p (c ∷ l) b = (
  strcpy-before (p + 1) l (update b p c) p (omega arith) ∙ ground arith,
  strcpy-IsStr (p + 1) l (update b p c),
)

-- A string depends on its own bytes only.
IsStr-frame :
    (b b' : ℕ → ℕ) (p : ℕ) (t : Text)
    → ((q : ℕ) → p ≤ q → q ≤ p + length t → b' q ≡ b q)
    → IsStr b p t
    → IsStr b' p t
unfolding IsStr
IsStr-frame b b' p [] f h = f p (omega arith) (omega arith) ∙ h
IsStr-frame b b' p (c ∷ l) f h = (
  f p (omega arith) (omega arith) ∙ h.0,
  IsStr-frame b b' (p + 1) l (λ q lo hi. f q (omega arith) (omega arith)) h.1,
)

-- The slot `m` calls later is another one.
slot-apart :
    (k m i j : ℕ)
    → k < 4
    → 1 ≤ m
    → m < 4
    → i ≡ 16 * k
    → j ≡ (i + 16 * m) % 64
    → (i + 16 ≤ j) ⊎ (j + 16 ≤ i)
slot-apart k m i j h lo hi e g = elim (compare-cases (k + m)) [
  | inl l ↦ inl (omega (arith, l, h, lo, hi, e, g))
  | inr l ↦ inr (omega (arith, l, h, lo, hi, e, g))
]
  where
    compare-cases : (n : ℕ) → (n < 4) ⊎ (4 ≤ n)
    compare-cases n = ground arith

-- What one call leaves: its own string, and the bytes outside its slot.
module _ (inet_ntoa : ℕ → Text) (short : (a : ℕ) → length (inet_ntoa a) < 16) where
  abbrev next : ℕ → IpBuf → IpBuf
  next a s = (ip_to_str inet_ntoa a s).1

  own-IsStr : (a : ℕ) (s : IpBuf) → IsStr (next a s).buf s.index (inet_ntoa a)
  unfolding ip_to_str
  own-IsStr a s = strcpy-IsStr s.index (inet_ntoa a) s.buf

  -- A string in another slot outlives the call.
  other-IsStr :
      (a p : ℕ) (t : Text) (s : IpBuf)
      → length t < 16
      → (p + 16 ≤ s.index) ⊎ (s.index + 16 ≤ p)
      → IsStr s.buf p t
      → IsStr (next a s).buf p t
  unfolding ip_to_str
  other-IsStr a p t s l (inl h) =
      IsStr-frame s.buf _ p t
        λ q lo hi. strcpy-before s.index (inet_ntoa a) s.buf q (omega (arith, h, l, lo, hi))
  other-IsStr a p t s l (inr h) =
      IsStr-frame s.buf _ p t λ q lo hi.
        strcpy-behind s.index (inet_ntoa a) s.buf q (omega (arith, h, l, lo, hi, short a))

  beyond : (a x : ℕ) (s : IpBuf) → s.index + 16 ≤ x → (next a s).buf x ≡ s.buf x
  unfolding ip_to_str
  beyond a x s h = strcpy-behind s.index (inet_ntoa a) s.buf x (omega (arith, h, short a))

  -- The text of the address `x` in the slot `k` outlives a call that is at most three calls later.
  kept :
      (m a x k p : ℕ) (s : IpBuf)
      → 1 ≤ m
      → m < 4
      → k < 4
      → p ≡ 16 * k
      → s.index ≡ (p + 16 * m) % 64
      → IsStr s.buf p (inet_ntoa x)
      → IsStr (next a s).buf p (inet_ntoa x)
  kept m a x k p s lo hi h e g i =
      other-IsStr a p (inet_ntoa x) s (short x) (slot-apart k m p s.index h lo hi e g) i

  -- With the index at the start of one of the four slots, as it is at first and after every call: after
  -- four calls of ip_to_str in a row, as the arguments of one sprintf make them, each of the four
  -- pointers still leads to the text of its address, and no byte beyond the 64 of the buffer has
  -- changed.
  pub ip_to_str-last_four :
      (s : IpBuf) (k : ℕ) (a b c d : ℕ)
      → k < 4
      → s.index ≡ 16 * k
      → let (p, s1) = ip_to_str inet_ntoa a s in
        let (q, s2) = ip_to_str inet_ntoa b s1 in
        let (r, s3) = ip_to_str inet_ntoa c s2 in
        let (t, s4) = ip_to_str inet_ntoa d s3 in
        IsStr s4.buf p (inet_ntoa a)
        × IsStr s4.buf q (inet_ntoa b)
        × IsStr s4.buf r (inet_ntoa c)
        × IsStr s4.buf t (inet_ntoa d)
        × ((x : ℕ) → 64 ≤ x → s4.buf x ≡ s.buf x)
        × (s4.index ≡ s.index)
  unfolding ip_to_str
  ip_to_str-last_four s k a b c d h e =
      let s1 : IpBuf = next a s in
      let s2 : IpBuf = next b s1 in
      let s3 : IpBuf = next c s2 in
      let i1 : s1.index ≡ (s.index + 16) % 64 = refl in
      let i2 : s2.index ≡ (s.index + 32) % 64 = omega (arith, i1) in
      let i3 : s3.index ≡ (s.index + 48) % 64 = omega (arith, i2) in
      let k1 : s1.index ≡ 16 * ((k + 1) % 4) = omega (arith, i1, e) in
      let k2 : s2.index ≡ 16 * ((k + 2) % 4) = omega (arith, i2, e) in
      let k3 : s3.index ≡ 16 * ((k + 3) % 4) = omega (arith, i3, e) in
      let l1 : (k + 1) % 4 < 4 = omega arith in
      let l2 : (k + 2) % 4 < 4 = omega arith in
      let o1 : 1 ≤ 1 = omega arith in
      let o2 : 1 ≤ 2 = omega arith in
      let o3 : 1 ≤ 3 = omega arith in
      let u1 : 1 < 4 = omega arith in
      let u2 : 2 < 4 = omega arith in
      let u3 : 3 < 4 = omega arith in
      let p = s.index in
      (
        kept 3 d a k p s3 o3 u3 h e i3
            (kept 2 c a k p s2 o2 u2 h e i2 (kept 1 b a k p s1 o1 u1 h e i1 (own-IsStr a s))),
        kept 2 d b ((k + 1) % 4) s1.index s3 o2 u2 l1 k1 (omega (arith, i1, i3))
            (kept 1 c b ((k + 1) % 4) s1.index s2 o1 u1 l1 k1 refl (own-IsStr b s1)),
        kept 1 d c ((k + 2) % 4) s2.index s3 o1 u1 l2 k2 refl (own-IsStr c s2),
        own-IsStr d s3,
        λ x far.
            beyond d x s3 (omega (arith, k3, far))
            ∙ beyond c x s2 (omega (arith, k2, far))
            ∙ beyond b x s1 (omega (arith, k1, far))
            ∙ beyond a x s (omega (arith, e, h, far)),
        omega (arith, i3, e, h),
      )
