-- ===== src/Rag/Identity.antt =====
-- common/rag/chunk.go: StableChunkID tells the ranges of the documents apart.
use haruka_ai.Base.{
  ℕ, zero, suc, ◌+◌, ◌-◌, ◌*◌, ◌/◌, ◌%◌, ◌≤◌, ◌<◌, ltb, ltb→lt, ◌≡◌, ◌≢◌, refl, sym, ap, ◌∙◌, true,
  false, Bool-cases, inl, inr, ◌⊎◌, [], ◌∷◌, ◌++◌, Str, arith, str_eq, str_eq_iff,
}
use haruka_ai.Rag.Chunk.{digits, itoa, identity, stable_chunk_id}

-- A text without a rune.
abbrev pub Free : ℕ → Str → Type 0
Free x [] = Unit
Free x (c ∷ s) = (c ≢ x) × Free x s

-- What stands before the first separator is determined, and what stands behind it.
split-injective :
    (x : ℕ) (a b u v : Str) → Free x a → Free x b → a ++ x ∷ u ≡ b ++ x ∷ v → (a ≡ b) × (u ≡ v)
split-injective x [] [] u v fa fb e = (refl, cc)
split-injective x [] (c ∷ b) u v fa fb e = let same : c ≡ x = cc in absurd (fb.0 same)
split-injective x (c ∷ a) [] u v fa fb e = let same : c ≡ x = cc in absurd (fa.0 same)
split-injective x (c ∷ a) (d ∷ b) u v fa fb e =
    let same : c ≡ d = cc in
    let tails : a ++ x ∷ u ≡ b ++ x ∷ v = cc in
    let (rest, after) = split-injective x a b u v fa.1 fb.1 tails in (cc, after)

-- A reader of decimal digits.
abbrev value_from : ℕ → Str → ℕ
value_from acc [] = acc
value_from acc (c ∷ s) = value_from (acc * 10 + (c - b'0')) s

value_from-snoc :
    (acc : ℕ) (s : Str) (d : ℕ) → value_from acc (s ++ d ∷ []) ≡ value_from acc s * 10 + (d - b'0')
value_from-snoc acc [] d = refl
value_from-snoc acc (c ∷ s) d = value_from-snoc (acc * 10 + (c - b'0')) s d

digits-few : (fuel n : ℕ) → ltb n 10 ≡ true → digits (suc fuel) n ≡ (b'0' + n) ∷ []
unfolding digits
digits-few fuel n h = rw h refl

digits-many :
    (fuel n : ℕ)
    → ltb n 10 ≡ false
    → digits (suc fuel) n ≡ digits fuel (n / 10) ++ (b'0' + n % 10) ∷ []
unfolding digits
digits-many fuel n h = rw h refl

value_from-digits : (fuel n : ℕ) → n < fuel → value_from 0 (digits fuel n) ≡ n
value_from-digits zero n h = absurd (omega arith)
value_from-digits (suc fuel) n h = elim (Bool-cases (ltb n 10)) [
  | inl few ↦ ap (value_from 0) (digits-few fuel n few) ∙ omega arith
  | inr many ↦
      let big : 10 ≤ n = ground (arith, many) in
      ap (value_from 0) (digits-many fuel n many)
      ∙ value_from-snoc 0 (digits fuel (n / 10)) (b'0' + n % 10)
      ∙ omega (arith, value_from-digits fuel (n / 10) (omega (arith, big, h)))
]

Free-snoc : (x : ℕ) (s : Str) (c : ℕ) → Free x s → c ≢ x → Free x (s ++ c ∷ [])
Free-snoc x [] c f h = (h, tt)
Free-snoc x (d ∷ s) c f h = (f.0, Free-snoc x s c f.1 h)

-- No digit is a separator.
digits-Free : (x fuel n : ℕ) → ((d : ℕ) → d < 10 → b'0' + d ≢ x) → Free x (digits fuel n)
digits-Free x zero n h = unfold digits in tt
digits-Free x (suc fuel) n h = elim (Bool-cases (ltb n 10)) [
  | inl few ↦ rw (digits-few fuel n few) (h n (ltb→lt n 10 few), tt)
  | inr many ↦ rw (digits-many fuel n many) (
      Free-snoc x (digits fuel (n / 10)) (b'0' + n % 10) (digits-Free x fuel (n / 10) h)
        (h (n % 10) (omega arith)))
]

itoa-Free : (x n : ℕ) → ((d : ℕ) → d < 10 → b'0' + d ≢ x) → Free x (itoa n)
unfolding itoa
itoa-Free x n h = digits-Free x (suc n) n h

itoa-injective : (n m : ℕ) → itoa n ≡ itoa m → n ≡ m
unfolding itoa
itoa-injective n m e =
    sym (value_from-digits (suc n) n (omega arith))
    ∙ ap (value_from 0) e
    ∙ value_from-digits (suc m) m (omega arith)

identity-injective :
    (d d' : Str) (a a' b b' : ℕ) (c c' : Str)
    → Free 0 d
    → Free 0 d'
    → identity d a b c ≡ identity d' a' b' c'
    → (d ≡ d') × (a ≡ a') × (b ≡ b') × (c ≡ c')
unfolding identity
identity-injective d d' a a' b b' c c' f f' e =
    let colon = λ (n : ℕ). itoa-Free b':' n (λ k h. omega (arith, h)) in
    let nul = λ (n : ℕ). itoa-Free 0 n (λ k h. omega (arith, h)) in
    let (docs, ranges) = split-injective 0 d d' _ _ f f' e in
    let (starts, ends) = split-injective b':' (itoa a) (itoa a') _ _ (colon a) (colon a') ranges in
    let (stops, contents) = split-injective 0 (itoa b) (itoa b') c c' (nul b) (nul b') ends in
    (docs, itoa-injective a a' starts, itoa-injective b b' stops, contents)

-- When two chunks have one name, of documents whose names hold no NUL, they are one range of one
-- document with one content, or else two texts with one SHA-256 are at hand.
pub stable_chunk_id-injective :
    (sha256_hex : Str → Str) (d d' : Str) (a a' b b' : ℕ) (c c' : Str)
    → Free 0 d
    → Free 0 d'
    → stable_chunk_id sha256_hex d a b c ≡ stable_chunk_id sha256_hex d' a' b' c'
    → ((d ≡ d') × (a ≡ a') × (b ≡ b') × (c ≡ c'))
      ⊎ ((x : Str) × (y : Str) × (x ≢ y) × (sha256_hex x ≡ sha256_hex y))
stable_chunk_id-injective sha256_hex d d' a a' b b' c c' f f' e =
    let x = identity d a b c in
    let y = identity d' a' b' c' in
    elim (Bool-cases (str_eq x y)) [
      | inl same ↦ inl (identity-injective d d' a a' b b' c c' f f' ((str_eq_iff x y).0 same))
      | inr other ↦ inr (x, y, (λ p. differ x y other p), unfold stable_chunk_id in e)
    ]
  where
    differ : (x y : Str) → str_eq x y ≡ false → ¬ (x ≡ y)
    differ x y other p = let same = (str_eq_iff x y).1 p in cc
