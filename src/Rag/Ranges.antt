-- ===== src/Rag/Ranges.antt =====
-- common/rag/chunk.go: what the loops over white space stop at.
use haruka_ai.Base.{
  ℕ, zero, suc, subst, ◌+◌, ◌-◌, ◌≤◌, ◌<◌, ltb, ◌≡◌, refl, true, false, Str, is_space, Bool-cases,
  inl, inr, arith,
}
use haruka_ai.Rag.Boundaries.{rune_at, skip_spaces, drop_spaces, trim_rune_range}

-- Every rune from `a` up to `b` is white space.
abbrev pub Blank : Str → ℕ → ℕ → Type 0
Blank runes a b = (i : ℕ) → a ≤ i → i < b → is_space (rune_at runes i) ≡ true

abbrev pub Seen : Str → ℕ → Type 0
Seen runes i = is_space (rune_at runes i) ≡ false

pub record Skipped (runes : Str) (n start end : ℕ) : Type 0 where
  pub above : start ≤ end
  pub below : end ≤ start + n
  pub blank : Blank runes start end
  pub stops : end < start + n → Seen runes end

-- A range with one blank rune more, before it or after it.
Blank-before :
    (runes : Str) (a b : ℕ)
    → is_space (rune_at runes a) ≡ true
    → Blank runes (a + 1) b
    → Blank runes a b
Blank-before runes a b here rest i l u = elim (Bool-cases (ltb a i)) [
  | inl above ↦ rest i (ground (arith, above)) u
  | inr same ↦
      let e : a ≡ i = ground (arith, same, l) in
      subst (λ k. is_space (rune_at runes k) ≡ true) e here
]

Blank-after :
    (runes : Str) (a b : ℕ)
    → is_space (rune_at runes (b - 1)) ≡ true
    → Blank runes a (b - 1)
    → Blank runes a b
Blank-after runes a b here rest i l u = elim (Bool-cases (ltb i (b - 1))) [
  | inl below ↦ rest i l (ground (arith, below))
  | inr same ↦
      let e : b - 1 ≡ i = ground (arith, same, u) in
      subst (λ k. is_space (rune_at runes k) ≡ true) e here
]

Blank-nil : (runes : Str) (a b : ℕ) → b ≤ a → Blank runes a b
Blank-nil runes a b h i l u = absurd (omega arith)

skip_spaces-space :
    (runes : Str) (n start : ℕ)
    → is_space (rune_at runes start) ≡ true
    → skip_spaces runes (suc n) start ≡ skip_spaces runes n (start + 1)
unfolding skip_spaces
skip_spaces-space runes n start h = rw h refl

skip_spaces-seen :
    (runes : Str) (n start : ℕ)
    → is_space (rune_at runes start) ≡ false
    → skip_spaces runes (suc n) start ≡ start
unfolding skip_spaces
skip_spaces-seen runes n start h = rw h refl

pub skip_spaces-Skipped :
    (runes : Str) (n start : ℕ) → Skipped runes n start (skip_spaces runes n start)
skip_spaces-Skipped runes zero start =
    unfold skip_spaces in
    record {
      above = omega arith;
      below = omega arith;
      blank = Blank-nil runes start start (omega arith);
      stops = λ u. absurd (omega arith);
    }
skip_spaces-Skipped runes (suc n) start = elim (Bool-cases (is_space (rune_at runes start))) [
  | inl space ↦
      rw (skip_spaces-space runes n start space)
        (further (skip_spaces-Skipped runes n (start + 1)) space)
  | inr seen ↦ rw (skip_spaces-seen runes n start seen) (record {
    above = omega arith;
    below = omega arith;
    blank = Blank-nil runes start start (omega arith);
    stops = λ u. seen;
  })
]
  where
    further :
        {end : ℕ}
        → Skipped runes n (start + 1) end
        → is_space (rune_at runes start) ≡ true
        → Skipped runes (suc n) start end
    further {end} next space = record {
      above = omega (arith, next.above);
      below = omega (arith, next.below);
      blank = Blank-before runes start end space next.blank;
      stops = λ u. next.stops (omega arith);
    }

pub record Dropped (runes : Str) (n end last : ℕ) : Type 0 where
  pub above : end ≤ last + n
  pub below : last ≤ end
  pub blank : Blank runes last end
  pub stops : end < last + n → Seen runes (last - 1)

drop_spaces-space :
    (runes : Str) (n end : ℕ)
    → is_space (rune_at runes (end - 1)) ≡ true
    → drop_spaces runes (suc n) end ≡ drop_spaces runes n (end - 1)
unfolding drop_spaces
drop_spaces-space runes n end h = rw h refl

drop_spaces-seen :
    (runes : Str) (n end : ℕ)
    → is_space (rune_at runes (end - 1)) ≡ false
    → drop_spaces runes (suc n) end ≡ end
unfolding drop_spaces
drop_spaces-seen runes n end h = rw h refl

pub drop_spaces-Dropped :
    (runes : Str) (n end : ℕ) → n ≤ end → Dropped runes n end (drop_spaces runes n end)
drop_spaces-Dropped runes zero end h =
    unfold drop_spaces in
    record {
      above = omega arith;
      below = omega arith;
      blank = Blank-nil runes end end (omega arith);
      stops = λ u. absurd (omega arith);
    }
drop_spaces-Dropped runes (suc n) end h = elim (Bool-cases (is_space (rune_at runes (end - 1)))) [
  | inl space ↦
      rw (drop_spaces-space runes n end space)
        (further (drop_spaces-Dropped runes n (end - 1) (omega arith)) space)
  | inr seen ↦ rw (drop_spaces-seen runes n end seen) (record {
    above = omega arith;
    below = omega arith;
    blank = Blank-nil runes end end (omega arith);
    stops = λ u. seen;
  })
]
  where
    further :
        {last : ℕ}
        → Dropped runes n (end - 1) last
        → is_space (rune_at runes (end - 1)) ≡ true
        → Dropped runes (suc n) end last
    further {last} next space = record {
      above = omega (arith, next.above);
      below = omega (arith, next.below);
      blank = Blank-after runes last end space next.blank;
      stops = λ u. next.stops (omega arith);
    }

-- A range that is trimmed: what is cut off is blank, and what is left, if anything, starts and ends
-- with a rune that is not.
pub record Trimmed (runes : Str) (start end first last : ℕ) : Type 0 where
  pub above : start ≤ first
  pub below : last ≤ end
  pub before : Blank runes start first
  pub after : Blank runes last end
  pub opens : first < last → Seen runes first
  pub closes : first < last → Seen runes (last - 1)

pub trim_rune_range-Trimmed :
    (runes : Str) (start end : ℕ)
    → start ≤ end
    → Trimmed runes start end
        (trim_rune_range runes start end).0
        (trim_rune_range runes start end).1
trim_rune_range-Trimmed runes start end h =
    let first = skip_spaces runes (end - start) start in
    let s = skip_spaces-Skipped runes (end - start) start in
    let d = drop_spaces-Dropped runes (end - first) end (omega arith) in
    unfold trim_rune_range in
    record {
      above = s.above;
      below = d.below;
      before = s.blank;
      after = d.blank;
      opens = λ u. s.stops (omega (arith, d.below, h));
      closes = λ u. d.stops (omega (arith, d.below, s.below, h));
    }
