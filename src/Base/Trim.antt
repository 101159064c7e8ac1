-- ===== src/Base/Trim.antt =====
-- What `strings.TrimSpace` leaves: no longer than the text, and with the same visible characters.
use Prim.Native.Nat.{ℕ, suc, ◌≤◌}
use mathlib.Core.Path.{◌≡◌, refl, ap, ◌∙◌}
use mathlib.Core.Logic.{inl, inr}
use mathlib.Core.Bool.{Bool, not}
use mathlib.Core.List.{List, [], ◌∷◌, ◌++◌}
use native.Mathlib.Omega.{arith}
use haruka_ai.Base.Tests.{if◌then◌else◌, Bool-cases}
use haruka_ai.Base.Lists.{length, select}
use haruka_ai.Base.Text.{Str, is_space, trim_left, trim_right, trim_space}

-- The characters that are not white space.
abbrev pub visible : Str → Str
visible s = select (λ c. not (is_space c)) s

pub select-append :
    {A : Type 0} (p : A → Bool) (xs ys : List A) → select p (xs ++ ys) ≡ select p xs ++ select p ys
select-append p [] ys = refl
select-append p (x ∷ xs) ys = elim (Bool-cases (p x)) [
  | inl hit ↦ rw hit (ap (◌∷◌ x) (select-append p xs ys))
  | inr miss ↦ rw miss (select-append p xs ys)
]

visible-trim_left : (s : Str) → visible (trim_left s) ≡ visible s
unfolding trim_left
visible-trim_left [] = refl
visible-trim_left (c ∷ s) = elim (Bool-cases (is_space c)) [
  | inl space ↦ rw space (visible-trim_left s)
  | inr seen ↦ rw seen (rw seen refl)
]

length-trim_left-le : (s : Str) → length (trim_left s) ≤ length s
unfolding trim_left
length-trim_left-le [] = omega arith
length-trim_left-le (c ∷ s) = ground (arith, length-trim_left-le s)

-- One character before a trimmed rest.
keep : ℕ → Str → Str
keep c [] = if is_space c then [] else c ∷ []
keep c (d ∷ t) = c ∷ d ∷ t

trim_right-cons : (c : ℕ) (s : Str) → trim_right (c ∷ s) ≡ keep c (trim_right s)
unfolding trim_right keep
trim_right-cons c s = refl

visible-keep : (c : ℕ) (t : Str) → visible (keep c t) ≡ visible (c ∷ t)
unfolding keep
visible-keep c [] = elim (Bool-cases (is_space c)) [
  | inl space ↦ rw space refl
  | inr seen ↦ rw seen (rw seen refl)
]
visible-keep c (d ∷ t) = refl

length-keep-le : (c : ℕ) (t : Str) → length (keep c t) ≤ suc (length t)
unfolding keep
length-keep-le c [] = ground arith
length-keep-le c (d ∷ t) = omega arith

visible-trim_right : (s : Str) → visible (trim_right s) ≡ visible s
visible-trim_right [] = unfold trim_right in refl
visible-trim_right (c ∷ s) =
    ap visible (trim_right-cons c s) ∙ visible-keep c (trim_right s) ∙ again (visible-trim_right s)
  where
    again : visible (trim_right s) ≡ visible s → visible (c ∷ trim_right s) ≡ visible (c ∷ s)
    again ih = ap (λ t. if not (is_space c) then c ∷ t else t) ih

length-trim_right-le : (s : Str) → length (trim_right s) ≤ length s
length-trim_right-le [] = unfold trim_right in omega arith
length-trim_right-le (c ∷ s) = omega (
  arith,
  ap length (trim_right-cons c s),
  length-keep-le c (trim_right s),
  length-trim_right-le s,
)

pub visible-trim_space : (s : Str) → visible (trim_space s) ≡ visible s
unfolding trim_space
visible-trim_space s = visible-trim_right (trim_left s) ∙ visible-trim_left s

pub length-trim_space-le : (s : Str) → length (trim_space s) ≤ length s
unfolding trim_space
length-trim_space-le s = omega (arith, length-trim_right-le (trim_left s), length-trim_left-le s)
