-- ===== src/Base/Maps.antt =====
-- Go maps with string keys, as functions, and their `m[k]`, `m[k] = v` and `delete(m, k)`.
use mathlib.Core.Path.{◌≡◌, refl}
use mathlib.Core.Bool.{Bool, true, false}
use mathlib.Core.Option.{Option, none, some}
use haruka_ai.Base.Tests.{if◌then◌else◌}
use haruka_ai.Base.Text.{Str, str_eq, str_eq_refl}

abbrev pub GoMap {ℓ} : Type ℓ → Type ℓ
GoMap V = Str → Option V

module _ {ℓ} {V : Type ℓ} where
  abbrev pub empty_map : GoMap V
  empty_map k = none

  unfoldable pub put : Str → V → GoMap V → GoMap V
  unfolding str_eq
  put k v m x = if str_eq x k then some v else m x

  unfoldable pub delete : Str → GoMap V → GoMap V
  unfolding str_eq
  delete k m x = if str_eq x k then none else m x

  pub put-same : (k : Str) (v : V) (m : GoMap V) → put k v m k ≡ some v
  unfolding put
  put-same k v m = rw (str_eq_refl k) refl

  pub delete-same : (k : Str) (m : GoMap V) → delete k m k ≡ none
  unfolding delete
  delete-same k m = rw (str_eq_refl k) refl

  pub put-other : (k x : Str) (v : V) (m : GoMap V) → str_eq x k ≡ false → put k v m x ≡ m x
  unfolding put
  put-other k x v m h = rw h refl

  pub delete-other : (k x : Str) (m : GoMap V) → str_eq x k ≡ false → delete k m x ≡ m x
  unfolding delete
  delete-other k x m h = rw h refl

  -- An entry that is left after a deletion was there, under another key.
  pub delete-eq-some :
      (k x : Str) (m : GoMap V) (v : V)
      → delete k m x ≡ some v
      → (str_eq x k ≡ false) × (m x ≡ some v)
  unfolding delete
  delete-eq-some k x m v h = by_test (str_eq x k) refl
    where
      by_test : (b : Bool) → str_eq x k ≡ b → (str_eq x k ≡ false) × (m x ≡ some v)
      by_test true e = absurd (none_some (rw e at h))
        where
          none_some : none ≡ some v → ⊥
          none_some e = cc
      by_test false e = (e, rw e at h)
