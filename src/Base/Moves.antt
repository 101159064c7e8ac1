-- ===== src/Base/Moves.antt =====
-- Statements that lead, when they succeed, from one property of a database to another.
use mathlib.Core.Path.{◌≡◌, refl, subst}
use mathlib.Core.Bool.{Bool, true, false}
use native.Mathlib.Omega.{arith}
use Prim.Native.Nat.{ℕ, ◌<◌}
use haruka_ai.Base.Errors.{Exec, Result, ok, Error, ◌>>=◌, ◌>>◌, require, require_rows, read}
use haruka_ai.Base.Keeps.{Keeps, Keeps-read, onward, read-eq-ok}

-- From `P` to `Q`, when the statements succeed.
pub record Moves {D A : Type 0} (P Q : D → Type 0) (m : Exec D A) : Type 0 where
  pub at : (d d' : D) (a : A) → m d ≡ ok (d', a) → P d → Q d'

module _ {D A B : Type 0} {P Q : D → Type 0} where
  pub Moves-then :
      (m : Exec D A) (f : A → Exec D B)
      → Keeps P m
      → ((a : A) → Moves P Q (f a))
      → Moves P Q (m >>= f)
  unfolding ◌>>=◌
  Moves-then m f km mf = record {
    at = λ d d' b h s. onward f (m d) d' b (λ d₁ a e g. (mf a).at d₁ d' b g (km.at d d₁ a e s)) h;
  }

  pub Moves-first :
      (m : Exec D A) (f : A → Exec D B)
      → Moves P Q m
      → ((a : A) → Keeps Q (f a))
      → Moves P Q (m >>= f)
  unfolding ◌>>=◌
  Moves-first m f mm kf = record {
    at = λ d d' b h s. onward f (m d) d' b (λ d₁ a e g. (kf a).at d₁ d' b g (mm.at d d₁ a e s)) h;
  }

  -- A read, with what is known of its result.
  pub Moves-read :
      (q : D → Result A) (F : A → Type 0) (f : A → Exec D B)
      → ((d : D) (a : A) → P d → q d ≡ ok a → F a)
      → ((a : A) → F a → Moves P Q (f a))
      → Moves P Q (read q >>= f)
  unfolding ◌>>=◌
  Moves-read q F f known mf = record {
    at = λ d d' b h s.
        onward f (read q d) d' b
          (λ d₁ a e g.
            (mf a (known d a s (read-eq-ok q d d₁ a e))).at d₁ d' b g
              ((Keeps-read {P = P} q).at d d₁ a e s))
          h;
  }

module _ {D : Type 0} where
  pub require_rows-eq-ok :
      (n : ℕ) (e : Error) (d d' : D) (u : Unit {0})
      → require_rows n e d ≡ ok (d', u)
      → (0 < n) × (d ≡ d')
  unfolding require_rows require
  require_rows-eq-ok n e d d' u h = ground arith

module _ {D : Type 0} {P Q : D → Type 0} where
  -- An update that must affect a row, alone or with more behind it.
  pub Moves-update :
      (m : Exec D ℕ) (e : Error)
      → ((d d' : D) (n : ℕ) → m d ≡ ok (d', n) → 0 < n → P d → Q d')
      → Moves P Q (m >>= λ n. require_rows n e)
  unfolding ◌>>=◌
  Moves-update m e step = record {
    at = λ d d' b h s.
        onward (λ n. require_rows n e) (m d) d' b
          (λ d₁ n q g.
            let (pos, same) = require_rows-eq-ok n e d₁ d' b g in
            subst Q same (step d d₁ n q pos s))
          h;
  }

module _ {D A : Type 0} {P Q : D → Type 0} where
  pub Moves-update_then :
      (m : Exec D ℕ) (e : Error) (k : Exec D A)
      → ((d d' : D) (n : ℕ) → m d ≡ ok (d', n) → 0 < n → P d → Q d')
      → Keeps Q k
      → Moves P Q (m >>= λ n. require_rows n e >> k)
  unfolding ◌>>=◌
  Moves-update_then m e k step kk = record {
    at = λ d d' b h s.
        onward (λ n. require_rows n e >> k) (m d) d' b
          (λ d₁ n q g.
            onward (λ _. k) (require_rows n e d₁) d' b
              (λ d₂ u r z.
                let (pos, same) = require_rows-eq-ok n e d₁ d₂ u r in
                kk.at d₂ d' b z (subst Q same (step d d₁ n q pos s)))
              g)
          h;
  }

  pub Moves-update_seq :
      (R : D → Type 0) (m : Exec D ℕ) (e : Error) (k : Exec D A)
      → ((d d' : D) (n : ℕ) → m d ≡ ok (d', n) → 0 < n → P d → R d')
      → Moves R Q k
      → Moves P Q (m >>= λ n. require_rows n e >> k)
  unfolding ◌>>=◌
  Moves-update_seq R m e k step kk = record {
    at = λ d d' b h s.
        onward (λ n. require_rows n e >> k) (m d) d' b
          (λ d₁ n q g.
            onward (λ _. k) (require_rows n e d₁) d' b
              (λ d₂ u r z.
                let (pos, same) = require_rows-eq-ok n e d₁ d₂ u r in
                kk.at d₂ d' b z (subst R same (step d d₁ n q pos s)))
              g)
          h;
  }

  -- A check that passes is known from there on.
  pub Moves-require :
      (b : Bool) (e : Error) (k : Exec D A)
      → (b ≡ true → Moves P Q k)
      → Moves P Q (require b e >> k)
  unfolding ◌>>=◌ require
  Moves-require true e k mk = record { at = λ d d' b h s. (mk refl).at d d' b h s }
  Moves-require false e k mk = record { at = λ d d' b h s. cc }

  pub Moves-of-Keeps : (m : Exec D A) → Keeps Q m → ((d : D) → P d → Q d) → Moves P Q m
  Moves-of-Keeps m km sub = record { at = λ d d' a h s. km.at d d' a h (sub d s) }

-- The first statement of a chain that succeeds, and the rest.
module _ {D A B : Type 0} where
  pub >>=-eq-ok :
      (m : Exec D A) (f : A → Exec D B) (d d' : D) (b : B)
      → (m >>= f) d ≡ ok (d', b)
      → (d₁ : D) × (a : A) × (m d ≡ ok (d₁, a)) × (f a d₁ ≡ ok (d', b))
  unfolding ◌>>=◌
  >>=-eq-ok m f d d' b h = onward f (m d) d' b (λ d₁ a e g. (d₁, a, e, g)) h

module _ {D : Type 0} where
  pub require-eq-ok :
      (b : Bool) (e : Error) (d d' : D) (u : Unit {0})
      → require b e d ≡ ok (d', u)
      → (b ≡ true) × (d' ≡ d)
  unfolding require
  require-eq-ok b e d d' u h = ground arith
