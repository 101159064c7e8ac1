-- ===== src/Base/Keeps.antt =====
-- Properties of a database that statements keep when they succeed, one rule for each way to build
-- a chain of statements.
use mathlib.Core.Path.{◌≡◌, refl, subst}
use mathlib.Core.Bool.{Bool, true, false}
use native.Mathlib.Omega.{arith}
use Prim.Native.Nat.{ℕ}
use haruka_ai.Base.Tests.{if◌then◌else◌}
use haruka_ai.Base.Errors.{
  Exec, Result, ok, err, Error, pure, raise, ◌>>=◌, require, require_rows, read, or_conflict,
  record_not_found,
}

pub record Keeps {D A : Type 0} (P : D → Type 0) (m : Exec D A) : Type 0 where
  pub at : (d d' : D) (a : A) → m d ≡ ok (d', a) → P d → P d'

module _ {D A : Type 0} {P : D → Type 0} where
  pub Keeps-pure : (a : A) → Keeps P (pure a)
  unfolding pure
  Keeps-pure a = record { at = λ d d' b h k. subst P (ground arith) k }

  pub Keeps-raise : (e : Error) → Keeps P (raise {A = A} e)
  unfolding raise
  Keeps-raise e = record { at = λ d d' b h k. cc }

  pub Keeps-read : (q : D → Result A) → Keeps P (read q)
  unfolding read
  Keeps-read q = record { at = λ d d' b h k. subst P (ground arith) k }

  pub Keeps-if : (b : Bool) (m n : Exec D A) → Keeps P m → Keeps P n → Keeps P (if b then m else n)
  Keeps-if true m n km kn = km
  Keeps-if false m n km kn = kn

module _ {D : Type 0} {P : D → Type 0} where
  pub Keeps-require : (b : Bool) (e : Error) → Keeps P (require b e)
  unfolding require
  Keeps-require true e = record { at = λ d d' b h k. subst P (ground arith) k }
  Keeps-require false e = record { at = λ d d' b h k. cc }

  pub Keeps-require_rows : (n : ℕ) (e : Error) → Keeps P (require_rows n e)
  unfolding require_rows
  Keeps-require_rows n e = Keeps-require _ e

module _ {D A B : Type 0} {P : D → Type 0} where
  continue :
      (f : A → Exec D B) (r : Result (D × A)) (d d' : D) (b : B)
      → ((d₁ : D) (a : A) → r ≡ ok (d₁, a) → P d₁)
      → ((a : A) → Keeps P (f a))
      → elim r [ ok (d₁, a) ↦ f a d₁ | err e ↦ err e ] ≡ ok (d', b)
      → P d'
  continue f (ok (d₁, a)) d d' b km kf h = (kf a).at d₁ d' b h (km d₁ a refl)
  continue f (err e) d d' b km kf h = cc

  pub Keeps-bind :
      (m : Exec D A) (f : A → Exec D B) → Keeps P m → ((a : A) → Keeps P (f a)) → Keeps P (m >>= f)
  unfolding ◌>>=◌
  Keeps-bind m f km kf = record {
    at = λ d d' b h k. continue f (m d) d d' b (λ d₁ a e. km.at d d₁ a e k) kf h;
  }

pub ruleset keeps_rules =
    (Keeps-pure, Keeps-raise, Keeps-read, Keeps-if, Keeps-require, Keeps-require_rows, Keeps-bind)

-- Statements that do not succeed where `P` holds.
pub record Refuses {D A : Type 0} (P : D → Type 0) (m : Exec D A) : Type 0 where
  pub never : (d d' : D) (a : A) → m d ≡ ok (d', a) → P d → ⊥

module _ {D A B X : Type 0} where
  -- What follows from the rest of a chain, where the first statement succeeds.
  pub onward :
      (f : A → Exec D B) (r : Result (D × A)) (d' : D) (b : B)
      → ((d₁ : D) (a : A) → r ≡ ok (d₁, a) → f a d₁ ≡ ok (d', b) → X)
      → elim r [ ok (d₁, a) ↦ f a d₁ | err e ↦ err e ] ≡ ok (d', b)
      → X
  onward f (ok (d₁, a)) d' b k h = k d₁ a refl h
  onward f (err e) d' b k h = cc

module _ {D A B : Type 0} {P : D → Type 0} where
  pub Refuses-first : (m : Exec D A) (f : A → Exec D B) → Refuses P m → Refuses P (m >>= f)
  unfolding ◌>>=◌
  Refuses-first m f rm = record {
    never = λ d d' b h k. onward f (m d) d' b (λ d₁ a e _. rm.never d d₁ a e k) h;
  }

  pub Refuses-then :
      (m : Exec D A) (f : A → Exec D B)
      → Keeps P m
      → ((a : A) → Refuses P (f a))
      → Refuses P (m >>= f)
  unfolding ◌>>=◌
  Refuses-then m f km rf = record {
    never =
        λ d d' b h k. onward f (m d) d' b (λ d₁ a e g. (rf a).never d₁ d' b g (km.at d d₁ a e k)) h;
  }

module _ {A : Type 0} where
  pub or_conflict-eq-ok : (r : Result A) (a : A) → or_conflict r ≡ ok a → r ≡ ok a
  unfolding or_conflict
  or_conflict-eq-ok (ok b) a h = h
  or_conflict-eq-ok (err record_not_found) a h = cc
  or_conflict-eq-ok (err _) a h = cc

module _ {D A : Type 0} where
  pub read-same : (q : D → Result A) (d d' : D) (a : A) → read q d ≡ ok (d', a) → d ≡ d'
  unfolding read
  read-same q d d' a h = ground arith

  pub read-eq-ok : (q : D → Result A) (d d' : D) (a : A) → read q d ≡ ok (d', a) → q d ≡ ok a
  unfolding read
  read-eq-ok q d d' a h = ground arith

module _ {D A : Type 0} {P : D → Type 0} where
  -- A read that finds nothing.
  pub Refuses-read :
      (q : D → Result A)
      → ((d : D) (a : A) → P d → q d ≡ ok a → ⊥)
      → Refuses P (read (λ d. or_conflict (q d)))
  Refuses-read q none_found = record {
    never = λ d d' a h k.
        none_found d a k (or_conflict-eq-ok (q d) a (read-eq-ok (λ x. or_conflict (q x)) d d' a h));
  }

module _ {D : Type 0} {P : D → Type 0} where
  -- An update that must affect a row, and affects none.
  pub Refuses-update :
      (m : Exec D ℕ) (e : Error)
      → ((d d' : D) (n : ℕ) → m d ≡ ok (d', n) → P d → n ≡ 0)
      → Refuses P (m >>= λ n. require_rows n e)
  unfolding ◌>>=◌ require_rows require
  Refuses-update m e no_rows = record {
    never = λ d d' b h k.
        onward (λ n. require_rows n e) (m d) d' b (λ d₁ n q g. ground (arith, no_rows d d₁ n q k))
          h;
  }

  pub Refuses-require-false : (e : Error) → Refuses P (require false e)
  unfolding require
  Refuses-require-false e = record { never = λ d d' a h k. cc }
