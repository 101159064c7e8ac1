-- ===== src/Base/Errors.antt =====
-- Go's `error` beside a result, and statements that run against a database. A statement that fails
-- hands no database on: what a failed transaction wrote is gone.
use Prim.Native.Nat.{ℕ}
use mathlib.Core.Bool.{Bool, true, false}
use haruka_ai.Base.Tests.{ltb}

-- `driver` stands for the errors of the database driver, numbered; `context_done` for `ctx.Err()`.
pub data Error : Type 0 where
  database_unavailable invalid_input conflict record_not_found : Error
  context_done : Error
  driver : ℕ → Error

pub data Result {ℓ} (A : Type ℓ) : Type ℓ where
  ok : A → Result A
  err : Error → Result A

abbrev pub Exec : Type 0 → Type 0 → Type 0
Exec D A = D → Result (D × A)

module _ {D : Type 0} where
  unfoldable pub pure : {A : Type 0} → A → Exec D A
  pure a d = ok (d, a)

  unfoldable pub raise : {A : Type 0} → Error → Exec D A
  raise e d = err e

  infixl 5 ◌>>=◌ ◌>>◌
  unfoldable pub ◌>>=◌ : {A B : Type 0} → Exec D A → (A → Exec D B) → Exec D B
  ◌>>=◌ m f d = elim (m d) [ ok (d', a) ↦ f a d' | err e ↦ err e ]

  abbrev pub ◌>>◌ : {A B : Type 0} → Exec D A → Exec D B → Exec D B
  m >> k = m >>= λ _. k

  -- `if !b { return e }`
  unfoldable pub require : Bool → Error → Exec D (Unit {0})
  require true e d = ok (d, tt)
  require false e d = err e

  -- A read that leaves the database as it is.
  unfoldable pub read : {A : Type 0} → (D → Result A) → Exec D A
  read q d = elim (q d) [ ok a ↦ ok (d, a) | err e ↦ err e ]

  -- `if affected == 0 { return e }`
  unfoldable pub require_rows : ℕ → Error → Exec D (Unit {0})
  unfolding require
  require_rows n e = require (ltb 0 n) e

-- `errors.Is(err, gorm.ErrRecordNotFound)` turned into `ErrConflict`.
unfoldable pub or_conflict {ℓ} : {A : Type ℓ} → Result A → Result A
or_conflict (ok a) = ok a
or_conflict (err record_not_found) = err conflict
or_conflict (err e) = err e
