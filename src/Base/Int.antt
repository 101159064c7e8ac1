-- ===== src/Base/Int.antt =====
-- Signed machine integers, as far as the program tests their sign.
use Prim.Native.Nat.{ℕ, zero, suc}
use mathlib.Core.Bool.{Bool, true, false}
use mathlib.Core.Option.{Option, none, some}
use haruka_ai.Base.Tests.{leb}

-- `negsuc n` is -(n + 1).
pub data ℤ : Type 0 where
  pos : ℕ → ℤ
  negsuc : ℕ → ℤ

-- `if n <= 0 { n = fallback }`
unfoldable pub positive_or : ℕ → ℤ → ℕ
positive_or fallback (pos zero) = fallback
positive_or fallback (pos (suc n)) = suc n
positive_or fallback (negsuc n) = fallback

-- `if n < 0 { n = 0 }`
unfoldable pub not_negative : ℤ → ℕ
not_negative (pos n) = n
not_negative (negsuc n) = 0

-- `a >= b`
unfoldable pub geq : ℤ → ℤ → Bool
geq (pos n) (pos m) = leb m n
geq (pos n) (negsuc m) = true
geq (negsuc n) (pos m) = false
geq (negsuc n) (negsuc m) = leb n m

-- `n++` and `n--`
unfoldable pub increment : ℤ → ℤ
increment (pos n) = pos (suc n)
increment (negsuc zero) = pos 0
increment (negsuc (suc n)) = negsuc n

unfoldable pub decrement : ℤ → ℤ
decrement (pos zero) = negsuc 0
decrement (pos (suc n)) = pos n
decrement (negsuc n) = negsuc (suc n)

-- `if n <= 0 { n = fallback }`, with an integer for a fallback.
unfoldable pub or_default : ℤ → ℤ → ℤ
or_default fallback (pos zero) = fallback
or_default fallback (pos (suc n)) = pos (suc n)
or_default fallback (negsuc n) = fallback

-- The zero value of a missing key.
unfoldable pub or_zero : Option ℤ → ℤ
or_zero none = pos 0
or_zero (some n) = n

unfoldable pub is_zero : ℤ → Bool
is_zero (pos zero) = true
is_zero _ = false
