-- ===== src/CostGuard/Bodies.antt =====
-- middleware/costguard/guard.go: a body that passes the limit is the whole body.
use haruka_ai.Base.{
  ℕ, zero, suc, ◌+◌, ◌^◌, ◌≤◌, ◌<◌, ltb, ◌≡◌, refl, sym, ap, ◌∙◌, subst, inl, inr, List, [], ◌∷◌,
  some, arith, Bool-cases, take, length,
}
use haruka_ai.CostGuard.Guard.{
  Body, buffered, too_large, exceeds, check_payload, read_limit, next_int64, limit_body,
}

read_limit-room : (maximum : ℕ) → maximum + 1 < 2 ^ 63 → read_limit maximum ≡ maximum + 1
unfolding read_limit next_int64
read_limit-room maximum h = ground arith

take-short : (n : ℕ) (l : List ℕ) → length (take (suc n) l) ≤ n → take (suc n) l ≡ l
take-short n [] h = refl
take-short zero (x ∷ l) h = absurd (omega arith)
take-short (suc n) (x ∷ l) h = ap (◌∷◌ x) (take-short n l (omega arith))

buffered-injective : {p q : List ℕ} → buffered p ≡ buffered q → p ≡ q
buffered-injective e = ground arith

check_payload-buffered :
    (maximum : ℕ) (q p : List ℕ)
    → check_payload maximum (some q) ≡ buffered p
    → (q ≡ p) × (length q ≤ maximum)
unfolding check_payload
check_payload-buffered maximum q p h = elim (Bool-cases (ltb maximum (length q))) [
  | inl long ↦ absurd (not_both (rw long at h))
  | inr short ↦ (buffered-injective (rw short at h), ground arith)
]
  where
    not_both : ¬ (too_large ≡ buffered p)
    not_both k = cc

-- A body of the bytes `bytes` that passes a limit below the largest integer, from a reader that
-- gives the first bytes that it is asked for, reaches the handler whole and is within the limit.
pub limit_body-whole :
    (maximum : ℕ) (bytes p : List ℕ) (body : Body)
    → maximum + 1 < 2 ^ 63
    → ((n : ℕ) → body.read_limited n ≡ some (take n bytes))
    → limit_body maximum (some body) ≡ buffered p
    → (p ≡ bytes) × (length bytes ≤ maximum)
unfolding limit_body
limit_body-whole maximum bytes p body room reader h =
    elim (Bool-cases (exceeds body.content_length maximum)) [
      | inl long ↦ absurd (not_both (rw long at h))
      | inr short ↦ whole (rw short at h)
    ]
  where
    not_both : ¬ (too_large ≡ buffered p)
    not_both k = cc

    whole :
        check_payload maximum (body.read_limited (read_limit maximum)) ≡ buffered p
        → (p ≡ bytes) × (length bytes ≤ maximum)
    whole k =
        let limit : read_limit maximum ≡ suc maximum = read_limit-room maximum room ∙ omega arith in
        let read : body.read_limited (read_limit maximum) ≡ some (take (suc maximum) bytes) =
          reader _ ∙ ap (λ n. some (take n bytes)) limit in
        let (same, fits) =
          check_payload-buffered maximum (take (suc maximum) bytes) p
            (ap (check_payload maximum) (sym read) ∙ k) in
        let all = take-short maximum bytes fits in
        (sym same ∙ all, subst (λ l. length l ≤ maximum) all fits)
