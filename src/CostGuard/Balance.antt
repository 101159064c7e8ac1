-- ===== src/CostGuard/Balance.antt =====
-- middleware/costguard/guard.go: a request that is not served holds no slot.
use haruka_ai.Base.{
  ℕ, zero, suc, ◌≡◌, refl, sym, ap, ◌∙◌, subst, inl, inr, if◌then◌else◌, Bool, true, false, List,
  Option, none, some, Str, str_eq, str_eq_refl, str_eq_iff, is_empty, trim_space, to_lower, ℤ,
  pos as int, negsuc, increment, decrement, is_zero, or_zero, not_negative, GoMap, arith,
  Bool-cases,
}
use haruka_ai.CostGuard.Guard.{
  Guard, count_up, count_down, saturated, acquire, release, Body, BodyCheck, no_body, buffered,
  too_large, unreadable, limit_body,
}
use haruka_ai.CostGuard.Protect.{
  RateLimitRule, Allowance, limiter_failed, allowed, denied, Outcome, served, after_body,
  after_acquire, after_limiter, protect, rules, unauthorized,
}

-- The counters of two guards are the same.
pub record SameCounts (g g' : Guard) : Type 0 where
  pub all : g'.in_flight ≡ g.in_flight
  pub of_user : (u : Str) → or_zero (g'.by_user u) ≡ or_zero (g.by_user u)
  pub of_action : (a : Str) → or_zero (g'.by_action a) ≡ or_zero (g.by_action a)

SameCounts-refl : (g : Guard) → SameCounts g g
SameCounts-refl g = record { all = refl; of_user = λ u. refl; of_action = λ a. refl }

decrement-increment : (z : ℤ) → decrement (increment z) ≡ z
unfolding decrement increment
decrement-increment (int n) = refl
decrement-increment (negsuc zero) = refl
decrement-increment (negsuc (suc n)) = refl

is_zero-entry : (z : ℤ) → is_zero z ≡ true → int 0 ≡ z
unfolding is_zero
is_zero-entry (int zero) h = refl
is_zero-entry (int (suc n)) h = cc
is_zero-entry (negsuc n) h = cc

count_up-value :
    (k x : Str) (m : GoMap ℤ)
    → or_zero (count_up k m x) ≡ (if str_eq x k then increment (or_zero (m k)) else or_zero (m x))
unfolding count_up or_zero
count_up-value k x m = elim (Bool-cases (str_eq x k)) [
  | inl same ↦ rw same refl
  | inr other ↦ rw other refl
]

count_down-value :
    (k x : Str) (m : GoMap ℤ)
    → or_zero (count_down k m x) ≡ (if str_eq x k then decrement (or_zero (m k)) else or_zero (m x))
unfolding count_down or_zero
count_down-value k x m = elim (Bool-cases (is_zero (decrement (or_zero (m k))))) [
  | inl gone ↦ elim (Bool-cases (str_eq x k)) [
    | inl same ↦ rw (gone, same) (is_zero-entry _ gone)
    | inr other ↦ rw (gone, other) refl
  ]
  | inr some_left ↦ elim (Bool-cases (str_eq x k)) [
    | inl same ↦ rw (some_left, same) refl
    | inr other ↦ rw (some_left, other) refl
  ]
]

count_down-count_up :
    (k x : Str) (m : GoMap ℤ) → or_zero (count_down k (count_up k m) x) ≡ or_zero (m x)
count_down-count_up k x m = count_down-value k x (count_up k m) ∙ both (str_eq x k) refl
  where
    both :
        (b : Bool)
        → str_eq x k ≡ b
        → (if b then decrement (or_zero (count_up k m k)) else or_zero (count_up k m x))
          ≡ or_zero (m x)
    both true e =
        ap decrement (count_up-value k k m ∙ rw (str_eq_refl k) refl)
        ∙ decrement-increment (or_zero (m k))
        ∙ ap (λ y. or_zero (m y)) (sym ((str_eq_iff x k).0 e))
    both false e = count_up-value k x m ∙ rw e refl

-- The guard with a slot taken, in full.
abbrev taken_guard : Str → Str → Guard → Guard
taken_guard user action g = record g {
  in_flight = increment g.in_flight;
  by_user = count_up user g.by_user;
  by_action = count_up action g.by_action;
}

release-SameCounts :
    (user action : Str) (g : Guard) → SameCounts g (release user action (taken_guard user action g))
unfolding release
release-SameCounts user action g = record {
  all = decrement-increment g.in_flight;
  of_user = λ u. count_down-count_up user u g.by_user;
  of_action = λ a. count_down-count_up action a g.by_action;
}

after_body-not-served :
    (user action : Str) (g taken : Guard) (c : BodyCheck)
    → ((b : BodyCheck) → ¬ ((after_body user action taken c).0 ≡ served b))
    → SameCounts g (release user action taken)
    → SameCounts g (after_body user action taken c).1
unfolding after_body
after_body-not-served user action g taken too_large out s = s
after_body-not-served user action g taken unreadable out s = s
after_body-not-served user action g taken no_body out s = absurd (out _ refl)
after_body-not-served user action g taken (buffered p) out s = absurd (out _ refl)

some-injective : {g h : Guard} → some g ≡ some h → g ≡ h
some-injective e = ground arith

acquire-released :
    (user action : Str) (g taken : Guard)
    → acquire user action g ≡ some taken
    → SameCounts g (release user action taken)
unfolding acquire
acquire-released user action g taken e = elim (Bool-cases (saturated g user action)) [
  | inl full ↦ absurd (no_guard (rw full at e))
  | inr free ↦
      let is_taken : taken_guard user action g ≡ taken = some-injective (rw free at e) in
      subst (λ x. SameCounts g (release user action x)) is_taken (release-SameCounts user action g)
]
  where
    no_guard : ¬ (none ≡ some taken)
    no_guard k = cc

module _ (json : Bool) (user action : Str) (body : Option Body) (g : Guard) where
  after_acquire-SameCounts :
      (o : Option Guard)
      → ((taken : Guard) → o ≡ some taken → SameCounts g (release user action taken))
      → ((b : BodyCheck) → ¬ ((after_acquire json user action body g o).0 ≡ served b))
      → SameCounts g (after_acquire json user action body g o).1
  unfolding after_acquire
  after_acquire-SameCounts none back out = SameCounts-refl g
  after_acquire-SameCounts (some taken) back out = by_kind json out
    where
      checked : Outcome × Guard
      checked =
          after_body user action taken (limit_body (not_negative g.config.json_max_bytes) body)

      by_kind :
          (b : Bool)
          → ((c : BodyCheck) → ¬ ((if b then checked else (served no_body, taken)).0 ≡ served c))
          → SameCounts g (if b then checked else (served no_body, taken)).1
      by_kind true out' = after_body-not-served user action g taken _ out' (back taken refl)
      by_kind false out' = absurd (out' no_body refl)

  after_limiter-SameCounts :
      (a : Allowance)
      → ((b : BodyCheck) → ¬ ((after_limiter json user action body g a).0 ≡ served b))
      → SameCounts g (after_limiter json user action body g a).1
  unfolding after_limiter
  after_limiter-SameCounts limiter_failed out = SameCounts-refl g
  after_limiter-SameCounts (denied retry) out = SameCounts-refl g
  after_limiter-SameCounts allowed out =
      after_acquire-SameCounts (acquire user action g) (acquire-released user action g) out

-- A request that the middleware answers itself (no user, limiter down or over its quota, no free
-- slot, a body too large or unreadable) leaves every counter as it was.
pub protect-not-served :
    (lower : ℕ → ℕ) (allow : List RateLimitRule → Allowance) (json : Bool) (action user_name : Str)
    (body : Option Body) (g : Guard)
    → ((b : BodyCheck) → ¬ ((protect lower allow json action user_name body g).0 ≡ served b))
    → SameCounts g (protect lower allow json action user_name body g).1
unfolding protect
protect-not-served lower allow json action user_name body g out =
    by_user (is_empty (to_lower lower (trim_space user_name))) out
  where
    rest : Outcome × Guard
    rest =
        after_limiter json (to_lower lower (trim_space user_name)) action body g
          (allow (rules g (to_lower lower (trim_space user_name)) action))

    by_user :
        (b : Bool)
        → ((c : BodyCheck) → ¬ ((if b then (unauthorized, g) else rest).0 ≡ served c))
        → SameCounts g (if b then (unauthorized, g) else rest).1
    by_user true out' = SameCounts-refl g
    by_user false out' =
        after_limiter-SameCounts json (to_lower lower (trim_space user_name)) action body g _ out'
