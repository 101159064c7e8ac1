-- ===== src/CostGuard/Counts.antt =====
-- middleware/costguard/guard.go: runs of requests that take and give back slots, and the slots that
-- they have in use.
use haruka_ai.Base.{
  ℕ, zero, suc, ◌≤◌, ◌≡◌, refl, sym, ap, ◌∙◌, inl, inr, if◌then◌else◌, Bool, true, false, not, ◌&&◌,
  List, [], ◌∷◌, Option, none, some, Str, str_eq, str_eq_iff, ℤ, pos as int, negsuc, increment,
  decrement, or_zero, is_zero, not_negative, GoMap, arith, Bool-cases, count_if,
}
use haruka_ai.CostGuard.Config.{action_image}
use haruka_ai.CostGuard.Guard.{Guard, count_up, count_down, acquire, release, Lease}

-- The guard, with the functions that it has handed out, the newest first.
pub record World : Type 0 where
  pub guard : Guard
  pub leases : List Lease

pub data Event : Type 0 where
  enters : Str → Str → Event
  leaves : ℕ → Event

unfoldable pub lease_at : ℕ → List Lease → Option Lease
lease_at n [] = none
lease_at zero (l ∷ ls) = some l
lease_at (suc n) (l ∷ ls) = lease_at n ls

unfoldable pub mark_done : ℕ → List Lease → List Lease
mark_done n [] = []
mark_done zero (l ∷ ls) = record l { done = true } ∷ ls
mark_done (suc n) (l ∷ ls) = l ∷ mark_done n ls

unfoldable pub entered : World → Str → Str → Option Guard → World
entered w user action none = w
entered w user action (some g) = record {
  guard = g;
  leases = record { user = user; action = action; done = false } ∷ w.leases;
}

-- The `n`-th function is called: `once` lets its body run the first time.
unfoldable pub left : World → ℕ → Option Lease → World
unfolding release mark_done
left w n none = w
left w n (some l) =
    if l.done
    then w
    else record { guard = release l.user l.action w.guard; leases = mark_done n w.leases }

unfoldable pub step : Event → World → World
unfolding acquire entered left lease_at
step (enters user action) w = entered w user action (acquire user action w.guard)
step (leaves n) w = left w n (lease_at n w.leases)

unfoldable pub run : List Event → World → World
run [] w = w
run (e ∷ events) w = run events (step e w)

-- The slots in use, of all, of a user and of an action.
abbrev pub in_use : Lease → Bool
in_use l = not l.done

abbrev pub used_by : Str → Lease → Bool
used_by user l = not l.done && str_eq user l.user

abbrev pub used_for : Str → Lease → Bool
used_for action l = not l.done && str_eq action l.action

pub record Counted (w : World) : Type 0 where
  pub all : w.guard.in_flight ≡ int (count_if in_use w.leases)
  pub of_user : (u : Str) → or_zero (w.guard.by_user u) ≡ int (count_if (used_by u) w.leases)
  pub of_action : (a : Str) → or_zero (w.guard.by_action a) ≡ int (count_if (used_for a) w.leases)

pub record Capped (w : World) : Type 0 where
  pub global_cap : count_if in_use w.leases ≤ not_negative w.guard.config.global_in_flight
  pub user_cap :
      (u : Str) → count_if (used_by u) w.leases ≤ not_negative w.guard.config.user_in_flight
  pub image_cap :
      count_if (used_for action_image) w.leases ≤ not_negative w.guard.config.image_in_flight

abbrev pub plus_if : Bool → ℕ → ℕ
plus_if true n = suc n
plus_if false n = n

pub str_eq-true : (s t : Str) → str_eq s t ≡ true → s ≡ t
str_eq-true s t h = (str_eq_iff s t).0 h

pub count_up-at :
    (k x : Str) (m : GoMap ℤ) (n : ℕ)
    → or_zero (m x) ≡ int n
    → or_zero (count_up k m x) ≡ int (plus_if (str_eq x k) n)
unfolding count_up increment or_zero
count_up-at k x m n h = elim (Bool-cases (str_eq x k)) [
  | inl same ↦
      let at_k : or_zero (m k) ≡ int n = ap (λ y. or_zero (m y)) (sym (str_eq-true x k same)) ∙ h in
      rw same (ap increment at_k)
  | inr other ↦ rw other h
]

is_zero-int : (d : ℤ) (n : ℕ) → d ≡ int n → is_zero d ≡ true → int 0 ≡ int n
unfolding is_zero
is_zero-int (int zero) n e h = e
is_zero-int (int (suc d)) n e h = cc
is_zero-int (negsuc d) n e h = cc

pub count_down-at :
    (k x : Str) (m : GoMap ℤ) (n : ℕ)
    → or_zero (m x) ≡ int (plus_if (str_eq x k) n)
    → or_zero (count_down k m x) ≡ int n
unfolding count_down or_zero decrement
count_down-at k x m n h = elim (Bool-cases (str_eq x k)) [
  | inl same ↦
      let h' : or_zero (m x) ≡ int (suc n) = h ∙ ap (λ b. int (plus_if b n)) same in
      let at_k : decrement (or_zero (m k)) ≡ int n =
        ap (λ y. decrement (or_zero (m y))) (sym (str_eq-true x k same)) ∙ ap decrement h' in
      elim (Bool-cases (is_zero (decrement (or_zero (m k))))) [
        | inl gone ↦ rw (gone, same) (is_zero-int _ n at_k gone)
        | inr some_left ↦ rw (some_left, same) at_k
      ]
  | inr other ↦
      let h' : or_zero (m x) ≡ int n = h ∙ ap (λ b. int (plus_if b n)) other in
      elim (Bool-cases (is_zero (decrement (or_zero (m k))))) [
        | inl gone ↦ rw (gone, other) h'
        | inr some_left ↦ rw (some_left, other) h'
      ]
]

pub fresh_first : (d b : Bool) (n : ℕ) → d ≡ false → (if not d && b then suc n else n) ≡ plus_if b n
fresh_first true b n h = cc
fresh_first false true n h = refl
fresh_first false false n h = refl

-- Marking a slot that is in use takes it out of the counts that it was in.
pub mark_done-count :
    (t : Lease → Bool) (n : ℕ) (ls : List Lease) (l : Lease)
    → lease_at n ls ≡ some l
    → l.done ≡ false
    → count_if (λ x. not x.done && t x) ls
      ≡ plus_if (t l) (count_if (λ x. not x.done && t x) (mark_done n ls))
unfolding lease_at mark_done
mark_done-count t n [] l at fresh = cc
mark_done-count t zero (x ∷ ls) l at fresh =
    let e : x ≡ l = ground arith in
    let is_fresh : x.done ≡ false = ap (λ y. y.done) e ∙ fresh in
    fresh_first x.done (t x) _ is_fresh
    ∙ ap (λ b. plus_if b (count_if (λ y. not y.done && t y) ls)) (ap t e)
mark_done-count t (suc n) (x ∷ ls) l at fresh =
    let rest = mark_done-count t n ls l at fresh in ground arith

pub in_use-count :
    (n : ℕ) (ls : List Lease) (l : Lease)
    → lease_at n ls ≡ some l
    → l.done ≡ false
    → count_if in_use ls ≡ suc (count_if in_use (mark_done n ls))
unfolding lease_at mark_done
in_use-count n [] l at fresh = cc
in_use-count zero (x ∷ ls) l at fresh =
    let e : x ≡ l = ground arith in
    let is_fresh : x.done ≡ false = ap (λ y. y.done) e ∙ fresh in rw is_fresh refl
in_use-count (suc n) (x ∷ ls) l at fresh = let rest = in_use-count n ls l at fresh in ground arith
