-- ===== src/CostGuard/Caps.antt =====
-- middleware/costguard/guard.go: the counters are the numbers of the slots in use, and these stay
-- within the configured caps.
use haruka_ai.Base.{
  ℕ, zero, suc, ◌≤◌, ◌≡◌, refl, sym, ap, ◌∙◌, inl, inr, if◌then◌else◌, Bool, true, false, not, ◌&&◌,
  List, [], ◌∷◌, Option, none, some, Str, str_eq, str_eq_refl, ℤ, pos as int, negsuc, geq,
  increment, decrement, or_zero, not_negative, arith, Bool-cases, count_if,
}
use haruka_ai.CostGuard.Config.{Config, action_image, normalize_config}
use haruka_ai.CostGuard.Guard.{Guard, new_guard, count_up, saturated, acquire, release, Lease}
use haruka_ai.CostGuard.Counts.{
  World, Event, enters, leaves, lease_at, mark_done, entered, left, step, run, in_use, used_by,
  used_for, Counted, Capped, str_eq-true, count_up-at, count_down-at, mark_done-count, fresh_first,
  in_use-count,
}

geq-int : (n : ℕ) (z limit : ℤ) → z ≡ int n → geq z limit ≡ false → suc n ≤ not_negative limit
unfolding geq not_negative
geq-int n (int k) (int m) e h = ground arith
geq-int n (int k) (negsuc m) e h = cc
geq-int n (negsuc k) limit e h = cc

-- What holds of every world that a run reaches.
pub record Sound (w : World) : Type 0 where
  pub counted : Counted w
  pub capped : Capped w

release-Counted :
    (w : World) (n : ℕ) (l : Lease)
    → lease_at n w.leases ≡ some l
    → l.done ≡ false
    → Counted w
    → Counted (record { guard = release l.user l.action w.guard; leases = mark_done n w.leases })
unfolding release
release-Counted w n l at fresh c = record {
  all = ap decrement (c.all ∙ ap int (in_use-count n w.leases l at fresh));
  of_user = λ u.
      count_down-at l.user u w.guard.by_user _
        (c.of_user u ∙ ap int (mark_done-count (λ x. str_eq u x.user) n w.leases l at fresh));
  of_action = λ a.
      count_down-at l.action a w.guard.by_action _
        (c.of_action a ∙ ap int (mark_done-count (λ x. str_eq a x.action) n w.leases l at fresh));
}

acquire-Counted :
    (w : World) (user action : Str)
    → Counted w
    → Counted (record {
      guard = record w.guard {
        in_flight = increment w.guard.in_flight;
        by_user = count_up user w.guard.by_user;
        by_action = count_up action w.guard.by_action;
      };
      leases = record { user = user; action = action; done = false } ∷ w.leases;
    })
unfolding increment
acquire-Counted w user action c = record {
  all = ap increment c.all;
  of_user = λ u.
      count_up-at user u w.guard.by_user _ (c.of_user u)
      ∙ ap int (sym (fresh_first false (str_eq u user) _ refl));
  of_action = λ a.
      count_up-at action a w.guard.by_action _ (c.of_action a)
      ∙ ap int (sym (fresh_first false (str_eq a action) _ refl));
}

count-mark_done :
    (p : Lease → Bool) (n : ℕ) (ls : List Lease)
    → ((x : Lease) → p (record x { done = true }) ≡ false)
    → count_if p (mark_done n ls) ≤ count_if p ls
unfolding mark_done
count-mark_done p n [] off = omega arith
count-mark_done p zero (x ∷ ls) off = ground (arith, off x)
count-mark_done p (suc n) (x ∷ ls) off = ground (arith, count-mark_done p n ls off)

saturated-facts :
    (g : Guard) (user action : Str)
    → saturated g user action ≡ false
    → (geq g.in_flight g.config.global_in_flight ≡ false)
      × (geq (or_zero (g.by_user user)) g.config.user_in_flight ≡ false)
      × (str_eq action action_image ≡ true
          → geq (or_zero (g.by_action action_image)) g.config.image_in_flight ≡ false)
unfolding saturated
saturated-facts g user action h = ground arith

within :
    (b : Bool) (n cap : ℕ)
    → n ≤ cap
    → (b ≡ true → suc n ≤ cap)
    → (if not false && b then suc n else n) ≤ cap
within true n cap h k = k refl
within false n cap h k = h

released-Sound :
    (w : World) (n : ℕ) (l : Lease)
    → lease_at n w.leases ≡ some l
    → l.done ≡ false
    → Sound w
    → Sound (record { guard = release l.user l.action w.guard; leases = mark_done n w.leases })
unfolding release
released-Sound w n l at fresh s = record {
  counted = release-Counted w n l at fresh s.counted;
  capped = record {
    global_cap =
        let fewer = count-mark_done in_use n w.leases (λ x. refl) in
        omega (arith, fewer, s.capped.global_cap);
    user_cap = λ u.
        let fewer = count-mark_done (used_by u) n w.leases (λ x. refl) in
        omega (arith, fewer, s.capped.user_cap u);
    image_cap =
        let fewer = count-mark_done (used_for action_image) n w.leases (λ x. refl) in
        omega (arith, fewer, s.capped.image_cap);
  };
}

acquired-Capped :
    (w : World) (user action : Str)
    → saturated w.guard user action ≡ false
    → Sound w
    → Capped (record {
      guard = record w.guard {
        in_flight = increment w.guard.in_flight;
        by_user = count_up user w.guard.by_user;
        by_action = count_up action w.guard.by_action;
      };
      leases = record { user = user; action = action; done = false } ∷ w.leases;
    })
acquired-Capped w user action free s =
    let (room, user_room, image_room) = saturated-facts w.guard user action free in
    record {
      global_cap = geq-int _ _ _ s.counted.all room;
      user_cap = λ u. within (str_eq u user) _ _ (s.capped.user_cap u) λ same.
          geq-int _ _ _ (s.counted.of_user u) (
            ap (λ x. geq (or_zero (w.guard.by_user x)) w.guard.config.user_in_flight)
              (str_eq-true u user same)
            ∙ user_room);
      image_cap = within (str_eq action_image action) _ _ s.capped.image_cap λ same.
          geq-int _ _ _ (s.counted.of_action action_image) (
            image_room
              (ap (str_eq action) (str_eq-true action_image action same) ∙ str_eq_refl action));
    }

acquire-Sound :
    (w : World) (user action : Str)
    → Sound w
    → Sound (entered w user action (acquire user action w.guard))
unfolding acquire entered
acquire-Sound w user action s = elim (Bool-cases (saturated w.guard user action)) [
  | inl full ↦ rw full s
  | inr free ↦ rw free (record {
    counted = acquire-Counted w user action s.counted;
    capped = acquired-Capped w user action free s;
  })
]

release-Sound :
    (w : World) (n : ℕ) (o : Option Lease) → lease_at n w.leases ≡ o → Sound w → Sound (left w n o)
unfolding left
release-Sound w n none at s = s
release-Sound w n (some l) at s = elim (Bool-cases l.done) [
  | inl spent ↦ rw spent s
  | inr fresh ↦ rw fresh (released-Sound w n l at fresh s)
]

step-Sound : (e : Event) (w : World) → Sound w → Sound (step e w)
unfolding step
step-Sound (enters user action) w s = acquire-Sound w user action s
step-Sound (leaves n) w s = release-Sound w n _ refl s

new_guard-Sound : (config : Config) → Sound (record { guard = new_guard config; leases = [] })
unfolding new_guard or_zero
new_guard-Sound config = record {
  counted = record { all = refl; of_user = λ u. refl; of_action = λ a. refl };
  capped = record {
    global_cap = omega arith;
    user_cap = λ u. omega arith;
    image_cap = omega arith;
  };
}

run-Sound : (events : List Event) (w : World) → Sound w → Sound (run events w)
unfolding run
run-Sound [] w s = s
run-Sound (e ∷ events) w s = run-Sound events (step e w) (step-Sound e w s)

if-config :
    (b : Bool) (w w' : World)
    → w'.guard.config ≡ w.guard.config
    → (if b then w else w').guard.config ≡ w.guard.config
if-config true w w' e = refl
if-config false w w' e = e

left-config : (w : World) (n : ℕ) (o : Option Lease) → (left w n o).guard.config ≡ w.guard.config
unfolding left release
left-config w n none = refl
left-config w n (some l) = if-config l.done w _ refl

step-config : (e : Event) (w : World) → (step e w).guard.config ≡ w.guard.config
unfolding step acquire entered
step-config (enters user action) w = elim (Bool-cases (saturated w.guard user action)) [
  | inl full ↦ rw full refl
  | inr free ↦ rw free refl
]
step-config (leaves n) w = left-config w n _

run-config : (events : List Event) (w : World) → (run events w).guard.config ≡ w.guard.config
unfolding run
run-config [] w = refl
run-config (e ∷ events) w = run-config events (step e w) ∙ step-config e w

-- After any sequence of requests that enter and of calls, repeated ones too, of the functions that
-- give slots back, the counters of a new guard are the numbers of the slots in use, of all, of each
-- user and of each action, and these are at most the caps of the normalized configuration.
pub run-new_guard-Sound :
    (config : Config) (events : List Event)
    → Sound (run events (record { guard = new_guard config; leases = [] }))
      × ((run events (record { guard = new_guard config; leases = [] })).guard.config
          ≡ normalize_config config)
unfolding new_guard
run-new_guard-Sound config events = (
  run-Sound events _ (new_guard-Sound config),
  run-config events (record { guard = new_guard config; leases = [] }),
)
