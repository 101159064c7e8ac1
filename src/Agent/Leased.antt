-- ===== src/Agent/Leased.antt =====
-- dao/agent/agent.go: the recovery leaves a task alone whose lease lasts.
use haruka_ai.Base.{
  ℕ, ◌≤◌, and-left, and-right, ◌≡◌, refl, sym, ap, ◌∙◌, subst, ◌⊎◌, inl, inr, Bool, true, false,
  ◌&&◌, List, [], ◌∷◌, Memᴰ, Option, none, some, Str, ok, arith, Bool-cases, map_where,
}
use haruka_ai.Base.Keeps.{Keeps, Keeps-pure, Keeps-read, Keeps-bind, Keeps-require_rows}
use haruka_ai.Agent.Model.{AgentTask, AgentStep}
use haruka_ai.Agent.Platform.{Platform, Lawful}
use haruka_ai.Agent.Fence.{GormStore, Context}
use haruka_ai.Agent.Plan.{step_of}
use haruka_ai.Agent.Recover.{
  Found, is_stale, lapsed, recover_task_set, running_step, recover_steps, found_next, same_run,
  recover_locked_task, recover_stale_tasks,
}
use haruka_ai.Agent.Ownership.{mem-map_where_miss}
use haruka_ai.Agent.Sweep.{recover_stale_tasks-keeps}

module _ {A : Type 0} (w : A → Bool) (f : A → A) where
  -- `y` comes from a row of `l`: the new value of one that was hit, or one that was missed.
  abbrev Origin : List A → A → Type 0
  Origin l y = (x : A) × Memᴰ x l × (((w x ≡ true) × (y ≡ f x)) ⊎ (y ≡ x))

  later : (x : A) (l : List A) (y : A) → Origin l y → Origin (x ∷ l) y
  later x l y (z, m, c) = (z, Memᴰ.tail m, c)

  hit_first :
      (x : A) (l l' : List A) (y : A)
      → w x ≡ true
      → Memᴰ y (f x ∷ l')
      → (Memᴰ y l' → Origin l y)
      → Origin (x ∷ l) y
  hit_first x l l' y hit (Memᴰ.head e) rest = (x, Memᴰ.head refl, inl (hit, e))
  hit_first x l l' y hit (Memᴰ.tail m) rest = later x l y (rest m)

  miss_first :
      (x : A) (l l' : List A) (y : A)
      → Memᴰ y (x ∷ l')
      → (Memᴰ y l' → Origin l y)
      → Origin (x ∷ l) y
  miss_first x l l' y (Memᴰ.head e) rest = (x, Memᴰ.head refl, inr e)
  miss_first x l l' y (Memᴰ.tail m) rest = later x l y (rest m)

  map_where-Origin : (l : List A) (y : A) → Memᴰ y (map_where w f l) → Origin l y
  map_where-Origin [] y m = elim m [ ]
  map_where-Origin (x ∷ l) y m = elim (Bool-cases (w x)) [
    | inl hit ↦ hit_first x l _ y hit (rw hit at m) (map_where-Origin l y)
    | inr miss ↦ miss_first x l _ y (rw miss at m) (map_where-Origin l y)
  ]

module _ ⦃p : Platform⦄ (t : AgentTask) (s : AgentStep) where
  -- The task, alone under its id, and a step of it stand in the tables.
  record Held (d : p.Db) : Type 0 where
    task : Memᴰ t (p.tasks d)
    step : Memᴰ s (p.steps d)
    alone : (x : AgentTask) → Memᴰ x (p.tasks d) → p.same x.id t.id ≡ true → x ≡ t

-- A task with a lease that lasts is not stale.
not_lapsed :
    (o : Option ℕ) (now before until : ℕ) (t : AgentTask)
    → o ≡ some until
    → now ≤ until
    → ¬ (lapsed o t now before ≡ true)
unfolding lapsed
not_lapsed none now before until t lease lasts h = cc
not_lapsed (some u) now before until t lease lasts h =
    let e : u ≡ until = ground arith in ground arith

not_stale :
    (now before until : ℕ) (t : AgentTask)
    → t.lease_until ≡ some until
    → now ≤ until
    → ¬ (is_stale now before t ≡ true)
unfolding is_stale
not_stale now before until t lease lasts stale =
    not_lapsed t.lease_until now before until t lease lasts (and-right _ _ stale)

module _ ⦃p : Platform⦄ (lawful : Lawful p) (t : AgentTask) (s : AgentStep)
    (of_task : p.same s.task_id t.id ≡ true) where
  module _ (task : AgentTask) (foreign : p.same task.id t.id ≡ false) where
    misses_steps : (id : Str) → running_step id task.id s ≡ false
    unfolding running_step step_of
    misses_steps id = elim (Bool-cases (p.same s.task_id task.id)) [
      | inl same ↦
          let both =
            lawful.same_trans task.id s.task_id t.id (lawful.same_sym s.task_id task.id same)
              of_task in
          absurd (ground arith)
      | inr other ↦ ground arith
    ]

    misses_run : same_run task t ≡ false
    unfolding same_run
    misses_run = elim (Bool-cases (p.same t.id task.id)) [
      | inl same ↦ let back = lawful.same_sym t.id task.id same in absurd (ground arith)
      | inr other ↦ ground arith
    ]

    Held-update_tasks :
        (f : Found) (now : ℕ)
        → Keeps (Held t s) (p.update_tasks (same_run task) (recover_task_set f now))
    unfolding recover_task_set
    Held-update_tasks f now = record {
      at = λ d d' n h k.
          let rows = lawful.update_tasks_rows _ _ d d' n h in
          record {
            task = rw rows.0 (
                mem-map_where_miss (same_run task) (recover_task_set f now) (p.tasks d) t misses_run
                  k.task);
            step = rw rows.1 k.step;
            alone = λ y m same.
                let (x, mx, origin) =
                  map_where-Origin (same_run task) (recover_task_set f now) (p.tasks d) y
                    (subst (Memᴰ y) rows.0 m) in
                elim origin [
                  | inl (hit, e) ↦
                      let x_is = k.alone x mx (ap (λ z. p.same z.id t.id) (sym e) ∙ same) in
                      absurd (true_false (ap (same_run task) (sym x_is) ∙ hit) misses_run)
                  | inr e ↦ e ∙ k.alone x mx (ap (λ z. p.same z.id t.id) (sym e) ∙ same)
                ];
          };
    }
      where
        true_false : {b : Bool} → b ≡ true → b ≡ false → ⊥
        true_false h k = ground arith

    Held-update_steps :
        (id : Str) (f : AgentStep → AgentStep)
        → Keeps (Held t s) (p.update_steps (running_step id task.id) f)
    Held-update_steps id f = record {
      at = λ d d' n h k.
          let rows = lawful.update_steps_rows _ _ d d' n h in
          record {
            task = rw rows.1 k.task;
            step = rw rows.0 (
                mem-map_where_miss (running_step id task.id) f (p.steps d) s (misses_steps id)
                  k.step);
            alone = λ y m same. k.alone y (subst (Memᴰ y) rows.1 m) same;
          };
    }

    Held-recover_steps :
        (now : ℕ) (l : List AgentStep) (f : Found)
        → Keeps (Held t s) (recover_steps task.id now f l)
    unfolding recover_steps
    Held-recover_steps now [] f = Keeps-pure f
    Held-recover_steps now (x ∷ l) f =
        Keeps-bind _ _ (Held-update_steps x.id _) λ _. Held-recover_steps now l (found_next f x)

    Held-recover_locked_task : (now : ℕ) → Keeps (Held t s) (recover_locked_task task now)
    unfolding recover_locked_task
    Held-recover_locked_task now = Keeps-bind _ _ (Keeps-read _) λ running.
        Keeps-bind _ _ (Held-recover_steps now running _)
          λ f. Keeps-bind _ _ (Held-update_tasks f now) λ n. Keeps-require_rows n _

  -- A recovery, whatever becomes of it, leaves a stored task whose lease has not run out, and a
  -- stored step of it, as they are, where no other stored task has the task's id.
  pub recover_stale_tasks-leased :
      (g : GormStore) (ctx : Context) (before until : ℕ) (d : p.Db)
      → t.lease_until ≡ some until
      → g.now ≤ until
      → ((x : AgentTask) → Memᴰ x (p.tasks d) → p.same x.id t.id ≡ true → x ≡ t)
      → Memᴰ t (p.tasks d)
      → Memᴰ s (p.steps d)
      → Memᴰ t (p.tasks (recover_stale_tasks g ctx before d).0)
        × Memᴰ s (p.steps (recover_stale_tasks g ctx before d).0)
  recover_stale_tasks-leased g ctx before until d lease lasts alone mt ms =
      let kept =
        recover_stale_tasks-keeps (Held t s) g before locked ctx d
          (record { task = mt; step = ms; alone = alone }) in
      (kept.task, kept.step)
    where
      foreign_of :
          (task : AgentTask) (x : p.Db)
          → is_stale g.now before task ≡ true
          → Memᴰ task (p.tasks x)
          → Held t s x
          → p.same task.id t.id ≡ false
      foreign_of task x stale m k = elim (Bool-cases (p.same task.id t.id)) [
        | inl same ↦ absurd (
            not_stale g.now before until t lease lasts
              (ap (is_stale g.now before) (sym (k.alone task m same)) ∙ stale))
        | inr other ↦ other
      ]

      locked :
          (c task : AgentTask) (x x' : p.Db)
          → p.first_unlocked_task (λ r. is_stale g.now before r && p.same r.id c.id) x ≡ ok task
          → recover_locked_task task g.now x ≡ ok (x', tt)
          → Held t s x
          → Held t s x'
      locked c task x x' found e k =
          let (stale, m) = lawful.first_unlocked_task_found _ x task found in
          (Held-recover_locked_task task (foreign_of task x (and-left _ _ stale) m k) g.now).at x x'
            tt e k
