-- ===== src/Agent/Approval.antt =====
-- dao/agent/agent.go: what a human decision does to the tables.
use haruka_ai.Base.{
  ℕ, ◌<◌, ◌≡◌, refl, ap, ◌∙◌, subst, Bool, true, false, not, ◌&&◌, List, [], ◌∷◌, Memᴰ, Option,
  some, Str, ok, Exec, arith, map_where, count_if, trim_space, to_lower, is_empty, Bool-cases, inl,
  inr,
}
use haruka_ai.Base.Keeps.{Keeps, Keeps-read, Keeps-require}
use haruka_ai.Base.Moves.{
  Moves, Moves-then, Moves-read, Moves-require, Moves-update_seq, Moves-of-Keeps,
}
use haruka_ai.Agent.Model.{
  AgentTask, AgentStep, TaskStatus, StepStatus, task_status_eq, is_open_decision,
}
use haruka_ai.Agent.Platform.{Platform, Lawful}
use haruka_ai.Agent.Fence.{GormStore, database}
use haruka_ai.Agent.Plan.{owned_by}
use haruka_ai.Agent.Review.{
  decide, by_decision, undecided_step, update_owned_step_decision, parse_decision, truncate_runes,
  max_approval_reason_runes, decide_step_set, decide_task_set,
}

pub count_if-mem {ℓ} :
    {A : Type ℓ} (q : A → Bool) (l : List A) → 0 < count_if q l → (x : A) × Memᴰ x l × (q x ≡ true)
count_if-mem q [] h = absurd (omega arith)
count_if-mem q (x ∷ l) h = elim (Bool-cases (q x)) [
  | inl hit ↦ (x, Memᴰ.head refl, hit)
  | inr miss ↦ let (y, m, e) = count_if-mem q l (ground arith) in (y, Memᴰ.tail m, e)
]

module _ ⦃p : Platform⦄ where
  abbrev pub awaits : Str → Str → AgentTask → Bool
  awaits user id t = owned_by user id t && task_status_eq t.status TaskStatus.waiting_approval

  -- What must be stored for a decision to be taken: the owner's task, waiting for it, and the step,
  -- waiting and undecided; for an approval with the digest that it names.
  pub record Decidable (approve : Bool) (user id step_id digest : Str) (d : p.Db) : Type 0 where
    pub task : AgentTask
    pub step : AgentStep
    pub task_stored : Memᴰ task (p.tasks d)
    pub task_awaits : awaits user id task ≡ true
    pub step_stored : Memᴰ step (p.steps d)
    pub step_waits : step.status ≡ StepStatus.waiting_approval
    pub step_open : is_open_decision step.approval_decision ≡ true
    pub step_owned :
        (p.same step.id step_id ≡ true)
        × (p.same step.task_id id ≡ true)
        × (p.same step.user_name user ≡ true)
    pub digest_bound :
        approve ≡ true → (p.same step.arguments_digest digest ≡ true) × (is_empty digest ≡ false)

  -- The effect on both tables.
  pub record Decided (approve : Bool) (user id step_id digest reason : Str) (now : ℕ) (d d' : p.Db)
      : Type 0 where
    pub steps_after :
        p.steps d'
        ≡ map_where
            (undecided_step approve user id step_id digest)
            (decide_step_set approve reason now)
            (p.steps d)
    pub tasks_after :
        p.tasks d' ≡ map_where (awaits user id) (decide_task_set approve step_id now) (p.tasks d)
    pub decidable : Decidable approve user id step_id digest d

  undecided_facts :
      (approve : Bool) (user id step_id digest : Str) (s : AgentStep)
      → undecided_step approve user id step_id digest s ≡ true
      → (s.status ≡ StepStatus.waiting_approval)
        × (is_open_decision s.approval_decision ≡ true)
        × (p.same s.id step_id ≡ true)
        × (p.same s.task_id id ≡ true)
        × (p.same s.user_name user ≡ true)
        × (approve ≡ true → p.same s.arguments_digest digest ≡ true)
  unfolding undecided_step
  undecided_facts approve user id step_id digest s h = ground arith

module _ ⦃p : Platform⦄ (lawful : Lawful p) (d₀ : p.Db) where
  module _ (g : GormStore) (user id step_id : Str) (approve : Bool) (reason digest : Str) where
    abbrev Midway : p.Db → Type 0
    Midway d =
        (p.steps d
          ≡ map_where (undecided_step approve user id step_id digest)
              (decide_step_set approve reason g.now) (p.steps d₀))
        × (p.tasks d ≡ p.tasks d₀)
        × Decidable approve user id step_id digest d₀

    Decidable-intro :
        (task : AgentTask)
        → Memᴰ task (p.tasks d₀)
        → awaits user id task ≡ true
        → not (approve && is_empty digest) ≡ true
        → 0 < count_if (undecided_step approve user id step_id digest) (p.steps d₀)
        → Decidable approve user id step_id digest d₀
    Decidable-intro task m w bound pos =
        let (s, ms, u) = count_if-mem _ (p.steps d₀) pos in
        let f = undecided_facts approve user id step_id digest s u in
        record {
          task = task;
          step = s;
          task_stored = m;
          task_awaits = w;
          step_stored = ms;
          step_waits = f.0;
          step_open = f.1;
          step_owned = (f.2, f.3, f.4);
          digest_bound = λ a. (f.5 a, ground arith);
        }

    decide-Decided :
        Moves
          (λ d. d ≡ d₀)
          (λ d'. Decided approve user id step_id digest reason g.now d₀ d')
          (decide g user id step_id approve reason digest)
    unfolding decide
    decide-Decided = Moves-require _ _ _ λ bound.
        Moves-read _ (λ t. Memᴰ t (p.tasks d₀) × (owned_by user id t ≡ true)) _
          (λ d t e h.
            let (a, m) = lawful.first_task_found _ d t h in
            (subst (λ x. Memᴰ t (p.tasks x)) e m, a))
          λ task (m, owned). Moves-require _ _ _ λ waits.
            Moves-update_seq Midway _ _ _
              (λ d d' n h pos e.
                let rows = lawful.update_steps_rows _ _ d d' n h in
                let some_row : 0
                    < count_if (undecided_step approve user id step_id digest) (p.steps d) =
                  omega (arith, rows.2, pos) in
                (
                  rows.0
                      ∙ ap
                          (λ x.
                            map_where (undecided_step approve user id step_id digest)
                              (decide_step_set approve reason g.now) (p.steps x))
                          e,
                  rows.1 ∙ ap (λ x. p.tasks x) e,
                  Decidable-intro task m (ground arith) bound (
                      subst
                        (λ x.
                          0 < count_if (undecided_step approve user id step_id digest) (p.steps x))
                        e some_row),
                ))
              (Moves-update_seq (λ d'. Decided approve user id step_id digest reason g.now d₀ d') _
                _ _
                (λ d d' n h pos q.
                  let rows = lawful.update_tasks_rows _ _ d d' n h in
                  record {
                    steps_after = rows.1 ∙ q.0;
                    tasks_after =
                        rows.0
                        ∙ ap (map_where (awaits user id) (decide_task_set approve step_id g.now))
                            q.1;
                    decidable = q.2;
                  })
                (Moves-of-Keeps _ (Keeps-read _) (λ d q. q)))

module _ ⦃p : Platform⦄ where
  Keeps-database : (P : p.Db → Type 0) (g : GormStore) → Keeps P (database g)
  unfolding database
  Keeps-database P g = Keeps-require _ _

  by_decision-Decided :
      (d₀ : p.Db) (P : p.Db → Type 0) (o : Option Bool) (approve : Bool)
      (f : Bool → Exec p.Db AgentStep)
      → o ≡ some approve
      → Moves (λ d. d ≡ d₀) P (f approve)
      → Moves (λ d. d ≡ d₀) P (by_decision o f)
  unfolding by_decision
  by_decision-Decided d₀ P o approve f e m = rw (e, by_decision) m

module _ ⦃p : Platform⦄ (lawful : Lawful p) where
  -- A decision that reads as `approve` (or not) and succeeds was taken on a stored task of that
  -- owner that waits for an approval and on a stored step of it that waits undecided; an approval
  -- named, in lower case, a non-empty digest that is the step's. The steps so selected take the
  -- decision, the waiting rows of the task take its outcome, and no other row changes.
  pub update_owned_step_decision-Decided :
      (g : GormStore) (user_name id step_id decision reason expected : Str) (approve : Bool)
      (d d' : p.Db) (s : AgentStep)
      → parse_decision p.lower_table decision ≡ some approve
      → update_owned_step_decision g user_name id step_id decision reason expected d ≡ ok (d', s)
      → Decided approve
          (trim_space user_name)
          id
          step_id
          (to_lower p.lower_table (trim_space expected))
          (truncate_runes (trim_space reason) max_approval_reason_runes)
          g.now
          d
          d'
  unfolding update_owned_step_decision
  update_owned_step_decision-Decided g user_name id step_id decision reason expected approve d d' s
        reads h =
      decision_moves.at d d' s h refl
    where
      decision_moves :
          Moves
            (λ x. x ≡ d)
            (λ x.
              Decided approve
                (trim_space user_name)
                id
                step_id
                (to_lower p.lower_table (trim_space expected))
                (truncate_runes (trim_space reason) max_approval_reason_runes)
                g.now
                d
                x)
            (update_owned_step_decision g user_name id step_id decision reason expected)
      decision_moves = Moves-then _ _ (Keeps-database _ g) λ _.
          Moves-then _ _ (Keeps-require _ _) λ _. by_decision-Decided d _ _ approve _ reads (
            decide-Decided lawful d g (trim_space user_name) id step_id approve
              (truncate_runes (trim_space reason) max_approval_reason_runes)
              (to_lower p.lower_table (trim_space expected)))
