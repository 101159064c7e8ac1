-- ===== src/Agent/Planning.antt =====
-- dao/agent/agent.go: the steps that a plan or a worker adds start pending and undecided, numbered in
-- their order.
use haruka_ai.Base.{
  ℕ, ◌≤◌, ◌+◌, ◌≡◌, refl, sym, ap, ◌∙◌, subst, true, false, List, [], ◌∷◌, ◌++◌, Memᴰ, Str, ok,
  arith,
}
use haruka_ai.Base.Keeps.{or_conflict-eq-ok, read-eq-ok, read-same}
use haruka_ai.Base.Moves.{>>=-eq-ok, require-eq-ok}
use haruka_ai.Agent.Model.{AgentTask, AgentStep, StepStatus, ApprovalDecision}
use haruka_ai.Agent.Platform.{filled_steps, Platform, Lawful}
use haruka_ai.Agent.Fence.{GormStore, database}
use haruka_ai.Agent.Plan.{
  normalize_plan_step, normalize_from, normalize_plan_steps, resequence, same_generation,
  create_steps_fenced,
}

-- What becomes of one step that is given: it belongs to the task and its owner, waits, and has no
-- decision, and its payload is the one given.
pub record PlannedStep (task : AgentTask) (sequence : ℕ) (given added : AgentStep) : Type 0 where
  pub same_task : added.task_id ≡ task.id
  pub same_owner : added.user_name ≡ task.user_name
  pub numbered : added.sequence ≡ sequence
  pub is_pending : added.status ≡ StepStatus.pending
  pub undecided : added.approval_decision ≡ ApprovalDecision.pending
  pub same_tool : added.tool_name ≡ given.tool_name
  pub same_arguments : added.tool_arguments_json ≡ given.tool_arguments_json
  pub same_digest : added.arguments_digest ≡ given.arguments_digest

-- The steps after the `n`-th.
abbrev pub Planned : AgentTask → ℕ → List AgentStep → List AgentStep → Type 0
Planned task n [] [] = Unit
Planned task n [] (added ∷ l) = Unit → ⊥
Planned task n (given ∷ steps) [] = Unit → ⊥
Planned task n (given ∷ steps) (added ∷ l) =
    PlannedStep task (n + 1) given added × Planned task (n + 1) steps l

normalize_from-Planned :
    (uuid : ℕ → Str) (task : AgentTask) (n : ℕ) (steps : List AgentStep)
    → Planned task n steps (normalize_from uuid task n steps)
unfolding normalize_from normalize_plan_step
normalize_from-Planned uuid task n [] = tt
normalize_from-Planned uuid task n (s ∷ steps) = (
  record {
    same_task = refl;
    same_owner = refl;
    numbered = refl;
    is_pending = refl;
    undecided = refl;
    same_tool = refl;
    same_arguments = refl;
    same_digest = refl;
  },
  normalize_from-Planned uuid task (n + 1) steps,
)

resequence-Planned :
    (task : AgentTask) (maximum i n : ℕ) (steps l : List AgentStep)
    → Planned task n steps l
    → Planned task (maximum + i) steps (resequence maximum i l)
unfolding resequence
resequence-Planned task maximum i n [] [] h = tt
resequence-Planned task maximum i n [] (x ∷ l) h = absurd (h tt)
resequence-Planned task maximum i n (s ∷ steps) [] h = absurd (h tt)
resequence-Planned task maximum i n (s ∷ steps) (x ∷ l) (h, hs) = (
  record {
    same_task = h.same_task;
    same_owner = h.same_owner;
    numbered = refl;
    is_pending = h.is_pending;
    undecided = h.undecided;
    same_tool = h.same_tool;
    same_arguments = h.same_arguments;
    same_digest = h.same_digest;
  },
  subst (λ k. Planned task k steps (resequence maximum (i + 1) l)) (omega arith)
      (resequence-Planned task maximum (i + 1) (n + 1) steps l hs),
)

filled_steps-Planned :
    (now : ℕ) (task : AgentTask) (n : ℕ) (steps l : List AgentStep)
    → Planned task n steps l
    → Planned task n steps (filled_steps now l)
filled_steps-Planned now task n [] [] h = tt
filled_steps-Planned now task n [] (x ∷ l) h = absurd (h tt)
filled_steps-Planned now task n (s ∷ steps) [] h = absurd (h tt)
filled_steps-Planned now task n (s ∷ steps) (x ∷ l) (h, hs) = (
  record {
    same_task = h.same_task;
    same_owner = h.same_owner;
    numbered = h.numbered;
    is_pending = h.is_pending;
    undecided = h.undecided;
    same_tool = h.same_tool;
    same_arguments = h.same_arguments;
    same_digest = h.same_digest;
  },
  filled_steps-Planned now task (n + 1) steps l hs,
)

module _ ⦃p : Platform⦄ where
  -- The steps that were added behind the `maximum`-th of a stored task, to the steps `kept`.
  pub record Appended (task_id : Str) (run_version : ℕ) (steps kept : List AgentStep) (d d' : p.Db)
      : Type 0 where
    pub task : AgentTask
    pub stored : Memᴰ task (p.tasks d)
    pub current : same_generation task_id run_version task ≡ true
    pub maximum : ℕ
    pub above :
        (s : AgentStep) → Memᴰ s kept → p.same s.task_id task_id ≡ true → s.sequence ≤ maximum
    pub added : List AgentStep
    pub steps_after : p.steps d' ≡ kept ++ added
    pub planned : Planned task maximum steps added

module _ ⦃p : Platform⦄ (lawful : Lawful p) where
  -- Steps that a worker adds with success go behind the stored ones, which stay; they belong to the
  -- task of the worker's run version, are numbered on from a number that no stored step of the task
  -- exceeds, and start pending and
  -- undecided with the payloads given, whatever else the caller set. No task changes.
  pub create_steps_fenced-Appended :
      (g : GormStore) (task_id : Str) (run_version : ℕ) (steps : List AgentStep) (d d' : p.Db)
      → create_steps_fenced g task_id run_version steps d ≡ ok (d', tt)
      → Appended task_id run_version steps (p.steps d) d d' × (p.tasks d' ≡ p.tasks d)
  unfolding create_steps_fenced database normalize_plan_steps
  create_steps_fenced-Appended g task_id run_version [] d d' h =
      let (d₁, u, e, h₁) = >>=-eq-ok _ _ d d' tt h in
      let (impossible, same) = require-eq-ok false _ d₁ d' tt h₁ in absurd (ground arith)
  create_steps_fenced-Appended g task_id run_version (s ∷ steps) d d' h =
      let (d₁, u₁, e₁, h₁) = >>=-eq-ok _ _ d d' tt h in
      let (d₂, u₂, e₂, h₂) = >>=-eq-ok _ _ d₁ d' tt h₁ in
      let (d₃, task, e₃, h₃) = >>=-eq-ok _ _ d₂ d' tt h₂ in
      let (d₄, maximum, e₄, h₄) = >>=-eq-ok _ _ d₃ d' tt h₃ in
      let same₂ : d₂ ≡ d = (require-eq-ok _ _ d₁ d₂ u₂ e₂).1 ∙ (require-eq-ok _ _ d d₁ u₁ e₁).1 in
      let same : d₄ ≡ d =
        sym (read-same _ d₃ d₄ maximum e₄) ∙ sym (read-same _ d₂ d₃ task e₃) ∙ same₂ in
      let found =
        lawful.first_task_found (same_generation task_id run_version) d₂ task
          (or_conflict-eq-ok _ task (read-eq-ok _ d₂ d₃ task e₃)) in
      let (now, behind, same_tasks) = lawful.create_steps_rows _ d₄ d' tt h₄ in
      let new = resequence maximum 0 (normalize_from p.uuid task 0 (s ∷ steps)) in
      (
        record {
          task = task;
          stored = subst (λ x. Memᴰ task (p.tasks x)) same₂ found.1;
          current = found.0;
          maximum = maximum + 0;
          above = λ x m of_task.
              let bound =
                lawful.max_sequence_bound _ d₃ maximum x (read-eq-ok _ d₃ d₄ maximum e₄)
                  (subst (λ y. Memᴰ x (p.steps y)) (sym same₂ ∙ read-same _ d₂ d₃ task e₃) m)
                  of_task in
              omega (arith, bound);
          added = filled_steps now new;
          steps_after = behind ∙ ap (λ x. p.steps x ++ filled_steps now new) same;
          planned = filled_steps-Planned now task (maximum + 0) (s ∷ steps) new (
              resequence-Planned task maximum 0 0 (s ∷ steps) _
                (normalize_from-Planned p.uuid task 0 (s ∷ steps)));
        },
        same_tasks ∙ ap p.tasks same,
      )
