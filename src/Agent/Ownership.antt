-- ===== src/Agent/Ownership.antt =====
-- dao/agent/agent.go: the calls of an owner reach no row of another user.
use haruka_ai.Base.{
  ℕ, ◌≡◌, ap, Bool, false, ◌&&◌, ◌||◌, List, [], ◌∷◌, Memᴰ, Option, none, some, Str, ok, Exec,
  arith, map_where, pure, ◌>>=◌, trim_space,
}
use haruka_ai.Base.Keeps.{
  Keeps, Keeps-bind, Keeps-pure, Keeps-raise, Keeps-read, Keeps-require, Keeps-require_rows,
  keeps_rules,
}
use haruka_ai.Agent.Model.{AgentTask, AgentStep, TaskStatus, StepStatus}
use haruka_ai.Agent.Platform.{Platform, Lawful}
use haruka_ai.Agent.Fence.{GormStore, database}
use haruka_ai.Agent.Plan.{Updates, update_owned_task, owned_by}
use haruka_ai.Agent.Review.{decide, by_decision, undecided_step, update_owned_step_decision}
use haruka_ai.Agent.Resume.{
  resume_owned_task, owned_step, that_step, that_task, cancel_steps, is_uncertain, cancel_active,
  cancel_by_status, cancel_owned_task,
}

-- A row that the test misses stays where it is.
pub mem-map_where_miss {ℓ} :
    {A : Type ℓ} (w : A → Bool) (f : A → A) (l : List A) (x : A)
    → w x ≡ false
    → Memᴰ x l
    → Memᴰ x (map_where w f l)
mem-map_where_miss w f [] x miss m = elim m [ ]
mem-map_where_miss w f (y ∷ l) x miss (Memᴰ.head e) = Memᴰ.head (ground (arith, ap w e))
mem-map_where_miss w f (y ∷ l) x miss (Memᴰ.tail m) = Memᴰ.tail (mem-map_where_miss w f l x miss m)

module _ ⦃p : Platform⦄ where
  -- A task and a step that are in the tables.
  pub record Stored (t : AgentTask) (s : AgentStep) (d : p.Db) : Type 0 where
    pub task : Memᴰ t (p.tasks d)
    pub step : Memᴰ s (p.steps d)

  -- What a user may do to a task of theirs.
  pub data OwnedCall : Type 0 where
    update : Updates p.Value → OwnedCall
    decide_step : Str → Str → Str → Str → OwnedCall
    resume : Bool → OwnedCall
    cancel : OwnedCall

  unfoldable pub owned_call : GormStore → Str → Str → OwnedCall → Exec p.Db (Unit {0})
  owned_call g user id (update u) = update_owned_task g user id u
  owned_call g user id (decide_step step decision reason digest) =
      update_owned_step_decision g user id step decision reason digest >>= λ _. pure tt
  owned_call g user id (resume retry) = resume_owned_task g user id retry
  owned_call g user id cancel = cancel_owned_task g user id

-- Another user's rows fail the tests of an owner's statements.
module _ ⦃p : Platform⦄ (user id : Str) where
  module _ (t : AgentTask) (foreign : p.same t.user_name user ≡ false) where
    misses_owned : owned_by user id t ≡ false
    unfolding owned_by
    misses_owned = ground arith

    misses_owned_and : (b : Bool) → (owned_by user id t && b) ≡ false
    misses_owned_and b = ground (arith, misses_owned)

    misses_that_task : (status : TaskStatus) (k : ℕ) → that_task user id status k t ≡ false
    unfolding that_task
    misses_that_task status k = ground (arith, misses_owned)

  module _ (s : AgentStep) (foreign : p.same s.user_name user ≡ false) where
    misses_that_step : (sid : Str) (status : StepStatus) → that_step sid user id status s ≡ false
    unfolding that_step owned_step
    misses_that_step sid status = ground arith

    misses_undecided :
        (approve : Bool) (sid digest : Str) → undecided_step approve user id sid digest s ≡ false
    unfolding undecided_step
    misses_undecided approve sid digest = ground arith

module _ ⦃p : Platform⦄ (lawful : Lawful p) {t : AgentTask} {s : AgentStep} where
  pub Stored-update_tasks :
      (w : AgentTask → Bool) (f : AgentTask → AgentTask)
      → w t ≡ false
      → Keeps (Stored t s) (p.update_tasks w f)
  Stored-update_tasks w f miss = record {
    at = λ d d' n h k.
        let rows = lawful.update_tasks_rows w f d d' n h in
        record {
          task = rw rows.0 (mem-map_where_miss w f (p.tasks d) t miss k.task);
          step = rw rows.1 k.step;
        };
  }

  pub Stored-update_steps :
      (w : AgentStep → Bool) (f : AgentStep → AgentStep)
      → w s ≡ false
      → Keeps (Stored t s) (p.update_steps w f)
  Stored-update_steps w f miss = record {
    at = λ d d' n h k.
        let rows = lawful.update_steps_rows w f d d' n h in
        record {
          task = rw rows.1 k.task;
          step = rw rows.0 (mem-map_where_miss w f (p.steps d) s miss k.step);
        };
  }

  pub Stored-database : (g : GormStore) → Keeps (Stored t s) (database g)
  unfolding database
  Stored-database g = Keeps-require _ _

  module _ (user id : Str) (not_task : p.same t.user_name user ≡ false)
      (not_step : p.same s.user_name user ≡ false) where
    decide-Stored :
        (g : GormStore) (sid : Str) (approve : Bool) (reason digest : Str)
        → Keeps (Stored t s) (decide g user id sid approve reason digest)
    unfolding decide
    decide-Stored g sid approve reason digest =
        search
          (
            keeps_rules,
            Stored-update_tasks,
            Stored-update_steps,
            misses_owned_and user id t not_task,
            misses_undecided user id s not_step,
          )
          depth 16

    cancel_steps-Stored :
        (now : ℕ) (l : List AgentStep) (u : Bool)
        → Keeps (Stored t s) (cancel_steps user id now u l)
    unfolding cancel_steps
    cancel_steps-Stored now [] u = Keeps-pure u
    cancel_steps-Stored now (x ∷ l) u =
        Keeps-bind _ _ (Stored-update_steps _ _ (misses_that_step user id s not_step x.id x.status))
          (λ _. cancel_steps-Stored now l (u || is_uncertain x))

    cancel_active-Stored :
        (g : GormStore) (task : AgentTask) → Keeps (Stored t s) (cancel_active g user id task)
    unfolding cancel_active
    cancel_active-Stored g task =
        search
          (
            keeps_rules,
            Stored-update_tasks,
            misses_that_task user id t not_task,
            cancel_steps-Stored,
          )
          depth 12

    cancel_by_status-Stored :
        (status : TaskStatus) (g : GormStore) (task : AgentTask)
        → Keeps (Stored t s) (cancel_by_status status g user id task)
    unfolding cancel_by_status
    cancel_by_status-Stored TaskStatus.cancelled g task = Keeps-pure tt
    cancel_by_status-Stored TaskStatus.succeeded g task = Keeps-raise _
    cancel_by_status-Stored TaskStatus.rejected g task = Keeps-raise _
    cancel_by_status-Stored _ g task = cancel_active-Stored g task

    by_decision-Stored :
        (o : Option Bool) (f : Bool → Exec p.Db AgentStep)
        → ((b : Bool) → Keeps (Stored t s) (f b))
        → Keeps (Stored t s) (by_decision o f)
    unfolding by_decision
    by_decision-Stored none f k = Keeps-raise _
    by_decision-Stored (some b) f k = k b

  module _ (g : GormStore) (user id : Str) (nt : p.same t.user_name user ≡ false)
      (ns : p.same s.user_name user ≡ false) where
    update_owned_task-Stored :
        (u : Updates p.Value) → Keeps (Stored t s) (update_owned_task g user id u)
    unfolding update_owned_task
    update_owned_task-Stored u = Keeps-bind _ _ (Stored-database g) λ _.
        Keeps-bind _ _ (Keeps-require _ _) λ _. Keeps-bind _ _ (Keeps-require _ _) λ _.
          Keeps-bind _ _ (Stored-update_tasks _ _ (misses_owned user id t nt))
            λ n. Keeps-require_rows n _

  module _ (g : GormStore) (user id : Str) (nt : p.same t.user_name (trim_space user) ≡ false)
      (ns : p.same s.user_name (trim_space user) ≡ false) where
    decision-Stored :
        (step decision reason digest : Str)
        → Keeps (Stored t s) (update_owned_step_decision g user id step decision reason digest)
    unfolding update_owned_step_decision
    decision-Stored step decision reason digest = Keeps-bind _ _ (Stored-database g) λ _.
        Keeps-bind _ _ (Keeps-require _ _) λ _.
          by_decision-Stored (trim_space user) id nt ns _ _
            λ b. decide-Stored (trim_space user) id nt ns g step b _ _

    resume_owned_task-Stored :
        (retry : Bool) → Keeps (Stored t s) (resume_owned_task g user id retry)
    unfolding resume_owned_task
    resume_owned_task-Stored retry = Keeps-bind _ _ (Stored-database g) λ _.
        Keeps-bind _ _ (Keeps-require _ _) λ _. Keeps-bind _ _ (Keeps-read _) λ task.
          Keeps-bind _ _ (Keeps-require _ _) λ _. Keeps-bind _ _ (Keeps-read _) λ step.
            Keeps-bind _ _ (Keeps-require _ _) λ _.
              Keeps-bind _ _
                (Stored-update_steps _ _
                  (misses_that_step (trim_space user) id s ns step.id step.status))
                λ n. Keeps-bind _ _ (Keeps-require_rows n _) λ _.
                  Keeps-bind _ _
                    (Stored-update_tasks _ _
                      (misses_that_task (trim_space user) id t nt task.status task.run_version))
                    λ m. Keeps-require_rows m _

    cancel_owned_task-Stored : Keeps (Stored t s) (cancel_owned_task g user id)
    unfolding cancel_owned_task
    cancel_owned_task-Stored = Keeps-bind _ _ (Stored-database g) λ _.
        Keeps-bind _ _ (Keeps-require _ _) λ _.
          Keeps-bind _ _ (Keeps-read _)
            λ task. cancel_by_status-Stored (trim_space user) id nt ns task.status g task

  owned_call-Stored :
      (g : GormStore) (user id : Str) (c : OwnedCall)
      → p.same t.user_name user ≡ false
      → p.same t.user_name (trim_space user) ≡ false
      → p.same s.user_name user ≡ false
      → p.same s.user_name (trim_space user) ≡ false
      → Keeps (Stored t s) (owned_call g user id c)
  unfolding owned_call
  owned_call-Stored g user id (update u) nt nt' ns ns' = update_owned_task-Stored g user id nt ns u
  owned_call-Stored g user id (decide_step step decision reason digest) nt nt' ns ns' =
      Keeps-bind _ _ (decision-Stored g user id nt' ns' step decision reason digest)
        (λ _. Keeps-pure tt)
  owned_call-Stored g user id (resume retry) nt nt' ns ns' =
      resume_owned_task-Stored g user id nt' ns' retry
  owned_call-Stored g user id cancel nt nt' ns ns' = cancel_owned_task-Stored g user id nt' ns'

  -- A call of `user` (an update, a decision, a resumption or a cancellation) that succeeds leaves
  -- every stored task and step of another user as it is, where `user` means the name as given and
  -- the name without surrounding spaces.
  pub owned_call_isolated :
      (g : GormStore) (user id : Str) (c : OwnedCall) (d d' : p.Db)
      → p.same t.user_name user ≡ false
      → p.same t.user_name (trim_space user) ≡ false
      → p.same s.user_name user ≡ false
      → p.same s.user_name (trim_space user) ≡ false
      → owned_call g user id c d ≡ ok (d', tt)
      → Memᴰ t (p.tasks d)
      → Memᴰ s (p.steps d)
      → Memᴰ t (p.tasks d') × Memᴰ s (p.steps d')
  owned_call_isolated g user id c d d' nt nt' ns ns' h mt ms =
      let kept =
        (owned_call-Stored g user id c nt nt' ns ns').at d d' tt h
          (record { task = mt; step = ms }) in
      (kept.task, kept.step)
