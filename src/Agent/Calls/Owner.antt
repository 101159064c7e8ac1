-- ===== src/Agent/Calls/Owner.antt =====
-- dao/agent/agent.go: the calls of a task's owner keep an ended generation ended.
use haruka_ai.Base.{◌||◌, ℕ, Bool, List, [], ◌∷◌, Option, none, some, Str, Exec}
use haruka_ai.Base.Keeps.{Keeps, Keeps-pure, Keeps-raise, Keeps-bind, Keeps-require, keeps_rules}
use haruka_ai.Agent.Model.{AgentTask, AgentStep, TaskStatus}
use haruka_ai.Agent.Platform.{Platform, Lawful}
use haruka_ai.Agent.Fence.{GormStore, database}
use haruka_ai.Agent.Superseded.{Superseded}
use haruka_ai.Agent.Superseded.Rules.{
  Keeps-update_tasks, Keeps-update_steps, Keeps-create_steps, Keeps-create_task,
}
use haruka_ai.Agent.Columns.{PlainKeys}
use haruka_ai.Agent.Plan.{Updates, update_owned_task}
use haruka_ai.Agent.Tasks.{create_task_with_initial_step}
use haruka_ai.Agent.Review.{decide, update_owned_step_decision, by_decision}
use haruka_ai.Agent.Resume.{
  resume_owned_task, cancel_steps, cancel_active, cancel_by_status, cancel_owned_task, is_uncertain,
}
use haruka_ai.Agent.Calls.Forward.{forward_rules, update_task_set-Forward}

module _ ⦃p : Platform⦄ (lawful : Lawful p) {id : Str} {v : ℕ} where
  Keeps-database : (store : GormStore) → Keeps (Superseded id v) (database store)
  unfolding database
  Keeps-database store = Keeps-require _ _

  pub create_task_with_initial_step-Keeps :
      (store : GormStore) (task : Option AgentTask) (step : Option AgentStep)
      → Keeps (Superseded id v) (create_task_with_initial_step store task step)
  unfolding create_task_with_initial_step
  create_task_with_initial_step-Keeps store none step = search (keeps_rules, Keeps-database)
  create_task_with_initial_step-Keeps store (some task) none = search (keeps_rules, Keeps-database)
  create_task_with_initial_step-Keeps store (some task) (some step) =
      search (keeps_rules, Keeps-database, Keeps-create_task lawful, Keeps-create_steps lawful)
        depth 12

  pub update_owned_task-Keeps :
      (store : GormStore) (user task_id : Str) (source : Updates p.Value)
      → PlainKeys source
      → Keeps (Superseded id v) (update_owned_task store user task_id source)
  unfolding update_owned_task
  update_owned_task-Keeps store user task_id source plain =
      search
        (
          keeps_rules,
          Keeps-database,
          Keeps-update_tasks lawful,
          update_task_set-Forward lawful _ source plain,
        )
        depth 12

  pub decide-Keeps :
      (store : GormStore) (user task_id step_id : Str) (approve : Bool) (reason digest : Str)
      → Keeps (Superseded id v) (decide store user task_id step_id approve reason digest)
  unfolding decide
  decide-Keeps store user task_id step_id approve reason digest =
      search (keeps_rules, forward_rules, Keeps-update_tasks lawful, Keeps-update_steps lawful)
        depth 16

  pub resume_owned_task-Keeps :
      (store : GormStore) (user task_id : Str) (retry : Bool)
      → Keeps (Superseded id v) (resume_owned_task store user task_id retry)
  unfolding resume_owned_task
  resume_owned_task-Keeps store user task_id retry =
      search
        (
          keeps_rules,
          forward_rules,
          Keeps-database,
          Keeps-update_tasks lawful,
          Keeps-update_steps lawful,
        )
        depth 18

  pub cancel_steps-Keeps :
      (user task_id : Str) (now : ℕ) (l : List AgentStep) (u : Bool)
      → Keeps (Superseded id v) (cancel_steps user task_id now u l)
  unfolding cancel_steps
  cancel_steps-Keeps user task_id now [] u = Keeps-pure u
  cancel_steps-Keeps user task_id now (s ∷ l) u =
      Keeps-bind _ _ (Keeps-update_steps lawful _ _)
        (λ _. cancel_steps-Keeps user task_id now l (u || is_uncertain s))

  pub cancel_active-Keeps :
      (store : GormStore) (user task_id : Str) (task : AgentTask)
      → Keeps (Superseded id v) (cancel_active store user task_id task)
  unfolding cancel_active
  cancel_active-Keeps store user task_id task =
      search (keeps_rules, forward_rules, Keeps-update_tasks lawful, cancel_steps-Keeps) depth 12

  pub cancel_by_status-Keeps :
      (s : TaskStatus) (store : GormStore) (user task_id : Str) (task : AgentTask)
      → Keeps (Superseded id v) (cancel_by_status s store user task_id task)
  unfolding cancel_by_status
  cancel_by_status-Keeps TaskStatus.cancelled store user task_id task = Keeps-pure tt
  cancel_by_status-Keeps TaskStatus.succeeded store user task_id task = Keeps-raise _
  cancel_by_status-Keeps TaskStatus.rejected store user task_id task = Keeps-raise _
  cancel_by_status-Keeps _ store user task_id task = cancel_active-Keeps store user task_id task

  pub cancel_owned_task-Keeps :
      (store : GormStore) (user task_id : Str)
      → Keeps (Superseded id v) (cancel_owned_task store user task_id)
  unfolding cancel_owned_task
  cancel_owned_task-Keeps store user task_id =
      search (keeps_rules, Keeps-database, cancel_by_status-Keeps) depth 12

  by_decision-Keeps :
      (o : Option Bool) (f : Bool → Exec p.Db AgentStep)
      → ((b : Bool) → Keeps (Superseded id v) (f b))
      → Keeps (Superseded id v) (by_decision o f)
  unfolding by_decision
  by_decision-Keeps none f k = Keeps-raise _
  by_decision-Keeps (some b) f k = k b

  pub update_owned_step_decision-Keeps :
      (store : GormStore) (user task_id step_id decision reason digest : Str)
      → Keeps
          (Superseded id v)
          (update_owned_step_decision store user task_id step_id decision reason digest)
  unfolding update_owned_step_decision
  update_owned_step_decision-Keeps store user task_id step_id decision reason digest =
      search (keeps_rules, Keeps-database, by_decision-Keeps, decide-Keeps) depth 12
