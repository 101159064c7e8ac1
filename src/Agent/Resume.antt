-- ===== src/Agent/Resume.antt =====
-- dao/agent/agent.go: resumption and cancellation by the owner.
use haruka_ai.Base.{
  ℕ, ◌+◌, ◌==◌, if◌then◌else◌, Bool, true, false, not, ◌&&◌, ◌||◌, List, [], ◌∷◌, none, some, Str,
  codes, is_blank, is_empty, trim_space, Exec, pure, raise, ◌>>=◌, ◌>>◌, require, require_rows,
  read, or_conflict, invalid_input, conflict,
}
use haruka_ai.Agent.Model.{
  AgentTask, AgentStep, TaskStatus, StepStatus, StepKind, task_status_eq, step_status_eq,
}
use haruka_ai.Agent.Platform.{Platform}
use haruka_ai.Agent.Fence.{GormStore, database}
use haruka_ai.Agent.Plan.{owned_by}

unfoldable pub task_can_resume : TaskStatus → Bool → Bool
task_can_resume status retry_unknown =
    task_status_eq status TaskStatus.failed
    || (task_status_eq status TaskStatus.requires_review && retry_unknown)

unfoldable pub step_can_resume : StepStatus → Bool → Bool
step_can_resume status retry_unknown =
    step_status_eq status StepStatus.failed
    || (step_status_eq status StepStatus.execution_unknown && retry_unknown)

abbrev pub replayable_kind : StepKind → Bool
replayable_kind StepKind.plan = true
replayable_kind StepKind.final = true
replayable_kind _ = false

unfoldable pub step_can_replay_after_crash : AgentStep → Bool
step_can_replay_after_crash step =
    replayable_kind step.kind || (not step.destructive && (step.read_only || step.idempotent))

unfoldable pub requeue_step : ℕ → AgentStep → AgentStep
requeue_step now s = record s {
  status = StepStatus.pending;
  started_at = none;
  finished_at = none;
  error_message = [];
  updated_at = now;
}

unfoldable pub requeue_task : Str → ℕ → AgentTask → AgentTask
requeue_task step_id now t = record t {
  status = TaskStatus.pending;
  current_step_id = step_id;
  run_version = t.run_version + 1;
  checkpoint = [];
  checkpoint_version = t.checkpoint_version + 1;
  lease_owner = [];
  lease_until = none;
  heartbeat_at = none;
  finished_at = none;
  error_message = [];
  updated_at = now;
}

-- A call that may have been sent is not known to have had no effect.
unfoldable pub is_uncertain : AgentStep → Bool
unfolding step_can_replay_after_crash
is_uncertain step =
    step_status_eq step.status StepStatus.running && not (step_can_replay_after_crash step)

unfoldable pub cancel_step : Bool → ℕ → AgentStep → AgentStep
cancel_step uncertain now s = record s {
  status = if uncertain then StepStatus.execution_unknown else StepStatus.skipped;
  finished_at = some now;
  error_message =
      if uncertain then codes "tool execution outcome is unknown after cancellation" else [];
  updated_at = now;
}

unfoldable pub cancel_task : Bool → ℕ → AgentTask → AgentTask
cancel_task uncertain now t = record t {
  status = TaskStatus.cancelled;
  run_version = t.run_version + 1;
  lease_owner = [];
  lease_until = none;
  heartbeat_at = none;
  finished_at = some now;
  error_message =
      if uncertain
      then codes
          "task was cancelled while a non-idempotent tool was running; its outcome may be unknown"
      else [];
  updated_at = now;
}

unfoldable pub is_active : StepStatus → Bool
is_active StepStatus.pending = true
is_active StepStatus.running = true
is_active StepStatus.waiting_approval = true
is_active StepStatus.approved = true
is_active _ = false

module _ ⦃p : Platform⦄ where
  unfoldable pub owned_step : Str → Str → AgentStep → Bool
  owned_step user task_id s = p.same s.task_id task_id && p.same s.user_name user

  unfoldable pub resumable_step : Str → Str → Str → Bool → AgentStep → Bool
  resumable_step user task_id current retry_unknown s =
      owned_step user task_id s
      && step_can_resume s.status retry_unknown
      && (is_empty current || p.same s.id current)

  -- The row that the call has read and locked, by its identity and status.
  unfoldable pub that_step : Str → Str → Str → StepStatus → AgentStep → Bool
  that_step step_id user task_id status s =
      p.same s.id step_id && owned_step user task_id s && step_status_eq s.status status

  unfoldable pub that_task : Str → Str → TaskStatus → ℕ → AgentTask → Bool
  that_task user task_id status run_version t =
      owned_by user task_id t && task_status_eq t.status status && t.run_version == run_version

  unfoldable pub resume_owned_task : GormStore → Str → Str → Bool → Exec p.Db (Unit {0})
  resume_owned_task store user_name task_id retry_unknown = do
    database store
    let user = trim_space user_name
    require (not (is_empty user || is_blank task_id)) invalid_input
    task ← read (p.first_task (owned_by user task_id))
    require (task_can_resume task.status retry_unknown) conflict
    step ← read (λ d.
        or_conflict
          (p.first_step (resumable_step user task_id task.current_step_id retry_unknown) d))
    require (step_can_resume step.status retry_unknown) conflict
    reset ← p.update_steps (that_step step.id user task_id step.status) (requeue_step store.now)
    require_rows reset conflict
    affected ←
        p.update_tasks (that_task user task_id task.status task.run_version)
          (requeue_task step.id store.now)
    require_rows affected conflict

  -- The loop over the active steps; the result says whether an outcome is unknown.
  unfoldable pub cancel_steps : Str → Str → ℕ → Bool → List AgentStep → Exec p.Db Bool
  cancel_steps user task_id now uncertain [] = pure uncertain
  cancel_steps user task_id now uncertain (step ∷ steps) =
      p.update_steps (that_step step.id user task_id step.status)
        (cancel_step (is_uncertain step) now)
      >> cancel_steps user task_id now (uncertain || is_uncertain step) steps

  unfoldable pub cancel_active : GormStore → Str → Str → AgentTask → Exec p.Db (Unit {0})
  cancel_active store user task_id task = do
    active ← read (p.find_steps (λ s. owned_step user task_id s && is_active s.status))
    uncertain ← cancel_steps user task_id store.now false active
    affected ←
        p.update_tasks (that_task user task_id task.status task.run_version)
          (cancel_task uncertain store.now)
    require_rows affected conflict

  unfoldable pub cancel_by_status :
      TaskStatus → GormStore → Str → Str → AgentTask → Exec p.Db (Unit {0})
  cancel_by_status TaskStatus.cancelled store user task_id task = pure tt
  cancel_by_status TaskStatus.succeeded store user task_id task = raise conflict
  cancel_by_status TaskStatus.rejected store user task_id task = raise conflict
  cancel_by_status _ store user task_id task = cancel_active store user task_id task

  unfoldable pub cancel_owned_task : GormStore → Str → Str → Exec p.Db (Unit {0})
  cancel_owned_task store user_name task_id = do
    database store
    let user = trim_space user_name
    require (not (is_empty user || is_blank task_id)) invalid_input
    task ← read (p.first_task (owned_by user task_id))
    cancel_by_status task.status store user task_id task
