-- ===== src/Agent/Tasks.antt =====
-- dao/agent/agent.go: the creation of a task, the reads, and the lease of a worker.
use haruka_ai.Base.{
  ℕ, ◌+◌, ◌==◌, ltb, if◌then◌else◌, Bool, true, false, not, ◌&&◌, ◌||◌, List, [], ◌∷◌, Option, none,
  some, Str, is_blank, is_empty, str_eq, trim_space, ℤ, positive_or, not_negative, Result, ok, err,
  Exec, pure, raise, ◌>>=◌, ◌>>◌, require, require_rows, read, Error, invalid_input, conflict,
}
use haruka_ai.Agent.Model.{
  AgentTask, AgentStep, LoadedTask, TaskStatus, StepStatus, StepKind, ApprovalDecision,
  task_status_eq,
}
use haruka_ai.Agent.Platform.{Platform, newest_first, oldest_first}
use haruka_ai.Agent.Fence.{GormStore, database, is_after}

abbrev pub default_lease_duration : ℕ
default_lease_duration = 120_000_000_000

abbrev pub default_task_list_limit : ℕ
default_task_list_limit = 50

abbrev pub max_task_list_limit : ℕ
max_task_list_limit = 200

abbrev pub default_pending_limit : ℕ
default_pending_limit = 20

unfoldable pub initial_task : AgentTask → Str → AgentTask
initial_task task step_id = record task {
  status = TaskStatus.pending;
  current_step_id = step_id;
  plan_summary = [];
  final_answer = [];
  error_message = [];
  checkpoint = [];
  checkpoint_version = 0;
  run_version = 0;
  attempts = 0;
  lease_owner = [];
  lease_until = none;
  heartbeat_at = none;
  started_at = none;
  finished_at = none;
}

unfoldable pub initial_step : AgentTask → AgentStep → Str → AgentStep
initial_step task step new_id = record step {
  id = if is_empty step.id then new_id else step.id;
  task_id = task.id;
  user_name = task.user_name;
  sequence = 0;
  kind = StepKind.plan;
  status = StepStatus.pending;
  attempts = 0;
  error_message = [];
  tool_name = [];
  tool_arguments_json = [];
  arguments_digest = [];
  arguments_preview = [];
  tool_output_json = [];
  result_summary = [];
  risk_level = [];
  requires_approval = false;
  read_only = false;
  idempotent = false;
  destructive = false;
  approval_decision = ApprovalDecision.pending;
  approval_reason = [];
  approval_decided_at = none;
  mcp_request_id = [];
  operation_id = [];
  started_at = none;
  finished_at = none;
}

-- `limit <= 0` means the default, and no limit passes the maximum.
unfoldable pub clamp_limit : ℕ → ℤ → ℕ
unfolding positive_or
clamp_limit fallback limit =
    let n = positive_or fallback limit in
    if ltb max_task_list_limit n then max_task_list_limit else n

-- `COALESCE(column, ?)`
abbrev pub coalesce : Option ℕ → ℕ → Option ℕ
coalesce none now = some now
coalesce (some t) now = some t

unfoldable pub lease_renewable : TaskStatus → Bool
lease_renewable TaskStatus.running = true
lease_renewable TaskStatus.planning = true
lease_renewable _ = false

-- `ClaimTask` returns `nil, false, nil` for a lost race. Its read comes after the update is
-- committed, so an error there leaves the claim in place.
pub data Claim : Type 0 where
  lost : Claim
  claimed : LoadedTask → Claim
  unread : Error → Claim

unfoldable pub claim_set : Str → ℕ → ℕ → AgentTask → AgentTask
claim_set worker_id now lease_until t = record t {
  status = TaskStatus.running;
  attempts = t.attempts + 1;
  run_version = t.run_version + 1;
  lease_owner = worker_id;
  lease_until = some lease_until;
  heartbeat_at = some now;
  started_at = coalesce t.started_at now;
  finished_at = none;
  error_message = [];
  updated_at = now;
}

unfoldable pub renew_set : ℕ → ℕ → AgentTask → AgentTask
renew_set now lease_until t = record t {
  lease_until = some lease_until;
  heartbeat_at = some now;
  updated_at = now;
}

module _ ⦃p : Platform⦄ where
  -- `initialStep.TaskID` and `.UserName`, when given, must be the task's.
  unfoldable pub create_task_with_initial_step :
      GormStore → Option AgentTask → Option AgentStep → Exec p.Db (Unit {0})
  unfolding is_blank is_empty str_eq
  create_task_with_initial_step store none step = do database store; raise invalid_input
  create_task_with_initial_step store (some task) none = do database store; raise invalid_input
  create_task_with_initial_step store (some task) (some step) = do
    database store
    require (not (is_blank task.id || is_blank task.user_name)) invalid_input
    require (is_empty step.task_id || str_eq step.task_id task.id) conflict
    require (is_empty step.user_name || str_eq step.user_name task.user_name) conflict
    let first = initial_step task step (p.uuid 0)
    p.create_task (initial_task task first.id)
    p.create_steps (first ∷ [])

  unfoldable pub load_task : (AgentTask → Bool) → p.Db → Result LoadedTask
  load_task w d = elim (p.first_task w d) [
    | err e ↦ err e
    | ok task ↦ elim (p.find_steps (λ s. p.same s.task_id task.id) d) [
      | err e ↦ err e
      | ok steps ↦ ok (record { task = task; loaded_steps = steps })
    ]
  ]

  unfoldable pub get_owned_task : GormStore → Str → Str → Exec p.Db LoadedTask
  get_owned_task store user_name task_id = do
    database store
    require (not (is_blank user_name || is_blank task_id)) invalid_input
    read (load_task (λ t. p.same t.id task_id && p.same t.user_name user_name))

  unfoldable pub get_task_by_id : GormStore → Str → Exec p.Db LoadedTask
  get_task_by_id store task_id = do
    database store
    require (not (is_blank task_id)) invalid_input
    read (load_task (λ t. p.same t.id task_id))

  unfoldable pub list_owned_tasks : GormStore → Str → ℤ → ℤ → Exec p.Db (List AgentTask × ℕ)
  list_owned_tasks store user_name offset limit = do
    database store
    let user = trim_space user_name
    require (not (is_empty user)) invalid_input
    total ← read (p.count_tasks (λ t. p.same t.user_name user))
    page ← read (
        p.find_tasks (λ t. p.same t.user_name user) newest_first (not_negative offset)
          (clamp_limit default_task_list_limit limit))
    pure (page, total)

  unfoldable pub list_pending_task_ids : GormStore → ℤ → Exec p.Db (List Str)
  list_pending_task_ids store limit = do
    database store
    tasks ← read (
        p.find_tasks (λ t. task_status_eq t.status TaskStatus.pending) oldest_first 0
          (clamp_limit default_pending_limit limit))
    pure (mathlib.Core.List.map (λ t. t.id) tasks)

  unfoldable pub claim_where : Str → AgentTask → Bool
  claim_where task_id t = p.same t.id task_id && task_status_eq t.status TaskStatus.pending

  unfoldable pub claim_of : p.Db → Result (p.Db × LoadedTask) → Result (p.Db × Claim)
  claim_of d (err e) = ok (d, unread e)
  claim_of d (ok (d', t)) = ok (d', claimed t)

  unfoldable pub read_claim : GormStore → Str → Exec p.Db Claim
  unfolding claim_of
  read_claim store task_id d = claim_of d (get_task_by_id store task_id d)

  unfoldable pub after_claim : GormStore → Str → ℕ → Exec p.Db Claim
  after_claim store task_id affected = if affected == 0 then pure lost else read_claim store task_id

  unfoldable pub claim_task : GormStore → Str → Str → ℤ → Exec p.Db Claim
  claim_task store task_id worker_id lease_duration = do
    database store
    require (not (is_blank task_id || is_blank worker_id)) invalid_input
    let until = store.now + positive_or default_lease_duration lease_duration
    affected ← p.update_tasks (claim_where task_id) (claim_set worker_id store.now until)
    after_claim store task_id affected

  unfoldable pub renew_where : Str → ℕ → Str → ℕ → AgentTask → Bool
  renew_where task_id run_version worker_id now t =
      p.same t.id task_id
      && t.run_version == run_version
      && p.same t.lease_owner worker_id
      && is_after t.lease_until now
      && lease_renewable t.status

  unfoldable pub renew_lease_fenced : GormStore → Str → ℕ → Str → ℤ → Exec p.Db (Unit {0})
  renew_lease_fenced store task_id run_version worker_id lease_duration = do
    database store
    require (not (is_blank task_id || run_version == 0 || is_blank worker_id)) invalid_input
    let until = store.now + positive_or default_lease_duration lease_duration
    affected ←
        p.update_tasks (renew_where task_id run_version worker_id store.now)
          (renew_set store.now until)
    require_rows affected conflict
