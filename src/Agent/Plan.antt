-- ===== src/Agent/Plan.antt =====
-- dao/agent/agent.go: the plan of a task, its further steps, and updates by a caller's map.
use haruka_ai.Base.{
  ℕ, ◌+◌, ◌==◌, ltb, if◌then◌else◌, Bool, true, false, not, ◌&&◌, ◌||◌, List, [], ◌∷◌, Option, none,
  some, Str, codes, is_blank, is_empty, str_eq, Exec, pure, ◌>>=◌, ◌>>◌, require, require_rows,
  read, or_conflict, invalid_input, conflict, record_not_found,
}
use haruka_ai.Agent.Model.{
  AgentTask, AgentStep, TaskStatus, StepStatus, StepKind, ApprovalDecision, is_plan,
}
use haruka_ai.Agent.Platform.{Platform, column_key}
use haruka_ai.Agent.Fence.{GormStore, Context, database, active_lease_fenced}
use haruka_ai.Agent.Tasks.{lease_renewable, coalesce}

unfoldable pub kind_or_tool : StepKind → StepKind
kind_or_tool StepKind.no_kind = StepKind.tool
kind_or_tool k = k

unfoldable pub normalize_plan_step : AgentTask → Str → ℕ → AgentStep → AgentStep
unfolding is_empty kind_or_tool
normalize_plan_step task new_id sequence step = record step {
  id = if is_empty step.id then new_id else step.id;
  task_id = task.id;
  user_name = task.user_name;
  sequence = sequence;
  kind = kind_or_tool step.kind;
  status = StepStatus.pending;
  attempts = 0;
  error_message = [];
  approval_decision = ApprovalDecision.pending;
  approval_reason = [];
  approval_decided_at = none;
  mcp_request_id = [];
  operation_id = [];
  tool_output_json = [];
  result_summary = [];
  started_at = none;
  finished_at = none;
  created_at = 0;
  updated_at = 0;
}

-- `uuid k` is the identifier that the k-th call of uuid.NewString gives.
unfoldable pub normalize_from : (ℕ → Str) → AgentTask → ℕ → List AgentStep → List AgentStep
normalize_from uuid task index [] = []
normalize_from uuid task index (step ∷ steps) =
    normalize_plan_step task (uuid index) (index + 1) step
    ∷ normalize_from uuid task (index + 1) steps

unfoldable pub normalize_plan_steps : (ℕ → Str) → AgentTask → List AgentStep → List AgentStep
unfolding normalize_from
normalize_plan_steps uuid task steps = normalize_from uuid task 0 steps

-- `normalized[index].Sequence = maximumSequence + index + 1`
unfoldable pub resequence : ℕ → ℕ → List AgentStep → List AgentStep
resequence maximum index [] = []
resequence maximum index (step ∷ steps) =
    record step { sequence = maximum + index + 1 } ∷ resequence maximum (index + 1) steps

unfoldable pub first_id : List AgentStep → Str
first_id [] = []
first_id (step ∷ steps) = step.id

unfoldable pub summary_or : Str → Option Str → Str
summary_or old none = old
summary_or old (some summary) = summary

unfoldable pub plan_done : ℕ → AgentStep → AgentStep
plan_done now s = record s {
  status = StepStatus.succeeded;
  started_at = coalesce s.started_at now;
  finished_at = some now;
  error_message = [];
  updated_at = now;
}

unfoldable pub save_plan_set : ℕ → Str → Option Str → AgentTask → AgentTask
unfolding summary_or
save_plan_set now current_step_id summary t = record t {
  status = TaskStatus.running;
  current_step_id = current_step_id;
  error_message = [];
  plan_summary = summary_or t.plan_summary summary;
  updated_at = now;
}

abbrev pub Updates : Type 0 → Type 0
Updates V = List (Str × V)

unfoldable pub in_columns : Str → List Str → Bool
unfolding str_eq
in_columns name [] = false
in_columns name (column ∷ columns) = str_eq name column || in_columns name columns

-- Blank and protected column names are dropped.
unfoldable pub keeps_column : (ℕ → ℕ) → List Str → Str → Bool
unfolding is_empty in_columns
keeps_column lower immutable key =
    let normalized = column_key lower key in
    not (is_empty normalized) && not (in_columns normalized immutable)

unfoldable pub sanitized_updates : {V : Type 0} → (ℕ → ℕ) → Updates V → List Str → Updates V
sanitized_updates lower [] immutable = []
sanitized_updates lower ((key, value) ∷ rest) immutable =
    let others = sanitized_updates lower rest immutable in
    if keeps_column lower immutable key then (key, value) ∷ others else others

unfoldable pub no_updates : {V : Type 0} → Updates V → Bool
no_updates [] = true
no_updates (u ∷ us) = false

abbrev pub immutable_task_columns : List Str
immutable_task_columns =
    codes "id"
    ∷ codes "user_name"
    ∷ codes "username"
    ∷ codes "created_at"
    ∷ codes "createdat"
    ∷ codes "run_version"
    ∷ codes "runversion"
    ∷ codes "checkpoint"
    ∷ codes "checkpoint_version"
    ∷ codes "checkpointversion"
    ∷ []

abbrev pub immutable_step_columns : List Str
immutable_step_columns =
    codes "id"
    ∷ codes "task_id"
    ∷ codes "taskid"
    ∷ codes "user_name"
    ∷ codes "username"
    ∷ codes "sequence"
    ∷ codes "created_at"
    ∷ codes "createdat"
    ∷ codes "tool_name"
    ∷ codes "toolname"
    ∷ codes "tool_arguments_json"
    ∷ codes "toolargumentsjson"
    ∷ codes "arguments_digest"
    ∷ codes "argumentsdigest"
    ∷ codes "risk_level"
    ∷ codes "risklevel"
    ∷ codes "requires_approval"
    ∷ codes "requiresapproval"
    ∷ codes "read_only"
    ∷ codes "readonly"
    ∷ codes "idempotent"
    ∷ codes "destructive"
    ∷ codes "approval_decision"
    ∷ codes "approvaldecision"
    ∷ []

module _ ⦃p : Platform⦄ where
  -- The entries of a map one after the other, then `updated_at`.
  unfoldable pub assign_task_columns : Updates p.Value → AgentTask → AgentTask
  assign_task_columns [] t = t
  assign_task_columns ((column, value) ∷ rest) t =
      assign_task_columns rest (p.assign_task column value t)

  unfoldable pub assign_step_columns : Updates p.Value → AgentStep → AgentStep
  assign_step_columns [] s = s
  assign_step_columns ((column, value) ∷ rest) s =
      assign_step_columns rest (p.assign_step column value s)

  unfoldable pub update_task_set : ℕ → Updates p.Value → AgentTask → AgentTask
  update_task_set now updates t = record (assign_task_columns updates t) { updated_at = now }

  unfoldable pub update_step_set : ℕ → Updates p.Value → AgentStep → AgentStep
  update_step_set now updates s = record (assign_step_columns updates s) { updated_at = now }

  unfoldable pub stale_plan_where : Str → AgentStep → Bool
  stale_plan_where task_id s = p.same s.task_id task_id && ltb 0 s.sequence

  unfoldable pub plan_step_where : Str → AgentStep → Bool
  plan_step_where task_id s = p.same s.task_id task_id && s.sequence == 0 && is_plan s.kind

  unfoldable pub create_if_any : List AgentStep → Exec p.Db (Unit {0})
  create_if_any [] = pure tt
  create_if_any (s ∷ steps) = p.create_steps (s ∷ steps)

  unfoldable pub save_plan :
      GormStore → Context → Str → ℕ → Option Str → List AgentStep → Exec p.Db (Unit {0})
  save_plan store ctx task_id run_version summary steps = do
    database store
    require (not (is_blank task_id || run_version == 0)) invalid_input
    let fenced = active_lease_fenced ctx task_id run_version store.now
    task ← read (λ d. or_conflict (p.first_task fenced d))
    require (lease_renewable task.status) conflict
    p.delete_steps (stale_plan_where task_id)
    planned ← p.update_steps (plan_step_where task_id) (plan_done store.now)
    require_rows planned conflict
    let normalized = normalize_plan_steps p.uuid task steps
    create_if_any normalized
    affected ← p.update_tasks fenced (save_plan_set store.now (first_id normalized) summary)
    require_rows affected conflict

  unfoldable pub same_generation : Str → ℕ → AgentTask → Bool
  same_generation task_id run_version t = p.same t.id task_id && t.run_version == run_version

  unfoldable pub create_steps_fenced : GormStore → Str → ℕ → List AgentStep → Exec p.Db (Unit {0})
  create_steps_fenced store task_id run_version [] = do database store; require false invalid_input
  create_steps_fenced store task_id run_version (step ∷ steps) = do
    database store
    require (not (is_blank task_id || run_version == 0)) invalid_input
    task ← read (λ d. or_conflict (p.first_task (same_generation task_id run_version) d))
    maximum ← read (p.max_sequence (λ s. p.same s.task_id task_id))
    p.create_steps (resequence maximum 0 (normalize_plan_steps p.uuid task (step ∷ steps)))

  unfoldable pub update_task_fenced :
      GormStore → Context → Str → ℕ → Updates p.Value → Exec p.Db (Unit {0})
  update_task_fenced store ctx task_id run_version source = do
    database store
    require (not (is_blank task_id || run_version == 0 || no_updates source)) invalid_input
    let updates = sanitized_updates p.lower_table source immutable_task_columns
    require (not (no_updates updates)) invalid_input
    affected ←
        p.update_tasks (active_lease_fenced ctx task_id run_version store.now)
          (update_task_set store.now updates)
    require_rows affected conflict

  unfoldable pub step_of : Str → Str → AgentStep → Bool
  step_of step_id task_id s = p.same s.id step_id && p.same s.task_id task_id

  unfoldable pub update_step_fenced :
      GormStore → Context → Str → Str → ℕ → Updates p.Value → Exec p.Db (Unit {0})
  update_step_fenced store ctx task_id step_id run_version source = do
    database store
    require (not (is_blank task_id || is_blank step_id || run_version == 0 || no_updates source))
        invalid_input
    let updates = sanitized_updates p.lower_table source immutable_step_columns
    require (not (no_updates updates)) invalid_input
    task ←
        read (λ d.
          or_conflict (p.first_task (active_lease_fenced ctx task_id run_version store.now) d))
    affected ← p.update_steps (step_of step_id task_id) (update_step_set store.now updates)
    require_rows affected record_not_found

  unfoldable pub owned_by : Str → Str → AgentTask → Bool
  owned_by user_name task_id t = p.same t.id task_id && p.same t.user_name user_name

  unfoldable pub update_owned_task : GormStore → Str → Str → Updates p.Value → Exec p.Db (Unit {0})
  update_owned_task store user_name task_id source = do
    database store
    require (not (is_blank user_name || is_blank task_id || no_updates source)) invalid_input
    let updates = sanitized_updates p.lower_table source immutable_task_columns
    require (not (no_updates updates)) invalid_input
    affected ← p.update_tasks (owned_by user_name task_id) (update_task_set store.now updates)
    require_rows affected record_not_found
