-- ===== src/Agent/Review.antt =====
-- dao/agent/agent.go: pauses for review and the human decision on a step.
use haruka_ai.Base.{
  ℕ, ◌+◌, ◌==◌, leb, if◌then◌else◌, Bool, true, false, not, ◌&&◌, ◌||◌, [], Option, none, some, Str,
  codes, is_blank, is_empty, str_eq, trim_space, to_lower, Exec, raise, ◌>>=◌, ◌>>◌, require,
  require_rows, read, or_conflict, invalid_input, conflict, length, take,
}
use haruka_ai.Agent.Model.{
  AgentTask, AgentStep, TaskStatus, StepStatus, ApprovalDecision, is_tool, task_status_eq,
  step_status_eq, is_open_decision,
}
use haruka_ai.Agent.Platform.{Platform}
use haruka_ai.Agent.Fence.{GormStore, Context, database, active_lease_fenced}
use haruka_ai.Agent.Plan.{owned_by, step_of}

unfoldable pub truncate_runes : Str → ℕ → Str
truncate_runes value maximum =
    if leb maximum 0 || is_empty value
    then []
    else (if leb (length value) maximum then value else take maximum value)

abbrev pub max_approval_reason_runes : ℕ
max_approval_reason_runes = 500

unfoldable pub message_or : Str → Str → Str
unfolding truncate_runes trim_space is_empty
message_or fallback message =
    let m = truncate_runes (trim_space message) 1000 in if is_empty m then fallback else m

unfoldable pub unknown_set : ℕ → Str → AgentStep → AgentStep
unknown_set now message s = record s {
  status = StepStatus.execution_unknown;
  finished_at = some now;
  error_message = message;
  updated_at = now;
}

unfoldable pub review_set : ℕ → Str → Str → AgentTask → AgentTask
review_set now step_id message t = record t {
  status = TaskStatus.requires_review;
  current_step_id = step_id;
  run_version = t.run_version + 1;
  lease_owner = [];
  lease_until = none;
  heartbeat_at = none;
  finished_at = none;
  error_message = message;
  updated_at = now;
}

-- The safety policy that `MarkPolicyReviewFenced` writes into a step.
pub record Policy : Type 0 where
  pub risk : Str
  pub requires_approval : Bool
  pub read_only : Bool
  pub idempotent : Bool
  pub destructive : Bool

unfoldable pub policy_set : ℕ → Str → Policy → AgentStep → AgentStep
unfolding truncate_runes trim_space
policy_set now message policy s = record s {
  status = StepStatus.execution_unknown;
  risk_level = truncate_runes (trim_space policy.risk) 16;
  requires_approval = policy.requires_approval;
  read_only = policy.read_only;
  idempotent = policy.idempotent;
  destructive = policy.destructive;
  approval_decision = ApprovalDecision.pending;
  approval_reason = [];
  approval_decided_at = none;
  finished_at = some now;
  error_message = message;
  updated_at = now;
}

-- `strings.TrimSpace(strings.ToLower(decision))`, if it is one of the two that a human may take.
unfoldable pub parse_decision : (ℕ → ℕ) → Str → Option Bool
unfolding to_lower trim_space str_eq
parse_decision lower decision =
    let d = trim_space (to_lower lower decision) in
    if str_eq d (codes "approved")
    then some true
    else (if str_eq d (codes "rejected") then some false else none)

unfoldable pub decision_invalidates_run : Bool → Bool
decision_invalidates_run approve = not approve

unfoldable pub decide_step_set : Bool → Str → ℕ → AgentStep → AgentStep
decide_step_set approve reason now s = record s {
  status = if approve then StepStatus.approved else StepStatus.rejected;
  approval_decision = if approve then ApprovalDecision.approved else ApprovalDecision.rejected;
  approval_reason = reason;
  approval_decided_at = some now;
  finished_at = if approve then none else some now;
  updated_at = now;
}

unfoldable pub decide_task_set : Bool → Str → ℕ → AgentTask → AgentTask
unfolding decision_invalidates_run
decide_task_set approve step_id now t = record t {
  status = if approve then TaskStatus.pending else TaskStatus.rejected;
  current_step_id = step_id;
  lease_owner = [];
  lease_until = none;
  heartbeat_at = none;
  finished_at = if approve then none else some now;
  error_message = if approve then [] else codes "tool execution was rejected";
  updated_at = now;
  checkpoint = [];
  checkpoint_version = t.checkpoint_version + 1;
  run_version = if decision_invalidates_run approve then t.run_version + 1 else t.run_version;
}

module _ ⦃p : Platform⦄ where
  unfoldable pub running_tool : Str → Str → AgentStep → Bool
  running_tool step_id task_id s =
      p.same s.id step_id
      && p.same s.task_id task_id
      && is_tool s.kind
      && step_status_eq s.status StepStatus.running

  unfoldable pub running_fenced : Context → Str → ℕ → ℕ → AgentTask → Bool
  running_fenced ctx task_id run_version now t =
      active_lease_fenced ctx task_id run_version now t
      && task_status_eq t.status TaskStatus.running

  -- Both pauses: the step takes `set`, the task waits for a review under the next run version.
  unfoldable pub pause_for_review :
      GormStore → Context → Str → Str → ℕ → Str → (AgentStep → AgentStep) → Exec p.Db (Unit {0})
  pause_for_review store ctx task_id step_id run_version message set = do
    database store
    require (not (is_blank task_id || is_blank step_id || run_version == 0)) invalid_input
    task ←
        read (λ d. or_conflict (p.first_task (running_fenced ctx task_id run_version store.now) d))
    marked ← p.update_steps (running_tool step_id task_id) set
    require_rows marked conflict
    affected ←
        p.update_tasks
          (λ t.
            active_lease_fenced ctx task_id run_version store.now t
            && task_status_eq t.status task.status)
          (review_set store.now step_id message)
    require_rows affected conflict

  unfoldable pub mark_execution_unknown_fenced :
      GormStore → Context → Str → Str → ℕ → Str → Exec p.Db (Unit {0})
  unfolding message_or
  mark_execution_unknown_fenced store ctx task_id step_id run_version message =
      let m =
        message_or (codes "tool execution outcome is unknown; manual review is required") message in
      pause_for_review store ctx task_id step_id run_version m (unknown_set store.now m)

  unfoldable pub mark_policy_review_fenced :
      GormStore → Context → Str → Str → ℕ → Str → Policy → Exec p.Db (Unit {0})
  unfolding message_or
  mark_policy_review_fenced store ctx task_id step_id run_version message policy =
      let m =
        message_or (codes "MCP tool safety policy changed; manual review is required") message in
      pause_for_review store ctx task_id step_id run_version m (policy_set store.now m policy)

  -- An approval must name the digest of the arguments that it is for.
  unfoldable pub undecided_step : Bool → Str → Str → Str → Str → AgentStep → Bool
  undecided_step approve user_name task_id step_id digest s =
      p.same s.id step_id
      && p.same s.task_id task_id
      && p.same s.user_name user_name
      && step_status_eq s.status StepStatus.waiting_approval
      && is_open_decision s.approval_decision
      && (not approve || p.same s.arguments_digest digest)

  unfoldable pub decide : GormStore → Str → Str → Str → Bool → Str → Str → Exec p.Db AgentStep
  decide store user task_id step_id approve reason digest = do
    require (not (approve && is_empty digest)) invalid_input
    task ← read (p.first_task (owned_by user task_id))
    require (task_status_eq task.status TaskStatus.waiting_approval) conflict
    decided ←
        p.update_steps (undecided_step approve user task_id step_id digest)
          (decide_step_set approve reason store.now)
    require_rows decided conflict
    affected ←
        p.update_tasks
          (λ t. owned_by user task_id t && task_status_eq t.status TaskStatus.waiting_approval)
          (decide_task_set approve step_id store.now)
    require_rows affected conflict
    read (p.first_step (λ s. step_of step_id task_id s && p.same s.user_name user))

  -- Any other decision is invalid input.
  unfoldable pub by_decision : Option Bool → (Bool → Exec p.Db AgentStep) → Exec p.Db AgentStep
  by_decision none f = raise invalid_input
  by_decision (some approve) f = f approve

  unfoldable pub update_owned_step_decision :
      GormStore → Str → Str → Str → Str → Str → Str → Exec p.Db AgentStep
  unfolding trim_space to_lower truncate_runes
  update_owned_step_decision store user_name task_id step_id decision reason expected_digest = do
    database store
    let user = trim_space user_name
    require (not (is_empty user || is_blank task_id || is_blank step_id)) invalid_input
    by_decision (parse_decision p.lower_table decision) (λ approve.
        decide store user task_id step_id approve
          (truncate_runes (trim_space reason) max_approval_reason_runes)
          (to_lower p.lower_table (trim_space expected_digest)))
