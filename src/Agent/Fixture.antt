-- ===== src/Agent/Fixture.antt =====
-- A task and a step in memory, on which the tests of the agent store run.
use haruka_ai.Base.{Result, ok, err, refl, true, false, [], ◌∷◌, none, some, Str, codes}
use haruka_ai.Agent.Model.{AgentTask, AgentStep, TaskStatus, StepStatus, StepKind, ApprovalDecision}
use haruka_ai.Agent.Fence.{GormStore, Context}
use haruka_ai.Agent.Memory.{Tables, memory}
use haruka_ai.Agent.Endings.{Live}
use haruka_ai.Agent.Calls.{perform_all}
use haruka_ai.Agent.Fencing.{fenced_write}
use haruka_ai.Agent.Retired.{end_generation}
use haruka_ai.Agent.Memory.{create_row, maximum, set_answer, set_summary, first_row}
use haruka_ai.Base.{str_eq, is_blank, to_lower, trim_space, is_empty}
use haruka_ai.Agent.Platform.{column_key}
use haruka_ai.Agent.Fence.{
  database, fencing_token_from_context, active_lease_fence_from_context, lease_held,
  active_lease_fenced, with_worker_fencing_token,
}
use haruka_ai.Agent.Tasks.{
  initial_task, initial_step, clamp_limit, lease_renewable, claim_set, renew_set,
  create_task_with_initial_step, load_task, get_owned_task, get_task_by_id, claim_where, read_claim,
  after_claim, claim_task, renew_where, renew_lease_fenced,
}
use haruka_ai.Agent.Plan.{
  normalize_plan_steps, normalize_plan_step, resequence, first_id, plan_done, save_plan_set,
  keeps_column, sanitized_updates, no_updates, assign_task_columns, assign_step_columns,
  update_task_set, update_step_set, stale_plan_where, plan_step_where, create_if_any, save_plan,
  same_generation, create_steps_fenced, update_task_fenced, step_of, update_step_fenced, owned_by,
  update_owned_task,
}
use haruka_ai.Agent.Review.{
  truncate_runes, message_or, unknown_set, review_set, policy_set, parse_decision, decide_step_set,
  decide_task_set, running_tool, running_fenced, pause_for_review, mark_execution_unknown_fenced,
  mark_policy_review_fenced, undecided_step, decide, by_decision, update_owned_step_decision,
}
use haruka_ai.Agent.Resume.{
  task_can_resume, step_can_resume, step_can_replay_after_crash, requeue_step, requeue_task,
  is_uncertain, cancel_step, cancel_task, is_active, owned_step, resumable_step, that_step,
  that_task, resume_owned_task, cancel_steps, cancel_active, cancel_by_status, cancel_owned_task,
}
use haruka_ai.Agent.Recover.{
  is_stale, interrupted_set, recover_step_set, found_next, recover_task_set, note_error,
  running_step as running_step_where, recover_steps, same_run, recover_locked_task,
  recover_if_locked, recover_candidate, after_candidate, recover_candidates, next_round, after_scan,
  recover_rounds, recover_stale_tasks, first_or,
}
use haruka_ai.Agent.Checkpoint.{
  encode_checkpoint_envelope, decode_checkpoint_envelope, checkpoint_set, demands, token_fits,
  require_written, get_checkpoint, checkpoint_where, set_checkpoint,
}
use haruka_ai.Agent.Calls.{perform}
use haruka_ai.Base.{positive_or, not_negative}
use haruka_ai.Base.{or_conflict, pure, raise, ◌>>=◌, require, read, require_rows}

-- Opens the store's code, for runs.
unfoldable pub agent_code : Unit {0}
unfolding create_row maximum set_answer set_summary first_row str_eq column_key database
    fencing_token_from_context active_lease_fence_from_context lease_held active_lease_fenced
    with_worker_fencing_token initial_task initial_step clamp_limit lease_renewable claim_set
    renew_set create_task_with_initial_step load_task get_owned_task get_task_by_id claim_where
    read_claim after_claim claim_task renew_where renew_lease_fenced normalize_plan_steps
    normalize_plan_step resequence first_id plan_done save_plan_set keeps_column sanitized_updates
    no_updates assign_task_columns assign_step_columns update_task_set update_step_set
    stale_plan_where plan_step_where create_if_any save_plan same_generation create_steps_fenced
    update_task_fenced step_of update_step_fenced owned_by update_owned_task truncate_runes
    message_or unknown_set review_set policy_set parse_decision decide_step_set decide_task_set
    running_tool running_fenced pause_for_review mark_execution_unknown_fenced
    mark_policy_review_fenced undecided_step decide by_decision update_owned_step_decision
    task_can_resume step_can_resume step_can_replay_after_crash requeue_step requeue_task
    is_uncertain cancel_step cancel_task is_active owned_step resumable_step that_step that_task
    resume_owned_task cancel_steps cancel_active cancel_by_status cancel_owned_task is_stale
    interrupted_set recover_step_set found_next recover_task_set note_error running_step_where
    recover_steps same_run recover_locked_task recover_if_locked recover_candidate after_candidate
    recover_candidates next_round after_scan recover_rounds recover_stale_tasks first_or
    encode_checkpoint_envelope decode_checkpoint_envelope checkpoint_set demands token_fits
    require_written get_checkpoint checkpoint_where set_checkpoint end_generation fenced_write
    perform perform_all is_blank to_lower trim_space is_empty positive_or not_negative or_conflict
    pure raise ◌>>=◌ require read require_rows
agent_code = tt

abbrev pub store : GormStore
store = record { connected = true; now = 1000 }

abbrev pub context : Context
context = record { token = none; done = λ r i. false }

abbrev pub ann : Str
ann = codes "ann"

abbrev pub task_id : Str
task_id = codes "t1"

abbrev pub worker : Str
worker = codes "w1"

-- Ann's task, claimed by a worker at run version 1.
abbrev pub running_task : AgentTask
running_task = record {
  id = task_id;
  user_name = ann;
  session_id = [];
  goal = codes "goal";
  model_id = codes "m";
  status = TaskStatus.running;
  current_step_id = codes "s1";
  plan_summary = [];
  final_answer = [];
  error_message = [];
  checkpoint = [];
  checkpoint_version = 0;
  run_version = 1;
  attempts = 1;
  lease_owner = worker;
  lease_until = some 2000;
  heartbeat_at = some 900;
  started_at = some 900;
  finished_at = none;
  created_at = 800;
  updated_at = 900;
}

-- Its first tool step, which writes.
abbrev pub running_step : AgentStep
running_step = record {
  id = codes "s1";
  task_id = task_id;
  user_name = ann;
  sequence = 1;
  kind = StepKind.tool;
  node_key = [];
  title = [];
  instruction = [];
  status = StepStatus.running;
  attempts = 1;
  error_message = [];
  tool_name = codes "mail.send";
  tool_arguments_json = codes "{}";
  arguments_digest = codes "ab12";
  arguments_preview = [];
  tool_output_json = [];
  result_summary = [];
  risk_level = codes "high";
  requires_approval = true;
  read_only = false;
  idempotent = false;
  destructive = true;
  approval_decision = ApprovalDecision.approved;
  approval_reason = [];
  approval_decided_at = none;
  mcp_request_id = [];
  operation_id = [];
  started_at = some 900;
  finished_at = none;
  created_at = 800;
  updated_at = 900;
}

abbrev pub running : Tables
running = record { task_rows = running_task ∷ []; step_rows = running_step ∷ [] }

pub running-Live : Live task_id 1 running
unfolding agent_code
running-Live = record {
  current = record { one_row = refl; at_version = ((λ h. refl), tt) };
  uncancelled = ((λ h e. cc), tt);
}

-- The database that a call leaves, and what the call gives.
abbrev pub no_tables : Tables
no_tables = record { task_rows = []; step_rows = [] }

abbrev pub left_by : {A : Type 0} → Result (Tables × A) → Tables
left_by (ok (d, a)) = d
left_by (err e) = no_tables
