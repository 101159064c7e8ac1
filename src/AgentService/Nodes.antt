-- ===== src/AgentService/Nodes.antt =====
-- service/agent/graph.go: approvalNode, toolNode and finalizeNode as scripts. graphTaskID is the
-- argument `task_id`, and a nil error of a write the answer `none`.
use haruka_ai.Base.{
  ℕ, zero, suc, ◌+◌, if◌then◌else◌, Bool, true, false, not, ◌&&◌, Str, codes, str_eq, trim_space,
  is_empty, List, [], ◌∷◌, Option, none, some,
}
use haruka_ai.Agent.Model.{AgentTask, AgentStep, TaskStatus, StepStatus, is_tool, LoadedTask}
use haruka_ai.Agent.Plan.{Updates}
use haruka_ai.AgentService.Route.{is_approved, tool_replay_safe, tool_policy_changed}
use haruka_ai.AgentService.Script.{
  Cell, nothing, characters, count, moment, step_state, task_state, update_step, update_task,
  mark_execution_unknown, mark_policy_review, InvokeRequest, Reply, replied, NodeError,
  needs_review, conflict, store_error, persist_error, undecodable, unencodable, digest_mismatch,
  no_tools, tool_gone, invalid_arguments, no_challenge, no_approval, tool_error, unpersisted_result,
  goes_on, fails_with, Script, ends, get_task, writes, list_tools, create_approval, approve, invoke,
}
use haruka_ai.AgentService.Redact.{Secrets, truncate_runes, redact_text, redact_json_bytes}
use haruka_ai.McpHub.Model.{ToolDefinition}
use haruka_ai.McpSchema.Json.{Json, Fields, object_or_empty, Library}
use haruka_ai.McpSchema.Tool.{as_map, validate_arguments}

abbrev pub max_arguments_preview_runes : ℕ
max_arguments_preview_runes = 4000

abbrev pub max_plan_summary_runes : ℕ
max_plan_summary_runes = 4000

abbrev pub max_tool_output_runes : ℕ
max_tool_output_runes = 16000

abbrev pub max_mcp_request_id_runes : ℕ
max_mcp_request_id_runes = 36

-- What a node calls beside the store, the hub and the model: SHA-256 in hexadecimal,
-- `strings.EqualFold`, a new id, the texts of errors, and the clock at the start and the end.
pub record Surroundings : Type 0 where
  pub sha256_hex : Str → Str
  pub equal_fold : Str → Str → Bool
  pub new_id : Str
  -- The ids of the steps of a plan.
  pub step_id : ℕ → Str
  pub error_text : NodeError → Str
  -- The clock when a step starts, when its result is written, and in failToolStep.
  pub started : ℕ
  pub finished : ℕ
  pub failed : ℕ

unfoldable pub run_version_from_context : Option ℕ → Option ℕ
run_version_from_context none = none
run_version_from_context (some zero) = none
run_version_from_context (some (suc v)) = some (suc v)

unfoldable pub find_current : Str → List AgentStep → Option AgentStep
unfolding str_eq
find_current current [] = none
find_current current (step ∷ steps) =
    let rest = find_current current steps in
    if str_eq step.id current && is_tool step.kind then some step else rest

unfoldable pub current_tool_step : LoadedTask → Option AgentStep
unfolding find_current
current_tool_step loaded = find_current loaded.task.current_step_id loaded.loaded_steps

unfoldable pub definition_by_name : List ToolDefinition → Str → Option ToolDefinition
unfolding str_eq
definition_by_name [] name = none
definition_by_name (definition ∷ definitions) name =
    let rest = definition_by_name definitions name in
    if str_eq definition.name name then some definition else rest

module _ ⦃lib : Library⦄ ⦃secrets : Secrets⦄ ⦃s : Surroundings⦄ (task : AgentTask)
    (step : AgentStep) (version : ℕ) where
  unfoldable pub failure_message : NodeError → Str
  unfolding truncate_runes redact_text
  failure_message cause = truncate_runes (redact_text (s.error_text cause)) 1000

  unfoldable pub failed_step : NodeError → Updates Cell
  unfolding failure_message
  failed_step cause =
      (codes "status", step_state StepStatus.failed)
      ∷ (codes "finished_at", moment s.failed)
      ∷ (codes "error_message", characters (failure_message cause))
      ∷ []

  unfoldable pub failed_task : NodeError → Updates Cell
  unfolding failure_message
  failed_task cause =
      (codes "status", task_state TaskStatus.failed)
      ∷ (codes "finished_at", moment s.failed)
      ∷ (codes "error_message", characters (failure_message cause))
      ∷ (codes "lease_owner", characters [])
      ∷ (codes "lease_until", nothing)
      ∷ []

  -- The errors of the two writes are dropped.
  unfoldable pub fail_tool_step : NodeError → Script
  unfolding failed_step failed_task
  fail_tool_step cause = writes (update_step task.id step.id version (failed_step cause)) (λ e.
      writes (update_task task.id version (failed_task cause)) (λ e'. ends (fails_with cause)))

  unfoldable pub after_review_mark : Option Str → Script
  after_review_mark none = ends (fails_with needs_review)
  after_review_mark (some e) = ends (fails_with (persist_error e))

  unfoldable pub fail_invoked_tool : NodeError → Script
  unfolding fail_tool_step after_review_mark tool_replay_safe failure_message
  fail_invoked_tool cause =
      if tool_replay_safe step
      then fail_tool_step cause
      else writes (mark_execution_unknown task.id step.id version (failure_message cause))
          after_review_mark

  unfoldable pub require_policy_review : ToolDefinition → Script
  unfolding after_review_mark
  require_policy_review definition =
      writes
        (mark_policy_review task.id step.id version
          (codes "MCP tool safety policy changed after planning; explicit review is required")
          definition)
        after_review_mark

  unfoldable pub after_task_written : Option Str → Script
  after_task_written none = ends goes_on
  after_task_written (some e) = ends (fails_with (store_error e))

  unfoldable pub after_step_written : Option Str → Script
  unfolding after_task_written fail_invoked_tool
  after_step_written (some e) = fail_invoked_tool (unpersisted_result e)
  after_step_written none =
      writes
        (update_task task.id version (
          (codes "status", task_state TaskStatus.running)
          ∷ (codes "current_step_id", characters [])
          ∷ (codes "heartbeat_at", moment s.finished)
          ∷ []))
        after_task_written

  -- The step's columns once its tool succeeded.
  unfoldable pub succeeded_step : Str → Str → Updates Cell
  unfolding redact_json_bytes truncate_runes
  succeeded_step raw request_id =
      let safe = redact_json_bytes raw max_tool_output_runes in
      (codes "status", step_state StepStatus.succeeded)
      ∷ (codes "tool_output_json", characters safe)
      ∷ (codes "result_summary", characters (truncate_runes safe max_plan_summary_runes))
      ∷ (codes "mcp_request_id", characters (truncate_runes request_id max_mcp_request_id_runes))
      ∷ (codes "finished_at", moment s.finished)
      ∷ (codes "error_message", characters [])
      ∷ []

  unfoldable pub after_reply : Reply → Script
  unfolding fail_invoked_tool succeeded_step after_step_written
  after_reply (replied (some raw) request_id) =
      writes (update_step task.id step.id version (succeeded_step raw request_id))
        after_step_written
  after_reply reply = fail_invoked_tool (tool_error reply)

  module _ (operation_id : Str) (arguments : Fields) where
    unfoldable pub request_with : Str → InvokeRequest
    request_with token = record {
      user_name = task.user_name;
      tool_name = step.tool_name;
      arguments = arguments;
      operation_id = operation_id;
      approval_token = token;
    }

    unfoldable pub after_token : Option Str → Script
    unfolding fail_tool_step request_with after_reply
    after_token none = fail_tool_step no_approval
    after_token (some token) = invoke (request_with token) after_reply

    unfoldable pub after_challenge : Option Str → Script
    unfolding fail_tool_step after_token
    after_challenge none = fail_tool_step no_challenge
    after_challenge (some challenge) = approve task.user_name challenge after_token

    -- The call itself, whether the step requires an approval or not.
    unfoldable pub authorised_by : Bool → Script
    unfolding request_with after_reply after_challenge
    authorised_by true = create_approval task.user_name step.tool_name arguments after_challenge
    authorised_by false = invoke (request_with []) after_reply

    unfoldable pub authorised : Script
    unfolding authorised_by
    authorised = authorised_by step.requires_approval

    unfoldable pub after_definition : Option ToolDefinition → Script
    unfolding fail_tool_step require_policy_review authorised validate_arguments tool_policy_changed
    after_definition none = fail_tool_step tool_gone
    after_definition (some definition) =
        if not (validate_arguments definition.input_schema arguments)
        then fail_tool_step invalid_arguments
        else (if tool_policy_changed step definition
            then require_policy_review definition
            else authorised)

    unfoldable pub after_tools : Option (List ToolDefinition) → Script
    unfolding fail_tool_step after_definition definition_by_name
    after_tools none = fail_tool_step no_tools
    after_tools (some definitions) =
        after_definition (definition_by_name definitions step.tool_name)

  unfoldable pub after_canonical : Str → Fields → Option Str → Script
  unfolding fail_tool_step after_tools trim_space
  after_canonical operation_id arguments none = fail_tool_step unencodable
  after_canonical operation_id arguments (some canonical) =
      if not (s.equal_fold (s.sha256_hex canonical) (trim_space step.arguments_digest))
      then fail_tool_step digest_mismatch
      else list_tools (after_tools operation_id arguments)

  unfoldable pub after_decoding : Str → Option (Json × Str) → Script
  unfolding fail_tool_step after_canonical
  after_decoding operation_id none = fail_tool_step undecodable
  after_decoding operation_id (some (root, rest)) =
      after_canonical operation_id (object_or_empty (some root)) (lib.marshal root)

  unfoldable pub after_running : Str → Option Str → Script
  unfolding after_decoding as_map
  after_running operation_id (some e) = ends (fails_with (store_error e))
  after_running operation_id none =
      after_decoding operation_id (as_map (lib.decode step.tool_arguments_json))

  -- The step's columns before its tool is called.
  unfoldable pub running_step : Str → Updates Cell
  running_step operation_id =
      (codes "status", step_state StepStatus.running)
      ∷ (codes "attempts", count (step.attempts + 1))
      ∷ (codes "operation_id", characters operation_id)
      ∷ (codes "started_at", moment s.started)
      ∷ (codes "finished_at", nothing)
      ∷ (codes "error_message", characters [])
      ∷ []

  unfoldable pub start_tool : Script
  unfolding running_step after_running is_empty
  start_tool =
      let operation_id = if is_empty step.operation_id then s.new_id else step.operation_id in
      writes (update_step task.id step.id version (running_step operation_id))
        (after_running operation_id)

module _ ⦃lib : Library⦄ ⦃secrets : Secrets⦄ ⦃s : Surroundings⦄ (version : Option ℕ) where
  unfoldable pub tool_version : AgentTask → AgentStep → Option ℕ → Script
  unfolding start_tool
  tool_version task step none = ends (fails_with conflict)
  tool_version task step (some v) = start_tool task step v

  unfoldable pub tool_step : AgentTask → Option AgentStep → Script
  unfolding tool_version run_version_from_context is_approved
  tool_step task none = ends (fails_with conflict)
  tool_step task (some step) =
      if step.requires_approval && not (is_approved step.approval_decision)
      then ends (fails_with conflict)
      else tool_version task step (run_version_from_context version)

  unfoldable pub tool_task : Option LoadedTask → Script
  unfolding tool_step current_tool_step
  tool_task none = ends (fails_with (store_error []))
  tool_task (some loaded) = tool_step loaded.task (current_tool_step loaded)

  unfoldable pub tool_node : Str → Script
  unfolding tool_task
  tool_node task_id = get_task task_id tool_task
