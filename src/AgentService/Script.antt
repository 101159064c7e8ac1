-- ===== src/AgentService/Script.antt =====
-- service/agent/graph.go: what a node asks of the store, the MCP hub and the model, as a script: each
-- call goes on with its answer. The answers are the caller's, so that a script stands for all runs.
use haruka_ai.Base.{ℕ, List, Option, Str}
use haruka_ai.Agent.Model.{StepStatus, TaskStatus, LoadedTask, AgentStep}
use haruka_ai.Agent.Plan.{Updates}
use haruka_ai.McpHub.Model.{ToolDefinition}
use haruka_ai.McpSchema.Json.{Fields}

-- A value of a map of updates.
pub data Cell : Type 0 where
  nothing : Cell
  characters : Str → Cell
  count moment : ℕ → Cell
  step_state : StepStatus → Cell
  task_state : TaskStatus → Cell

-- A write of the store, for a task at a run version.
pub data Write : Type 0 where
  update_step : Str → Str → ℕ → Updates Cell → Write
  update_task : Str → ℕ → Updates Cell → Write
  mark_execution_unknown : Str → Str → ℕ → Str → Write
  mark_policy_review : Str → Str → ℕ → Str → ToolDefinition → Write
  save_plan : Str → ℕ → Str → List AgentStep → Write

pub record InvokeRequest : Type 0 where
  pub user_name : Str
  pub tool_name : Str
  pub arguments : Fields
  pub operation_id : Str
  pub approval_token : Str

pub record ApprovalInterrupt : Type 0 where
  pub task_id : Str
  pub step_id : Str
  pub tool_name : Str
  pub risk : Str
  pub arguments_digest : Str
  pub arguments_preview : Str

-- What a call of a tool comes back with: an error, no invocation, no result, an error result, or a
-- result, in JSON if it can be encoded, and the id of the request.
pub data Reply : Type 0 where
  call_error : Str → Reply
  no_invocation no_result error_result : Reply
  replied : Option Str → Str → Reply

pub data NodeError : Type 0 where
  task_stopped needs_review conflict invalid_input : NodeError
  store_error : Str → NodeError
  persist_error : Str → NodeError
  undecodable unencodable digest_mismatch no_tools tool_gone invalid_arguments : NodeError
  no_challenge no_approval : NodeError
  tool_error : Reply → NodeError
  unpersisted_result : Str → NodeError
  model_error no_answer invalid_plan : NodeError

-- A node that goes on returns the id that it was given.
pub data Outcome : Type 0 where
  goes_on : Outcome
  fails_with : NodeError → Outcome
  interrupts : ApprovalInterrupt → Outcome

-- The answer `none` of a write is a nil error; of a read or a call of the hub it is an error.
pub data Script : Type 0 where
  ends : Outcome → Script
  get_task : Str → (Option LoadedTask → Script) → Script
  writes : Write → (Option Str → Script) → Script
  list_tools : (Option (List ToolDefinition) → Script) → Script
  create_approval : Str → Str → Fields → (Option Str → Script) → Script
  approve : Str → Str → (Option Str → Script) → Script
  invoke : InvokeRequest → (Reply → Script) → Script
  generate : Str → (Option Str → Script) → Script
