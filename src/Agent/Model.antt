-- ===== src/Agent/Model.antt =====
-- model/agent.go: the rows of an agent task and of its steps. A `*time.Time` is an optional number
-- of nanoseconds, a string a list of code points, and a status column the constants of the file.
use haruka_ai.Base.{ℕ, ◌==◌, Bool, Option, List, Str}

pub data TaskStatus : Type 0 where
  pending planning running waiting_approval requires_review succeeded failed rejected cancelled :
      TaskStatus

abbrev pub task_status_index : TaskStatus → ℕ
task_status_index TaskStatus.pending = 0
task_status_index TaskStatus.planning = 1
task_status_index TaskStatus.running = 2
task_status_index TaskStatus.waiting_approval = 3
task_status_index TaskStatus.requires_review = 4
task_status_index TaskStatus.succeeded = 5
task_status_index TaskStatus.failed = 6
task_status_index TaskStatus.rejected = 7
task_status_index TaskStatus.cancelled = 8

abbrev pub task_status_eq : TaskStatus → TaskStatus → Bool
task_status_eq s t = task_status_index s == task_status_index t

-- `no_kind` is the empty string, which `normalizePlanSteps` replaces.
pub data StepKind : Type 0 where
  no_kind plan tool final : StepKind

abbrev pub is_tool : StepKind → Bool
is_tool StepKind.tool = Bool.true
is_tool _ = Bool.false

abbrev pub is_plan : StepKind → Bool
is_plan StepKind.plan = Bool.true
is_plan _ = Bool.false

pub data StepStatus : Type 0 where
  pending running waiting_approval approved rejected succeeded failed execution_unknown skipped :
      StepStatus

abbrev pub step_status_index : StepStatus → ℕ
step_status_index StepStatus.pending = 0
step_status_index StepStatus.running = 1
step_status_index StepStatus.waiting_approval = 2
step_status_index StepStatus.approved = 3
step_status_index StepStatus.rejected = 4
step_status_index StepStatus.succeeded = 5
step_status_index StepStatus.failed = 6
step_status_index StepStatus.execution_unknown = 7
step_status_index StepStatus.skipped = 8

abbrev pub step_status_eq : StepStatus → StepStatus → Bool
step_status_eq s t = step_status_index s == step_status_index t

-- `undecided` is the empty string, which old rows hold in place of `pending`.
pub data ApprovalDecision : Type 0 where
  undecided pending approved rejected : ApprovalDecision

abbrev pub is_open_decision : ApprovalDecision → Bool
is_open_decision ApprovalDecision.undecided = Bool.true
is_open_decision ApprovalDecision.pending = Bool.true
is_open_decision _ = Bool.false

pub record AgentTask : Type 0 where
  pub id : Str
  pub user_name : Str
  pub session_id : Str
  pub goal : Str
  pub model_id : Str
  pub status : TaskStatus
  pub current_step_id : Str
  pub plan_summary : Str
  pub final_answer : Str
  pub error_message : Str
  pub checkpoint : List ℕ
  pub checkpoint_version : ℕ
  pub run_version : ℕ
  pub attempts : ℕ
  pub lease_owner : Str
  pub lease_until : Option ℕ
  pub heartbeat_at : Option ℕ
  pub started_at : Option ℕ
  pub finished_at : Option ℕ
  pub created_at : ℕ
  pub updated_at : ℕ

pub record AgentStep : Type 0 where
  pub id : Str
  pub task_id : Str
  pub user_name : Str
  pub sequence : ℕ
  pub kind : StepKind
  pub node_key : Str
  pub title : Str
  pub instruction : Str
  pub status : StepStatus
  pub attempts : ℕ
  pub error_message : Str
  pub tool_name : Str
  pub tool_arguments_json : Str
  pub arguments_digest : Str
  pub arguments_preview : Str
  pub tool_output_json : Str
  pub result_summary : Str
  pub risk_level : Str
  pub requires_approval : Bool
  pub read_only : Bool
  pub idempotent : Bool
  pub destructive : Bool
  pub approval_decision : ApprovalDecision
  pub approval_reason : Str
  pub approval_decided_at : Option ℕ
  pub mcp_request_id : Str
  pub operation_id : Str
  pub started_at : Option ℕ
  pub finished_at : Option ℕ
  pub created_at : ℕ
  pub updated_at : ℕ

-- A task with its preloaded `Steps`.
pub record LoadedTask : Type 0 where
  pub task : AgentTask
  pub loaded_steps : List AgentStep
