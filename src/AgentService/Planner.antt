-- ===== src/AgentService/Planner.antt =====
-- service/agent/plan.go: parsePlanJSON and materializePlan. Decoding into the struct of a plan is
-- encoding/json's, so an argument.
use haruka_ai.Base.{
  ℕ, suc, ◌+◌, ◌-◌, ◌==◌, ltb, leb, if◌then◌else◌, Bool, true, false, not, ◌&&◌, Str, codes, str_eq,
  strip_prefix, trim_space, is_empty, is_blank, length, take, drop, List, [], ◌∷◌, ◌++◌, Option,
  none, some,
}
use haruka_ai.Agent.Model.{AgentTask, AgentStep, StepStatus, StepKind, ApprovalDecision}
use haruka_ai.AgentService.Redact.{Secrets, truncate_runes, redact_and_limit_json}
use haruka_ai.AgentService.Nodes.{Surroundings, max_plan_summary_runes, max_arguments_preview_runes}
use haruka_ai.McpHub.Model.{ToolDefinition}
use haruka_ai.McpSchema.Json.{Fields, object, Library}
use haruka_ai.McpSchema.Tool.{validate_arguments}

abbrev pub max_plan_tool_steps : ℕ
max_plan_tool_steps = 8

abbrev pub max_title_runes : ℕ
max_title_runes = 200

abbrev pub max_instruction_runes : ℕ
max_instruction_runes = 4000

-- A nil map of arguments reads as no fields.
pub record PlannedToolStep : Type 0 where
  pub title : Str
  pub instruction : Str
  pub tool_name : Str
  pub arguments : Fields

pub record PlanDocument : Type 0 where
  pub summary : Str
  pub steps : List PlannedToolStep

-- The strict decoder, with what it leaves.
pub record PlanDecoder : Type 0 where
  pub decode_plan : Str → Option (PlanDocument × Str)

abbrev pub later_index : Option ℕ → Option ℕ
later_index none = none
later_index (some n) = some (suc n)

abbrev pub starts_with : Str → Str → Bool
starts_with prefix s = elim (strip_prefix prefix s) [ none ↦ false | some rest ↦ true ]

-- `strings.IndexByte` and `strings.LastIndex`, `none` for -1.
unfoldable pub index_of : ℕ → Str → Option ℕ
index_of c [] = none
index_of c (d ∷ s) = let rest = index_of c s in if d == c then some 0 else later_index rest

unfoldable pub or_here : Bool → Option ℕ → Option ℕ
or_here here (some n) = some (suc n)
or_here true none = some 0
or_here false none = none

unfoldable pub last_index : Str → Str → Option ℕ
unfolding or_here strip_prefix
last_index part [] = none
last_index part (c ∷ s) = or_here (starts_with part (c ∷ s)) (last_index part s)

module _ ⦃s : Surroundings⦄ where
  -- The text between the fences, from the ends of the first line and of the text.
  unfoldable pub fenced : Str → Option ℕ → Option ℕ → Option Str
  unfolding trim_space is_empty is_blank
  fenced content none last_fence = none
  fenced content (some first_newline) none = none
  fenced content (some first_newline) (some last_fence) =
      let language = trim_space (take (first_newline - 3) (drop 3 content)) in
      if leb last_fence first_newline
      then none
      else (if not (is_empty language) && not (s.equal_fold language (codes "json"))
          then none
          else (if not (is_blank (drop (last_fence + 3) content))
              then none
              else some (
                  trim_space
                    (take (last_fence - (first_newline + 1)) (drop (first_newline + 1) content)))))

  unfoldable pub without_fence : Str → Option Str
  unfolding fenced index_of last_index strip_prefix
  without_fence content =
      if starts_with (codes "```") content
      then fenced content (index_of 10 content) (last_index (codes "```") content)
      else some content

module _ ⦃lib : Library⦄ ⦃s : Surroundings⦄ ⦃d : PlanDecoder⦄ where
  unfoldable pub bounded_plan : Option (PlanDocument × Str) → Option PlanDocument
  unfolding truncate_runes trim_space
  bounded_plan none = none
  bounded_plan (some (plan, rest)) =
      if not (lib.at_end rest)
      then none
      else (if ltb max_plan_tool_steps (length plan.steps)
          then none
          else some (record plan {
            summary = truncate_runes (trim_space plan.summary) max_plan_summary_runes;
          }))

  unfoldable pub parse_object : Option Str → Option PlanDocument
  unfolding bounded_plan strip_prefix
  parse_object none = none
  parse_object (some content) =
      if starts_with (codes "{") content then bounded_plan (d.decode_plan content) else none

  unfoldable pub parse_plan_json : Str → Option PlanDocument
  unfolding parse_object without_fence trim_space
  parse_plan_json content = parse_object (without_fence (trim_space content))

-- The map of the definitions by name, in which a later one replaces an earlier one.
unfoldable pub last_definition : List ToolDefinition → Str → Option ToolDefinition
unfolding str_eq
last_definition [] name = none
last_definition (definition ∷ definitions) name = elim (last_definition definitions name) [
  | some later ↦ some later
  | none ↦ if str_eq definition.name name then some definition else none
]

-- The columns that a step of a plan leaves at their zero values.
unfoldable pub blank_step : AgentTask → Str → ℕ → AgentStep
blank_step task id sequence = record {
  id = id;
  task_id = task.id;
  user_name = task.user_name;
  sequence = sequence;
  kind = StepKind.no_kind;
  node_key = [];
  title = [];
  instruction = [];
  status = StepStatus.pending;
  attempts = 0;
  error_message = [];
  tool_name = [];
  tool_arguments_json = [];
  arguments_digest = [];
  arguments_preview = [];
  tool_output_json = [];
  result_summary = [];
  risk_level = [];
  requires_approval = false;
  read_only = false;
  idempotent = false;
  destructive = false;
  approval_decision = ApprovalDecision.undecided;
  approval_reason = [];
  approval_decided_at = none;
  mcp_request_id = [];
  operation_id = [];
  started_at = none;
  finished_at = none;
  created_at = 0;
  updated_at = 0;
}

module _ ⦃lib : Library⦄ ⦃secrets : Secrets⦄ ⦃s : Surroundings⦄ (task : AgentTask)
    (tools : List ToolDefinition) where
  unfoldable pub title_or : Str → Str → Str
  unfolding is_empty
  title_or name title = if is_empty title then codes "调用 " ++ name else title

  unfoldable pub tool_plan_step : ℕ → PlannedToolStep → ToolDefinition → Str → AgentStep
  unfolding title_or truncate_runes trim_space redact_and_limit_json blank_step
  tool_plan_step index planned definition arguments_json =
      record (blank_step task (s.step_id index) (index + 1)) {
        kind = StepKind.tool;
        node_key = codes "tool";
        title =
            title_or definition.name (truncate_runes (trim_space planned.title) max_title_runes);
        instruction = truncate_runes (trim_space planned.instruction) max_instruction_runes;
        tool_name = definition.name;
        tool_arguments_json = arguments_json;
        arguments_digest = s.sha256_hex arguments_json;
        arguments_preview =
            redact_and_limit_json (object planned.arguments) max_arguments_preview_runes;
        risk_level = definition.risk;
        requires_approval = definition.requires_approval;
        read_only = definition.read_only;
        idempotent = definition.idempotent;
        destructive = definition.destructive;
        approval_decision = ApprovalDecision.pending;
      }

  unfoldable pub encoded_step : ℕ → PlannedToolStep → ToolDefinition → Option Str → Option AgentStep
  unfolding tool_plan_step
  encoded_step index planned definition none = none
  encoded_step index planned definition (some arguments_json) =
      some (tool_plan_step index planned definition arguments_json)

  unfoldable pub defined_step : ℕ → PlannedToolStep → Option ToolDefinition → Option AgentStep
  unfolding encoded_step
  defined_step index planned none = none
  defined_step index planned (some definition) =
      if validate_arguments definition.input_schema planned.arguments
      then encoded_step index planned definition (lib.marshal (object planned.arguments))
      else none

  unfoldable pub plan_step : ℕ → PlannedToolStep → Option AgentStep
  unfolding defined_step last_definition trim_space
  plan_step index planned =
      defined_step index planned (last_definition tools (trim_space planned.tool_name))

  unfoldable pub final_plan_step : ℕ → AgentStep
  unfolding blank_step
  final_plan_step index = record (blank_step task (s.step_id index) (index + 1)) {
    kind = StepKind.final;
    node_key = codes "finalize";
    title = codes "生成最终结果";
  }

  unfoldable pub and_then : Option AgentStep → Option (List AgentStep) → Option (List AgentStep)
  and_then none rest = none
  and_then (some step) none = none
  and_then (some step) (some rest) = some (step ∷ rest)

  -- The loop over the planned steps, and the final step behind them; `none` for an error.
  unfoldable pub plan_steps : ℕ → List PlannedToolStep → Option (List AgentStep)
  unfolding plan_step final_plan_step and_then
  plan_steps index [] = some (final_plan_step index ∷ [])
  plan_steps index (planned ∷ steps) =
      and_then (plan_step index planned) (plan_steps (suc index) steps)

  unfoldable pub materialize_plan : PlanDocument → Option (List AgentStep)
  unfolding plan_steps
  materialize_plan plan = plan_steps 0 plan.steps
