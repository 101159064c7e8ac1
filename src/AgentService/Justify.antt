-- ===== src/AgentService/Justify.antt =====
-- service/agent/graph.go: what stands before a call of a tool, and what may follow it.
use haruka_ai.Base.{
  ℕ, ◌≡◌, ◌⊎◌, Bool, true, false, ◌||◌, Str, trim_space, List, [], ◌∷◌, Option, none, some,
}
use haruka_ai.Agent.Model.{AgentTask, AgentStep, StepStatus, LoadedTask}
use haruka_ai.Agent.Plan.{Updates}
use haruka_ai.AgentService.Route.{is_approved, tool_replay_safe, tool_policy_changed}
use haruka_ai.AgentService.Script.{
  Cell, step_state, Write, update_step, InvokeRequest, Reply, Script, ends, get_task, writes,
  list_tools, create_approval, approve, invoke, generate,
}
use haruka_ai.AgentService.Redact.{Secrets}
use haruka_ai.AgentService.Nodes.{
  Surroundings, current_tool_step, definition_by_name, request_with, running_step,
}
use haruka_ai.McpHub.Model.{ToolDefinition}
use haruka_ai.McpSchema.Json.{Json, Fields, object_or_empty, Library}
use haruka_ai.McpSchema.Tool.{as_map, validate_arguments}

-- A call with its answer.
pub data Event : Type 0 where
  got_task : Option LoadedTask → Event
  wrote : Write → Option Str → Event
  listed_tools : Option (List ToolDefinition) → Event
  created_approval : Str → Str → Fields → Option Str → Event
  approved : Str → Str → Option Str → Event
  invoked : InvokeRequest → Reply → Event
  generated : Str → Option Str → Event

-- A rule for the calls of tools and one for the writes, each given the events before, the newest
-- first, hold along every run of a script.
module _ (calls : List Event → InvokeRequest → Type 0) (written : List Event → Write → Type 0) where
  abbrev pub Always : List Event → Script → Type 0
  Always past (ends outcome) = Unit
  Always past (get_task id next) = (a : Option LoadedTask) → Always (got_task a ∷ past) (next a)
  Always past (writes w next) =
      written past w × ((a : Option Str) → Always (wrote w a ∷ past) (next a))
  Always past (list_tools next) =
      (a : Option (List ToolDefinition)) → Always (listed_tools a ∷ past) (next a)
  Always past (create_approval user tool arguments next) =
      (a : Option Str) → Always (created_approval user tool arguments a ∷ past) (next a)
  Always past (approve user challenge next) =
      (a : Option Str) → Always (approved user challenge a ∷ past) (next a)
  Always past (invoke request next) =
      calls past request × ((a : Reply) → Always (invoked request a ∷ past) (next a))
  Always past (generate prompt next) =
      (a : Option Str) → Always (generated prompt a ∷ past) (next a)

-- A tool was called.
abbrev pub called : List Event → Bool
called [] = false
called (invoked request reply ∷ past) = true
called (event ∷ past) = called past

abbrev pub is_failed : Cell → Bool
is_failed (step_state StepStatus.failed) = true
is_failed _ = false

abbrev pub fails_columns : Updates Cell → Bool
fails_columns [] = false
fails_columns ((key, cell) ∷ updates) = is_failed cell || fails_columns updates

-- The write marks a step as failed.
abbrev pub fails_step : Write → Bool
fails_step (update_step task step version updates) = fails_columns updates
fails_step _ = false

abbrev pub with_task : AgentTask → Option AgentStep → Option (AgentTask × AgentStep)
with_task task none = none
with_task task (some step) = some (task, step)

-- The task and the step that a node works on.
abbrev pub working : List Event → Option (AgentTask × AgentStep)
working [] = none
working (got_task (some loaded) ∷ past) = with_task loaded.task (current_tool_step loaded)
working (event ∷ past) = working past

module _ ⦃lib : Library⦄ ⦃secrets : Secrets⦄ ⦃s : Surroundings⦄ where
  -- The stored arguments are decoded and have the digest that was recorded with them.
  abbrev pub Intact : AgentStep → Fields → Type 0
  Intact step arguments =
      (root : Json) × (rest : Str) × (canonical : Str) × (as_map
          (lib.decode step.tool_arguments_json)
        ≡ some (root, rest))
      × (lib.marshal root ≡ some canonical)
      × (s.equal_fold (s.sha256_hex canonical) (trim_space step.arguments_digest) ≡ true)
      × (arguments ≡ object_or_empty (some root))

  -- What was checked before a tool is called with these arguments: the stored arguments are decoded
  -- and have the digest that was approved, the tool is offered still, takes the arguments and has the
  -- policy it was planned with, and a step that needs an approval has it.
  pub record Checked (step : AgentStep) (offered : List ToolDefinition) (arguments : Fields)
      : Type 0 where
    pub consent : step.requires_approval ≡ true → is_approved step.approval_decision ≡ true
    pub intact : Intact step arguments
    pub fits :
        (definition : ToolDefinition) × (definition_by_name offered step.tool_name
          ≡ some definition)
        × (validate_arguments definition.input_schema arguments ≡ true)
        × (tool_policy_changed step definition ≡ false)

  -- The events up to the list of tools: the task was read, and its current step marked as running.
  abbrev pub begun : LoadedTask → AgentStep → ℕ → Str → List ToolDefinition → List Event
  begun loaded step version operation_id offered =
      listed_tools (some offered)
      ∷ wrote
          (update_step loaded.task.id step.id version
            (running_step loaded.task step version operation_id))
          none
      ∷ got_task (some loaded)
      ∷ []

  pub record Justified (past : List Event) (request : InvokeRequest) : Type 0 where
    pub loaded : LoadedTask
    pub step : AgentStep
    pub version : ℕ
    pub operation_id : Str
    pub offered : List ToolDefinition
    pub arguments : Fields
    pub current : current_tool_step loaded ≡ some step
    pub checked : Checked step offered arguments
    pub authority :
        ((step.requires_approval ≡ false)
          × (past ≡ begun loaded step version operation_id offered)
          × (request ≡ request_with loaded.task step version operation_id arguments []))
        ⊎ ((step.requires_approval ≡ true)
            × (challenge : Str) × (token : Str) × (past
                ≡ approved loaded.task.user_name challenge (some token)
                  ∷ created_approval loaded.task.user_name step.tool_name arguments (some challenge)
                  ∷ begun loaded step version operation_id offered)
            × (request ≡ request_with loaded.task step version operation_id arguments token))

  -- After a call of a tool a step is marked as failed only if it can be replayed without harm.
  abbrev pub Careful : List Event → Write → Type 0
  Careful past w =
      called past ≡ true
      → fails_step w ≡ true
      → (task : AgentTask) × (step : AgentStep) × (working past ≡ some (task, step))
        × (tool_replay_safe step ≡ true)

  abbrev pub Ruled : List Event → Script → Type 0
  Ruled past script = Always Justified Careful past script
