-- ===== src/AgentService/Planned.antt =====
-- service/agent/graph.go and plan.go: what a plan that is saved asks for.
use haruka_ai.Base.{
  ℕ, suc, ◌+◌, ◌≡◌, refl, sym, subst, Bool-cases, inl, inr, Bool, true, false, Str, List, [], ◌∷◌,
  Option, none, some, arith, if◌then◌else◌, trim_space,
}
use haruka_ai.Agent.Model.{AgentTask, AgentStep, StepStatus, StepKind, ApprovalDecision, LoadedTask}
use haruka_ai.AgentService.Script.{Write, save_plan, InvokeRequest, Script}
use haruka_ai.AgentService.Route.{plan_already_saved, task_terminal}
use haruka_ai.AgentService.Redact.{Secrets}
use haruka_ai.AgentService.Nodes.{Surroundings}
use haruka_ai.AgentService.Planner.{
  PlannedToolStep, PlanDocument, PlanDecoder, last_definition, tool_plan_step, encoded_step,
  defined_step, plan_step, final_plan_step, and_then, plan_steps, materialize_plan, parse_plan_json,
}
use haruka_ai.AgentService.PlanNode.{
  after_saved, after_materialized, after_parsed, after_response, after_discovery,
  after_step_planning, after_task_planning, start_planning, plan_version, plan_task, plan_node,
}
use haruka_ai.AgentService.Justify.{Event, listed_tools, generated, Always}
use haruka_ai.McpHub.Model.{ToolDefinition}
use haruka_ai.McpSchema.Json.{Fields, object, Library}
use haruka_ai.McpSchema.Tool.{validate_arguments}

-- The tools that were offered last.
abbrev pub offered : List Event → List ToolDefinition
offered [] = []
offered (listed_tools (some tools) ∷ past) = tools
offered (event ∷ past) = offered past

module _ ⦃lib : Library⦄ ⦃secrets : Secrets⦄ ⦃s : Surroundings⦄ where
  -- A step of a plan that calls a tool: the tool is offered, takes the arguments, which are stored with
  -- their digest, and lends the step its policy; and nobody has decided on the step.
  pub record AsksTool (tools : List ToolDefinition) (sequence : ℕ) (step : AgentStep) : Type 0 where
    pub definition : ToolDefinition
    pub arguments : Fields
    pub offers : (name : Str) × (last_definition tools name ≡ some definition)
    pub valid : validate_arguments definition.input_schema arguments ≡ true
    pub stored : lib.marshal (object arguments) ≡ some step.tool_arguments_json
    pub digest : step.arguments_digest ≡ s.sha256_hex step.tool_arguments_json
    pub tool : (step.kind ≡ StepKind.tool) × (step.tool_name ≡ definition.name)
    pub policy :
        (step.risk_level ≡ definition.risk)
        × (step.requires_approval ≡ definition.requires_approval)
        × (step.read_only ≡ definition.read_only)
        × (step.idempotent ≡ definition.idempotent)
        × (step.destructive ≡ definition.destructive)
    pub fresh :
        (step.status ≡ StepStatus.pending)
        × (step.approval_decision ≡ ApprovalDecision.pending)
        × (step.sequence ≡ sequence)

  -- Steps that call tools, numbered in order, and one final step behind them.
  abbrev pub PlanOf : List ToolDefinition → ℕ → List AgentStep → Type 0
  PlanOf tools sequence [] = ⊥
  PlanOf tools sequence (step ∷ []) = (step.kind ≡ StepKind.final) × (step.sequence ≡ sequence)
  PlanOf tools sequence (step ∷ next ∷ steps) =
      AsksTool tools sequence step × PlanOf tools (suc sequence) (next ∷ steps)

  abbrev pub PlansOffered : List Event → Write → Type 0
  PlansOffered past (save_plan task version summary steps) = PlanOf (offered past) 1 steps
  PlansOffered past w = Unit

  -- No tool is called.
  abbrev pub NoCall : List Event → InvokeRequest → Type 0
  NoCall past request = ⊥

  module _ (task : AgentTask) (tools : List ToolDefinition) where
    tool_plan_step-AsksTool :
        (index : ℕ) (planned : PlannedToolStep) (definition : ToolDefinition) (name json : Str)
        → last_definition tools name ≡ some definition
        → validate_arguments definition.input_schema planned.arguments ≡ true
        → lib.marshal (object planned.arguments) ≡ some json
        → AsksTool tools (index + 1) (tool_plan_step task tools index planned definition json)
    tool_plan_step-AsksTool index planned definition name json o v e =
        unfold tool_plan_step in
        record {
          definition = definition;
          arguments = planned.arguments;
          offers = (name, o);
          valid = v;
          stored = e;
          digest = refl;
          tool = (refl, refl);
          policy = (refl, refl, refl, refl, refl);
          fresh = (refl, refl, refl);
        }

    encoded_step-AsksTool :
        (index : ℕ) (planned : PlannedToolStep) (definition : ToolDefinition) (name : Str)
        (step : AgentStep)
        → last_definition tools name ≡ some definition
        → validate_arguments definition.input_schema planned.arguments ≡ true
        → (m : Option Str) → lib.marshal (object planned.arguments) ≡ m
        → encoded_step task tools index planned definition m ≡ some step
        → AsksTool tools (index + 1) step
    unfolding encoded_step
    encoded_step-AsksTool index planned definition name step o v none e h = absurd (ground arith)
    encoded_step-AsksTool index planned definition name step o v (some json) e h =
        let same : tool_plan_step task tools index planned definition json ≡ step = cc in
        subst (AsksTool tools (index + 1)) same
          (tool_plan_step-AsksTool index planned definition name json o v e)

    defined_step-AsksTool :
        (index : ℕ) (planned : PlannedToolStep) (name : Str) (step : AgentStep)
        (o : Option ToolDefinition)
        → last_definition tools name ≡ o
        → defined_step task tools index planned o ≡ some step
        → AsksTool tools (index + 1) step
    unfolding defined_step
    defined_step-AsksTool index planned name step none o h = absurd (ground arith)
    defined_step-AsksTool index planned name step (some definition) o h =
        let arguments = planned.arguments in
        elim (Bool-cases (validate_arguments definition.input_schema arguments)) [
          | inl valid ↦
              encoded_step-AsksTool index planned definition name step o valid
                (lib.marshal (object arguments)) refl
                (passed (validate_arguments definition.input_schema arguments)
                  (encoded_step task tools index planned definition
                    (lib.marshal (object arguments)))
                  step valid h)
          | inr invalid ↦ absurd (
              stopped (validate_arguments definition.input_schema arguments)
                (encoded_step task tools index planned definition (lib.marshal (object arguments)))
                step invalid h)
        ]
      where
        passed :
            (b : Bool) (x : Option AgentStep) (step : AgentStep)
            → b ≡ true
            → (if b then x else none) ≡ some step
            → x ≡ some step
        passed true x step v h = h
        passed false x step v h = cc

        stopped :
            (b : Bool) (x : Option AgentStep) (step : AgentStep)
            → b ≡ false
            → (if b then x else none) ≡ some step
            → ⊥
        stopped true x step v h = absurd (ground arith)
        stopped false x step v h = ground arith

    joined-PlanOf :
        (index : ℕ) (planned : PlannedToolStep) (steps : List AgentStep) (o : Option AgentStep)
        (rest : Option (List AgentStep))
        → plan_step task tools index planned ≡ o
        → ((later : List AgentStep) → rest ≡ some later → PlanOf tools (index + 2) later)
        → and_then task tools o rest ≡ some steps
        → PlanOf tools (index + 1) steps
    unfolding and_then
    joined-PlanOf index planned steps none rest e ih h = absurd (ground arith)
    joined-PlanOf index planned steps (some step) none e ih h = absurd (ground arith)
    joined-PlanOf index planned steps (some step) (some later) e ih h =
        let same : step ∷ later ≡ steps = cc in
        subst (PlanOf tools (index + 1)) same (headed later (ih later refl))
      where
        asked : plan_step task tools index planned ≡ some step → AsksTool tools (index + 1) step
        asked e =
            unfold plan_step in
            defined_step-AsksTool index planned (trim_space planned.tool_name) step
              (last_definition tools (trim_space planned.tool_name)) refl e

        headed :
            (later : List AgentStep)
            → PlanOf tools (index + 2) later
            → PlanOf tools (index + 1) (step ∷ later)
        headed [] p = absurd p
        headed (next ∷ more) p =
            (asked e, subst (λ n. PlanOf tools n (next ∷ more)) (omega arith) p)

    plan_steps-PlanOf :
        (index : ℕ) (planned : List PlannedToolStep) (steps : List AgentStep)
        → plan_steps task tools index planned ≡ some steps
        → PlanOf tools (index + 1) steps
    unfolding plan_steps
    plan_steps-PlanOf index [] steps h =
        let same : final_plan_step task tools index ∷ [] ≡ steps = cc in
        subst (PlanOf tools (index + 1)) same (unfold final_plan_step in (refl, refl))
    plan_steps-PlanOf index (p ∷ planned) steps h =
        joined-PlanOf index p steps (plan_step task tools index p)
          (plan_steps task tools (suc index) planned) refl
          (λ later e.
            subst (λ n. PlanOf tools n later) (omega arith)
              (plan_steps-PlanOf (suc index) planned later e))
          h

  module _ ⦃d : PlanDecoder⦄ (prompt : LoadedTask → List ToolDefinition → Str) where
    abbrev Sound : List Event → Script → Type 0
    Sound past script = Always NoCall PlansOffered past script

    module _ (loaded : LoadedTask) (version : ℕ) where
      after_saved-Sound :
          (past : List Event) (a : Option Str) → Sound past (after_saved prompt loaded version a)
      unfolding after_saved
      after_saved-Sound past none = tt
      after_saved-Sound past (some e) = tt

      after_materialized-Sound :
          (past : List Event) (summary : Str) (m : Option (List AgentStep))
          → ((steps : List AgentStep) → m ≡ some steps → PlanOf (offered past) 1 steps)
          → Sound past (after_materialized prompt loaded version summary m)
      unfolding after_materialized
      after_materialized-Sound past summary none h = tt
      after_materialized-Sound past summary (some steps) h =
          (h steps refl, λ a. after_saved-Sound _ a)

      after_parsed-Sound :
          (past : List Event) (tools : List ToolDefinition) (plan : Option PlanDocument)
          → offered past ≡ tools
          → Sound past (after_parsed prompt loaded version tools plan)
      unfolding after_parsed
      after_parsed-Sound past tools none e = tt
      after_parsed-Sound past tools (some plan) e =
          after_materialized-Sound past plan.summary (materialize_plan loaded.task tools plan)
            (λ steps h.
              subst (λ t. PlanOf t 1 steps) (sym e)
                (unfold materialize_plan in
                  plan_steps-PlanOf loaded.task tools 0 plan.steps steps h))

      after_discovery-Sound :
          (past : List Event) (a : Option (List ToolDefinition))
          → Sound (listed_tools a ∷ past) (after_discovery prompt loaded version a)
      unfolding after_discovery
      after_discovery-Sound past none = tt
      after_discovery-Sound past (some tools) = λ a. answered a
        where
          answered :
              (a : Option Str)
              → Sound
                  (generated (prompt loaded tools) a ∷ listed_tools (some tools) ∷ past)
                  (after_response prompt loaded version tools a)
          answered none = unfold after_response in tt
          answered (some content) =
              unfold after_response in
              after_parsed-Sound
                (generated (prompt loaded tools) (some content) ∷ listed_tools (some tools) ∷ past)
                tools (parse_plan_json content) refl

      after_step_planning-Sound :
          (past : List Event) (a : Option Str)
          → Sound past (after_step_planning prompt loaded version a)
      unfolding after_step_planning
      after_step_planning-Sound past (some e) = tt
      after_step_planning-Sound past none = λ a. after_discovery-Sound past a

      after_task_planning-Sound :
          (past : List Event) (step : AgentStep) (a : Option Str)
          → Sound past (after_task_planning prompt loaded version step a)
      unfolding after_task_planning
      after_task_planning-Sound past step (some e) = tt
      after_task_planning-Sound past step none = (tt, λ a. after_step_planning-Sound _ a)

      start_planning-Sound :
          (past : List Event) (o : Option AgentStep)
          → Sound past (start_planning prompt loaded version o)
      unfolding start_planning
      start_planning-Sound past none = tt
      start_planning-Sound past (some step) = (tt, λ a. after_task_planning-Sound _ step a)

    plan_version-Sound :
        (version v : Option ℕ) (past : List Event) (loaded : LoadedTask)
        → Sound past (plan_version prompt version loaded v)
    unfolding plan_version
    plan_version-Sound version none past loaded = tt
    plan_version-Sound version (some v) past loaded = start_planning-Sound loaded v past _

    plan_task-Sound :
        (version : Option ℕ) (past : List Event) (a : Option LoadedTask)
        → Sound past (plan_task prompt version a)
    plan_task-Sound version past none = unfold plan_task in tt
    plan_task-Sound version past (some loaded) =
        elim (Bool-cases (task_terminal loaded.task.status)) [
          | inl over ↦ unfold plan_task in rw over tt
          | inr going ↦ elim (Bool-cases (plan_already_saved loaded.loaded_steps)) [
            | inl saved ↦ unfold plan_task in rw going (rw saved tt)
            | inr fresh ↦
                unfold plan_task in rw going (rw fresh (plan_version-Sound version _ past loaded))
          ]
        ]

    -- The planning node, whatever is answered to its calls and whatever prompt it makes, calls no tool,
    -- and a plan that it saves is a list of tool steps and one final step behind them, numbered from
    -- one. Each tool step is for a tool that was offered and takes its arguments, which are stored
    -- with their digest; it has the risk, the need of an approval and the other marks of that tool,
    -- and is pending and undecided.
    pub plan_node-Sound :
        (version : Option ℕ) (task_id : Str)
        → Always NoCall PlansOffered [] (plan_node prompt version task_id)
    unfolding plan_node
    plan_node-Sound version task_id = λ a. plan_task-Sound version _ a
