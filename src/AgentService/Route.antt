-- ===== src/AgentService/Route.antt =====
-- service/agent/graph.go: the choice of the next step and of the node that handles it, and the
-- tests on steps that the nodes share. Reading the task and noting the current step are calls of
-- the store.
use haruka_ai.Base.{
  ltb, if◌then◌else◌, Bool, true, false, not, ◌&&◌, ◌||◌, List, [], ◌∷◌, Option, none, some, Str,
  str_eq,
}
use haruka_ai.Agent.Model.{AgentStep, StepKind, StepStatus, TaskStatus, ApprovalDecision}
use haruka_ai.McpHub.Model.{ToolDefinition}

pub data RouteError : Type 0 where
  task_stopped execution_needs_review no_final_step : RouteError
  step_failed : Str → RouteError

pub data Route : Type 0 where
  to_approval to_tool to_finalize : Route

-- The loop's `selected`, or the error that ends it.
pub data Selection : Type 0 where
  selects : Option AgentStep → Selection
  stops : RouteError → Selection

pub data Routed : Type 0 where
  routed : Route → AgentStep → Routed
  refused : RouteError → Routed

unfoldable pub or_first : Option AgentStep → AgentStep → Option AgentStep
or_first none step = some step
or_first (some selected) step = some selected

-- The switch on the status of a step that is neither plan nor final; `rest` is the loop's rest.
unfoldable pub by_status : StepStatus → AgentStep → Selection → Selection
by_status StepStatus.succeeded step rest = rest
by_status StepStatus.rejected step rest = rest
by_status StepStatus.skipped step rest = rest
by_status StepStatus.failed step rest = stops (step_failed step.id)
by_status StepStatus.execution_unknown step rest = stops execution_needs_review
by_status _ step rest = selects (some step)

-- The cases of the loop's body on the kind.
unfoldable pub by_kind : StepKind → AgentStep → Selection → Selection → Selection
unfolding by_status
by_kind StepKind.plan step rest rest_final = rest
by_kind StepKind.final step rest rest_final = rest_final
by_kind _ step rest rest_final = by_status step.status step rest

unfoldable pub select_step : Option AgentStep → List AgentStep → Selection
unfolding by_kind or_first
select_step selected [] = selects selected
select_step selected (step ∷ steps) =
    let rest = select_step selected steps in
    let rest_final = select_step (or_first selected step) steps in
    by_kind step.kind step rest rest_final

unfoldable pub is_approved : ApprovalDecision → Bool
is_approved ApprovalDecision.approved = true
is_approved _ = false

unfoldable pub route_of_kind : StepKind → AgentStep → Route
unfolding is_approved
route_of_kind StepKind.tool step =
    if step.requires_approval && not (is_approved step.approval_decision)
    then to_approval
    else to_tool
route_of_kind _ step = to_finalize

unfoldable pub route_selection : Selection → Routed
unfolding route_of_kind
route_selection (stops e) = refused e
route_selection (selects none) = refused no_final_step
route_selection (selects (some step)) = routed (route_of_kind step.kind step) step

-- `nextRoute`, from the task's status and its steps in order.
unfoldable pub next_route : TaskStatus → List AgentStep → Routed
unfolding route_selection select_step
next_route TaskStatus.cancelled steps = refused task_stopped
next_route TaskStatus.rejected steps = refused task_stopped
next_route TaskStatus.succeeded steps = refused task_stopped
next_route TaskStatus.requires_review steps = refused execution_needs_review
next_route _ steps = route_selection (select_step none steps)

unfoldable pub tool_replay_safe : AgentStep → Bool
tool_replay_safe step = not step.destructive && (step.read_only || step.idempotent)

abbrev pub bool_eq : Bool → Bool → Bool
bool_eq true b = b
bool_eq false b = not b

unfoldable pub tool_policy_changed : AgentStep → ToolDefinition → Bool
unfolding str_eq
tool_policy_changed step definition =
    not (str_eq step.risk_level definition.risk)
    || not (bool_eq step.requires_approval definition.requires_approval)
    || not (bool_eq step.read_only definition.read_only)
    || not (bool_eq step.idempotent definition.idempotent)
    || not (bool_eq step.destructive definition.destructive)

unfoldable pub plan_already_saved : List AgentStep → Bool
plan_already_saved [] = false
plan_already_saved (step ∷ steps) = ltb 0 step.sequence || plan_already_saved steps

unfoldable pub task_terminal : TaskStatus → Bool
task_terminal TaskStatus.succeeded = true
task_terminal TaskStatus.failed = true
task_terminal TaskStatus.rejected = true
task_terminal TaskStatus.cancelled = true
task_terminal _ = false
