-- ===== src/AgentService/Tests.antt =====
-- Runs of the routing, and the theorems at concrete steps.
use haruka_ai.Base.{◌≡◌, refl, true, [], ◌∷◌}
use haruka_ai.Agent.Model.{AgentStep, StepKind, StepStatus, TaskStatus, ApprovalDecision}
use haruka_ai.Agent.Fixture.{running_step}
use haruka_ai.AgentService.Route.{
  by_status, by_kind, select_step, or_first, is_approved, route_of_kind, route_selection,
  next_route, routed, to_tool, to_finalize, to_approval,
}
use haruka_ai.AgentService.Routing.{NextWork, AllPassed, next_route-tool, next_route-finalize}

abbrev planned : AgentStep
planned = record running_step { kind = StepKind.plan; status = StepStatus.succeeded }

abbrev sent : AgentStep
sent = record running_step { status = StepStatus.succeeded }

abbrev answer : AgentStep
answer = record running_step { kind = StepKind.final; status = StepStatus.pending }

abbrev unapproved : AgentStep
unapproved = record running_step {
  status = StepStatus.pending;
  approval_decision = ApprovalDecision.pending;
}

asks_first :
    next_route TaskStatus.running (planned ∷ unapproved ∷ answer ∷ [])
    ≡ routed to_approval unapproved
unfolding by_status by_kind select_step or_first is_approved route_of_kind route_selection
    next_route
asks_first = refl

runs_tool :
    next_route TaskStatus.running (planned ∷ sent ∷ running_step ∷ answer ∷ [])
    ≡ routed to_tool running_step
unfolding by_status by_kind select_step or_first is_approved route_of_kind route_selection
    next_route
runs_tool = refl

next_route-tool_example :
    NextWork (planned ∷ sent ∷ running_step ∷ answer ∷ []) running_step
    × (running_step.kind ≡ StepKind.tool)
    × (running_step.requires_approval ≡ true → is_approved running_step.approval_decision ≡ true)
next_route-tool_example =
    next_route-tool TaskStatus.running (planned ∷ sent ∷ running_step ∷ answer ∷ []) running_step
      runs_tool

answers : next_route TaskStatus.running (planned ∷ sent ∷ answer ∷ []) ≡ routed to_finalize answer
unfolding by_status by_kind select_step or_first is_approved route_of_kind route_selection
    next_route
answers = refl

next_route-finalize_example : AllPassed (planned ∷ sent ∷ answer ∷ []) answer
next_route-finalize_example =
    next_route-finalize TaskStatus.running (planned ∷ sent ∷ answer ∷ []) answer
      ((λ e. cc), ((λ e. cc), ((λ e. cc), tt))) answers
