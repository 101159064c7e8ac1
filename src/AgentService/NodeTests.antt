-- ===== src/AgentService/NodeTests.antt =====
-- The nodes of the graph in concrete surroundings.
use haruka_ai.Base.{
  ℕ, leb, ltb, true, Str, codes, str_eq, length, List, none, some, [], ◌∷◌, ◌++◌, ◌≡◌, refl,
  is_empty,
}
use haruka_ai.McpHub.Model.{ToolDefinition}
use haruka_ai.Agent.Model.{LoadedTask}
use haruka_ai.AgentService.Redact.{Secrets}
use haruka_ai.AgentService.Nodes.{Surroundings, tool_node}
use haruka_ai.AgentService.Gates.{approval_node, finalize_node}
use haruka_ai.AgentService.Justify.{Always, Justified, Careful}
use haruka_ai.AgentService.Authorised.{nodes-Ruled}
use haruka_ai.AgentService.Planner.{
  PlannedToolStep, PlanDocument, PlanDecoder, without_fence, parse_plan_json,
}
use haruka_ai.AgentService.PlanNode.{plan_node}
use haruka_ai.AgentService.Planned.{NoCall, PlansOffered, plan_node-Sound}
use haruka_ai.McpSchema.Json.{Library, object, empty}

-- Every text is an object without fields.
instance library : Library
library = record {
  Float = ℕ;
  float64 = λ t. some (length t);
  is_less = ltb;
  at_most = leb;
  is_integral = λ x. true;
  zero_float = 0;
  max_int = 9;
  to_int = λ x. x;
  compile = λ p. some (λ t. true);
  marshal = λ v. some (codes "{}");
  decode = λ raw. some (object empty, []);
  at_end = is_empty;
}

instance secrets : Secrets
secrets = record {
  sensitive_key = λ key. str_eq key (codes "token");
  replace_private_keys = λ t. t;
  replace_bearer = λ t. t;
  replace_sensitive = λ t. t;
}

instance surroundings : Surroundings
surroundings = record {
  sha256_hex = λ t. t;
  equal_fold = str_eq;
  new_id = codes "operation";
  step_id = λ n. n ∷ [];
  error_text = λ e. codes "failed";
  started = 1;
  finished = 2;
  failed = 3;
}

abbrev question : LoadedTask → Str
question loaded = loaded.task.goal

nodes-Ruled_example :
    Always Justified Careful [] (tool_node (some 3) (codes "task"))
    × Always Justified Careful [] (approval_node (some 3) (codes "task"))
    × Always Justified Careful [] (finalize_node question (some 3) (codes "task"))
nodes-Ruled_example = nodes-Ruled question (some 3) (codes "task")

abbrev planned_search : PlannedToolStep
planned_search = record {
  title = codes "Search";
  instruction = [];
  tool_name = codes " search";
  arguments = empty;
}

abbrev search_plan : PlanDocument
search_plan = record { summary = codes "done"; steps = planned_search ∷ [] }

instance plan_decoder : PlanDecoder
plan_decoder = record { decode_plan = λ t. some (search_plan, []) }

abbrev fence : Str
fence = codes "```"

-- A fence of JSON is read, other fences and text are not.
fenced_plan :
    (without_fence (fence ++ codes "json" ++ (10 ∷ codes "{}") ++ (10 ∷ fence)) ≡ some (codes "{}"))
    × (without_fence (fence ++ codes "yaml" ++ (10 ∷ codes "{}") ++ (10 ∷ fence)) ≡ none)
    × (without_fence (fence ++ codes "{}" ++ fence) ≡ none)
    × (parse_plan_json (codes " {}") ≡ some search_plan)
    × (parse_plan_json (codes "plan {}") ≡ none)
unfolding without_fence parse_plan_json surroundings str_eq plan_decoder library
fenced_plan = (refl, refl, refl, refl, refl)

abbrev offers : LoadedTask → List ToolDefinition → Str
offers loaded tools = loaded.task.goal

plan_node-Sound_example : Always NoCall PlansOffered [] (plan_node offers (some 3) (codes "task"))
plan_node-Sound_example = plan_node-Sound offers (some 3) (codes "task")
