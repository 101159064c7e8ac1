-- ===== src/CostGuard/Config.antt =====
-- middleware/costguard/guard.go: the configuration, its defaults and its environment. The
-- environment is an argument; spans are in nanoseconds.
use haruka_ai.Base.{
  ℕ, zero, suc, ◌+◌, ◌*◌, ◌-◌, ◌^◌, ltb, leb, if◌then◌else◌, ◌==◌, ◌&&◌, List, [], ◌∷◌, Option,
  none, some, Str, codes, trim_space, ℤ, pos as int, negsuc, or_default, or_zero, GoMap, empty_map,
  put,
}

abbrev pub action_chat : Str
action_chat = codes "chat"

abbrev pub action_voice : Str
action_voice = codes "voice"

abbrev pub action_rag : Str
action_rag = codes "rag"

abbrev pub action_mcp : Str
action_mcp = codes "mcp"

abbrev pub action_agent : Str
action_agent = codes "agent"

abbrev pub action_image : Str
action_image = codes "image"

pub record Config : Type 0 where
  pub json_max_bytes : ℤ
  pub window : ℤ
  pub requests_per_window : ℤ
  pub action_limits : GoMap ℤ
  pub user_in_flight : ℤ
  pub global_in_flight : ℤ
  pub image_in_flight : ℤ
  pub retry_after : ℤ

abbrev pub second : ℕ
second = 1000000000

unfoldable pub default_limits : GoMap ℤ
unfolding put
default_limits = put action_chat (int 20) (
    put action_voice (int 10) (
      put action_rag (int 10) (
        put action_mcp (int 30) (put action_agent (int 10) (put action_image (int 10) empty_map)))))

unfoldable pub default_config : Config
default_config = record {
  json_max_bytes = int (2 ^ 20);
  window = int (60 * second);
  requests_per_window = int 60;
  action_limits = default_limits;
  user_in_flight = int 2;
  global_in_flight = int 32;
  image_in_flight = int 1;
  retry_after = int second;
}

-- The decimal digits of `strconv.ParseInt` in base 10.
unfoldable pub parse_digits : ℕ → List ℕ → Option ℕ
parse_digits n [] = some n
parse_digits n (c ∷ cs) =
    let rest = parse_digits (n * 10 + (c - 48)) cs in if leb 48 c && leb c 57 then rest else none

unfoldable pub parse_nat : List ℕ → Option ℕ
parse_nat [] = none
parse_nat (c ∷ cs) = parse_digits 0 (c ∷ cs)

-- A value outside of int64 is an error.
unfoldable pub positive_int64 : Option ℕ → Option ℤ
positive_int64 none = none
positive_int64 (some n) = if ltb n (2 ^ 63) then some (int n) else none

unfoldable pub negative_int64 : Option ℕ → Option ℤ
negative_int64 none = none
negative_int64 (some zero) = some (int 0)
negative_int64 (some (suc n)) = if ltb n (2 ^ 63) then some (negsuc n) else none

-- `strconv.ParseInt(s, 10, 64)`, and `strconv.Atoi` where an int has 64 bits.
unfoldable pub parse_int : Str → Option ℤ
unfolding positive_int64 negative_int64 parse_nat parse_digits
parse_int [] = none
parse_int (c ∷ cs) =
    if c == 45
    then negative_int64 (parse_nat cs)
    else positive_int64 (parse_nat (if c == 43 then cs else c ∷ cs))

-- A value that was read replaces the current one if it is positive.
unfoldable pub if_positive : ℤ → Option ℤ → ℤ
unfolding or_default
if_positive current none = current
if_positive current (some v) = or_default current v

unfoldable pub apply_parsed : ℤ → Option Str → ℤ
unfolding if_positive parse_int trim_space
apply_parsed current none = current
apply_parsed current (some raw) = if_positive current (parse_int (trim_space raw))

-- `applyPositiveInt64` and `applyPositiveInt`
unfoldable pub apply_positive_int : (Str → Option Str) → Str → ℤ → ℤ
unfolding apply_parsed
apply_positive_int lookup_env name destination = apply_parsed destination (lookup_env name)

-- (1<<63 - 1) / time.Second
abbrev pub max_seconds : ℕ
max_seconds = 9223372036

unfoldable pub seconds_or : ℤ → Option ℤ → ℤ
seconds_or current none = current
seconds_or current (some (int zero)) = current
seconds_or current (some (int (suc n))) =
    if ltb max_seconds (suc n) then current else int (suc n * second)
seconds_or current (some (negsuc n)) = current

unfoldable pub apply_seconds : ℤ → Option Str → ℤ
unfolding seconds_or parse_int trim_space
apply_seconds current none = current
apply_seconds current (some raw) = seconds_or current (parse_int (trim_space raw))

unfoldable pub apply_positive_duration_seconds : (Str → Option Str) → Str → ℤ → ℤ
unfolding apply_seconds
apply_positive_duration_seconds lookup_env name destination =
    apply_seconds destination (lookup_env name)

unfoldable pub apply_action_limit : (Str → Option Str) → Str → Str → GoMap ℤ → GoMap ℤ
unfolding apply_positive_int or_zero put
apply_action_limit lookup_env name action limits =
    put action (apply_positive_int lookup_env name (or_zero (limits action))) limits

unfoldable pub limits_from_environment : (Str → Option Str) → GoMap ℤ
unfolding apply_action_limit default_limits
limits_from_environment env =
    let chat =
      apply_action_limit env (codes "GOPHERAI_COST_GUARD_CHAT_REQUESTS") action_chat
        default_limits in
    let voice =
      apply_action_limit env (codes "GOPHERAI_COST_GUARD_VOICE_REQUESTS") action_voice chat in
    let rag = apply_action_limit env (codes "GOPHERAI_COST_GUARD_RAG_REQUESTS") action_rag voice in
    let mcp = apply_action_limit env (codes "GOPHERAI_COST_GUARD_MCP_REQUESTS") action_mcp rag in
    let agent =
      apply_action_limit env (codes "GOPHERAI_COST_GUARD_AGENT_REQUESTS") action_agent mcp in
    apply_action_limit env (codes "GOPHERAI_COST_GUARD_IMAGE_REQUESTS") action_image agent

unfoldable pub config_from_environment : (Str → Option Str) → Config
unfolding default_config apply_positive_int apply_positive_duration_seconds limits_from_environment
config_from_environment env = record {
  json_max_bytes =
      apply_positive_int env (codes "GOPHERAI_COST_GUARD_JSON_MAX_BYTES")
        default_config.json_max_bytes;
  window =
      apply_positive_duration_seconds env (codes "GOPHERAI_COST_GUARD_WINDOW_SECONDS")
        default_config.window;
  requests_per_window =
      apply_positive_int env (codes "GOPHERAI_COST_GUARD_REQUESTS_PER_WINDOW")
        default_config.requests_per_window;
  action_limits = limits_from_environment env;
  user_in_flight =
      apply_positive_int env (codes "GOPHERAI_COST_GUARD_USER_INFLIGHT")
        default_config.user_in_flight;
  global_in_flight =
      apply_positive_int env (codes "GOPHERAI_COST_GUARD_GLOBAL_INFLIGHT")
        default_config.global_in_flight;
  image_in_flight =
      apply_positive_int env (codes "GOPHERAI_COST_GUARD_IMAGE_INFLIGHT")
        default_config.image_in_flight;
  retry_after =
      apply_positive_duration_seconds env (codes "GOPHERAI_COST_GUARD_RETRY_AFTER_SECONDS")
        default_config.retry_after;
}

-- The limit of a default action: the configured one, or the default.
unfoldable pub normalized_limit : Option ℤ → Option ℤ → Option ℤ
unfolding or_default or_zero
normalized_limit none configured = none
normalized_limit (some fallback) configured = some (or_default fallback (or_zero configured))

unfoldable pub normalize_config : Config → Config
unfolding default_config or_default normalized_limit
normalize_config c = record {
  json_max_bytes = or_default default_config.json_max_bytes c.json_max_bytes;
  window = or_default default_config.window c.window;
  requests_per_window = or_default default_config.requests_per_window c.requests_per_window;
  action_limits =
      λ action. normalized_limit (default_config.action_limits action) (c.action_limits action);
  user_in_flight = or_default default_config.user_in_flight c.user_in_flight;
  global_in_flight = or_default default_config.global_in_flight c.global_in_flight;
  image_in_flight = or_default default_config.image_in_flight c.image_in_flight;
  retry_after = or_default default_config.retry_after c.retry_after;
}
