-- ===== src/CostGuard/Limits.antt =====
-- middleware/costguard/guard.go: limits are positive, and waits are rounded up.
use haruka_ai.Base.{
  ℕ, zero, suc, ◌+◌, ◌*◌, ◌≤◌, ◌<◌, ltb, ◌≡◌, refl, ap, subst, ◌⊎◌, inl, inr, Option, none, some,
  Str, codes, str_eq, ℤ, pos as int, negsuc, trim_space, or_default, or_zero, GoMap, put, arith,
  Bool-cases,
}
use haruka_ai.CostGuard.Config.{
  Config, default_limits, default_config, if_positive, apply_parsed, apply_positive_int, seconds_or,
  action_chat, action_voice, action_rag, action_mcp, action_agent, action_image, apply_seconds,
  apply_positive_duration_seconds, apply_action_limit, limits_from_environment,
  config_from_environment, normalized_limit, normalize_config, second, parse_int, max_seconds,
}
use haruka_ai.CostGuard.Guard.{retry_after_seconds}

abbrev pub Positive : ℤ → Type 0
Positive z = (n : ℕ) × (z ≡ int (suc n))

pub record AllPositive (c : Config) : Type 0 where
  pub json_max_bytes : Positive c.json_max_bytes
  pub window : Positive c.window
  pub requests_per_window : Positive c.requests_per_window
  pub action_limits : (a : Str) (z : ℤ) → c.action_limits a ≡ some z → Positive z
  pub user_in_flight : Positive c.user_in_flight
  pub global_in_flight : Positive c.global_in_flight
  pub image_in_flight : Positive c.image_in_flight
  pub retry_after : Positive c.retry_after

or_default-Positive : (fallback z : ℤ) → Positive fallback → Positive (or_default fallback z)
unfolding or_default
or_default-Positive fallback (int zero) h = h
or_default-Positive fallback (int (suc n)) h = (n, refl)
or_default-Positive fallback (negsuc n) h = h

abbrev LimitsPositive : GoMap ℤ → Type 0
LimitsPositive m = (a : Str) (z : ℤ) → m a ≡ some z → Positive z

put-LimitsPositive :
    (k : Str) (v : ℤ) (m : GoMap ℤ) → Positive v → LimitsPositive m → LimitsPositive (put k v m)
unfolding put
put-LimitsPositive k v m h all a z e = elim (Bool-cases (str_eq a k)) [
  | inl same ↦ let e' : some v ≡ some z = rw same at e in subst Positive (ground arith) h
  | inr other ↦ all a z (rw other at e)
]

default_limits-Positive : LimitsPositive default_limits
unfolding default_limits
default_limits-Positive =
    put-LimitsPositive _ _ _ (19, refl)
      (put-LimitsPositive _ _ _ (9, refl)
        (put-LimitsPositive _ _ _ (9, refl)
          (put-LimitsPositive _ _ _ (29, refl)
            (put-LimitsPositive _ _ _ (9, refl)
              (put-LimitsPositive _ _ _ (9, refl) (λ a z e. cc))))))

default_config-Positive : AllPositive default_config
unfolding default_config
default_config-Positive = record {
  json_max_bytes = (1048575, refl);
  window = (59999999999, refl);
  requests_per_window = (59, refl);
  action_limits = default_limits-Positive;
  user_in_flight = (1, refl);
  global_in_flight = (31, refl);
  image_in_flight = (0, refl);
  retry_after = (999999999, refl);
}

normalized_limit-Positive :
    (o c : Option ℤ) (z : ℤ)
    → ((y : ℤ) → o ≡ some y → Positive y)
    → normalized_limit o c ≡ some z
    → Positive z
unfolding normalized_limit
normalized_limit-Positive none c z h e = cc
normalized_limit-Positive (some f) c z h e =
    let e' : or_default f (or_zero c) ≡ z = ground arith in
    subst Positive e' (or_default-Positive f (or_zero c) (h f refl))

-- Every limit of a normalized configuration is positive, whatever was configured.
pub normalize_config-AllPositive : (c : Config) → AllPositive (normalize_config c)
unfolding normalize_config
normalize_config-AllPositive c =
    let d = default_config-Positive in
    record {
      json_max_bytes = or_default-Positive _ _ d.json_max_bytes;
      window = or_default-Positive _ _ d.window;
      requests_per_window = or_default-Positive _ _ d.requests_per_window;
      action_limits = λ a z e.
          normalized_limit-Positive (default_config.action_limits a) (c.action_limits a) z
            (d.action_limits a) e;
      user_in_flight = or_default-Positive _ _ d.user_in_flight;
      global_in_flight = or_default-Positive _ _ d.global_in_flight;
      image_in_flight = or_default-Positive _ _ d.image_in_flight;
      retry_after = or_default-Positive _ _ d.retry_after;
    }

-- `Retry-After` is at least a second, covers the wait, and is less than a second more, unless it is
-- the least of one second.
pub retry_after_seconds-ceiling :
    (n : ℕ)
    → (1 ≤ retry_after_seconds (int n))
      × (n ≤ retry_after_seconds (int n) * second)
      × ((retry_after_seconds (int n) * second < n + second) ⊎ (retry_after_seconds (int n) ≡ 1))
unfolding retry_after_seconds
retry_after_seconds-ceiling n = ground arith

if_positive-Positive : (z : ℤ) (o : Option ℤ) → Positive z → Positive (if_positive z o)
unfolding if_positive
if_positive-Positive z none h = h
if_positive-Positive z (some v) h = or_default-Positive z v h

apply_parsed-Positive : (z : ℤ) (o : Option Str) → Positive z → Positive (apply_parsed z o)
unfolding apply_parsed
apply_parsed-Positive z none h = h
apply_parsed-Positive z (some raw) h = if_positive-Positive z (parse_int (trim_space raw)) h

seconds_or-Positive : (z : ℤ) (o : Option ℤ) → Positive z → Positive (seconds_or z o)
unfolding seconds_or
seconds_or-Positive z none h = h
seconds_or-Positive z (some (int zero)) h = h
seconds_or-Positive z (some (int (suc n))) h = elim (Bool-cases (ltb max_seconds (suc n))) [
  | inl large ↦ rw large h
  | inr fits ↦ rw fits (n * second + 999999999, ap int (omega arith))
]
seconds_or-Positive z (some (negsuc n)) h = h

apply_seconds-Positive : (z : ℤ) (o : Option Str) → Positive z → Positive (apply_seconds z o)
unfolding apply_seconds
apply_seconds-Positive z none h = h
apply_seconds-Positive z (some raw) h = seconds_or-Positive z (parse_int (trim_space raw)) h

apply_action_limit-LimitsPositive :
    (env : Str → Option Str) (name action : Str) (m : GoMap ℤ)
    → Positive (or_zero (m action))
    → LimitsPositive m
    → LimitsPositive (apply_action_limit env name action m)
unfolding apply_action_limit apply_positive_int
apply_action_limit-LimitsPositive env name action m h all =
    put-LimitsPositive action _ m (apply_parsed-Positive _ (env name) h) all

limits_from_environment-LimitsPositive :
    (env : Str → Option Str) → LimitsPositive (limits_from_environment env)
unfolding limits_from_environment apply_action_limit put str_eq default_limits or_zero
limits_from_environment-LimitsPositive env =
    apply_action_limit-LimitsPositive env (codes "GOPHERAI_COST_GUARD_IMAGE_REQUESTS") action_image
      _ (9, refl)
      (apply_action_limit-LimitsPositive env (codes "GOPHERAI_COST_GUARD_AGENT_REQUESTS")
        action_agent _ (9, refl)
        (apply_action_limit-LimitsPositive env (codes "GOPHERAI_COST_GUARD_MCP_REQUESTS") action_mcp
          _ (29, refl)
          (apply_action_limit-LimitsPositive env (codes "GOPHERAI_COST_GUARD_RAG_REQUESTS")
            action_rag _ (9, refl)
            (apply_action_limit-LimitsPositive env (codes "GOPHERAI_COST_GUARD_VOICE_REQUESTS")
              action_voice _ (9, refl)
              (apply_action_limit-LimitsPositive env (codes "GOPHERAI_COST_GUARD_CHAT_REQUESTS")
                action_chat _ (19, refl) default_limits-Positive)))))

-- Every limit read from the environment is positive, whatever the environment holds.
pub config_from_environment-AllPositive :
    (env : Str → Option Str) → AllPositive (config_from_environment env)
unfolding config_from_environment apply_positive_int apply_positive_duration_seconds
config_from_environment-AllPositive env =
    let d = default_config-Positive in
    record {
      json_max_bytes = apply_parsed-Positive _ (env _) d.json_max_bytes;
      window = apply_seconds-Positive _ (env _) d.window;
      requests_per_window = apply_parsed-Positive _ (env _) d.requests_per_window;
      action_limits = limits_from_environment-LimitsPositive env;
      user_in_flight = apply_parsed-Positive _ (env _) d.user_in_flight;
      global_in_flight = apply_parsed-Positive _ (env _) d.global_in_flight;
      image_in_flight = apply_parsed-Positive _ (env _) d.image_in_flight;
      retry_after = apply_seconds-Positive _ (env _) d.retry_after;
    }
