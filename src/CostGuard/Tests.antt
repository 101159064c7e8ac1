-- ===== src/CostGuard/Tests.antt =====
-- Runs of the guard, and the theorems at concrete requests.
use haruka_ai.Base.{
  ℕ, ◌+◌, ◌*◌, ◌≤◌, ◌<◌, ◌≡◌, refl, ◌⊎◌, true, [], ◌∷◌, List, Option, none, some, Str, codes,
  pos as int, negsuc, arith, take, length,
}
use haruka_ai.CostGuard.Config.{
  Config, default_config, config_from_environment, normalize_config, action_chat, action_image,
  second,
}
use haruka_ai.CostGuard.Guard.{
  new_guard, Body, buffered, limit_body, retry_after_seconds, exceeds, check_payload, read_limit,
  next_int64, BodyCheck,
}
use haruka_ai.CostGuard.Protect.{protect, denied, served, after_limiter}
use haruka_ai.CostGuard.Counts.{enters, leaves, run}
use haruka_ai.CostGuard.Caps.{Sound, run-new_guard-Sound}
use haruka_ai.CostGuard.Limits.{
  AllPositive, normalize_config-AllPositive, retry_after_seconds-ceiling,
}
use haruka_ai.CostGuard.Balance.{SameCounts, protect-not-served}
use haruka_ai.CostGuard.Bodies.{limit_body-whole}
use haruka_ai.Base.{is_empty, to_lower, trim_space}

-- Ann's image request, a second one that is over the cap, and the first one's end, told twice.
run-new_guard-Sound_example :
    Sound (
      run
        (enters (codes "ann") action_image
          ∷ enters (codes "bob") action_image
          ∷ leaves 0
          ∷ leaves 0
          ∷ [])
        (record { guard = new_guard default_config; leases = [] }))
    × ((run
          (enters (codes "ann") action_image
            ∷ enters (codes "bob") action_image
            ∷ leaves 0
            ∷ leaves 0
            ∷ [])
          (record { guard = new_guard default_config; leases = [] })).guard.config
        ≡ normalize_config default_config)
run-new_guard-Sound_example = run-new_guard-Sound default_config (
    enters (codes "ann") action_image
    ∷ enters (codes "bob") action_image
    ∷ leaves 0
    ∷ leaves 0
    ∷ [])

abbrev broken : Config
broken = record default_config { window = negsuc 4; image_in_flight = int 0 }

normalize_config-AllPositive_example : AllPositive (normalize_config broken)
normalize_config-AllPositive_example = normalize_config-AllPositive broken

abbrev environment : Str → Option Str
environment name = some (codes " -7 ")

-- A negative number in the environment changes no limit.
environment_negative :
    (config_from_environment environment).window ≡ default_config.window
    × (config_from_environment environment).json_max_bytes ≡ default_config.json_max_bytes
unfolding config_from_environment
environment_negative = (refl, refl)

retry_after_seconds-ceiling_example :
    (1 ≤ retry_after_seconds (int 1500000000))
    × (1500000000 ≤ retry_after_seconds (int 1500000000) * second)
    × ((retry_after_seconds (int 1500000000) * second < 1500000000 + second)
        ⊎ (retry_after_seconds (int 1500000000) ≡ 1))
retry_after_seconds-ceiling_example = retry_after_seconds-ceiling 1500000000

-- Over the quota.
over_quota :
    (b : BodyCheck)
    → ¬ (
        (protect
          (λ c. c)
          (λ rules. denied (int 5))
          true
          action_chat
          (codes " ann ")
          none
          (new_guard default_config)).0
        ≡ served b)
unfolding protect after_limiter is_empty to_lower trim_space
over_quota b h = cc

protect-not-served_example :
    SameCounts
      (new_guard default_config)
      (protect
        (λ c. c)
        (λ rules. denied (int 5))
        true
        action_chat
        (codes " ann ")
        none
        (new_guard default_config)).1
protect-not-served_example =
    protect-not-served (λ c. c) (λ rules. denied (int 5)) true action_chat (codes " ann ") none
      (new_guard default_config) over_quota

abbrev two_bytes : List ℕ
two_bytes = 123 ∷ 125 ∷ []

abbrev chunked : Body
chunked = record { content_length = negsuc 0; read_limited = λ n. some (take n two_bytes) }

passes : limit_body 8 (some chunked) ≡ buffered two_bytes
unfolding limit_body exceeds check_payload read_limit next_int64
passes = refl

limit_body-whole_example : (two_bytes ≡ two_bytes) × (length two_bytes ≤ 8)
limit_body-whole_example =
    limit_body-whole 8 two_bytes two_bytes chunked (omega arith) (λ n. refl) passes
