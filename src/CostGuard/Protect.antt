-- ===== src/CostGuard/Protect.antt =====
-- middleware/costguard/guard.go: the chain of checks of a protected endpoint, up to its handler.
use haruka_ai.Base.{
  ℕ, if◌then◌else◌, Bool, List, [], ◌∷◌, Option, none, some, Str, codes, trim_space, to_lower,
  is_empty, ℤ, not_negative, or_default, or_zero,
}
use haruka_ai.CostGuard.Guard.{
  Guard, acquire, release, Body, BodyCheck, no_body, buffered, too_large, unreadable, limit_body,
  retry_after_seconds,
}

pub record RateLimitRule : Type 0 where
  pub action : Str
  pub dimension : Str
  pub identifier : Str
  pub limit : ℤ
  pub window : ℤ

-- What the limiter answers: an error, yes, or no with the time to wait.
pub data Allowance : Type 0 where
  limiter_failed allowed : Allowance
  denied : ℤ → Allowance

-- The answer of the middleware, or the handler's run with its body.
pub data Outcome : Type 0 where
  unauthorized service_unavailable entity_too_large bad_request : Outcome
  too_many_requests : ℕ → Outcome
  served : BodyCheck → Outcome

unfoldable pub action_limit : Guard → Str → ℤ
unfolding or_default or_zero
action_limit g action =
    or_default g.config.requests_per_window (or_zero (g.config.action_limits action))

unfoldable pub rules : Guard → Str → Str → List RateLimitRule
unfolding action_limit
rules g user action =
    record {
      action = codes "cost-guard";
      dimension = codes "all";
      identifier = user;
      limit = g.config.requests_per_window;
      window = g.config.window;
    }
    ∷ record {
      action = codes "cost-guard";
      dimension = action;
      identifier = user;
      limit = action_limit g action;
      window = g.config.window;
    }
    ∷ []

-- A body that is refused ends the request, and the deferred release runs.
unfoldable pub after_body : Str → Str → Guard → BodyCheck → Outcome × Guard
unfolding release
after_body user action g too_large = (entity_too_large, release user action g)
after_body user action g unreadable = (bad_request, release user action g)
after_body user action g no_body = (served no_body, g)
after_body user action g (buffered payload) = (served (buffered payload), g)

-- The maximum of a guard's configuration is positive.
unfoldable pub after_acquire :
    Bool → Str → Str → Option Body → Guard → Option Guard → Outcome × Guard
unfolding after_body limit_body not_negative retry_after_seconds
after_acquire limit_json user action body g none =
    (too_many_requests (retry_after_seconds g.config.retry_after), g)
after_acquire limit_json user action body g (some taken) =
    if limit_json
    then after_body user action taken (limit_body (not_negative g.config.json_max_bytes) body)
    else (served no_body, taken)

unfoldable pub after_limiter : Bool → Str → Str → Option Body → Guard → Allowance → Outcome × Guard
unfolding after_acquire acquire retry_after_seconds
after_limiter limit_json user action body g limiter_failed = (service_unavailable, g)
after_limiter limit_json user action body g (denied retry) =
    (too_many_requests (retry_after_seconds retry), g)
after_limiter limit_json user action body g allowed =
    after_acquire limit_json user action body g (acquire user action g)

-- `protect`, with the guard as the handler finds it where the request is served.
unfoldable pub protect :
    (ℕ → ℕ)
    → (List RateLimitRule → Allowance)
    → Bool
    → Str
    → Str
    → Option Body
    → Guard
    → Outcome × Guard
unfolding after_limiter rules to_lower trim_space is_empty
protect lower allow limit_json action user_name body g =
    let user = to_lower lower (trim_space user_name) in
    if is_empty user
    then (unauthorized, g)
    else after_limiter limit_json user action body g (allow (rules g user action))
