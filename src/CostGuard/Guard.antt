-- ===== src/CostGuard/Guard.antt =====
-- middleware/costguard/guard.go: the in-flight counters, the body limit and the chain of checks
-- before a protected handler. The limiter and the body's reader are arguments.
use haruka_ai.Base.{
  ℕ, ◌+◌, ◌^◌, ◌/◌, ◌%◌, ◌==◌, ltb, leb, if◌then◌else◌, Bool, false, ◌&&◌, ◌||◌, List, Option, none,
  some, Str, str_eq, length, ℤ, pos as int, negsuc, geq, increment, decrement, or_zero, is_zero,
  GoMap, empty_map, put, delete,
}
use haruka_ai.CostGuard.Config.{Config, normalize_config, action_image, second}

pub record Guard : Type 0 where
  pub config : Config
  pub in_flight : ℤ
  pub by_user : GoMap ℤ
  pub by_action : GoMap ℤ

unfoldable pub new_guard : Config → Guard
unfolding normalize_config
new_guard config = record {
  config = normalize_config config;
  in_flight = int 0;
  by_user = empty_map;
  by_action = empty_map;
}

-- `m[k]++`
unfoldable pub count_up : Str → GoMap ℤ → GoMap ℤ
unfolding put increment or_zero
count_up k m = put k (increment (or_zero (m k))) m

-- `m[k]--`, and the entry goes at 0.
unfoldable pub count_down : Str → GoMap ℤ → GoMap ℤ
unfolding put delete decrement or_zero is_zero
count_down k m =
    let n = decrement (or_zero (m k)) in if is_zero n then delete k (put k n m) else put k n m

unfoldable pub saturated : Guard → Str → Str → Bool
unfolding geq or_zero str_eq
saturated g user action =
    geq g.in_flight g.config.global_in_flight
    || geq (or_zero (g.by_user user)) g.config.user_in_flight
    || (str_eq action action_image
        && geq (or_zero (g.by_action action_image)) g.config.image_in_flight)

-- The guard with the slot taken.
unfoldable pub acquire : Str → Str → Guard → Option Guard
unfolding saturated count_up increment
acquire user action g =
    if saturated g user action
    then none
    else some (record g {
      in_flight = increment g.in_flight;
      by_user = count_up user g.by_user;
      by_action = count_up action g.by_action;
    })

-- The body of `once.Do` in the function that `acquire` returns.
unfoldable pub release : Str → Str → Guard → Guard
unfolding count_down decrement
release user action g = record g {
  in_flight = decrement g.in_flight;
  by_user = count_down user g.by_user;
  by_action = count_down action g.by_action;
}

-- A function that `acquire` returned, and whether its `once` is done.
pub record Lease : Type 0 where
  pub user : Str
  pub action : Str
  pub done : Bool

-- `JSONMaxBytes + 1` in 64 bits.
unfoldable pub next_int64 : ℕ → ℤ
next_int64 n = if ltb (n + 1) (2 ^ 63) then int (n + 1) else negsuc n

-- The limit of the read, for a positive maximum.
unfoldable pub read_limit : ℕ → ℕ
read_limit maximum = bounded (next_int64 maximum)
  where
    bounded : ℤ → ℕ
    bounded (int n) = if leb n maximum then maximum else n
    bounded (negsuc n) = maximum

pub data BodyCheck : Type 0 where
  no_body : BodyCheck
  buffered : List ℕ → BodyCheck
  too_large unreadable : BodyCheck

-- `read_limited n` stands for `io.ReadAll(io.LimitReader(body, n))`.
pub record Body : Type 0 where
  pub content_length : ℤ
  pub read_limited : ℕ → Option (List ℕ)

unfoldable pub check_payload : ℕ → Option (List ℕ) → BodyCheck
check_payload maximum none = unreadable
check_payload maximum (some payload) =
    if ltb maximum (length payload) then too_large else buffered payload

unfoldable pub exceeds : ℤ → ℕ → Bool
exceeds (int n) maximum = ltb maximum n
exceeds (negsuc n) maximum = false

unfoldable pub limit_body : ℕ → Option Body → BodyCheck
unfolding exceeds check_payload read_limit
limit_body maximum none = no_body
limit_body maximum (some body) =
    if exceeds body.content_length maximum
    then too_large
    else check_payload maximum (body.read_limited (read_limit maximum))

-- The seconds of `Retry-After`. A negative span rounds towards 0, and then up to 1.
unfoldable pub retry_after_seconds : ℤ → ℕ
retry_after_seconds (int n) =
    let whole = n / second in
    let rounded = if n % second == 0 then whole else whole + 1 in
    if ltb rounded 1 then 1 else rounded
retry_after_seconds (negsuc n) = 1
