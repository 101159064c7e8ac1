-- ===== src/McpHub/Approval.antt =====
-- common/mcphub/approval.go: the store of challenges and of one-time approval tokens. An operation
-- gives the store it leaves beside its result, since a refusal changes the store too. The clock,
-- the new id and the random bytes of a call are its arguments.
use haruka_ai.Base.{
  ℕ, ◌+◌, ltb, if◌then◌else◌, Bool, true, false, not, ◌&&◌, ◌||◌, Option, none, some, Str, codes,
  is_empty, str_eq, ◌++◌, ℤ, positive_or, empty_map, put, delete,
}
use haruka_ai.McpHub.Model.{
  ApprovalChallenge, IssuedApproval, ApprovalTokenRecord, ToolDefinition, HubError, HubResult,
  granted, refused, ApprovalManager, Services,
}

abbrev pub default_approval_ttl : ℕ
default_approval_ttl = 300000000000

unfoldable pub new_approval_manager : ℤ → ApprovalManager
unfolding positive_or
new_approval_manager ttl = record {
  ttl = positive_or default_approval_ttl ttl;
  challenges = empty_map;
  tokens = empty_map;
}

abbrev pub approval_invalid : Str → HubError
approval_invalid message = record { code = codes "approval_invalid"; message = message }

unfoldable pub kept_token : ℕ → Option ApprovalTokenRecord → Option ApprovalTokenRecord
kept_token now none = none
kept_token now (some r) = if not (ltb now r.expires_at) then none else some r

unfoldable pub kept_challenge : ℕ → ℕ → Option ApprovalChallenge → Option ApprovalChallenge
kept_challenge now ttl none = none
kept_challenge now ttl (some c) = if not (ltb now (c.expires_at + ttl)) then none else some c

unfoldable pub cleanup_locked : ℕ → ApprovalManager → ApprovalManager
unfolding kept_token kept_challenge
cleanup_locked now m = record {
  ttl = m.ttl;
  challenges = λ id. kept_challenge now m.ttl (m.challenges id);
  tokens = λ hash. kept_token now (m.tokens hash);
}

unfoldable pub clone_challenge : ApprovalChallenge → ApprovalChallenge
clone_challenge c = record c { user_name = codes "" }

unfoldable pub is_set : Option ℕ → Bool
is_set none = false
is_set (some t) = true

module _ (s : Services) where
  unfoldable pub new_challenge :
      ApprovalManager → ℕ → Str → Str → ToolDefinition → s.Arguments → Str → ApprovalChallenge
  new_challenge m now uuid user_name tool arguments digest = record {
    id = uuid;
    tool_name = tool.name;
    risk = tool.risk;
    arguments_digest = digest;
    arguments_preview = s.redacted_arguments arguments;
    expires_at = now + m.ttl;
    approved_at = none;
    consumed_at = none;
    user_name = user_name;
  }

  unfoldable pub create_digested :
      ApprovalManager
      → ℕ
      → Str
      → Str
      → ToolDefinition
      → s.Arguments
      → Option Str
      → ApprovalManager × HubResult ApprovalChallenge
  unfolding new_challenge clone_challenge cleanup_locked put
  create_digested m now uuid user_name tool arguments none = (
    m,
    refused (record {
      code = codes "invalid_arguments";
      message = codes "tool arguments cannot be approved";
    }),
  )
  create_digested m now uuid user_name tool arguments (some digest) =
      let c = new_challenge m now uuid user_name tool arguments digest in
      let m' = cleanup_locked now m in
      (record m' { challenges = put c.id c m'.challenges }, granted (clone_challenge c))

  unfoldable pub create_validated :
      ApprovalManager
      → ℕ
      → Str
      → Str
      → ToolDefinition
      → s.Arguments
      → Option HubError
      → ApprovalManager × HubResult ApprovalChallenge
  create_validated m now uuid user_name tool arguments (some e) = (m, refused e)
  create_validated m now uuid user_name tool arguments none =
      create_digested m now uuid user_name tool arguments (s.arguments_digest arguments)

  unfoldable pub create :
      ApprovalManager
      → ℕ
      → Str
      → Str
      → ToolDefinition
      → s.Arguments
      → ApprovalManager × HubResult ApprovalChallenge
  unfolding is_empty
  create m now uuid user_name tool arguments =
      if is_empty user_name
      then (m, refused (approval_invalid (codes "approval requires an authenticated user")))
      else (if not tool.requires_approval
          then (
            m,
            refused (record {
              code = codes "approval_not_required";
              message = codes "this tool does not require approval";
            }),
          )
          else create_validated m now uuid user_name tool arguments
              (s.validate_arguments tool arguments))

  unfoldable pub token_record : Str → ApprovalChallenge → ApprovalTokenRecord
  token_record user_name c = record {
    challenge_id = c.id;
    user_name = user_name;
    tool_name = c.tool_name;
    arguments_digest = c.arguments_digest;
    expires_at = c.expires_at;
  }

  unfoldable pub issued_token : Str → Str
  issued_token bytes = codes "mcp_apv_" ++ s.encode_token bytes

  -- `challenge` is the store's entry of `challenge_id`, so its approval is written there.
  unfoldable pub issue :
      ApprovalManager
      → ℕ
      → Str
      → Str
      → ApprovalChallenge
      → Option Str
      → ApprovalManager × HubResult IssuedApproval
  unfolding token_record issued_token put
  issue m now user_name challenge_id c none = (
    m,
    refused (record {
      code = codes "internal_error";
      message = codes "approval token cannot be issued";
    }),
  )
  issue m now user_name challenge_id c (some bytes) =
      let token = issued_token bytes in
      (
        record {
          ttl = m.ttl;
          challenges = put challenge_id (record c { approved_at = some now }) m.challenges;
          tokens = put (s.hash_token token) (token_record user_name c) m.tokens;
        },
        granted (record { challenge_id = c.id; token = token; expires_at = c.expires_at }),
      )

  unfoldable pub approve_found :
      ApprovalManager
      → ℕ
      → Option Str
      → Str
      → Str
      → Option ApprovalChallenge
      → ApprovalManager × HubResult IssuedApproval
  unfolding is_set issue str_eq
  approve_found m now random user_name challenge_id none =
      (m, refused (approval_invalid (codes "approval challenge is invalid or expired")))
  approve_found m now random user_name challenge_id (some c) =
      if not (str_eq c.user_name user_name) || not (ltb now c.expires_at)
      then (m, refused (approval_invalid (codes "approval challenge is invalid or expired")))
      else (if is_set c.approved_at || is_set c.consumed_at
          then (m, refused (approval_invalid (codes "approval challenge has already been used")))
          else issue m now user_name challenge_id c random)

  unfoldable pub approve :
      ApprovalManager → ℕ → Option Str → Str → Str → ApprovalManager × HubResult IssuedApproval
  unfolding approve_found cleanup_locked
  approve m now random user_name challenge_id =
      let m' = cleanup_locked now m in
      approve_found m' now random user_name challenge_id (m'.challenges challenge_id)

  unfoldable pub consumed : ℕ → Option ApprovalChallenge → Option ApprovalChallenge
  consumed now none = none
  consumed now (some c) = some (record c { consumed_at = some now })

  -- `delete(tokens, hash)`, and `ConsumedAt` of the challenge, where the store still has it.
  unfoldable pub spend : ApprovalManager → ℕ → Str → ApprovalTokenRecord → ApprovalManager
  unfolding consumed delete str_eq
  spend m now hash r = record {
    ttl = m.ttl;
    challenges =
        λ id. if str_eq id r.challenge_id then consumed now (m.challenges id) else m.challenges id;
    tokens = delete hash m.tokens;
  }

  unfoldable pub fits : ApprovalTokenRecord → ℕ → Str → Str → Str → Bool
  unfolding str_eq
  fits r now user_name tool_name digest =
      ltb now r.expires_at
      && str_eq r.user_name user_name
      && str_eq r.tool_name tool_name
      && str_eq r.arguments_digest digest

  unfoldable pub consume_found :
      ApprovalManager
      → ℕ
      → Str
      → Str
      → Str
      → Str
      → Option ApprovalTokenRecord
      → ApprovalManager × HubResult (Unit {0})
  unfolding spend fits
  consume_found m now user_name tool_name digest hash none =
      (m, refused (approval_invalid (codes "approval token is invalid or has already been used")))
  consume_found m now user_name tool_name digest hash (some r) = (
    spend m now hash r,
    if not (fits r now user_name tool_name digest)
        then refused (approval_invalid (codes "approval token does not match this invocation"))
        else granted tt,
  )

  unfoldable pub consume_digested :
      ApprovalManager → ℕ → Str → Str → Str → Option Str → ApprovalManager × HubResult (Unit {0})
  unfolding consume_found cleanup_locked
  consume_digested m now user_name tool_name token none =
      (m, refused (approval_invalid (codes "approval token cannot be validated")))
  consume_digested m now user_name tool_name token (some digest) =
      let m' = cleanup_locked now m in
      let hash = s.hash_token token in
      consume_found m' now user_name tool_name digest hash (m'.tokens hash)

  unfoldable pub consume :
      ApprovalManager → ℕ → Str → Str → s.Arguments → Str → ApprovalManager × HubResult (Unit {0})
  unfolding is_empty
  consume m now user_name tool_name arguments token =
      if is_empty token
      then (
        m,
        refused (record {
          code = codes "approval_required";
          message = codes "an approval token is required";
        }),
      )
      else consume_digested m now user_name tool_name token (s.arguments_digest arguments)
