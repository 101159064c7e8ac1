-- ===== src/McpHub/Kept.antt =====
-- common/mcphub/approval.go: every operation keeps the store well formed, along any run.
use haruka_ai.Base.{
  ℕ, ◌≡◌, refl, ltb, Bool, true, false, not, ◌||◌, Option, none, some, Str, str_eq, arith, is_empty,
  if◌then◌else◌, List, [], ◌∷◌,
}
use haruka_ai.McpHub.Model.{
  ApprovalChallenge, ToolDefinition, HubError, HubResult, ApprovalManager, Services,
  ApprovalTokenRecord,
}
use haruka_ai.McpHub.Approval.{
  cleanup_locked, is_set, new_challenge, create_digested, create_validated, create, approve_found,
  approve, consume_found, consume_digested, consume, kept_challenge,
}
use haruka_ai.McpHub.WellFormed.{WellFormed, cleanup_locked-WellFormed, put-WellFormed}
use haruka_ai.McpHub.Issued.{issue-WellFormed, spend-WellFormed}

if-WellFormed :
    {A : Type 0} (b : Bool) (x y : ApprovalManager × HubResult A)
    → (b ≡ true → WellFormed x.0)
    → (b ≡ false → WellFormed y.0)
    → WellFormed (if b then x else y).0
if-WellFormed true x y hx hy = hx refl
if-WellFormed false x y hx hy = hy refl

kept_challenge-none :
    (now ttl : ℕ) (o : Option ApprovalChallenge) → o ≡ none → kept_challenge now ttl o ≡ none
unfolding kept_challenge
kept_challenge-none now ttl none h = refl
kept_challenge-none now ttl (some c) h = cc

module _ (s : Services) where
  create_digested-WellFormed :
      (m : ApprovalManager) (now : ℕ) (uuid user : Str) (tool : ToolDefinition)
      (arguments : s.Arguments) (o : Option Str)
      → m.challenges uuid ≡ none
      → WellFormed m
      → WellFormed (create_digested s m now uuid user tool arguments o).0
  unfolding create_digested new_challenge cleanup_locked
  create_digested-WellFormed m now uuid user tool arguments none new w = w
  create_digested-WellFormed m now uuid user tool arguments (some digest) new w =
      put-WellFormed (cleanup_locked now m) (new_challenge s m now uuid user tool arguments digest)
        (kept_challenge-none now m.ttl (m.challenges uuid) new) (cleanup_locked-WellFormed now m w)

  create_validated-WellFormed :
      (m : ApprovalManager) (now : ℕ) (uuid user : Str) (tool : ToolDefinition)
      (arguments : s.Arguments) (o : Option HubError)
      → m.challenges uuid ≡ none
      → WellFormed m
      → WellFormed (create_validated s m now uuid user tool arguments o).0
  unfolding create_validated
  create_validated-WellFormed m now uuid user tool arguments none new w =
      create_digested-WellFormed m now uuid user tool arguments (s.arguments_digest arguments) new w
  create_validated-WellFormed m now uuid user tool arguments (some e) new w = w

  create-WellFormed :
      (m : ApprovalManager) (now : ℕ) (uuid user : Str) (tool : ToolDefinition)
      (arguments : s.Arguments)
      → m.challenges uuid ≡ none
      → WellFormed m
      → WellFormed (create s m now uuid user tool arguments).0
  unfolding create
  create-WellFormed m now uuid user tool arguments new w =
      if-WellFormed (is_empty user) _ _ (λ _. w)
        λ _.
          if-WellFormed (not tool.requires_approval) _ _ (λ _. w)
            λ _.
              create_validated-WellFormed m now uuid user tool arguments
                (s.validate_arguments tool arguments) new w

  approve_found-WellFormed :
      (m : ApprovalManager) (now : ℕ) (random : Option Str) (user id : Str)
      (o : Option ApprovalChallenge)
      → m.challenges id ≡ o
      → WellFormed m
      → WellFormed (approve_found s m now random user id o).0
  unfolding approve_found
  approve_found-WellFormed m now random user id none e w = w
  approve_found-WellFormed m now random user id (some c) e w =
      if-WellFormed (not (str_eq c.user_name user) || not (ltb now c.expires_at)) _ _ (λ _. w)
        λ owned.
          if-WellFormed (is_set c.approved_at || is_set c.consumed_at) _ _ (λ _. w)
            λ fresh.
              issue-WellFormed s m now user id c random e (ground arith) (ground arith)
                (ground arith) w

  approve-WellFormed :
      (m : ApprovalManager) (now : ℕ) (random : Option Str) (user id : Str)
      → WellFormed m
      → WellFormed (approve s m now random user id).0
  unfolding approve
  approve-WellFormed m now random user id w =
      approve_found-WellFormed (cleanup_locked now m) now random user id _ refl
        (cleanup_locked-WellFormed now m w)

  consume_found-WellFormed :
      (m : ApprovalManager) (now : ℕ) (user tool_name digest hash : Str)
      (o : Option ApprovalTokenRecord)
      → m.tokens hash ≡ o
      → WellFormed m
      → WellFormed (consume_found s m now user tool_name digest hash o).0
  unfolding consume_found
  consume_found-WellFormed m now user tool_name digest hash none e w = w
  consume_found-WellFormed m now user tool_name digest hash (some r) e w =
      spend-WellFormed s m now hash r e w

  consume_digested-WellFormed :
      (m : ApprovalManager) (now : ℕ) (user tool_name token : Str) (o : Option Str)
      → WellFormed m
      → WellFormed (consume_digested s m now user tool_name token o).0
  unfolding consume_digested
  consume_digested-WellFormed m now user tool_name token none w = w
  consume_digested-WellFormed m now user tool_name token (some digest) w =
      consume_found-WellFormed (cleanup_locked now m) now user tool_name digest _ _ refl
        (cleanup_locked-WellFormed now m w)

  consume-WellFormed :
      (m : ApprovalManager) (now : ℕ) (user tool_name : Str) (arguments : s.Arguments) (token : Str)
      → WellFormed m
      → WellFormed (consume s m now user tool_name arguments token).0
  unfolding consume
  consume-WellFormed m now user tool_name arguments token w =
      if-WellFormed (is_empty token) _ _ (λ _. w)
        λ _. consume_digested-WellFormed m now user tool_name token (s.arguments_digest arguments) w

  -- A call of the store, with the moment, the id and the random bytes that it meets.
  pub data StoreCall : Type 0 where
    creates : ℕ → Str → Str → ToolDefinition → s.Arguments → StoreCall
    approves : ℕ → Option Str → Str → Str → StoreCall
    consumes : ℕ → Str → Str → s.Arguments → Str → StoreCall

  unfoldable pub call : StoreCall → ApprovalManager → ApprovalManager
  unfolding create approve consume
  call (creates now uuid user tool arguments) m = (create s m now uuid user tool arguments).0
  call (approves now random user id) m = (approve s m now random user id).0
  call (consumes now user tool arguments token) m = (consume s m now user tool arguments token).0

  unfoldable pub run : List StoreCall → ApprovalManager → ApprovalManager
  run [] m = m
  run (c ∷ calls) m = run calls (call c m)

  -- Every new challenge has an id that the store does not hold.
  abbrev pub NewIds : List StoreCall → ApprovalManager → Type 0
  NewIds [] m = Unit
  NewIds (creates now uuid user tool arguments ∷ calls) m =
      (m.challenges uuid ≡ none) × NewIds calls (call (creates now uuid user tool arguments) m)
  NewIds (c ∷ calls) m = NewIds calls (call c m)

  -- From a well-formed store, a run whose new challenges have new ids leads to a store in which
  -- every token has one approved, unspent challenge of the same user, tool and arguments, and no
  -- other token has that challenge.
  pub run-WellFormed :
      (calls : List StoreCall) (m : ApprovalManager)
      → NewIds calls m
      → WellFormed m
      → WellFormed (run calls m)
  unfolding run call
  run-WellFormed [] m new w = w
  run-WellFormed (creates now uuid user tool arguments ∷ calls) m new w =
      run-WellFormed calls _ new.1 (create-WellFormed m now uuid user tool arguments new.0 w)
  run-WellFormed (approves now random user id ∷ calls) m new w =
      run-WellFormed calls _ new (approve-WellFormed m now random user id w)
  run-WellFormed (consumes now user tool arguments token ∷ calls) m new w =
      run-WellFormed calls _ new (consume-WellFormed m now user tool arguments token w)
