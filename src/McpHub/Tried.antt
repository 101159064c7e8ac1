-- ===== src/McpHub/Tried.antt =====
-- common/mcphub/approval.go: a token is tried once.
use haruka_ai.Base.{
  ℕ, ltb, ◌≡◌, refl, ◌∙◌, inl, inr, Bool, true, false, not, ◌||◌, Option, none, some, Str, str_eq,
  is_empty, if◌then◌else◌, List, [], ◌∷◌, Bool-cases, put-other, delete-same, delete,
}
use haruka_ai.McpHub.Model.{
  ApprovalChallenge, ToolDefinition, HubError, HubResult, granted, refused, ApprovalManager,
  Services, ApprovalTokenRecord,
}
use haruka_ai.McpHub.Approval.{
  cleanup_locked, is_set, create_digested, create_validated, create, issued_token, issue,
  approve_found, approve, spend, consume_found, consume_digested, consume, kept_token,
}
use haruka_ai.McpHub.Kept.{StoreCall, creates, approves, consumes, call, run}

kept_token-none : (now : ℕ) (o : Option ApprovalTokenRecord) → o ≡ none → kept_token now o ≡ none
unfolding kept_token
kept_token-none now none h = refl
kept_token-none now (some r) h = cc

module _ (s : Services) where
  -- The token with this hash is not issued by the call.
  abbrev pub NotIssued : Str → StoreCall s → Type 0
  NotIssued hash (approves now (some bytes) user id) =
      str_eq hash (s.hash_token (issued_token s bytes)) ≡ false
  NotIssued hash c = Unit

  abbrev pub NeverIssued : Str → List (StoreCall s) → Type 0
  NeverIssued hash [] = Unit
  NeverIssued hash (c ∷ calls) = NotIssued hash c × NeverIssued hash calls

  module _ (hash : Str) where
    -- The store has no token with this hash.
    record Absent (m : ApprovalManager) : Type 0 where
      gone : m.tokens hash ≡ none

    cleanup_locked-Absent :
        (now : ℕ) (m : ApprovalManager) → Absent m → Absent (cleanup_locked now m)
    unfolding cleanup_locked
    cleanup_locked-Absent now m h = record { gone = kept_token-none now _ h.gone }

    if-Absent :
        {A : Type 0} (b : Bool) (x y : ApprovalManager × HubResult A)
        → Absent x.0
        → Absent y.0
        → Absent (if b then x else y).0
    if-Absent true x y hx hy = hx
    if-Absent false x y hx hy = hy

    create_digested-Absent :
        (m : ApprovalManager) (now : ℕ) (uuid user : Str) (tool : ToolDefinition)
        (arguments : s.Arguments) (o : Option Str)
        → Absent m
        → Absent (create_digested s m now uuid user tool arguments o).0
    unfolding create_digested cleanup_locked
    create_digested-Absent m now uuid user tool arguments none h = h
    create_digested-Absent m now uuid user tool arguments (some digest) h = record {
      gone = kept_token-none now _ h.gone;
    }

    create_validated-Absent :
        (m : ApprovalManager) (now : ℕ) (uuid user : Str) (tool : ToolDefinition)
        (arguments : s.Arguments) (o : Option HubError)
        → Absent m
        → Absent (create_validated s m now uuid user tool arguments o).0
    unfolding create_validated
    create_validated-Absent m now uuid user tool arguments none h =
        create_digested-Absent m now uuid user tool arguments (s.arguments_digest arguments) h
    create_validated-Absent m now uuid user tool arguments (some e) h = h

    issue-Absent :
        (m : ApprovalManager) (now : ℕ) (user id : Str) (c : ApprovalChallenge)
        (random : Option Str)
        → NotIssued hash (approves now random user id)
        → Absent m
        → Absent (issue s m now user id c random).0
    unfolding issue
    issue-Absent m now user id c none other h = h
    issue-Absent m now user id c (some bytes) other h = record {
      gone = put-other _ hash _ m.tokens other ∙ h.gone;
    }

    approve_found-Absent :
        (m : ApprovalManager) (now : ℕ) (random : Option Str) (user id : Str)
        (o : Option ApprovalChallenge)
        → NotIssued hash (approves now random user id)
        → Absent m
        → Absent (approve_found s m now random user id o).0
    unfolding approve_found
    approve_found-Absent m now random user id none other h = h
    approve_found-Absent m now random user id (some c) other h =
        if-Absent (not (str_eq c.user_name user) || not (ltb now c.expires_at)) _ _ h (
          if-Absent (is_set c.approved_at || is_set c.consumed_at) _ _ h
            (issue-Absent m now user id c random other h))

    consume_found-Absent :
        (m : ApprovalManager) (now : ℕ) (user tool digest x : Str) (o : Option ApprovalTokenRecord)
        → Absent m
        → Absent (consume_found s m now user tool digest x o).0
    unfolding consume_found spend delete
    consume_found-Absent m now user tool digest x none h = h
    consume_found-Absent m now user tool digest x (some r) h = elim (Bool-cases (str_eq hash x)) [
      | inl same ↦ record { gone = rw same refl }
      | inr other ↦ record { gone = rw other h.gone }
    ]

    consume_digested-Absent :
        (m : ApprovalManager) (now : ℕ) (user tool token : Str) (o : Option Str)
        → Absent m
        → Absent (consume_digested s m now user tool token o).0
    unfolding consume_digested
    consume_digested-Absent m now user tool token none h = h
    consume_digested-Absent m now user tool token (some digest) h =
        consume_found-Absent (cleanup_locked now m) now user tool digest _ _
          (cleanup_locked-Absent now m h)

    call-Absent :
        (c : StoreCall s) (m : ApprovalManager) → NotIssued hash c → Absent m → Absent (call s c m)
    unfolding call create approve consume
    call-Absent (creates now uuid user tool arguments) m other h = if-Absent (is_empty user) _ _ h (
        if-Absent (not tool.requires_approval) _ _ h
          (create_validated-Absent m now uuid user tool arguments _ h))
    call-Absent (approves now random user id) m other h =
        approve_found-Absent (cleanup_locked now m) now random user id _ other
          (cleanup_locked-Absent now m h)
    call-Absent (consumes now user tool arguments token) m other h =
        if-Absent (is_empty token) _ _ h (consume_digested-Absent m now user tool token _ h)

    run-Absent :
        (calls : List (StoreCall s)) (m : ApprovalManager)
        → NeverIssued hash calls
        → Absent m
        → Absent (run s calls m)
    unfolding run
    run-Absent [] m other h = h
    run-Absent (c ∷ calls) m other h = run-Absent calls _ other.1 (call-Absent c m other.0 h)

  -- An attempt with a token, whatever comes of it, leaves the store without the token.
  consume_found-spent :
      (m : ApprovalManager) (now : ℕ) (user tool digest hash : Str) (o : Option ApprovalTokenRecord)
      → m.tokens hash ≡ o
      → Absent hash (consume_found s m now user tool digest hash o).0
  unfolding consume_found spend
  consume_found-spent m now user tool digest hash none e = record { gone = e }
  consume_found-spent m now user tool digest hash (some r) e = record {
    gone = delete-same hash m.tokens;
  }

  attempt-Absent :
      (m : ApprovalManager) (now : ℕ) (user tool : Str) (arguments : s.Arguments)
      (token digest : Str)
      → is_empty token ≡ false
      → s.arguments_digest arguments ≡ some digest
      → Absent (s.hash_token token) (consume s m now user tool arguments token).0
  unfolding consume consume_digested
  attempt-Absent m now user tool arguments token digest some_token e =
      rw (some_token, e) (consume_found-spent (cleanup_locked now m) now user tool digest _ _ refl)

  -- Where the store has no such token, no attempt is granted.
  no_token-refused :
      (m : ApprovalManager) (now : ℕ) (user tool digest hash : Str) (o : Option ApprovalTokenRecord)
      → o ≡ none
      → ¬ ((consume_found s m now user tool digest hash o).1 ≡ granted tt)
  unfolding consume_found
  no_token-refused m now user tool digest hash none e g = cc
  no_token-refused m now user tool digest hash (some r) e g = cc

  consume_digested-refused :
      (m : ApprovalManager) (now : ℕ) (user tool token : Str) (o : Option Str)
      → Absent (s.hash_token token) m
      → ¬ ((consume_digested s m now user tool token o).1 ≡ granted tt)
  unfolding consume_digested
  consume_digested-refused m now user tool token none h g = cc
  consume_digested-refused m now user tool token (some digest) h g =
      no_token-refused _ now user tool digest _ _
        (cleanup_locked-Absent (s.hash_token token) now m h).gone g

  consume-refused :
      (m : ApprovalManager) (now : ℕ) (user tool token : Str) (arguments : s.Arguments)
      → Absent (s.hash_token token) m
      → ¬ ((consume s m now user tool arguments token).1 ≡ granted tt)
  unfolding consume
  consume-refused m now user tool token arguments h g = elim (Bool-cases (is_empty token)) [
    | inl nothing ↦ no_grant (rw nothing at g)
    | inr something ↦ consume_digested-refused m now user tool token _ h (rw something at g)
  ]
    where
      no_grant : {e : HubError} → ¬ (refused e ≡ granted tt)
      no_grant k = cc

  -- A token that was tried once on arguments that can be digested, with any outcome, is granted to
  -- nobody afterwards, for any arguments, through any calls that issue no token of its hash.
  pub token_tried_once :
      (m : ApprovalManager) (now : ℕ) (user tool : Str) (arguments : s.Arguments)
      (token digest : Str) (calls : List (StoreCall s)) (now' : ℕ) (user' tool' : Str)
      (arguments' : s.Arguments)
      → is_empty token ≡ false
      → s.arguments_digest arguments ≡ some digest
      → NeverIssued (s.hash_token token) calls
      → ¬ (
          (consume s
            (run s calls (consume s m now user tool arguments token).0)
            now'
            user'
            tool'
            arguments'
            token).1
          ≡ granted tt)
  token_tried_once m now user tool arguments token digest calls now' user' tool' arguments'
        some_token e other g =
      consume-refused _ now' user' tool' token arguments'
        (run-Absent (s.hash_token token) calls _ other
          (attempt-Absent m now user tool arguments token digest some_token e))
        g
