-- ===== src/McpHub/Once.antt =====
-- common/mcphub/approval.go: a challenge gives one token.
use haruka_ai.Base.{
  ℕ, ltb, ◌≡◌, refl, sym, ap, ◌∙◌, subst, inl, inr, Bool, true, false, not, ◌||◌, Option, none,
  some, Str, str_eq, arith, is_empty, if◌then◌else◌, List, [], ◌∷◌, Bool-cases, put-same, put,
}
use haruka_ai.McpHub.Model.{
  ApprovalChallenge, ToolDefinition, HubError, HubResult, IssuedApproval, granted, refused,
  ApprovalManager, Services, ApprovalTokenRecord,
}
use haruka_ai.McpHub.Approval.{
  cleanup_locked, kept_challenge, is_set, create_digested, create_validated, create, issue,
  approve_found, approve, spend, consumed, consume_found, consume_digested, consume, new_challenge,
}
use haruka_ai.McpHub.WellFormed.{some-some}
use haruka_ai.McpHub.Kept.{StoreCall, creates, approves, consumes, call, run}

-- No call creates a challenge under this id.
abbrev pub NotCreated : (s : Services) → Str → StoreCall s → Type 0
NotCreated s id (creates now uuid user tool arguments) = str_eq id uuid ≡ false
NotCreated s id c = Unit

abbrev pub NeverCreated : (s : Services) → Str → List (StoreCall s) → Type 0
NeverCreated s id [] = Unit
NeverCreated s id (c ∷ calls) = NotCreated s id c × NeverCreated s id calls

module _ (id : Str) where
  -- The challenge under the id, where there is one, has been approved.
  record Used (m : ApprovalManager) : Type 0 where
    approved : (c : ApprovalChallenge) → m.challenges id ≡ some c → is_set c.approved_at ≡ true

  kept_challenge-Used :
      (now ttl : ℕ) (o : Option ApprovalChallenge) (c : ApprovalChallenge)
      → ((x : ApprovalChallenge) → o ≡ some x → is_set x.approved_at ≡ true)
      → kept_challenge now ttl o ≡ some c
      → is_set c.approved_at ≡ true
  unfolding kept_challenge
  kept_challenge-Used now ttl none c h e = cc
  kept_challenge-Used now ttl (some x) c h e = h c (ground arith)

  cleanup_locked-Used : (now : ℕ) (m : ApprovalManager) → Used m → Used (cleanup_locked now m)
  unfolding cleanup_locked
  cleanup_locked-Used now m u = record {
    approved = λ c e. kept_challenge-Used now m.ttl (m.challenges id) c u.approved e;
  }

  if-Used :
      {A : Type 0} (b : Bool) (x y : ApprovalManager × HubResult A)
      → Used x.0
      → Used y.0
      → Used (if b then x else y).0
  if-Used true x y hx hy = hx
  if-Used false x y hx hy = hy

  put-Used :
      (k : Str) (c : ApprovalChallenge) (m : ApprovalManager)
      → (str_eq id k ≡ true → is_set c.approved_at ≡ true)
      → Used m
      → (x : ApprovalChallenge) → put k c m.challenges id ≡ some x
      → is_set x.approved_at ≡ true
  unfolding put
  put-Used k c m fresh u x e = elim (Bool-cases (str_eq id k)) [
    | inl same ↦ ap (λ y. is_set y.approved_at) (sym (some-some _ refl (rw same at e))) ∙ fresh same
    | inr other ↦ u.approved x (rw other at e)
  ]

  module _ (s : Services) where
    create_digested-Used :
        (m : ApprovalManager) (now : ℕ) (uuid user : Str) (tool : ToolDefinition)
        (arguments : s.Arguments) (o : Option Str)
        → str_eq id uuid ≡ false
        → Used m
        → Used (create_digested s m now uuid user tool arguments o).0
    unfolding create_digested new_challenge
    create_digested-Used m now uuid user tool arguments none other u = u
    create_digested-Used m now uuid user tool arguments (some digest) other u = record {
      approved =
          put-Used uuid (new_challenge s m now uuid user tool arguments digest)
            (cleanup_locked now m) (λ same. absurd (true_false same other))
            (cleanup_locked-Used now m u);
    }
      where
        true_false : {b : Bool} → b ≡ true → ¬ (b ≡ false)
        true_false h k = ground arith

    create_validated-Used :
        (m : ApprovalManager) (now : ℕ) (uuid user : Str) (tool : ToolDefinition)
        (arguments : s.Arguments) (o : Option HubError)
        → str_eq id uuid ≡ false
        → Used m
        → Used (create_validated s m now uuid user tool arguments o).0
    unfolding create_validated
    create_validated-Used m now uuid user tool arguments none other u =
        create_digested-Used m now uuid user tool arguments _ other u
    create_validated-Used m now uuid user tool arguments (some e) other u = u

    issue-Used :
        (m : ApprovalManager) (now : ℕ) (user k : Str) (c : ApprovalChallenge) (random : Option Str)
        → Used m
        → Used (issue s m now user k c random).0
    unfolding issue is_set
    issue-Used m now user k c none u = u
    issue-Used m now user k c (some bytes) u = record {
      approved = put-Used k (record c { approved_at = some now }) m (λ same. refl) u;
    }

    approve_found-Used :
        (m : ApprovalManager) (now : ℕ) (random : Option Str) (user k : Str)
        (o : Option ApprovalChallenge)
        → Used m
        → Used (approve_found s m now random user k o).0
    unfolding approve_found
    approve_found-Used m now random user k none u = u
    approve_found-Used m now random user k (some c) u =
        if-Used (not (str_eq c.user_name user) || not (ltb now c.expires_at)) _ _ u (
          if-Used (is_set c.approved_at || is_set c.consumed_at) _ _ u
            (issue-Used m now user k c random u))

    consumed-Used :
        (now : ℕ) (o : Option ApprovalChallenge) (c : ApprovalChallenge)
        → ((x : ApprovalChallenge) → o ≡ some x → is_set x.approved_at ≡ true)
        → consumed s now o ≡ some c
        → is_set c.approved_at ≡ true
    unfolding consumed
    consumed-Used now none c h e = cc
    consumed-Used now (some x) c h e =
        ap (λ y. is_set y.approved_at) (sym (some-some _ refl e)) ∙ h x refl

    consume_found-Used :
        (m : ApprovalManager) (now : ℕ) (user tool digest hash : Str)
        (o : Option ApprovalTokenRecord)
        → Used m
        → Used (consume_found s m now user tool digest hash o).0
    unfolding consume_found spend
    consume_found-Used m now user tool digest hash none u = u
    consume_found-Used m now user tool digest hash (some r) u = record {
      approved = λ c e. elim (Bool-cases (str_eq id r.challenge_id)) [
        | inl same ↦ consumed-Used now (m.challenges id) c u.approved (rw same at e)
        | inr other ↦ u.approved c (rw other at e)
      ];
    }

    consume_digested-Used :
        (m : ApprovalManager) (now : ℕ) (user tool token : Str) (o : Option Str)
        → Used m
        → Used (consume_digested s m now user tool token o).0
    unfolding consume_digested
    consume_digested-Used m now user tool token none u = u
    consume_digested-Used m now user tool token (some digest) u =
        consume_found-Used (cleanup_locked now m) now user tool digest _ _
          (cleanup_locked-Used now m u)

    run-Used :
        (calls : List (StoreCall s)) (m : ApprovalManager)
        → NeverCreated s id calls
        → Used m
        → Used (run s calls m)
    unfolding run call create approve consume
    run-Used [] m new u = u
    run-Used (creates now uuid user tool arguments ∷ calls) m new u = run-Used calls _ new.1 (
        if-Used (is_empty user) _ _ u (
          if-Used (not tool.requires_approval) _ _ u
            (create_validated-Used m now uuid user tool arguments _ new.0 u)))
    run-Used (approves now random user k ∷ calls) m new u = run-Used calls _ new.1 (
        approve_found-Used (cleanup_locked now m) now random user k _ (cleanup_locked-Used now m u))
    run-Used (consumes now user tool arguments token ∷ calls) m new u =
        run-Used calls _ new.1
          (if-Used (is_empty token) _ _ u (consume_digested-Used m now user tool token _ u))

    refused-granted : {A : Type 0} {e : HubError} {a : A} → ¬ (refused e ≡ granted a)
    refused-granted h = cc

    refused-if :
        (b : Bool) (x y : ApprovalManager × HubResult IssuedApproval) (a : IssuedApproval)
        → ¬ (x.1 ≡ granted a)
        → (b ≡ false → ¬ (y.1 ≡ granted a))
        → (r : ApprovalManager × HubResult IssuedApproval) → r ≡ (if b then x else y)
        → ¬ (r.1 ≡ granted a)
    refused-if true x y a nx ny r e h = nx (ap (λ z. z.1) (sym e) ∙ h)
    refused-if false x y a nx ny r e h = ny refl (ap (λ z. z.1) (sym e) ∙ h)

    approve_found-refused :
        (m : ApprovalManager) (now : ℕ) (random : Option Str) (user : Str)
        (o : Option ApprovalChallenge) (a : IssuedApproval)
        → ((c : ApprovalChallenge) → o ≡ some c → is_set c.approved_at ≡ true)
        → ¬ ((approve_found s m now random user id o).1 ≡ granted a)
    unfolding approve_found
    approve_found-refused m now random user none a used h = refused-granted h
    approve_found-refused m now random user (some c) a used h =
        refused-if (not (str_eq c.user_name user) || not (ltb now c.expires_at)) _ _ a
          refused-granted
          (λ in_time.
            refused-if (is_set c.approved_at || is_set c.consumed_at) _ _ a refused-granted
              (λ unused. absurd (let is_used = used c refl in ground arith)) _ refl)
          _ refl h

    issue-grants :
        (m : ApprovalManager) (now : ℕ) (user : Str) (c : ApprovalChallenge) (random : Option Str)
        (a : IssuedApproval)
        → (issue s m now user id c random).1 ≡ granted a
        → Used (issue s m now user id c random).0
    unfolding issue is_set
    issue-grants m now user c none a h = absurd (refused-granted h)
    issue-grants m now user c (some bytes) a h = record {
      approved = λ x e.
          ap (λ y. is_set y.approved_at)
            (sym (some-some _ (put-same id (record c { approved_at = some now }) m.challenges) e));
    }

    granted-else :
        (b : Bool) (x y r : ApprovalManager × HubResult IssuedApproval) (a : IssuedApproval)
        → ¬ (x.1 ≡ granted a)
        → (y.1 ≡ granted a → Used y.0)
        → r ≡ (if b then x else y)
        → r.1 ≡ granted a
        → Used r.0
    granted-else true x y r a nx k e h = absurd (nx (ap (λ z. z.1) (sym e) ∙ h))
    granted-else false x y r a nx k e h =
        subst (λ z. Used z.0) (sym e) (k (ap (λ z. z.1) (sym e) ∙ h))

    approve_found-grants :
        (m : ApprovalManager) (now : ℕ) (random : Option Str) (user : Str)
        (o : Option ApprovalChallenge) (a : IssuedApproval)
        → (approve_found s m now random user id o).1 ≡ granted a
        → Used (approve_found s m now random user id o).0
    unfolding approve_found
    approve_found-grants m now random user none a h = absurd (refused-granted h)
    approve_found-grants m now random user (some c) a h =
        granted-else (not (str_eq c.user_name user) || not (ltb now c.expires_at)) _ _ _ a
          refused-granted
          (granted-else (is_set c.approved_at || is_set c.consumed_at) _ _ _ a refused-granted
            (issue-grants m now user c random a) refl)
          refl h

    -- A challenge that was approved is approved by nobody afterwards, through any calls that create no
    -- challenge under its id.
    pub approved_once :
        (m : ApprovalManager) (now : ℕ) (random : Option Str) (user : Str) (a : IssuedApproval)
        (calls : List (StoreCall s)) (now' : ℕ) (random' : Option Str) (user' : Str)
        (a' : IssuedApproval)
        → (approve s m now random user id).1 ≡ granted a
        → NeverCreated s id calls
        → ¬ (
            (approve s (run s calls (approve s m now random user id).0) now' random' user' id).1
            ≡ granted a')
    unfolding approve
    approved_once m now random user a calls now' random' user' a' first new second =
        let used =
          run-Used calls _ new
            (approve_found-grants (cleanup_locked now m) now random user _ a first) in
        approve_found-refused _ now' random' user' _ a' (cleanup_locked-Used now' _ used).approved
          second
