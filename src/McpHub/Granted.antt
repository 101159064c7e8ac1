-- ===== src/McpHub/Granted.antt =====
-- common/mcphub/approval.go: what a grant of a token rests on.
use haruka_ai.Base.{
  ℕ, ◌<◌, ltb, ltb→lt, ◌≡◌, refl, sym, ap, ◌∙◌, subst, inl, inr, true, false, Option, none, some,
  Str, str_eq, str_eq_iff, str_eq_refl, arith, is_empty, Bool-cases,
}
use haruka_ai.McpHub.Model.{
  ApprovalChallenge, HubError, granted, refused, ApprovalManager, Services, ApprovalTokenRecord,
}
use haruka_ai.McpHub.Approval.{
  cleanup_locked, is_set, fits, spend, consumed, consume_found, consume_digested, consume,
  kept_challenge,
}
use haruka_ai.McpHub.WellFormed.{WellFormed, cleanup_locked-WellFormed}

-- A challenge that the clean-up keeps was in the store.
kept_challenge-was :
    (now ttl : ℕ) (o : Option ApprovalChallenge) (c : ApprovalChallenge)
    → kept_challenge now ttl o ≡ some c
    → o ≡ some c
unfolding kept_challenge
kept_challenge-was now ttl none c h = cc
kept_challenge-was now ttl (some x) c h = ground arith

module _ (s : Services) where
  -- What a grant rests on, and what it leaves.
  pub record Grant (m m' : ApprovalManager) (now : ℕ) (user tool : Str) (arguments : s.Arguments)
      : Type 0 where
    pub id : Str
    pub challenge : ApprovalChallenge
    pub stored : m.challenges id ≡ some challenge
    pub same_user : challenge.user_name ≡ user
    pub same_tool : challenge.tool_name ≡ tool
    pub same_digest : s.arguments_digest arguments ≡ some challenge.arguments_digest
    pub in_time : now < challenge.expires_at
    pub was_approved : is_set challenge.approved_at ≡ true
    pub not_consumed : is_set challenge.consumed_at ≡ false
    pub consumed_after : m'.challenges id ≡ some (record challenge { consumed_at = some now })

  refused-granted : {e : HubError} → ¬ (refused e ≡ granted tt)
  refused-granted h = cc

  marked :
      (now : ℕ) (c : ApprovalChallenge)
      → consumed s now (some c) ≡ some (record c { consumed_at = some now })
  unfolding consumed
  marked now c = refl

  fits-facts :
      (r : ApprovalTokenRecord) (now : ℕ) (user tool digest : Str)
      → fits s r now user tool digest ≡ true
      → (ltb now r.expires_at ≡ true)
        × (str_eq r.user_name user ≡ true)
        × (str_eq r.tool_name tool ≡ true)
        × (str_eq r.arguments_digest digest ≡ true)
  unfolding fits
  fits-facts r now user tool digest h = ground arith

  -- A grant by a store whose record is `o`.
  found-Grant :
      (m : ApprovalManager) (now : ℕ) (user tool digest hash : Str) (arguments : s.Arguments)
      (o : Option ApprovalTokenRecord)
      → m.tokens hash ≡ o
      → s.arguments_digest arguments ≡ some digest
      → WellFormed m
      → (consume_found s m now user tool digest hash o).1 ≡ granted tt
      → Grant m (consume_found s m now user tool digest hash o).0 now user tool arguments
  unfolding consume_found spend
  found-Grant m now user tool digest hash arguments none e d w g = cc
  found-Grant m now user tool digest hash arguments (some r) e d w g =
      let (early, u, t, a) = fits-facts r now user tool digest (ground arith) in
      let b = w.backed hash r e in
      record {
        id = r.challenge_id;
        challenge = b.challenge;
        stored = b.stored;
        same_user = b.same_user ∙ (str_eq_iff _ _).0 u;
        same_tool = b.same_tool ∙ (str_eq_iff _ _).0 t;
        same_digest = d ∙ ap some (sym ((str_eq_iff _ _).0 a)) ∙ ap some (sym b.same_digest);
        in_time = subst (λ x. now < x) (sym b.same_expiry) (ltb→lt _ _ early);
        was_approved = b.was_approved;
        not_consumed = b.not_consumed;
        consumed_after =
            rw (str_eq_refl r.challenge_id) (ap (consumed s now) b.stored ∙ marked now b.challenge);
      }

  cleaned-Grant :
      (m m' : ApprovalManager) (now : ℕ) (user tool : Str) (arguments : s.Arguments)
      → Grant (cleanup_locked now m) m' now user tool arguments
      → Grant m m' now user tool arguments
  unfolding cleanup_locked
  cleaned-Grant m m' now user tool arguments g = record {
    id = g.id;
    challenge = g.challenge;
    stored = kept_challenge-was now m.ttl _ g.challenge g.stored;
    same_user = g.same_user;
    same_tool = g.same_tool;
    same_digest = g.same_digest;
    in_time = g.in_time;
    was_approved = g.was_approved;
    not_consumed = g.not_consumed;
    consumed_after = g.consumed_after;
  }

  digested-Grant :
      (m : ApprovalManager) (now : ℕ) (user tool : Str) (arguments : s.Arguments) (token : Str)
      (o : Option Str)
      → s.arguments_digest arguments ≡ o
      → WellFormed m
      → (consume_digested s m now user tool token o).1 ≡ granted tt
      → Grant m (consume_digested s m now user tool token o).0 now user tool arguments
  unfolding consume_digested
  digested-Grant m now user tool arguments token none d w g = cc
  digested-Grant m now user tool arguments token (some digest) d w g =
      cleaned-Grant m _ now user tool arguments (
        found-Grant (cleanup_locked now m) now user tool digest (s.hash_token token) arguments _
          refl d (cleanup_locked-WellFormed now m w) g)

  -- A grant by a well-formed store rests on a challenge for this user, this tool and these
  -- arguments that was approved, has not lapsed and was not consumed; the challenge is consumed
  -- from then on.
  pub consume-Grant :
      (m : ApprovalManager) (now : ℕ) (user tool : Str) (arguments : s.Arguments) (token : Str)
      → WellFormed m
      → (consume s m now user tool arguments token).1 ≡ granted tt
      → Grant m (consume s m now user tool arguments token).0 now user tool arguments
  unfolding consume
  consume-Grant m now user tool arguments token w g = elim (Bool-cases (is_empty token)) [
    | inl nothing ↦ absurd (refused-granted (rw nothing at g))
    | inr something ↦
        rw something (digested-Grant m now user tool arguments token _ refl w (rw something at g))
  ]
