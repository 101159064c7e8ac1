-- ===== src/McpHub/WellFormed.antt =====
-- common/mcphub/approval.go: every token stands for a challenge that its user approved and that
-- nobody has spent, and every operation keeps it so.
use haruka_ai.Base.{
  ℕ, ◌+◌, ltb, ◌≡◌, sym, ap, ◌∙◌, subst, inl, inr, true, false, Option, none, some, Str, str_eq,
  str_eq_iff, arith, Bool-cases, put, put-same, put-other, ℤ,
}
use haruka_ai.McpHub.Model.{ApprovalChallenge, ApprovalTokenRecord, ApprovalManager}
use haruka_ai.McpHub.Approval.{
  new_approval_manager, kept_token, kept_challenge, cleanup_locked, is_set,
}

-- The challenge that a token was issued for.
pub record Backed (m : ApprovalManager) (r : ApprovalTokenRecord) : Type 0 where
  pub challenge : ApprovalChallenge
  pub stored : m.challenges r.challenge_id ≡ some challenge
  pub same_user : challenge.user_name ≡ r.user_name
  pub same_tool : challenge.tool_name ≡ r.tool_name
  pub same_digest : challenge.arguments_digest ≡ r.arguments_digest
  pub same_expiry : challenge.expires_at ≡ r.expires_at
  pub was_approved : is_set challenge.approved_at ≡ true
  pub not_consumed : is_set challenge.consumed_at ≡ false

pub record WellFormed (m : ApprovalManager) : Type 0 where
  pub backed : (h : Str) (r : ApprovalTokenRecord) → m.tokens h ≡ some r → Backed m r
  pub one_token :
      (h h' : Str) (r r' : ApprovalTokenRecord)
      → m.tokens h ≡ some r
      → m.tokens h' ≡ some r'
      → r.challenge_id ≡ r'.challenge_id
      → h ≡ h'
  pub named : (id : Str) (c : ApprovalChallenge) → m.challenges id ≡ some c → c.id ≡ id

pub none-some {ℓ} : {A : Type 0} {X : Type ℓ} (o : Option A) {a : A} → o ≡ none → o ≡ some a → X
none-some none h k = cc
none-some (some b) h k = cc

pub some-some : {A : Type 0} (o : Option A) {a b : A} → o ≡ some a → o ≡ some b → a ≡ b
some-some none h k = cc
some-some (some c) h k = cc

pub kept_token-eq-some :
    (now : ℕ) (o : Option ApprovalTokenRecord) (r : ApprovalTokenRecord)
    → kept_token now o ≡ some r
    → (o ≡ some r) × (ltb now r.expires_at ≡ true)
unfolding kept_token
kept_token-eq-some now none r h = cc
kept_token-eq-some now (some x) r h = elim (Bool-cases (ltb now x.expires_at)) [
  | inl early ↦ let e : some x ≡ some r = rw early at h in (e, ground arith)
  | inr late ↦ absurd (ground arith)
]

kept_challenge-eq-some :
    (now ttl : ℕ) (o : Option ApprovalChallenge) (c : ApprovalChallenge)
    → kept_challenge now ttl o ≡ some c
    → o ≡ some c
unfolding kept_challenge
kept_challenge-eq-some now ttl none c h = cc
kept_challenge-eq-some now ttl (some x) c h = ground arith

kept_challenge-early :
    (now ttl : ℕ) (o : Option ApprovalChallenge) (c : ApprovalChallenge)
    → o ≡ some c
    → ltb now c.expires_at ≡ true
    → kept_challenge now ttl o ≡ some c
unfolding kept_challenge
kept_challenge-early now ttl none c h early = cc
kept_challenge-early now ttl (some x) c h early =
    let e : x ≡ c = ground arith in
    let later : ltb now (x.expires_at + ttl) ≡ true =
      let early' : ltb now x.expires_at ≡ true =
        subst (λ y. ltb now y.expires_at ≡ true) (sym e) early in
      ground arith in
    rw later h

pub new_approval_manager-WellFormed : (ttl : ℤ) → WellFormed (new_approval_manager ttl)
unfolding new_approval_manager
new_approval_manager-WellFormed ttl = record {
  backed = λ h r e. cc;
  one_token = λ h h' r r' e e' s. cc;
  named = λ id c e. cc;
}

pub cleanup_locked-WellFormed :
    (now : ℕ) (m : ApprovalManager) → WellFormed m → WellFormed (cleanup_locked now m)
unfolding cleanup_locked
cleanup_locked-WellFormed now m w = record {
  backed = λ h r e.
      let (was, early) = kept_token-eq-some now (m.tokens h) r e in
      let b = w.backed h r was in
      record {
        challenge = b.challenge;
        stored =
            kept_challenge-early now m.ttl _ b.challenge b.stored
              (subst (λ x. ltb now x ≡ true) (sym b.same_expiry) early);
        same_user = b.same_user;
        same_tool = b.same_tool;
        same_digest = b.same_digest;
        same_expiry = b.same_expiry;
        was_approved = b.was_approved;
        not_consumed = b.not_consumed;
      };
  one_token = λ h h' r r' e e' s.
      w.one_token h h' r r' (kept_token-eq-some now _ r e).0 (kept_token-eq-some now _ r' e').0 s;
  named = λ id c e. w.named id c (kept_challenge-eq-some now m.ttl _ c e);
}

-- The rest of a record of backing, where the challenge is stored elsewhere.
pub moved :
    (m m' : ApprovalManager) (r : ApprovalTokenRecord) (b : Backed m r)
    → m'.challenges r.challenge_id ≡ some b.challenge
    → Backed m' r
moved m m' r b e = record {
  challenge = b.challenge;
  stored = e;
  same_user = b.same_user;
  same_tool = b.same_tool;
  same_digest = b.same_digest;
  same_expiry = b.same_expiry;
  was_approved = b.was_approved;
  not_consumed = b.not_consumed;
}

pub str_eq-true : {s t : Str} → str_eq s t ≡ true → s ≡ t
str_eq-true {s} {t} h = (str_eq_iff s t).0 h

-- A challenge under a new id.
pub put-WellFormed :
    (m : ApprovalManager) (c : ApprovalChallenge)
    → m.challenges c.id ≡ none
    → WellFormed m
    → WellFormed (record m { challenges = put c.id c m.challenges })
put-WellFormed m c new w = record {
  backed = λ h r e.
      let b = w.backed h r e in
      moved m (record m { challenges = put c.id c m.challenges }) r b
        (elim (Bool-cases (str_eq r.challenge_id c.id)) [
          | inl same ↦ none-some _ (ap m.challenges (str_eq-true same) ∙ new) b.stored
          | inr other ↦ put-other c.id r.challenge_id c m.challenges other ∙ b.stored
        ]);
  one_token = w.one_token;
  named = λ id x e. elim (Bool-cases (str_eq id c.id)) [
    | inl same ↦
        let i : id ≡ c.id = str_eq-true same in
        let x_is : c ≡ x =
          some-some _ (ap (put c.id c m.challenges) i ∙ put-same c.id c m.challenges) e in
        ap (λ y. y.id) (sym x_is) ∙ sym i
    | inr other ↦ w.named id x (sym (put-other c.id id c m.challenges other) ∙ e)
  ];
}
