-- ===== src/McpHub/Issued.antt =====
-- common/mcphub/approval.go: issuing and spending a token keep the store well formed.
use haruka_ai.Base.{
  ℕ, ◌≡◌, refl, sym, ap, ◌∙◌, subst, ◌⊎◌, inl, inr, Bool, true, false, Option, none, some, Str,
  str_eq, str_eq_refl, Bool-cases, put, put-same, put-other, delete-eq-some,
}
use haruka_ai.McpHub.Model.{ApprovalChallenge, ApprovalTokenRecord, ApprovalManager, Services}
use haruka_ai.McpHub.Approval.{is_set, token_record, issued_token, issue, consumed, spend}
use haruka_ai.McpHub.WellFormed.{Backed, WellFormed, some-some, moved, str_eq-true}

is_set-some : (t : ℕ) → is_set (some t) ≡ true
unfolding is_set
is_set-some t = refl

true-false {ℓ} : {X : Type ℓ} {b : Bool} → b ≡ true → b ≡ false → X
true-false {b = true} h k = cc
true-false {b = false} h k = cc

module _ (s : Services) where
  pub issue-WellFormed :
      (m : ApprovalManager) (now : ℕ) (user id : Str) (c : ApprovalChallenge) (random : Option Str)
      → m.challenges id ≡ some c
      → str_eq c.user_name user ≡ true
      → is_set c.approved_at ≡ false
      → is_set c.consumed_at ≡ false
      → WellFormed m
      → WellFormed (issue s m now user id c random).0
  unfolding issue token_record
  issue-WellFormed m now user id c none st same fresh unspent w = w
  issue-WellFormed m now user id c (some bytes) st same fresh unspent w = record {
    backed = λ h r e. of_token h r e;
    one_token = λ h h' r r' e e' same_id. pair h h' r r' e e' same_id;
    named = λ x y e. elim (Bool-cases (str_eq x id)) [
      | inl is_id ↦
          let i : x ≡ id = str_eq-true is_id in
          let y_is : approved ≡ y =
            some-some _ (ap (put id approved m.challenges) i ∙ put-same id approved m.challenges)
              e in
          ap (λ z. z.id) (sym y_is) ∙ w.named id c st ∙ sym i
      | inr other ↦ w.named x y (sym (put-other id x approved m.challenges other) ∙ e)
    ];
  }
    where
      approved : ApprovalChallenge
      approved = record c { approved_at = some now }

      hash : Str
      hash = s.hash_token (issued_token s bytes)

      m' : ApprovalManager
      m' = record {
        ttl = m.ttl;
        challenges = put id approved m.challenges;
        tokens = put hash (token_record s user c) m.tokens;
      }

      -- No token stood for the challenge before.
      unused : (h : Str) (r : ApprovalTokenRecord) → m.tokens h ≡ some r → r.challenge_id ≡ id → ⊥
      unused h r e i =
          let b = w.backed h r e in
          let b_is : b.challenge ≡ c = some-some _ b.stored (ap m.challenges i ∙ st) in
          true-false b.was_approved (ap (λ x. is_set x.approved_at) b_is ∙ fresh)

      issued : (r : ApprovalTokenRecord) → token_record s user c ≡ r → r.challenge_id ≡ id
      issued r e = ap (λ x. x.challenge_id) (sym e) ∙ w.named id c st

      the_new : (r : ApprovalTokenRecord) → token_record s user c ≡ r → Backed m' r
      the_new r e = subst (Backed m') e (record {
        challenge = approved;
        stored =
            ap (put id approved m.challenges) (w.named id c st) ∙ put-same id approved m.challenges;
        same_user = str_eq-true same;
        same_tool = refl;
        same_digest = refl;
        same_expiry = refl;
        was_approved = is_set-some now;
        not_consumed = unspent;
      })

      -- A token is the new one or was there.
      split :
          (h : Str) (r : ApprovalTokenRecord)
          → m'.tokens h ≡ some r
          → ((h ≡ hash) × (token_record s user c ≡ r)) ⊎ (m.tokens h ≡ some r)
      split h r e = elim (Bool-cases (str_eq h hash)) [
        | inl is_new ↦ inl (
          str_eq-true is_new,
          some-some _
              (ap m'.tokens (str_eq-true is_new) ∙ put-same hash (token_record s user c) m.tokens)
              e,
        )
        | inr old ↦ inr (sym (put-other hash h (token_record s user c) m.tokens old) ∙ e)
      ]

      of_token : (h : Str) (r : ApprovalTokenRecord) → m'.tokens h ≡ some r → Backed m' r
      of_token h r e = elim (split h r e) [
        | inl (is_new, e') ↦ the_new r e'
        | inr was ↦
            let b = w.backed h r was in
            moved m m' r b (elim (Bool-cases (str_eq r.challenge_id id)) [
              | inl same_id ↦ absurd (unused h r was (str_eq-true same_id))
              | inr other ↦ put-other id r.challenge_id approved m.challenges other ∙ b.stored
            ])
      ]

      pair :
          (h h' : Str) (r r' : ApprovalTokenRecord)
          → m'.tokens h ≡ some r
          → m'.tokens h' ≡ some r'
          → r.challenge_id ≡ r'.challenge_id
          → h ≡ h'
      pair h h' r r' e e' same_id = elim (split h r e) [
        | inl (i, new) ↦ elim (split h' r' e') [
          | inl (i', new') ↦ i ∙ sym i'
          | inr was' ↦ absurd (unused h' r' was' (sym same_id ∙ issued r new))
        ]
        | inr was ↦ elim (split h' r' e') [
          | inl (i', new') ↦ absurd (unused h r was (same_id ∙ issued r' new'))
          | inr was' ↦ w.one_token h h' r r' was was' same_id
        ]
      ]

  consumed-id :
      (now : ℕ) (id : Str) (o : Option ApprovalChallenge) (c : ApprovalChallenge)
      → ((y : ApprovalChallenge) → o ≡ some y → y.id ≡ id)
      → consumed s now o ≡ some c
      → c.id ≡ id
  unfolding consumed
  consumed-id now id none c q k = cc
  consumed-id now id (some x) c q k = ap (λ z. z.id) (sym (the_payload k)) ∙ q x refl
    where
      the_payload : {a b : ApprovalChallenge} → some a ≡ some b → a ≡ b
      the_payload e = some-some _ refl e

  pub spend-WellFormed :
      (m : ApprovalManager) (now : ℕ) (hash : Str) (r : ApprovalTokenRecord)
      → m.tokens hash ≡ some r
      → WellFormed m
      → WellFormed (spend s m now hash r)
  unfolding spend
  spend-WellFormed m now hash r e w = record {
    backed = λ h x k.
        let (differs, was) = delete-eq-some hash h m.tokens x k in
        let b = w.backed h x was in
        moved m (spend s m now hash r) x b
          (elim (Bool-cases (str_eq x.challenge_id r.challenge_id)) [
            | inl same_id ↦
                true-false
                  (ap (λ y. str_eq y hash) (w.one_token h hash x r was e (str_eq-true same_id))
                    ∙ str_eq_refl hash)
                  differs
            | inr other ↦ rw other b.stored
          ]);
    one_token = λ h h' x x' k k' same_id.
        w.one_token h h' x x' (delete-eq-some hash h m.tokens x k).1
          (delete-eq-some hash h' m.tokens x' k').1 same_id;
    named = λ id c k. elim (Bool-cases (str_eq id r.challenge_id)) [
      | inl same_id ↦
          consumed-id now id (m.challenges id) c (λ y q. w.named id y q) (rw same_id at k)
      | inr other ↦ w.named id c (rw other at k)
    ];
  }
