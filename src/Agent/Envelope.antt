-- ===== src/Agent/Envelope.antt =====
-- dao/agent/agent.go: a checkpoint is read back as it was written.
use haruka_ai.Base.{
  ℕ, ◌<◌, ◌≤◌, ◌≡◌, refl, sym, ap, ◌∙◌, subst, ◌↔◌, Bool, true, false, List, [], ◌∷◌, ◌++◌, Memᴰ,
  Option, none, some, Str, ok, arith, count_if, map_where, Bool-cases, inl, inr, strip_prefix,
  strip_prefix-eq-some, require, is_empty, if◌then◌else◌, pure, and-left,
}
use haruka_ai.Base.Keeps.{read-eq-ok}
use haruka_ai.Base.Moves.{>>=-eq-ok, require-eq-ok}
use haruka_ai.Agent.Model.{AgentTask}
use haruka_ai.Agent.Platform.{Platform, Lawful}
use haruka_ai.Agent.Fence.{GormStore, Context, database, fencing_token_from_context}
use haruka_ai.Agent.Checkpoint.{
  checkpoint_envelope_prefix, encode_checkpoint_envelope, decode_checkpoint_envelope,
  nonempty_payload, checkpoint_set, require_written, get_checkpoint, checkpoint_where,
  set_checkpoint,
}

-- What a read gives of a payload: an empty one counts as none.
abbrev pub payload : List ℕ → Option (List ℕ)
payload [] = none
payload (b ∷ bs) = some (b ∷ bs)

decode-encode : (c : List ℕ) → decode_checkpoint_envelope (encode_checkpoint_envelope c) ≡ payload c
unfolding decode_checkpoint_envelope encode_checkpoint_envelope nonempty_payload strip_prefix
decode-encode [] = refl
decode-encode (b ∷ bs) = refl

nonempty_payload-eq-some :
    (o : Option (List ℕ)) (c : List ℕ)
    → nonempty_payload o ≡ some c
    → (o ≡ some c) × (encode_checkpoint_envelope c ≡ checkpoint_envelope_prefix ++ c) × ¬ (c ≡ [])
unfolding nonempty_payload encode_checkpoint_envelope
nonempty_payload-eq-some none c h = cc
nonempty_payload-eq-some (some []) c h = cc
nonempty_payload-eq-some (some (b ∷ bs)) [] h = cc
nonempty_payload-eq-some (some (b ∷ bs)) (x ∷ xs) h = (h, refl, λ e. cc)

-- Stored bytes read as a checkpoint exactly if they are the envelope of that checkpoint, which is
-- not empty.
pub decode_checkpoint_envelope_iff :
    (stored c : List ℕ)
    → (decode_checkpoint_envelope stored ≡ some c)
      ↔ ((stored ≡ encode_checkpoint_envelope c) × ¬ (c ≡ []))
unfolding decode_checkpoint_envelope
decode_checkpoint_envelope_iff stored c = (to, from)
  where
    to :
        decode_checkpoint_envelope stored ≡ some c
        → (stored ≡ encode_checkpoint_envelope c) × ¬ (c ≡ [])
    to h =
        let (e, shape, some_byte) = nonempty_payload-eq-some _ c h in
        (strip_prefix-eq-some checkpoint_envelope_prefix stored c e ∙ sym shape, some_byte)

    of_payload : (x : List ℕ) → ¬ (x ≡ []) → payload x ≡ some x
    of_payload [] h = absurd (h refl)
    of_payload (b ∷ bs) h = refl

    from :
        (stored ≡ encode_checkpoint_envelope c) × ¬ (c ≡ [])
        → decode_checkpoint_envelope stored ≡ some c
    from (e, some_byte) = ap decode_checkpoint_envelope e ∙ decode-encode c ∙ of_payload c some_byte

-- A row found by its key, after an update of the row with that key.
module _ {A : Type 0} (key w : A → Bool) (f : A → A) where
  count_if-none : (l : List A) (x : A) → count_if key l ≡ 0 → Memᴰ x l → key x ≡ true → ⊥
  count_if-none [] x h m k = elim m [ ]
  count_if-none (y ∷ l) x h (Memᴰ.head e) k =
      let k' : key y ≡ true = ap key (sym e) ∙ k in ground arith
  count_if-none (y ∷ l) x h (Memᴰ.tail m) k = count_if-none l x (ground arith) m k

  count_if-stricter :
      (l : List A) → ((x : A) → w x ≡ true → key x ≡ true) → count_if w l ≤ count_if key l
  count_if-stricter [] sub = omega arith
  count_if-stricter (x ∷ l) sub =
      let rest = count_if-stricter l sub in
      elim (Bool-cases (w x)) [
        | inl hit ↦ rw (hit, sub x hit) (omega (arith, rest))
        | inr miss ↦ ground (arith, rest)
      ]

  map_where-untouched :
      (l : List A)
      → ((x : A) → w x ≡ true → key x ≡ true)
      → count_if key l ≡ 0
      → map_where w f l ≡ l
  map_where-untouched [] sub h = refl
  map_where-untouched (x ∷ l) sub h = elim (Bool-cases (w x)) [
    | inl hit ↦ let k = sub x hit in absurd (ground arith)
    | inr miss ↦ rw miss (ap (◌∷◌ x) (map_where-untouched l sub (ground arith)))
  ]

  the_written_row :
      (l : List A) (t : A)
      → ((x : A) → w x ≡ true → key x ≡ true)
      → count_if key l ≤ 1
      → 0 < count_if w l
      → Memᴰ t (map_where w f l)
      → key t ≡ true
      → (r : A) × (t ≡ f r)
  the_written_row [] t sub one hit m k = absurd (omega arith)
  the_written_row (x ∷ l) t sub one hit m k = elim (Bool-cases (w x)) [
    | inl written ↦ first (sub x written) written (subst (Memᴰ t) (rw written refl) m)
    | inr missed ↦
        others missed (λ le lt m'. the_written_row l t sub le lt m' k)
          (subst (Memᴰ t) (rw missed refl) m)
  ]
    where
      first : key x ≡ true → w x ≡ true → Memᴰ t (f x ∷ map_where w f l) → (r : A) × (t ≡ f r)
      first kx wx (Memᴰ.head e) = (x, e)
      first kx wx (Memᴰ.tail m') =
          let none_left : count_if key l ≡ 0 = ground arith in
          absurd (
            count_if-none l t none_left (subst (Memᴰ t) (map_where-untouched l sub none_left) m') k)

      others :
          w x ≡ false
          → (count_if key l ≤ 1 → 0 < count_if w l → Memᴰ t (map_where w f l) → (r : A) × (t ≡ f r))
          → Memᴰ t (x ∷ map_where w f l)
          → (r : A) × (t ≡ f r)
      others wx rest (Memᴰ.head e) =
          let kx : key x ≡ true = ap key (sym e) ∙ k in
          let less = count_if-stricter l sub in absurd (ground arith)
      others wx rest (Memᴰ.tail m') = rest (ground arith) (ground arith) m'

module _ ⦃p : Platform⦄ (lawful : Lawful p) where
  require_written-rows :
      (token : Option (Str × ℕ)) (n : ℕ) (d d' : p.Db)
      → require_written token n d ≡ ok (d', tt)
      → (0 < n) × (d' ≡ d)
  unfolding require_written require
  require_written-rows none n d d' h = ground arith
  require_written-rows (some t) n d d' h = ground arith

  written_table :
      (g : GormStore) (ctx : Context) (id : Str) (c : List ℕ) (d d' : p.Db)
      → set_checkpoint g ctx id c d ≡ ok (d', tt)
      → (p.tasks d'
          ≡ map_where
              (checkpoint_where (fencing_token_from_context ctx) id)
              (checkpoint_set g.now c)
              (p.tasks d))
        × (0 < count_if (checkpoint_where (fencing_token_from_context ctx) id) (p.tasks d))
  unfolding set_checkpoint database
  written_table g ctx id c d d' h =
      let (d₁, u₁, e₁, h₁) = >>=-eq-ok _ _ d d' tt h in
      let (d₂, u₂, e₂, h₂) = >>=-eq-ok _ _ d₁ d' tt h₁ in
      let (d₃, u₃, e₃, h₃) = >>=-eq-ok _ _ d₂ d' tt h₂ in
      let (d₄, n, e₄, h₄) = >>=-eq-ok _ _ d₃ d' tt h₃ in
      let same : d₃ ≡ d =
        (require-eq-ok _ _ d₂ d₃ u₃ e₃).1
        ∙ (require-eq-ok _ _ d₁ d₂ u₂ e₂).1
        ∙ (require-eq-ok _ _ d d₁ u₁ e₁).1 in
      let (pos, last) = require_written-rows _ n d₄ d' h₄ in
      let table = lawful.update_tasks_rows _ _ d₃ d₄ n e₄ in
      let hits : 0 < count_if (checkpoint_where (fencing_token_from_context ctx) id) (p.tasks d₃) =
        omega (arith, pos, table.2) in
      (
        ap p.tasks last
            ∙ table.0
            ∙ ap
                (λ x.
                  map_where (checkpoint_where (fencing_token_from_context ctx) id)
                    (checkpoint_set g.now c) (p.tasks x))
                same,
        subst (λ x. 0 < count_if (checkpoint_where (fencing_token_from_context ctx) id) (p.tasks x))
            same hits,
      )

  read_back :
      (g : GormStore) (id : Str) (d d' : p.Db) (r : Option (List ℕ))
      → get_checkpoint g id d ≡ ok (d', r)
      → (t : AgentTask) × Memᴰ t (p.tasks d)
        × (p.same t.id id ≡ true)
        × (r ≡ (if is_empty t.checkpoint then none else decode_checkpoint_envelope t.checkpoint))
  unfolding get_checkpoint database pure
  read_back g id d d' r h =
      let (d₁, u₁, e₁, h₁) = >>=-eq-ok _ _ d d' r h in
      let (d₂, u₂, e₂, h₂) = >>=-eq-ok _ _ d₁ d' r h₁ in
      let (d₃, t, e₃, h₃) = >>=-eq-ok _ _ d₂ d' r h₂ in
      let same : d₂ ≡ d = (require-eq-ok _ _ d₁ d₂ u₂ e₂).1 ∙ (require-eq-ok _ _ d d₁ u₁ e₁).1 in
      let found = lawful.first_task_found _ d₂ t (read-eq-ok _ d₂ d₃ t e₃) in
      (t, subst (λ x. Memᴰ t (p.tasks x)) same found.1, found.0, ground arith)

  checkpoint_where-same :
      (token : Option (Str × ℕ)) (id : Str) (t : AgentTask)
      → checkpoint_where token id t ≡ true
      → p.same t.id id ≡ true
  unfolding checkpoint_where
  checkpoint_where-same token id t h = and-left _ _ h

  envelope_or_none :
      (c : List ℕ)
      → (if is_empty (encode_checkpoint_envelope c)
          then none
          else decode_checkpoint_envelope (encode_checkpoint_envelope c))
        ≡ payload c
  unfolding is_empty encode_checkpoint_envelope decode_checkpoint_envelope nonempty_payload
      strip_prefix
  envelope_or_none [] = refl
  envelope_or_none (b ∷ bs) = refl

  -- A checkpoint that was set for a task that has its id to itself is what a read of it that
  -- succeeds gives, with an empty one read as none.
  pub get_checkpoint-set_checkpoint :
      (g g' : GormStore) (ctx : Context) (id : Str) (c : List ℕ) (d d₁ d₂ : p.Db)
      (r : Option (List ℕ))
      → count_if (λ t. p.same t.id id) (p.tasks d) ≤ 1
      → set_checkpoint g ctx id c d ≡ ok (d₁, tt)
      → get_checkpoint g' id d₁ ≡ ok (d₂, r)
      → r ≡ payload c
  unfolding checkpoint_set
  get_checkpoint-set_checkpoint g g' ctx id c d d₁ d₂ r one h h' =
      let (table, hits) = written_table g ctx id c d d₁ h in
      let (t, m, key, e) = read_back g' id d₁ d₂ r h' in
      let (row, is_written) =
        the_written_row (λ t. p.same t.id id) _ (checkpoint_set g.now c) (p.tasks d) t
          (checkpoint_where-same _ id) one hits (subst (Memᴰ t) table m) key in
      e
      ∙ ap (λ x. if is_empty x.checkpoint then none else decode_checkpoint_envelope x.checkpoint)
          is_written
      ∙ envelope_or_none c
