-- ===== src/Voice/Phrases.antt =====
-- service/voiceconversation/turn.go: the phrases do not depend on where, between runes, the text
-- was cut into deltas.
use haruka_ai.Base.{
  ℕ, ◌<◌, leb, ◌≡◌, refl, sym, ap, ◌∙◌, inl, inr, Bool, true, false, ◌||◌, List, [], ◌∷◌, ◌++◌,
  length, Str, is_empty, ℤ, arith, Bool-cases,
}
use mathlib.Core.List.{append_assoc}
use haruka_ai.Voice.Utf8.{concat, to_valid_utf8, valid_text, Uncut, valid_text-concat}
use haruka_ai.Voice.Sentences.{
  SentenceBuffer, new_sentence_buffer, max_runes_or, is_sentence_boundary, emit, scan, drain, push,
}

-- Pushes in a row, with the phrases of all of them.
unfoldable pub pushes : List (List ℕ) → SentenceBuffer → SentenceBuffer × List Str
unfolding push
pushes [] b = (b, [])
pushes (d ∷ ds) b =
    let first = push d b in let rest = pushes ds first.0 in (rest.0, first.1 ++ rest.1)

emit-append : (segment : Str) (ps qs : List Str) → emit segment ps ++ qs ≡ emit segment (ps ++ qs)
unfolding emit
emit-append segment ps qs = ground arith

module _ (m : ℕ) where
  unfoldable pub cuts : Str → ℕ → Bool
  cuts current r = is_sentence_boundary r || leb m (length (current ++ r ∷ []))

  pub cuts-short : (current : Str) (r : ℕ) → cuts current r ≡ false → length (current ++ r ∷ []) < m
  unfolding cuts
  cuts-short current r on = ground arith

  pub scan-cut :
      (current : Str) (r : ℕ) (rs : Str)
      → cuts current r ≡ true
      → scan m current (r ∷ rs) ≡ (emit (current ++ r ∷ []) (scan m [] rs).0, (scan m [] rs).1)
  unfolding scan cuts
  scan-cut current r rs h = rw h refl

  pub scan-on :
      (current : Str) (r : ℕ) (rs : Str)
      → cuts current r ≡ false
      → scan m current (r ∷ rs) ≡ scan m (current ++ r ∷ []) rs
  unfolding scan cuts
  scan-on current r rs h = rw h refl

  -- A text in two parts is scanned part by part.
  scan-append :
      (current a b : Str)
      → scan m current (a ++ b) ≡ (
        (scan m current a).0 ++ (scan m (scan m current a).1 b).0,
        (scan m (scan m current a).1 b).1,
      )
  scan-append current [] b = unfold scan in refl
  scan-append current (r ∷ a) b = elim (Bool-cases (cuts current r)) [
    | inl cut ↦
        rw (scan-cut current r (a ++ b) cut, scan-cut current r a cut, scan-append [] a b)
          (ap (λ z. (z, (scan m (scan m [] a).1 b).1))
            (sym (emit-append (current ++ r ∷ []) (scan m [] a).0 (scan m (scan m [] a).1 b).0)))
    | inr on ↦
        rw (scan-on current r (a ++ b) on, scan-on current r a on)
          (scan-append (current ++ r ∷ []) a b)
  ]

  -- A segment that has not been cut: scanning it again changes nothing.
  pub record Settled (current : Str) : Type 0 where
    pub again : (rs : Str) → scan m [] (current ++ rs) ≡ scan m current rs

  pub Settled-nil : Settled []
  Settled-nil = record { again = λ rs. refl }

  Settled-on :
      (current : Str) (r : ℕ)
      → cuts current r ≡ false
      → Settled current
      → Settled (current ++ r ∷ [])
  Settled-on current r on s = record {
    again = λ rs.
        ap (scan m []) (append_assoc current (r ∷ []) rs)
        ∙ s.again (r ∷ rs)
        ∙ scan-on current r rs on;
  }

  pub scan-Settled : (current a : Str) → Settled current → Settled (scan m current a).1
  scan-Settled current [] s = unfold scan in s
  scan-Settled current (r ∷ a) s = elim (Bool-cases (cuts current r)) [
    | inl cut ↦ rw (scan-cut current r a cut) (scan-Settled [] a Settled-nil)
    | inr on ↦
        rw (scan-on current r a on) (scan-Settled (current ++ r ∷ []) a (Settled-on current r on s))
  ]

-- A push on a buffer that is settled goes on with the scan.
push-scan :
    (b : SentenceBuffer) (d : List ℕ)
    → Settled b.max_runes b.buffer
    → push d b ≡ (
      record b { buffer = (scan b.max_runes b.buffer (to_valid_utf8 d)).1 },
      (scan b.max_runes b.buffer (to_valid_utf8 d)).0,
    )
unfolding push is_empty drain
push-scan b [] s = refl
push-scan b (c ∷ d) s = ap (λ z. (record b { buffer = z.1 }, z.0)) (s.again (to_valid_utf8 (c ∷ d)))

pub pushes-scan :
    (b : SentenceBuffer) (ds : List (List ℕ))
    → Settled b.max_runes b.buffer
    → pushes ds b ≡ (
      record b { buffer = (scan b.max_runes b.buffer (valid_text ds)).1 },
      (scan b.max_runes b.buffer (valid_text ds)).0,
    )
unfolding pushes
pushes-scan b [] s = refl
pushes-scan b (d ∷ ds) s =
    let text = to_valid_utf8 d in
    let first = push-scan b d s in
    let next = record b { buffer = (scan b.max_runes b.buffer text).1 } in
    let ih = pushes-scan next ds (scan-Settled b.max_runes b.buffer text s) in
    rw (first, ih, scan-append b.max_runes b.buffer text (valid_text ds)) refl

pub Settled-new : (n : ℤ) → Settled (new_sentence_buffer n).max_runes (new_sentence_buffer n).buffer
Settled-new n = unfold new_sentence_buffer in Settled-nil (max_runes_or n)

-- Deltas of bytes, none of which but the last ends within a rune, pushed one by one on a new buffer
-- give the phrases, and leave the rest, that their bytes give and leave when they are pushed at once.
pub pushes-eq-push :
    (max_runes : ℤ) (ds : List (List ℕ))
    → Uncut ds
    → pushes ds (new_sentence_buffer max_runes) ≡ push (concat ds) (new_sentence_buffer max_runes)
pushes-eq-push max_runes ds uncut =
    let b = new_sentence_buffer max_runes in
    pushes-scan b ds (Settled-new max_runes)
    ∙ ap
        (λ t.
          (record b { buffer = (scan b.max_runes b.buffer t).1 }, (scan b.max_runes b.buffer t).0))
        (valid_text-concat ds uncut)
    ∙ sym (push-scan b (concat ds) (Settled-new max_runes))
