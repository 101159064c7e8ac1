-- ===== src/Voice/Spoken.antt =====
-- service/voiceconversation/turn.go: the phrases lose nothing that is visible, and are bounded.
use haruka_ai.Base.{
  ℕ, ◌≤◌, ◌<◌, ◌≡◌, refl, sym, ap, ◌∙◌, inl, inr, true, false, not, List, [], ◌∷◌, ◌++◌, length,
  length-append, Str, is_empty, ℤ, pos as int, negsuc, arith, Bool-cases, All, visible, is_space,
  select-append, visible-trim_space, length-trim_space-le,
}
use mathlib.Core.List.{append-nil, append_assoc}
use haruka_ai.Voice.Sentences.{
  SentenceBuffer, new_sentence_buffer, max_runes_or, normalize_sentence, emit, scan, drain, flush,
}
use haruka_ai.Voice.Utf8.{concat, to_valid_utf8, valid_text, Uncut, valid_text-concat}
use haruka_ai.Voice.Phrases.{
  pushes, cuts, cuts-short, scan-cut, scan-on, Settled, Settled-nil, scan-Settled, pushes-scan,
  Settled-new,
}

is_empty-nil : (s : Str) → is_empty s ≡ true → s ≡ []
unfolding is_empty
is_empty-nil [] h = refl
is_empty-nil (c ∷ s) h = cc

is_empty-Positive : (s : Str) → is_empty s ≡ false → 0 < length s
unfolding is_empty
is_empty-Positive [] h = cc
is_empty-Positive (c ∷ s) h = omega arith

visible-append : (a b : Str) → visible (a ++ b) ≡ visible a ++ visible b
visible-append a b = select-append (λ c. not (is_space c)) a b

visible-emit :
    (segment rest : Str) (ps : List Str)
    → visible (concat (emit segment ps) ++ rest) ≡ visible segment ++ visible (concat ps ++ rest)
visible-emit segment rest ps = elim (Bool-cases (is_empty (normalize_sentence segment))) [
  | inl blank ↦
      unfold emit in
      rw blank (
        ap (λ v. v ++ visible (concat ps ++ rest))
          (sym (ap visible (is_empty-nil (normalize_sentence segment) blank)) ∙ kept))
  | inr said ↦
      unfold emit in
      rw said (
        ap visible (append_assoc (normalize_sentence segment) (concat ps) rest)
        ∙ visible-append (normalize_sentence segment) (concat ps ++ rest)
        ∙ ap (λ v. v ++ visible (concat ps ++ rest)) kept)
]
  where
    kept : visible (normalize_sentence segment) ≡ visible segment
    kept = unfold normalize_sentence in visible-trim_space segment

visible-said : (segment : Str) → visible (concat (emit segment [])) ≡ visible segment
visible-said segment =
    ap visible (sym (append-nil (concat (emit segment []))))
    ∙ visible-emit segment [] []
    ∙ append-nil (visible segment)

visible-scan :
    (m : ℕ) (current a : Str)
    → visible (concat (scan m current a).0 ++ (scan m current a).1) ≡ visible (current ++ a)
visible-scan m current [] = unfold scan in ap visible (sym (append-nil current))
visible-scan m current (r ∷ a) = elim (Bool-cases (cuts m current r)) [
  | inl cut ↦ rw (scan-cut m current r a cut) (
      visible-emit (current ++ r ∷ []) (scan m [] a).1 (scan m [] a).0
      ∙ ap (λ v. visible (current ++ r ∷ []) ++ v) (visible-scan m [] a)
      ∙ sym (visible-append (current ++ r ∷ []) a)
      ∙ ap visible (append_assoc current (r ∷ []) a))
  | inr on ↦
      rw (scan-on m current r a on)
        (visible-scan m (current ++ r ∷ []) a ∙ ap visible (append_assoc current (r ∷ []) a))
]

-- A phrase is not empty and not longer than the limit.
abbrev pub Fits : ℕ → Str → Type 0
Fits m phrase = (0 < length phrase) × (length phrase ≤ m)

emit-Fits :
    (m : ℕ) (segment : Str) (ps : List Str)
    → length segment ≤ m
    → All (Fits m) ps
    → All (Fits m) (emit segment ps)
emit-Fits m segment ps h all = elim (Bool-cases (is_empty (normalize_sentence segment))) [
  | inl blank ↦ unfold emit in rw blank all
  | inr said ↦
      unfold emit in
      rw said (
        (
          is_empty-Positive (normalize_sentence segment) said,
          unfold normalize_sentence in omega (arith, h, length-trim_space-le segment),
        ),
        all,
      )
]

scan-Fits :
    (m : ℕ) (current a : Str)
    → length current < m
    → All (Fits m) (scan m current a).0 × (length (scan m current a).1 < m)
scan-Fits m current [] h = unfold scan in (tt, h)
scan-Fits m current (r ∷ a) h = elim (Bool-cases (cuts m current r)) [
  | inl cut ↦
      let rest = scan-Fits m [] a (omega arith) in
      let longer = length-append current (r ∷ []) in
      rw (scan-cut m current r a cut)
        (emit-Fits m (current ++ r ∷ []) (scan m [] a).0 (omega (arith, longer)) rest.0, rest.1)
  | inr on ↦
      rw (scan-on m current r a on) (scan-Fits m (current ++ r ∷ []) a (cuts-short m current r on))
]

max_runes-Positive : (n : ℤ) → 0 < max_runes_or n
unfolding max_runes_or
max_runes-Positive (int n) = ground arith
max_runes-Positive (negsuc n) = omega arith

-- The state that a stream of deltas leaves, and its phrases, by the scan of the text.
pushes-new :
    (n : ℤ) (ds : List (List ℕ))
    → pushes ds (new_sentence_buffer n) ≡ (
      record { max_runes = max_runes_or n; buffer = (scan (max_runes_or n) [] (valid_text ds)).1 },
      (scan (max_runes_or n) [] (valid_text ds)).0,
    )
unfolding new_sentence_buffer
pushes-new n ds = pushes-scan (new_sentence_buffer n) ds (Settled-new n)

flush-Settled :
    (b : SentenceBuffer)
    → Settled b.max_runes b.buffer
    → flush b ≡ (record b { buffer = [] }, emit b.buffer [])
flush-Settled b s =
    let same = ap (scan b.max_runes []) (sym (append-nil b.buffer)) ∙ s.again [] in
    unfold flush drain in rw same (unfold scan in refl)

-- Whatever the deltas and the configured limit, the phrases that the pushes give are not empty and
-- not longer than the limit in force, and what is held back is shorter than the limit.
pub pushes-Fits :
    (n : ℤ) (ds : List (List ℕ))
    → All (Fits (max_runes_or n)) (pushes ds (new_sentence_buffer n)).1
      × (length (pushes ds (new_sentence_buffer n)).0.buffer < max_runes_or n)
pushes-Fits n ds =
    rw (pushes-new n ds) (scan-Fits (max_runes_or n) [] (valid_text ds) (max_runes-Positive n))

-- A stream of deltas that ends with a flush is spoken whole, as far as each delta is valid UTF-8: the
-- characters of its phrases, those of the flush last and less white space, are the characters that
-- the deltas, each by itself, have in valid UTF-8, in order; and the flush leaves the buffer empty.
-- Where no delta but the last ends within a rune, these are the characters of all their bytes.
pub pushes-flush-visible :
    (n : ℤ) (ds : List (List ℕ))
    → (visible (
          concat (pushes ds (new_sentence_buffer n)).1
          ++ concat (flush (pushes ds (new_sentence_buffer n)).0).1)
        ≡ visible (valid_text ds))
      × (Uncut ds → visible (valid_text ds) ≡ visible (to_valid_utf8 (concat ds)))
      × ((flush (pushes ds (new_sentence_buffer n)).0).0.buffer ≡ [])
pushes-flush-visible n ds =
    let m = max_runes_or n in
    let text = valid_text ds in
    let rest = (scan m [] text).1 in
    let last =
      flush-Settled (record { max_runes = m; buffer = rest })
        (scan-Settled m [] text (Settled-nil m)) in
    rw (pushes-new n ds)
      (rw last (spoken m text, (λ uncut. ap visible (valid_text-concat ds uncut)), refl))
  where
    spoken :
        (m : ℕ) (text : Str)
        → visible (concat (scan m [] text).0 ++ concat (emit (scan m [] text).1 [])) ≡ visible text
    spoken m text =
        visible-append (concat (scan m [] text).0) (concat (emit (scan m [] text).1 []))
        ∙ ap (λ v. visible (concat (scan m [] text).0) ++ v) (visible-said (scan m [] text).1)
        ∙ sym (visible-append (concat (scan m [] text).0) (scan m [] text).1)
        ∙ visible-scan m [] text
