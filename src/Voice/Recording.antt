-- ===== src/Voice/Recording.antt =====
-- service/voiceconversation/turn.go: the audio of a turn under any calls.
use haruka_ai.Base.{
  ℕ, ◌+◌, ◌%◌, ◌<◌, ◌≤◌, ltb, ◌==◌, ◌≡◌, refl, sym, ap, ◌∙◌, if◌then◌else◌, true, false, List, [],
  ◌∷◌, ◌++◌, length, length-append, arith, inl, inr, Bool-cases, All, Str, Option, ◌⊎◌,
}
use mathlib.Core.List.{append-nil, append_assoc}
use haruka_ai.Voice.Vad.{
  Floats, EnergyVad, VadTransition, TurnError, turn_cancelled, turn_already_committed,
  audio_frame_invalid, audio_limit_exceeded, frame_invalid, observe_valid,
}
use haruka_ai.Voice.Turn.{
  max_turn_audio_bytes, TurnResult, done, failed, Turn, new_turn, append_pcm16le, commit, cancel,
}

pub data Call : Type 0 where
  append_call : List ℕ → Call
  commit_call cancel_call : Call

abbrev pub joined : List (List ℕ) → List ℕ
joined [] = []
joined (frame ∷ frames) = frame ++ joined frames

module _ ⦃f : Floats⦄ where
  -- What the caller has seen: the turn, the frames that were taken, in order, and the recordings
  -- that were handed out, the newest first.
  pub record Seen : Type 0 where
    pub turn : Turn
    pub taken : List (List ℕ)
    pub given : List (List ℕ)

  abbrev pub begin : Str → Option EnergyVad → Seen
  begin id detector = record { turn = new_turn id detector; taken = []; given = [] }

  after_append : Seen → List ℕ → Turn × TurnResult VadTransition → Seen
  after_append s frame (t, done v) = record s { turn = t; taken = s.taken ++ frame ∷ [] }
  after_append s frame (t, failed e) = record s { turn = t }

  after_commit : Seen → Turn × TurnResult (List ℕ) → Seen
  after_commit s (t, done audio) = record s { turn = t; given = audio ∷ s.given }
  after_commit s (t, failed e) = record s { turn = t }

  unfoldable pub call : Seen → Call → Seen
  unfolding after_append after_commit
  call s (append_call frame) = after_append s frame (append_pcm16le s.turn frame)
  call s commit_call = after_commit s (commit s.turn)
  call s cancel_call = record s { turn = cancel s.turn }

  unfoldable pub calls : Seen → List Call → Seen
  unfolding call
  calls s [] = s
  calls s (c ∷ cs) = calls (call s c) cs

  -- The turn holds what was taken, and gives it out once.
  pub record Held (s : Seen) : Type 0 where
    audio : s.turn.audio ≡ joined s.taken
    pub valid : All (λ frame. frame_invalid frame ≡ false) s.taken
    pub short : length s.turn.audio ≤ max_turn_audio_bytes
    pub even : length s.turn.audio % 2 ≡ 0
    pub once : s.given ≡ (if s.turn.committed then s.turn.audio ∷ [] else [])
    pub nonempty : s.turn.committed ≡ true → 0 < length s.turn.audio

  -- A frame is refused, which leaves the turn, or taken.
  abbrev Taken : Turn → List ℕ → Type 0
  Taken t frame =
      (d : EnergyVad) × (v : VadTransition) × (append_pcm16le t frame
        ≡ (record t { vad = d; audio = t.audio ++ frame }, done v))
      × (frame_invalid frame ≡ false)
      × (t.committed ≡ false)
      × (t.cancelled ≡ false)
      × (length t.audio + length frame ≤ max_turn_audio_bytes)

  abbrev Refused : Turn → List ℕ → Type 0
  Refused t frame = (e : TurnError) × (append_pcm16le t frame ≡ (t, failed e))

  append-cases : (t : Turn) (frame : List ℕ) → Refused t frame ⊎ Taken t frame
  unfolding append_pcm16le
  append-cases t frame = elim (Bool-cases t.cancelled) [
    | inl hit ↦ inl (turn_cancelled, simp hit refl)
    | inr on ↦ elim (Bool-cases (frame_invalid frame)) [
      | inl hit ↦ inl (audio_frame_invalid, simp (on, hit) refl)
      | inr valid ↦ elim (Bool-cases t.committed) [
        | inl hit ↦ inl (turn_already_committed, simp (on, valid, hit) refl)
        | inr fresh ↦ elim (Bool-cases (ltb max_turn_audio_bytes (length t.audio + length frame))) [
          | inl hit ↦ inl (audio_limit_exceeded, simp (on, valid, fresh, hit) refl)
          | inr fits ↦ inr (
            (observe_valid t.vad frame).0,
            (observe_valid t.vad frame).1,
            simp (on, valid, fresh, fits) refl,
            valid,
            fresh,
            on,
            ground (arith, fits),
          )
        ]
      ]
    ]
  ]

  commit-cases :
      (t : Turn)
      → ((e : TurnError) × (commit t ≡ (t, failed e)))
        ⊎ ((commit t ≡ (record t { committed = true }, done t.audio))
            × (t.committed ≡ false)
            × (t.cancelled ≡ false)
            × (0 < length t.audio))
  unfolding commit
  commit-cases t = elim (Bool-cases t.cancelled) [
    | inl hit ↦ inl (turn_cancelled, simp hit refl)
    | inr on ↦ elim (Bool-cases t.committed) [
      | inl hit ↦ inl (turn_already_committed, simp (on, hit) refl)
      | inr fresh ↦ elim (Bool-cases (length t.audio == 0)) [
        | inl hit ↦ inl (audio_frame_invalid, simp (on, fresh, hit) refl)
        | inr some ↦ inr (simp (on, fresh, some) refl, fresh, on, ground (arith, some))
      ]
    ]
  ]

  frame-Even : (frame : List ℕ) → frame_invalid frame ≡ false → length frame % 2 ≡ 0
  unfolding frame_invalid
  frame-Even frame h = ground arith

  joined-snoc :
      (frames : List (List ℕ)) (frame : List ℕ)
      → joined (frames ++ frame ∷ []) ≡ joined frames ++ frame
  joined-snoc [] frame = append-nil frame
  joined-snoc (g ∷ frames) frame =
      ap (◌++◌ g) (joined-snoc frames frame) ∙ sym (append_assoc g (joined frames) frame)

  All-snoc :
      (frames : List (List ℕ)) (frame : List ℕ)
      → All (λ g. frame_invalid g ≡ false) frames
      → frame_invalid frame ≡ false
      → All (λ g. frame_invalid g ≡ false) (frames ++ frame ∷ [])
  All-snoc [] frame h v = (v, tt)
  All-snoc (g ∷ frames) frame h v = (h.0, All-snoc frames frame h.1 v)

  append-Held : (s : Seen) (frame : List ℕ) → Held s → Held (call s (append_call frame))
  append-Held s frame h = elim (append-cases s.turn frame) [
    | inl (e, refused) ↦ unfold call after_append in rw refused h
    | inr (d, v, taken, valid, fresh, on, fits) ↦
        unfold call after_append in
        rw taken (record {
          audio = ap (λ a. a ++ frame) h.audio ∙ sym (joined-snoc s.taken frame);
          valid = All-snoc s.taken frame h.valid valid;
          short = omega (arith, length-append s.turn.audio frame);
          even = omega (arith, length-append s.turn.audio frame, h.even, frame-Even frame valid);
          once =
              h.once
              ∙ ap (λ b. if b then s.turn.audio ∷ [] else []) fresh
              ∙ sym (ap (λ b. if b then (s.turn.audio ++ frame) ∷ [] else []) fresh);
          nonempty = λ c. omega (arith, length-append s.turn.audio frame, h.nonempty c);
        })
  ]

  commit-Held : (s : Seen) → Held s → Held (call s commit_call)
  commit-Held s h = elim (commit-cases s.turn) [
    | inl (e, refused) ↦ unfold call after_commit in rw refused h
    | inr (given, fresh, on, some) ↦
        unfold call after_commit in
        rw given (record {
          audio = h.audio;
          valid = h.valid;
          short = h.short;
          even = h.even;
          once =
              ap (◌∷◌ s.turn.audio) (h.once ∙ ap (λ b. if b then s.turn.audio ∷ [] else []) fresh);
          nonempty = λ c. some;
        })
  ]

  call-Held : (s : Seen) (c : Call) → Held s → Held (call s c)
  call-Held s (append_call frame) h = append-Held s frame h
  call-Held s commit_call h = commit-Held s h
  call-Held s cancel_call h =
      unfold call cancel in
      record {
        audio = h.audio;
        valid = h.valid;
        short = h.short;
        even = h.even;
        once = h.once;
        nonempty = h.nonempty;
      }

  calls-Held : (s : Seen) (cs : List Call) → Held s → Held (calls s cs)
  unfolding calls
  calls-Held s [] h = h
  calls-Held s (c ∷ cs) h = calls-Held (call s c) cs (call-Held s c h)

  -- After any calls on a new turn: its audio is the frames that were taken, in order, each of them
  -- valid; it has an even length within the limit; and a recording was handed out once if the turn
  -- was committed, and is then that audio and not empty, and not otherwise.
  pub calls-new-Held :
      (id : Str) (detector : Option EnergyVad) (cs : List Call)
      → Held (calls (begin id detector) cs)
  calls-new-Held id detector cs = calls-Held (begin id detector) cs (
      unfold new_turn in
      record {
        audio = refl;
        valid = tt;
        short = omega arith;
        even = refl;
        once = refl;
        nonempty = λ c. cc;
      })

  abbrev pub Closed : Seen → Type 0
  Closed s = (s.turn.committed ≡ true) ⊎ (s.turn.cancelled ≡ true)

  abbrev Same : Seen → Seen → Type 0
  Same s s' =
      (s'.turn.audio ≡ s.turn.audio) × (s'.taken ≡ s.taken) × (s'.given ≡ s.given) × Closed s'

  open-absurd :
      (s : Seen) {P : Type 0} → Closed s → s.turn.committed ≡ false → s.turn.cancelled ≡ false → P
  open-absurd s (inl c) fresh on = cc
  open-absurd s (inr c) fresh on = cc

  call-Closed : (s : Seen) (c : Call) → Closed s → Same s (call s c)
  call-Closed s (append_call frame) closed = elim (append-cases s.turn frame) [
    | inl (e, refused) ↦ unfold call after_append in rw refused (refl, refl, refl, closed)
    | inr (d, v, taken, valid, fresh, on, fits) ↦ open-absurd s closed fresh on
  ]
  call-Closed s commit_call closed = elim (commit-cases s.turn) [
    | inl (e, refused) ↦ unfold call after_commit in rw refused (refl, refl, refl, closed)
    | inr (given, fresh, on, some) ↦ open-absurd s closed fresh on
  ]
  call-Closed s cancel_call closed = unfold call cancel in (refl, refl, refl, inr refl)

  -- Once a turn is committed or cancelled, no calls change its audio, add a frame or hand out a
  -- recording, and it stays committed or cancelled.
  pub calls-Closed :
      (s : Seen) (cs : List Call)
      → Closed s
      → ((calls s cs).turn.audio ≡ s.turn.audio)
        × ((calls s cs).taken ≡ s.taken)
        × ((calls s cs).given ≡ s.given)
        × Closed (calls s cs)
  unfolding calls
  calls-Closed s [] closed = (refl, refl, refl, closed)
  calls-Closed s (c ∷ cs) closed =
      let (audio, taken, given, still) = call-Closed s c closed in
      let rest = calls-Closed (call s c) cs still in
      (rest.0 ∙ audio, rest.1 ∙ taken, rest.2 ∙ given, rest.3)
