-- ===== src/Voice/Detector.antt =====
-- service/voiceconversation/turn.go: the detector's state is a function of the frames it heard.
use haruka_ai.Base.{
  ℕ, ◌+◌, leb, ◌≡◌, refl, sym, ap, ◌∙◌, if◌then◌else◌, Bool, true, false, not, ◌&&◌, ◌||◌, List, [],
  ◌∷◌, inl, inr, Bool-cases,
}
use haruka_ai.Voice.Vad.{
  Floats, EnergyVad, EnergyVadConfig, VadTransition, no_transition, speech_start, speech_end,
  new_energy_vad, loud, heard, quiet, observe_valid, frame_invalid, Observed, observed, unobserved,
  observe_pcm16le,
}

-- How many entries at the head of a history, the newest first, are as given.
abbrev pub latest : Bool → List Bool → ℕ
latest b [] = 0
latest true (true ∷ h) = latest true h + 1
latest true (false ∷ h) = 0
latest false (true ∷ h) = 0
latest false (false ∷ h) = latest false h + 1

-- Whether someone speaks after a history of loud and quiet frames, for the two lengths of a run
-- that decide it.
abbrev pub speaks : ℕ → ℕ → List Bool → Bool
speaks s e [] = false
speaks s e (true ∷ h) = speaks s e h || leb s (latest true (true ∷ h))
speaks s e (false ∷ h) = speaks s e h && not (leb e (latest false (false ∷ h)))

-- The transition that the newest frame is.
abbrev pub turned : Bool → Bool → VadTransition
turned false true = speech_start
turned true false = speech_end
turned true true = no_transition
turned false false = no_transition

module _ ⦃f : Floats⦄ where
  -- Whether the valid frames were loud for the detector, the newest first.
  abbrev pub history : EnergyVad → List (List ℕ) → List Bool
  history d [] = []
  history d (frame ∷ older) =
      let rest = history d older in if frame_invalid frame then rest else loud d frame ∷ rest

  left_by : EnergyVad → Observed → EnergyVad
  left_by d (observed d' t) = d'
  left_by d (unobserved e) = d

  -- The detector after the frames, the newest first.
  unfoldable pub after : EnergyVad → List (List ℕ) → EnergyVad
  unfolding left_by
  after d [] = d
  after d (frame ∷ older) = let rest = after d older in left_by rest (observe_pcm16le rest frame)

  counters : EnergyVad → Bool → ℕ → ℕ → EnergyVad
  counters d b n k = record d { speaking = b; speech_frames = n; silence_frames = k }

  heard-counters :
      (d : EnergyVad) (b : Bool) (n k : ℕ)
      → heard (counters d b n k) ≡ (
        counters d (b || leb d.start_frames (n + 1)) (n + 1) 0,
        turned b (b || leb d.start_frames (n + 1)),
      )
  unfolding heard counters
  heard-counters d true n k = refl
  heard-counters d false n k = elim (Bool-cases (leb d.start_frames (n + 1))) [
    | inl long ↦ rw long refl
    | inr short ↦ rw short refl
  ]

  quiet-counters :
      (d : EnergyVad) (b : Bool) (n k : ℕ)
      → quiet (counters d b n k) ≡ (
        counters d (b && not (leb d.end_frames (k + 1))) 0 (k + 1),
        turned b (b && not (leb d.end_frames (k + 1))),
      )
  unfolding quiet counters
  quiet-counters d false n k = refl
  quiet-counters d true n k = elim (Bool-cases (leb d.end_frames (k + 1))) [
    | inl long ↦ rw long refl
    | inr short ↦ rw short refl
  ]

  described : EnergyVad → List Bool → EnergyVad
  described d h = counters d (speaks d.start_frames d.end_frames h) (latest true h) (latest false h)

  tested-described :
      (d : EnergyVad) (b : Bool) (h : List Bool)
      → (if b then heard (described d h) else quiet (described d h)) ≡ (
        described d (b ∷ h),
        turned (speaks d.start_frames d.end_frames h) (speaks d.start_frames d.end_frames (b ∷ h)),
      )
  unfolding counters described
  tested-described d true h =
      heard-counters d (speaks d.start_frames d.end_frames h) (latest true h) (latest false h)
  tested-described d false h =
      quiet-counters d (speaks d.start_frames d.end_frames h) (latest true h) (latest false h)

  observe-described :
      (d : EnergyVad) (frame : List ℕ) (h : List Bool)
      → observe_valid (described d h) frame ≡ (
        described d (loud d frame ∷ h),
        turned
            (speaks d.start_frames d.end_frames h)
            (speaks d.start_frames d.end_frames (loud d frame ∷ h)),
      )
  unfolding observe_valid loud counters described
  observe-described d frame h = tested-described d (loud d frame) h

  -- A frame that is not valid changes nothing; another is described by the history with it.
  frame-described :
      (d : EnergyVad) (frame : List ℕ) (h : List Bool)
      → left_by (described d h) (observe_pcm16le (described d h) frame)
        ≡ described d (if frame_invalid frame then h else loud d frame ∷ h)
  unfolding left_by observe_pcm16le
  frame-described d frame h = elim (Bool-cases (frame_invalid frame)) [
    | inl bad ↦ rw bad refl
    | inr good ↦ rw good (ap (λ z. z.0) (observe-described d frame h))
  ]

  after-described :
      (d : EnergyVad) (older : List (List ℕ))
      → described d [] ≡ d
      → after d older ≡ described d (history d older)
  unfolding after
  after-described d [] e = sym e
  after-described d (frame ∷ older) e =
      ap (λ z. left_by z (observe_pcm16le z frame)) (after-described d older e)
      ∙ frame-described d frame (history d older)

  observe-good :
      (d : EnergyVad) (frame : List ℕ)
      → frame_invalid frame ≡ false
      → observe_pcm16le d frame ≡ observed (observe_valid d frame).0 (observe_valid d frame).1
  unfolding observe_pcm16le
  observe-good d frame good = rw good refl

  after-good :
      (d : EnergyVad) (frame : List ℕ) (older : List (List ℕ))
      → frame_invalid frame ≡ false
      → after d (frame ∷ older) ≡ (observe_valid (after d older) frame).0
  unfolding after left_by
  after-good d frame older good =
      ap (left_by (after d older)) (observe-good (after d older) frame good)

  described-new :
      (config : EnergyVadConfig) → described (new_energy_vad config) [] ≡ new_energy_vad config
  unfolding new_energy_vad described counters
  described-new config = refl

  -- A detector that is new, after any frames: it is speaking as the history of loud frames says, its
  -- counters are the lengths of the newest run of loud and of quiet frames, and it calls the next
  -- frame, if valid, a start of speech, an end of speech or no transition as that frame changes
  -- whether someone speaks. The history says it so: silence turns to speech when `start_frames`
  -- frames in a row were loud, and speech to silence when `end_frames` in a row were quiet.
  pub after-history :
      (config : EnergyVadConfig) (frame : List ℕ) (older : List (List ℕ))
      → frame_invalid frame ≡ false
      → let d = new_energy_vad config in
        let h = history d older in
        let now = after d older in
        let next = loud d frame ∷ h in
        (now.speaking ≡ speaks d.start_frames d.end_frames h)
        × (now.speech_frames ≡ latest true h)
        × (now.silence_frames ≡ latest false h)
        × (observe_pcm16le now frame
            ≡ observed (after d (frame ∷ older)) (
                turned
                  (speaks d.start_frames d.end_frames h)
                  (speaks d.start_frames d.end_frames next)))
  after-history config frame older good =
      let d = new_energy_vad config in
      let e = after-described d older (described-new config) in
      let step = observe-described d frame (history d older) in
      (
        ap (λ z. z.speaking) e ∙ unfold described counters in refl,
        ap (λ z. z.speech_frames) e ∙ unfold described counters in refl,
        ap (λ z. z.silence_frames) e ∙ unfold described counters in refl,
        observe-good (after d older) frame good ∙ λ i.
            observed (sym (after-good d frame older good) i)
              ((ap (λ z. (observe_valid z frame).1) e ∙ ap (λ z. z.1) step) i),
      )
