-- ===== src/Voice/Vad.antt =====
-- service/voiceconversation/turn.go: the energy detector of speech. The operations of float64 are an
-- argument. A nil detector is not modelled.
use haruka_ai.Base.{
  ℕ, ◌+◌, ◌*◌, ◌-◌, ◌%◌, ◌/◌, ◌==◌, ltb, leb, if◌then◌else◌, Bool, true, false, not, ◌&&◌, ◌||◌,
  List, [], ◌∷◌, length, ℤ, pos as int, negsuc, positive_or,
}

abbrev pub pcm16_frame_max_bytes : ℕ
pcm16_frame_max_bytes = 65536

pub data VadTransition : Type 0 where
  no_transition speech_start speech_end : VadTransition

pub data TurnError : Type 0 where
  turn_cancelled turn_already_committed audio_frame_invalid audio_limit_exceeded : TurnError

pub record Floats : Type 1 where
  pub Float : Type 0
  -- `<= 0`, NaN or an infinity.
  pub unusable : Float → Bool
  pub default_threshold : Float
  pub zero_float : Float
  pub of_int : ℤ → Float
  pub add : Float → Float → Float
  pub mul : Float → Float → Float
  pub div : Float → Float → Float
  pub sqrt : Float → Float
  -- `>=`
  pub at_least : Float → Float → Bool

-- `int16(uint16(lo) | uint16(hi)<<8)`, for the bytes of a frame in pairs.
unfoldable pub sample : ℕ → ℕ → ℤ
sample lo hi =
    let word = lo % 256 + (hi % 256) * 256 in
    if ltb word 32768 then int word else negsuc (65535 - word)

unfoldable pub samples : List ℕ → List ℤ
unfolding sample
samples [] = []
samples (lo ∷ []) = []
samples (lo ∷ hi ∷ bytes) = sample lo hi ∷ samples bytes

unfoldable pub frame_invalid : List ℕ → Bool
frame_invalid frame =
    length frame == 0 || not (length frame % 2 == 0) || ltb pcm16_frame_max_bytes (length frame)

module _ ⦃f : Floats⦄ where
  pub record EnergyVadConfig : Type 0 where
    pub threshold : f.Float
    pub start_frames : ℤ
    pub end_frames : ℤ

  unfoldable pub default_energy_vad_config : EnergyVadConfig
  default_energy_vad_config = record {
    threshold = f.default_threshold;
    start_frames = int 2;
    end_frames = int 25;
  }

  -- The frame counts of the configuration are positive once it is repaired.
  pub record EnergyVad : Type 0 where
    pub threshold : f.Float
    pub start_frames : ℕ
    pub end_frames : ℕ
    pub speaking : Bool
    pub speech_frames : ℕ
    pub silence_frames : ℕ

  unfoldable pub new_energy_vad : EnergyVadConfig → EnergyVad
  unfolding positive_or
  new_energy_vad config = record {
    threshold = if f.unusable config.threshold then f.default_threshold else config.threshold;
    start_frames = positive_or 2 config.start_frames;
    end_frames = positive_or 25 config.end_frames;
    speaking = false;
    speech_frames = 0;
    silence_frames = 0;
  }

  -- The loop over the samples, with the sum so far.
  unfoldable pub energy : f.Float → List ℤ → f.Float
  energy sum [] = sum
  energy sum (s ∷ rest) =
      let value = f.div (f.of_int s) (f.of_int (int 32768)) in
      energy (f.add sum (f.mul value value)) rest

  unfoldable pub rms : List ℕ → f.Float
  unfolding energy samples
  rms frame =
      f.sqrt (f.div (energy f.zero_float (samples frame)) (f.of_int (int (length frame / 2))))

  unfoldable pub loud : EnergyVad → List ℕ → Bool
  unfolding rms
  loud d frame = f.at_least (rms frame) d.threshold

  unfoldable pub heard : EnergyVad → EnergyVad × VadTransition
  heard d =
      let d' = record d { speech_frames = d.speech_frames + 1; silence_frames = 0 } in
      if not d.speaking && leb d.start_frames (d.speech_frames + 1)
      then (record d' { speaking = true }, speech_start)
      else (d', no_transition)

  unfoldable pub quiet : EnergyVad → EnergyVad × VadTransition
  quiet d =
      let d' = record d { silence_frames = d.silence_frames + 1; speech_frames = 0 } in
      if d.speaking && leb d.end_frames (d.silence_frames + 1)
      then (record d' { speaking = false }, speech_end)
      else (d', no_transition)

  -- What a frame that is valid does; `none` of the errors is possible past the guards.
  unfoldable pub observe_valid : EnergyVad → List ℕ → EnergyVad × VadTransition
  unfolding heard quiet loud
  observe_valid d frame = if loud d frame then heard d else quiet d

  pub data Observed : Type 0 where
    observed : EnergyVad → VadTransition → Observed
    unobserved : TurnError → Observed

  unfoldable pub observe_pcm16le : EnergyVad → List ℕ → Observed
  unfolding frame_invalid observe_valid
  observe_pcm16le d frame =
      if frame_invalid frame
      then unobserved audio_frame_invalid
      else observed (observe_valid d frame).0 (observe_valid d frame).1
