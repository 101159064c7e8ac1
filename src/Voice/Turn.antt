-- ===== src/Voice/Turn.antt =====
-- service/voiceconversation/turn.go: the buffer of one turn. A call gives the turn it leaves beside
-- its result; the state of the turn's context is the flag `cancelled`.
use haruka_ai.Base.{
  ℕ, ◌+◌, ltb, if◌then◌else◌, Bool, true, false, ◌==◌, List, [], ◌++◌, length, Str, trim_space,
  Option, none, some,
}
use haruka_ai.Voice.Vad.{
  Floats, EnergyVad, VadTransition, TurnError, turn_cancelled, turn_already_committed,
  audio_frame_invalid, audio_limit_exceeded, frame_invalid, Observed, observed, unobserved,
  observe_pcm16le, new_energy_vad, default_energy_vad_config,
}

abbrev pub max_turn_audio_bytes : ℕ
max_turn_audio_bytes = 10485760

pub data TurnResult (A : Type 0) : Type 0 where
  done : A → TurnResult A
  failed : TurnError → TurnResult A

module _ ⦃f : Floats⦄ where
  pub record Turn : Type 0 where
    pub id : Str
    pub cancelled : Bool
    pub vad : EnergyVad
    pub audio : List ℕ
    pub committed : Bool

  unfoldable pub detector_or_default : Option EnergyVad → EnergyVad
  unfolding new_energy_vad default_energy_vad_config
  detector_or_default none = new_energy_vad default_energy_vad_config
  detector_or_default (some d) = d

  unfoldable pub new_turn : Str → Option EnergyVad → Turn
  unfolding trim_space detector_or_default
  new_turn id detector = record {
    id = trim_space id;
    cancelled = false;
    vad = detector_or_default detector;
    audio = [];
    committed = false;
  }

  unfoldable pub after_observation : Turn → List ℕ → Observed → Turn × TurnResult VadTransition
  after_observation t frame (unobserved e) = (t, failed e)
  after_observation t frame (observed d transition) =
      (record t { vad = d; audio = t.audio ++ frame }, done transition)

  unfoldable pub append_pcm16le : Turn → List ℕ → Turn × TurnResult VadTransition
  unfolding frame_invalid after_observation observe_pcm16le
  append_pcm16le t frame =
      if t.cancelled
      then (t, failed turn_cancelled)
      else (if frame_invalid frame
          then (t, failed audio_frame_invalid)
          else (if t.committed
              then (t, failed turn_already_committed)
              else (if ltb max_turn_audio_bytes (length t.audio + length frame)
                  then (t, failed audio_limit_exceeded)
                  else after_observation t frame (observe_pcm16le t.vad frame))))

  unfoldable pub commit : Turn → Turn × TurnResult (List ℕ)
  commit t =
      if t.cancelled
      then (t, failed turn_cancelled)
      else (if t.committed
          then (t, failed turn_already_committed)
          else (if length t.audio == 0
              then (t, failed audio_frame_invalid)
              else (record t { committed = true }, done t.audio)))

  unfoldable pub cancel : Turn → Turn
  cancel t = record t { cancelled = true }
