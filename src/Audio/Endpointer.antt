-- ===== src/Audio/Endpointer.antt =====
-- src/audio/endpointer.hpp and endpointer.cpp: the speech endpointer, a machine with four states
-- over voice-activity probabilities. Times and durations are milliseconds; `{}` of a time point is 0.
pub mod Outcomes
pub mod Timing
mod Tests
use lclva.Prelude.{ℕ, ◌+◌, List, [], ◌∷◌, Bool, true, false, if◌then◌else◌, leb}
use lclva.Float.{Float}

pub data EndpointerState : Type 0 where
  quiet onset speaking endpoint : EndpointerState

pub data FrameOutcome : Type 0 where
  nothing speech_started false_start speech_ended : FrameOutcome

pub record EndpointerConfig (fl : Float) : Type 0 where
  pub onset_threshold : fl.F
  pub offset_threshold : fl.F
  pub min_speech_ms : ℕ
  pub hangover_ms : ℕ
  pub pre_padding_ms : ℕ
  pub post_padding_ms : ℕ

pub record Endpointer (fl : Float) : Type 0 where
  pub cfg : EndpointerConfig fl
  pub open cfg use *
  pub sample_rate : ℕ
  pub state : EndpointerState
  pub speech_dur : ℕ
  pub quiet_dur : ℕ
  pub started_at : ℕ
  pub ended_at : ℕ

module _ {fl : Float} where
  -- The constructor.
  unfoldable pub endpointer : EndpointerConfig fl → ℕ → Endpointer fl
  endpointer cfg rate = record {
    cfg = cfg;
    sample_rate = rate;
    state = quiet;
    speech_dur = 0;
    quiet_dur = 0;
    started_at = 0;
    ended_at = 0;
  }

  unfoldable pub reset : Endpointer fl → Endpointer fl
  reset e = record e { state = quiet; speech_dur = 0; quiet_dur = 0; started_at = 0; ended_at = 0 }

  -- `quiet_dur_ += frame_duration`, and the test of the hangover behind it.
  hang : Endpointer fl → ℕ → Endpointer fl × FrameOutcome
  hang e duration =
      let q = e.quiet_dur + duration in
      if leb e.hangover_ms q
      then (record e { quiet_dur = q; state = quiet }, speech_ended)
      else (record e { quiet_dur = q }, nothing)

  -- The `switch` of `on_frame`, over the two comparisons made before it.
  on_state :
      EndpointerState
      → (above_onset below_offset : Bool) (duration now : ℕ) → Endpointer fl
      → Endpointer fl × FrameOutcome
  unfolding hang
  on_state quiet above below d t e = (
    if above then record e { state = onset; speech_dur = d; quiet_dur = 0; started_at = t } else e,
    nothing,
  )
  on_state onset true below d t e =
      let s = e.speech_dur + d in
      if leb e.min_speech_ms s
      then (record e { speech_dur = s; state = speaking; quiet_dur = 0 }, speech_started)
      else (record e { speech_dur = s }, nothing)
  on_state onset false true d t e =
      (record e { state = quiet; speech_dur = 0; quiet_dur = 0; started_at = 0 }, false_start)
  on_state onset false false d t e = (e, nothing)
  on_state speaking true below d t e =
      (record e { speech_dur = e.speech_dur + d; quiet_dur = 0 }, nothing)
  on_state speaking false true d t e =
      (record e { state = endpoint; quiet_dur = d; ended_at = t }, nothing)
  on_state speaking false false d t e = (record e { speech_dur = e.speech_dur + d }, nothing)
  on_state endpoint true below d t e = (
    record e { state = speaking; speech_dur = e.speech_dur + d; quiet_dur = 0; ended_at = 0 },
    nothing,
  )
  on_state endpoint false true d t e = hang e d
  on_state endpoint false false d t e = hang e d

  abbrev pub above_onset : Endpointer fl → fl.F → Bool
  above_onset e p = fl.ge p e.onset_threshold

  abbrev pub below_offset : Endpointer fl → fl.F → Bool
  below_offset e p = fl.lt p e.offset_threshold

  unfoldable pub on_frame : Endpointer fl → fl.F → ℕ → ℕ → Endpointer fl × FrameOutcome
  unfolding on_state
  on_frame e p d t = on_state e.state (above_onset e p) (below_offset e p) d t e

  unfoldable pub force_endpoint : Endpointer fl → ℕ → Endpointer fl × FrameOutcome
  force_endpoint e now = elim e.state [
    | speaking ↦ (record e { ended_at = now; state = quiet }, speech_ended)
    | endpoint ↦ (record e { ended_at = now; state = quiet }, speech_ended)
    | onset ↦ (record e { state = quiet }, false_start)
    | quiet ↦ (e, nothing)
  ]

-- What a caller does to an endpointer, in order.
pub data Op (fl : Float) : Type 0 where
  frame : fl.F → ℕ → ℕ → Op fl
  force : ℕ → Op fl

module _ {fl : Float} where
  unfoldable pub step : Endpointer fl → Op fl → Endpointer fl × FrameOutcome
  unfolding on_frame force_endpoint
  step e (frame p d t) = on_frame e p d t
  step e (force now) = force_endpoint e now

  -- The outcomes of a list of calls, and the endpointer behind them.
  unfoldable pub run : Endpointer fl → List (Op fl) → Endpointer fl × List FrameOutcome
  run e [] = (e, [])
  run e (op ∷ ops) = let (e', o) = step e op in let (e'', os) = run e' ops in (e'', o ∷ os)
