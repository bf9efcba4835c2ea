-- ===== src/Dialogue/BargeIn.antt =====
-- src/dialogue/barge_in.hpp and barge_in.cpp: the detector that turns a `SpeechStarted` during
-- assistant speech into a `UserInterrupted`. Times are nanoseconds of the steady clock, which has not
-- gone back between the snapshot and the call of `now`. The echo canceller is read through its two
-- getters; the subscription and the log lines are left out.
pub mod Gates
mod Tests
use lclva.Prelude.{
  ℕ, ◌+◌, ◌-◌, ◌/◌, List, [], ◌∷◌, Option, none, some, Bool, true, false, not, if◌then◌else◌, ltb,
  ◌==◌, u64,
}
use lclva.Float.{Float}
use lclva.Event.Types.{TurnId, k_no_turn, Event, user_interrupted}
use lclva.Dialogue.Fsm.{FsmSnapshot, is_speaking}

-- What the detector reads of `audio::Apm`.
pub record ApmView (fl : Float) : Type 0 where
  pub aec_active : Bool
  pub erle_db : fl.F

pub record BargeInConfig (fl : Float) : Type 0 where
  pub enabled : Bool
  pub require_aec_converged : Bool
  pub min_aec_erle_db : fl.F
  pub cool_down_after_turn_ms : ℕ

pub record BargeInDetector (fl : Float) : Type 0 where
  pub cfg : BargeInConfig fl
  pub open cfg use *
  pub system_aec_active : Bool
  pub fires_total : ℕ  -- std::uint64_t
  pub suppressed_total : ℕ  -- std::uint64_t
  pub suppressed_cooldown : ℕ  -- std::uint64_t
  pub suppressed_aec : ℕ  -- std::uint64_t
  pub last_fired_ns : ℕ
  pub last_fired_turn : TurnId
  pub published : List Event
  pub fired : List (TurnId × ℕ)

module _ {fl : Float} where
  abbrev aec_active : Option (ApmView fl) → Bool
  aec_active none = false
  aec_active (some apm) = apm.aec_active

  abbrev erle_meets : Option (ApmView fl) → fl.F → Bool
  erle_meets none threshold = false
  erle_meets (some apm) threshold =
      if fl.is_nan apm.erle_db then false else fl.ge apm.erle_db threshold

  unfoldable pub aec_ok : BargeInDetector fl → Option (ApmView fl) → BargeInDetector fl × Bool
  aec_ok d apm =
      let missed = record d { suppressed_aec = u64 (d.suppressed_aec + 1) } in
      if not d.require_aec_converged
      then (d, true)
      else if d.system_aec_active
      then (d, true)
      else if not (aec_active apm)
      then (missed, false)
      else if not (erle_meets apm d.min_aec_erle_db)
      then (missed, false)
      else (d, true)

  -- The stores, the publication and the callback of a barge-in.
  fire : BargeInDetector fl → TurnId → ℕ → BargeInDetector fl
  fire d turn now = record d {
    last_fired_turn = turn;
    last_fired_ns = now;
    fires_total = u64 (d.fires_total + 1);
    published = user_interrupted turn now ∷ d.published;
    fired = (turn, now) ∷ d.fired;
  }

  suppress : BargeInDetector fl → BargeInDetector fl
  suppress d = record d { suppressed_total = u64 (d.suppressed_total + 1) }

  -- What stands behind the cool-down test.
  after_cooldown : BargeInDetector fl → Option (ApmView fl) → TurnId → ℕ → BargeInDetector fl
  unfolding aec_ok fire suppress
  after_cooldown d apm turn now =
      let (d', is_fine) = aec_ok d apm in if is_fine then fire d' turn now else suppress d'

  unfoldable pub on_speech_started :
      BargeInDetector fl → Option (ApmView fl) → FsmSnapshot → ℕ → BargeInDetector fl
  unfolding after_cooldown
  on_speech_started d apm snap now =
      let since = (now - snap.entered_speaking_at) / 1000000 in
      if not (is_speaking snap.state)
      then d
      else if snap.active_turn == k_no_turn
      then d
      else if d.last_fired_turn == snap.active_turn
      then d
      else if ltb since d.cool_down_after_turn_ms
      then suppress (record d { suppressed_cooldown = u64 (d.suppressed_cooldown + 1) })
      else after_cooldown d apm snap.active_turn now
