-- ===== src/Dialogue/BargeIn/Tests.antt =====
-- A detector in front of a machine that speaks.
use lclva.Prelude.{ℕ, ◌+◌, ◌≡◌, refl, List, [], ◌∷◌, Option, none, some, true, false, arith, u64}
use lclva.Float.{hundredths}
use lclva.Event.Types.{user_interrupted}
use lclva.Dialogue.Turn.{is_cancelled}
use lclva.Dialogue.Fsm.{State, TurnOutcome, World, initial, snapshot, on_event}
use lclva.Dialogue.BargeIn.{ApmView, BargeInDetector, on_speech_started}
use lclva.Dialogue.BargeIn.Gates.{
  on_speech_started_lem, Moment, run, Latest, interrupts_once, suppressed_counted, barge_in_cancels,
}

abbrev detector : BargeInDetector hundredths
detector = record {
  cfg = record {
    enabled = true;
    require_aec_converged = true;
    min_aec_erle_db = 1500;
    cool_down_after_turn_ms = 300;
  };
  system_aec_active = false;
  fires_total = 0;
  suppressed_total = 0;
  suppressed_cooldown = 0;
  suppressed_aec = 0;
  last_fired_ns = 0;
  last_fired_turn = 0;
  published = [];
  fired = [];
}

abbrev strong : Option (ApmView hundredths)
strong = some (record { aec_active = true; erle_db = 2500 })

abbrev weak : Option (ApmView hundredths)
weak = some (record { aec_active = true; erle_db = 900 })

-- Turn 1 is being spoken since 1 ms.
abbrev speaking_world : World
speaking_world = record {
  fsm = record initial {
    state = State.speaking;
    active = record { id = 1; token = some 0; started_at = 0 };
    sentences_received = 1;
    outcome = TurnOutcome.speaking;
    entered_speaking_at = 1000000;
  };
  turns = record { next = 2 };
  tokens = record { count = 1; cancelled = λ a. false };
  published = [];
  outcomes = [];
  observed = [];
}

-- Too early, then too weak an echo canceller, then accepted, then a second time.
abbrev moments : List (Moment hundredths)
moments =
    (strong, snapshot speaking_world.fsm, 200000000)
    ∷ (weak, snapshot speaking_world.fsm, 400000000)
    ∷ (strong, snapshot speaking_world.fsm, 500000000)
    ∷ (strong, snapshot speaking_world.fsm, 600000000)
    ∷ []

run-moments :
    ((run detector moments).published ≡ user_interrupted 1 500000000 ∷ [])
    × ((run detector moments).suppressed_total ≡ 2)
unfolding run on_speech_started snapshot
run-moments = (refl, refl)

on_speech_started_example :
    (on_speech_started detector weak (snapshot speaking_world.fsm) 500000000).published ≡ []
unfolding snapshot
on_speech_started_example =
    (on_speech_started_lem detector weak (snapshot speaking_world.fsm) 500000000).0

second_start_suppressed :
    (m : ℕ) × Latest m (run detector moments).last_fired_turn (run detector moments).published
unfolding snapshot
second_start_suppressed = interrupts_once detector moments 0 (omega arith) refl

suppressed_counted_example :
    u64 (run detector moments).suppressed_total
    ≡ u64 ((run detector moments).suppressed_cooldown + (run detector moments).suppressed_aec)
suppressed_counted_example = suppressed_counted detector moments refl

barge_in_cancels_example :
    let w' = on_event (user_interrupted 1 500000000) 500000001 speaking_world in
    (is_cancelled w'.tokens speaking_world.active ≡ true)
unfolding snapshot
barge_in_cancels_example =
    (barge_in_cancels detector strong none speaking_world 500000000 500000001 600000000 refl).1
