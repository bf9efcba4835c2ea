-- ===== src/Audio/Endpointer/Tests.antt =====
-- Runs of the endpointer on concrete frames.
use lclva.Prelude.{◌≡◌, refl, List, [], ◌∷◌, true, arith}
use lclva.Float.{hundredths}
use lclva.Audio.Endpointer.{
  quiet, endpoint, nothing, speech_started, false_start, speech_ended, EndpointerConfig, Endpointer,
  Op, frame, on_frame, step, run,
}
use lclva.Audio.Endpointer.Outcomes.{Alternates, run-Alternates, on_frame_outcomes}
use lclva.Audio.Endpointer.Timing.{IsValid, run-IsValid, ends, hangover_ends}

abbrev defaults : EndpointerConfig hundredths
defaults = record {
  onset_threshold = 50;
  offset_threshold = 35;
  min_speech_ms = 200;
  hangover_ms = 600;
  pre_padding_ms = 300;
  post_padding_ms = 100;
}

abbrev fresh : Endpointer hundredths
fresh = record {
  cfg = defaults;
  sample_rate = 16000;
  state = quiet;
  speech_dur = 0;
  quiet_dur = 0;
  started_at = 0;
  ended_at = 0;
}

abbrev talk : List (Op hundredths)
talk =
    frame 80 100 1
    ∷ frame 80 100 2
    ∷ frame 40 100 3
    ∷ frame 10 300 4
    ∷ frame 40 300 5
    ∷ frame 60 100 6
    ∷ frame 10 100 7
    ∷ []

talk_outcomes :
    (run fresh talk).1
    ≡ nothing ∷ speech_started ∷ nothing ∷ nothing ∷ speech_ended ∷ nothing ∷ false_start ∷ []
unfolding run step
talk_outcomes = refl

abbrev trailing : Endpointer hundredths
trailing = record fresh { state = endpoint; speech_dur = 900; quiet_dur = 100; ended_at = 7 }

run-Alternates_example : Alternates true (run trailing talk).1
run-Alternates_example = run-Alternates trailing talk

outcomes_of_talk : (on_frame trailing 20 500 9).1 ≡ speech_ended
outcomes_of_talk = (on_frame_outcomes trailing 20 500 9).2.1 (refl, refl, omega arith)

talk-IsValid : IsValid (run trailing talk).0 × ((run trailing talk).0.cfg ≡ defaults)
talk-IsValid = run-IsValid trailing talk (omega arith) (ground arith)

hangover_ends_example : ends (run trailing (frame 40 300 8 ∷ frame 10 200 9 ∷ [])).1 ≡ true
hangover_ends_example =
    hangover_ends trailing (frame 40 300 8) (frame 10 200 9 ∷ []) refl (refl, (refl, tt))
      (omega arith)
