-- ===== src/Dialogue/TurnWriter/Tests.antt =====
-- Runs of the turn writer on small inputs.
use lclva.Prelude.{ℕ, ◌≡◌, refl, ◌++◌, List, [], ◌∷◌, Option, none, some, true, false, arith}
use lclva.Dialogue.SentenceSplitter.{bytes}
use lclva.Dialogue.TurnWriter.{
  Input, llm_started, llm_sentence, llm_finished, playback_finished, Job, TurnRole, TurnStatus,
  turn_writer, on_event, run,
}
use lclva.Dialogue.TurnWriter.Spec.{pieces}
use lclva.Dialogue.TurnWriter.Persistence.{turn_persisted}

-- The first sentence is played before it is told, and another turn is under way.
abbrev answer : List (Input × ℕ)
answer =
    (playback_finished 3 0, 11)
    ∷ (llm_sentence 3 1 (bytes "Bye.") (bytes "en"), 12)
    ∷ (llm_started 2, 13)
    ∷ (llm_sentence 3 0 (bytes "Hi.") (bytes "en"), 14)
    ∷ (llm_finished 2 false, 15)
    ∷ []

abbrev row : TurnStatus → Option ℕ → List ℕ → Job
row status at_sentence text = record {
  session = 7;
  role = TurnRole.assistant;
  text = text;
  lang = some (bytes "en");
  started_at = 10;
  status = status;
  ended_at = some 20;
  interrupted_at = at_sentence;
}

committed_run :
    (run ((llm_started 3, 10) ∷ answer ++ (llm_finished 3 false, 20) ∷ []) (turn_writer 7)).posted
    ≡ row TurnStatus.committed none (bytes "Hi. Bye.")
      ∷ (run ((llm_started 3, 10) ∷ answer) (turn_writer 7)).posted
unfolding run turn_writer
committed_run = refl

-- A sentence behind the end of its turn makes an entry with no start, which no event removes.
late_sentence :
    (run
        ((llm_started 3, 10)
          ∷ (llm_finished 3 true, 20)
          ∷ (llm_sentence 3 0 (bytes "Hi.") (bytes "en"), 21)
          ∷ [])
        (turn_writer 7)).in_flight
      3
    ≡ some (record {
      sentences = bytes "Hi." ∷ [];
      played = false ∷ [];
      lang = bytes "en";
      started_at = 0;
    })
unfolding run turn_writer
late_sentence = refl

turn_persisted_example :
    let w₁ = run ((llm_started 3, 10) ∷ answer) (turn_writer 7) in
    let w₂ = on_event (llm_finished 3 true) 20 w₁ in
    (w₂.in_flight 3 ≡ none)
    × (w₂.posted ≡ row TurnStatus.interrupted (some 1) (bytes "Hi.") ∷ w₁.posted)
unfolding turn_writer pieces
turn_persisted_example =
    turn_persisted 3 2 10 20 true answer (turn_writer 7) (omega arith) (omega arith) refl (
      (λ e. omega arith),
      ((λ e. omega arith), (tt, ((λ e. omega arith), ((λ e. omega (arith, e)), tt)))),
    )
