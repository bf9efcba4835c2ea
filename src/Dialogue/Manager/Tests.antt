-- ===== src/Dialogue/Manager/Tests.antt =====
-- Runs of the manager, alone and with the turn writer behind it.
use lclva.Prelude.{
  ℕ, ◌≡◌, refl, List, [], ◌∷◌, ◌++◌, append-nil, Option, none, some, Bool, true, false, arith, All,
  length, ◌≤◌,
}
use lclva.Event.Types.{llm_finished as finished_event}
use lclva.Dialogue.Turn.{no_context}
use lclva.Dialogue.SentenceSplitter.{Text, bytes, flush, push_char, sentence_splitter}
use lclva.Dialogue.SentenceSplitter.Kept.{visible, push_all}
use lclva.Llm.SseParser.{k_done_sentinel}
use lclva.Llm.SseParser.Frames.{frame, frames, IsPayload}
use lclva.Dialogue.TurnWriter.{turn_writer, run}
use lclva.Dialogue.TurnWriter.Spec.{rows, spaced}
use lclva.Dialogue.Manager.{
  llm_started, llm_sentence, llm_finished, Transcript, Manager, context, on_token, on_finished,
  run_one, normalised_visible_chars,
}
use lclva.Dialogue.Manager.Sentences.{seen, numbered}
use lclva.Dialogue.Manager.Cap.{answer_capped}
use lclva.Llm.Client.{Transfer}
use lclva.Dialogue.Manager.Answer.{streamed, answer_published}
use lclva.Dialogue.Manager.Memory.{inputs, answer_remembered}

abbrev manager_with : ℕ → Manager
manager_with cap = record {
  cfg = record {
    min_real_utterance_chars = 3;
    fallback_language = bytes "en";
    max_assistant_sentences = cap;
    detect_code_fences = true;
    max_sentence_chars = 100;
  };
  pending = none;
  stopping = false;
  active = no_context;
  gated_turns = 0;
  turns = record { next = 5 };
  tokens = record { count = 0; cancelled = λ _. false };
  actions = [];
}

abbrev question : Transcript
question = record { turn = 5; text = bytes "Hello"; lang = [] }

abbrev payloads : List Text
payloads = bytes "Sure" ∷ bytes "ly. Good" ∷ []

abbrev stream : Text
stream = frames payloads ++ (frame k_done_sentinel ++ [])

abbrev as_it_is : Text → Option Text
as_it_is p = some p

payloads_framed : All IsPayload payloads
payloads_framed =
    let r = refl {a = false} in
    (((r, (r, (r, (r, tt)))), r), (((r, (r, (r, (r, (r, (r, (r, (r, tt)))))))), r), tt))

counted : normalised_visible_chars (bytes " a b ") ≡ 2
unfolding normalised_visible_chars
counted = refl

answer_published_example :
    seen
      (run_one (some 5) 9 as_it_is (streamed stream [] true 200) question (manager_with 2)).actions
    ≡ llm_started 5
      ∷ llm_sentence 5 0 (bytes "Surely.") (bytes "en")
      ∷ llm_sentence 5 1 (bytes "Good") (bytes "en")
      ∷ llm_finished (finished_event 5 false 2)
      ∷ []
unfolding context flush push_all push_char sentence_splitter
answer_published_example =
    answer_published (some 5) 9 as_it_is question (manager_with 2) payloads [] stream [] true 200
      (omega arith) (omega arith) payloads_framed (append-nil stream)

answer_remembered_example :
    let m' = run_one (some 5) 9 as_it_is (streamed stream [] true 200) question (manager_with 2) in
    let w' = run (inputs 9 (seen m'.actions)) (turn_writer 7) in
    (w'.in_flight 5 ≡ none)
    × (texts : List Text) × (l : Text) × (w'.posted ≡ rows 7 false texts l 9 9)
    × (visible (spaced texts) ≡ bytes "Surely.Good")
unfolding context flush push_all push_char sentence_splitter turn_writer
answer_remembered_example =
    answer_remembered (some 5) 9 as_it_is question (manager_with 2) payloads [] stream [] true 200
      (turn_writer 7) (omega arith) (omega arith) refl payloads_framed (append-nil stream)
      (omega arith) refl

abbrev three_sentences : Transfer
three_sentences =
    streamed
      (frames (bytes "Right, sure. That works. And more." ∷ []) ++ (frame k_done_sentinel ++ [])) []
      true 200

answer_capped_example :
    let m' = run_one (some 5) 9 as_it_is three_sentences question (manager_with 1) in
    (texts : List Text) × (c : Bool) × (count : ℕ) × (seen m'.actions
      ≡ llm_started 5 ∷ numbered 5 (bytes "en") 0 texts
        ++ llm_finished (finished_event 5 c count) ∷ [])
    × (length texts ≤ 2)
unfolding context
answer_capped_example =
    answer_capped (some 5) 9 as_it_is three_sentences question (manager_with 1) (omega arith)
      (omega arith) refl

-- A cap of one sentence cancels the stream behind the second one; with nothing heard yet, the memory gets
-- no row.
capped_answer_lost :
    let m' = run_one (some 5) 9 as_it_is three_sentences question (manager_with 1) in
    (seen m'.actions
      ≡ llm_started 5
        ∷ llm_sentence 5 0 (bytes "Right, sure.") (bytes "en")
        ∷ llm_sentence 5 1 (bytes "That works.") (bytes "en")
        ∷ llm_finished (finished_event 5 true 1)
        ∷ [])
    × ((run (inputs 9 (seen m'.actions)) (turn_writer 7)).posted ≡ [])
unfolding run_one run on_finished on_token push_char turn_writer
capped_answer_lost = (refl, refl)
