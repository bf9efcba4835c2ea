-- ===== src/Dialogue/Fsm/Tests.antt =====
-- Conversations, from the first event to the last.
use lclva.Prelude.{ℕ, ◌<◌, ◌≡◌, ◌⊎◌, inl, refl, List, [], ◌∷◌, some, true, false, arith}
use lclva.Event.Types.{
  Event, speech_started, speech_ended, final_transcript, llm_sentence, llm_finished,
  playback_finished, user_interrupted, cancel_generation,
}
use lclva.Dialogue.Turn.{TurnFactory, TokenStore, is_cancelled}
use lclva.Dialogue.Fsm.{State, TurnOutcome, World, initial, start, on_event, run}
use lclva.Dialogue.Fsm.Accounting.{Inv, fresh, run_accounts}
use lclva.Dialogue.Fsm.Completion.{Plays, over, sentence, finish, playback, Done, turn_completes}
use lclva.Dialogue.Fsm.Interruption.{
  user_interrupted_cascade, user_interrupted_idle, barge_in_utterance_dropped, next_turn_fresh,
}
use lclva.Dialogue.Fsm.Stale.{stale_sentence_strands}

abbrev first_ids : TurnFactory
first_ids = record { next = 1 }

abbrev no_tokens : TokenStore
no_tokens = record { count = 0; cancelled = λ a. false }

abbrev hello : List (Event × ℕ)
hello =
    (speech_started 0 5, 5)
    ∷ (speech_ended 0 9, 9)
    ∷ (final_transcript 1, 12)
    ∷ (llm_sentence 1 0, 20)
    ∷ []

abbrev answer : List (Event × ℕ)
answer =
    (llm_sentence 1 0, 20)
    ∷ (playback_finished 1 0, 24)
    ∷ (llm_sentence 1 1, 25)
    ∷ (llm_finished 1 false 9, 26)
    ∷ (playback_finished 1 1, 30)
    ∷ []

answer_plays : Plays 1 0 0 false answer
answer_plays = sentence 0 20 (
    playback 0 24 (omega arith)
      (sentence 1 25 (finish false 9 26 (playback 1 30 (omega arith) over))))

-- In `thinking`, with turn 1 active and its token at address 0.
abbrev thinking_world : World
thinking_world = record {
  fsm = record initial {
    state = State.thinking;
    active = record { id = 1; token = some 0; started_at = 5 };
    outcome = TurnOutcome.generating;
  };
  turns = record { next = 2 };
  tokens = record { count = 1; cancelled = λ a. false };
  published = [];
  outcomes = [];
  observed = [];
}

abbrev speaking_world : World
speaking_world = record thinking_world {
  fsm = record (thinking_world.fsm) {
    state = State.speaking;
    sentences_received = 1;
    outcome = TurnOutcome.speaking;
  };
}

abbrev user_world : World
user_world = record thinking_world {
  fsm = record (thinking_world.fsm) { state = State.user_speaking };
}

hello_speaks : (run (start 0 (fresh first_ids no_tokens)) hello).state ≡ State.speaking
unfolding run start on_event
hello_speaks = refl

run_accounts_example : Inv (run (start 0 (fresh first_ids no_tokens)) hello)
run_accounts_example = run_accounts first_ids no_tokens 0 hello

turn_completes_example : Done 0 (run thinking_world answer)
turn_completes_example =
    turn_completes thinking_world answer_plays refl refl refl refl refl (omega arith)

stale_sentence_strands_example :
    let w' =
      run user_world
        ((llm_sentence 7 0, 6) ∷ (speech_ended 1 9, 9) ∷ (final_transcript 1, 12) ∷ answer) in
    ((w'.state ≡ State.thinking) ⊎ (w'.state ≡ State.speaking)) × (w'.turns_completed ≡ 0)
stale_sentence_strands_example =
    stale_sentence_strands user_world 7 0 6 9 12 (omega arith) refl refl refl refl refl answer_plays
      (omega arith)

user_interrupted_cascade_example :
    (on_event (user_interrupted 1 40) 41 speaking_world).published ≡ cancel_generation 1 ∷ []
user_interrupted_cascade_example = (user_interrupted_cascade speaking_world 1 40 41 refl).2

user_interrupted_idle_example :
    on_event (user_interrupted 1 40) 41 (start 0 (fresh first_ids no_tokens))
    ≡ start 0 (fresh first_ids no_tokens)
unfolding start
user_interrupted_idle_example =
    user_interrupted_idle (start 0 (fresh first_ids no_tokens)) 1 40 41 (inl refl)

barge_in_utterance_dropped_example :
    let w' = run speaking_world (
      (speech_started 0 40, 40)
      ∷ (user_interrupted 1 41, 41)
      ∷ (speech_ended 0 50, 50)
      ∷ (final_transcript 0, 51)
      ∷ []) in
    (w'.state ≡ State.listening)
    × (w'.turns ≡ speaking_world.turns)
    × (w'.active ≡ speaking_world.active)
barge_in_utterance_dropped_example = barge_in_utterance_dropped speaking_world 0 40 41 50 51 refl

next_turn_fresh_example :
    let w₁ = on_event (user_interrupted 1 40) 41 speaking_world in
    let w₂ = on_event (speech_started 0 60) 60 w₁ in
    (w₂.state ≡ State.user_speaking)
    × (1 < w₂.active.id)
    × (w₂.active.id < w₂.turns.next)
    × (is_cancelled w₂.tokens w₂.active ≡ false)
    × (is_cancelled w₂.tokens speaking_world.active ≡ true)
    × (on_event (playback_finished 1 0) 70 w₂ ≡ w₂)
next_turn_fresh_example =
    next_turn_fresh speaking_world 0 1 40 41 60 70 0 refl refl (omega arith) (omega arith)
      (omega arith)
