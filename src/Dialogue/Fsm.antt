-- ===== src/Dialogue/Fsm.antt =====
-- src/dialogue/fsm.hpp and fsm.cpp: the dialogue state machine. Its bus subscription serves one event
-- at a time, so a handler is one function of the state; what it does to others is in the `World`: the
-- turn factory and the tokens that it shares, what it publishes, and the calls of its two observers,
-- the latest first. Log lines are left out.
pub mod Accounting
pub mod Completion
pub mod Interruption
pub mod Stale
mod Tests
use lclva.Prelude.{
  ℕ, ◌+◌, List, [], ◌∷◌, Option, none, some, Bool, true, false, not, ◌&&◌, ◌||◌, if◌then◌else◌,
  ◌==◌, leb, u32, u64,
}
use lclva.Event.Types.{
  TurnId, k_no_turn, Event, speech_started, speech_ended, final_transcript, llm_sentence,
  llm_finished, playback_finished, user_interrupted, cancel_generation,
}
use lclva.Dialogue.Turn.{TurnContext, no_context, TurnFactory, TokenStore, mint, cancel}

pub data State : Type 0 where
  idle listening user_speaking transcribing thinking speaking completed interrupted : State

pub data TurnOutcome : Type 0 where
  not_started generating speaking interrupted completed discarded : TurnOutcome

pub State-discrete : Discrete State
State-discrete = hlevel

abbrev pub same_state : State → State → Bool
same_state State.idle State.idle = true
same_state State.listening State.listening = true
same_state State.user_speaking State.user_speaking = true
same_state State.transcribing State.transcribing = true
same_state State.thinking State.thinking = true
same_state State.speaking State.speaking = true
same_state State.completed State.completed = true
same_state State.interrupted State.interrupted = true
same_state _ _ = false

abbrev pub is_speaking : State → Bool
is_speaking State.speaking = true
is_speaking _ = false

-- The argument of the outcome observer.
pub data Label : Type 0 where
  completed interrupted discarded : Label

pub record Fsm : Type 0 where
  pub state : State
  pub active : TurnContext
  pub outcome : TurnOutcome
  pub sentences_played : ℕ  -- std::uint32_t
  pub sentences_received : ℕ  -- std::uint32_t
  pub llm_finished_seen : Bool
  pub turns_completed : ℕ  -- std::uint64_t
  pub turns_interrupted : ℕ  -- std::uint64_t
  pub turns_discarded : ℕ  -- std::uint64_t
  pub entered_speaking_at : ℕ

pub record World : Type 0 where
  pub fsm : Fsm
  pub open fsm use *
  pub turns : TurnFactory
  pub tokens : TokenStore
  pub published : List Event
  pub outcomes : List Label
  pub observed : List (State × State)

-- What `snapshot` shows to others, taken under the lock.
pub record FsmSnapshot : Type 0 where
  pub state : State
  pub active_turn : TurnId
  pub outcome : TurnOutcome
  pub sentences_played : ℕ
  pub turns_completed : ℕ
  pub turns_interrupted : ℕ
  pub turns_discarded : ℕ
  pub entered_speaking_at : ℕ

unfoldable pub snapshot : Fsm → FsmSnapshot
snapshot f = record {
  state = f.state;
  active_turn = f.active.id;
  outcome = f.outcome;
  sentences_played = f.sentences_played;
  turns_completed = f.turns_completed;
  turns_interrupted = f.turns_interrupted;
  turns_discarded = f.turns_discarded;
  entered_speaking_at = f.entered_speaking_at;
}

-- The machine as it is constructed.
abbrev pub initial : Fsm
initial = record {
  state = State.idle;
  active = no_context;
  outcome = TurnOutcome.not_started;
  sentences_played = 0;
  sentences_received = 0;
  llm_finished_seen = false;
  turns_completed = 0;
  turns_interrupted = 0;
  turns_discarded = 0;
  entered_speaking_at = 0;
}

-- The state observer is called on a change only.
unfoldable pub transition : ℕ → State → World → World
transition now next w =
    let prev = w.state in
    let at = if not (is_speaking prev) && is_speaking next then now else w.entered_speaking_at in
    record w {
      fsm = record (w.fsm) { state = next; entered_speaking_at = at };
      observed = if same_state prev next then w.observed else (prev, next) ∷ w.observed;
    }

-- The first call of `start`; the subscription is the list of events that `run` gets.
unfoldable pub start : ℕ → World → World
unfolding transition
start now w = transition now State.listening w

unfoldable pub handle_speech_started : ℕ → World → World
unfolding transition mint
handle_speech_started now w =
    if same_state w.state State.listening
      || same_state w.state State.completed
      || same_state w.state State.interrupted
    then (let (ctx, turns', tokens') = mint w.turns w.tokens now in
        transition now State.user_speaking (record w {
          fsm = record (w.fsm) {
            active = ctx;
            outcome = TurnOutcome.not_started;
            sentences_played = 0;
            sentences_received = 0;
            llm_finished_seen = false;
          };
          turns = turns';
          tokens = tokens';
        }))
    else w

unfoldable pub handle_speech_ended : ℕ → World → World
unfolding transition
handle_speech_ended now w =
    if same_state w.state State.user_speaking then transition now State.transcribing w else w

unfoldable pub handle_final_transcript : ℕ → World → World
unfolding transition
handle_final_transcript now w =
    if same_state w.state State.transcribing
    then transition now State.thinking
        (record w { fsm = record (w.fsm) { outcome = TurnOutcome.generating } })
    else w

-- The turn of the sentence is not looked at.
unfoldable pub handle_llm_sentence : ℕ → World → World
unfolding transition
handle_llm_sentence now w =
    let received = u32 (w.sentences_received + 1) in
    if same_state w.state State.thinking
    then transition now State.speaking (record w {
      fsm = record (w.fsm) { sentences_received = received; outcome = TurnOutcome.speaking };
    })
    else record w { fsm = record (w.fsm) { sentences_received = received } }

-- `outcome_ = Completed; ++turns_completed_;`, the observer's call and the two transitions.
complete : ℕ → World → World
unfolding transition
complete now w = transition now State.listening (
    transition now State.completed (record w {
      fsm = record (w.fsm) {
        outcome = TurnOutcome.completed;
        turns_completed = u64 (w.turns_completed + 1);
      };
      outcomes = Label.completed ∷ w.outcomes;
    }))

-- Nor is the turn of the end of the stream.
unfoldable pub handle_llm_finished : ℕ → World → World
unfolding complete
handle_llm_finished now w =
    let w' = record w { fsm = record (w.fsm) { llm_finished_seen = true } } in
    if (same_state w.state State.thinking && w.sentences_received == 0)
      || (same_state w.state State.speaking && w.sentences_played == w.sentences_received)
    then complete now w'
    else w'

unfoldable pub handle_playback_finished : TurnId → ℕ → World → World
unfolding complete
handle_playback_finished turn now w =
    if not (turn == w.active.id)
    then w
    else (let played = u32 (w.sentences_played + 1) in
        let w' = record w { fsm = record (w.fsm) { sentences_played = played } } in
        if same_state w.state State.speaking
          && w.llm_finished_seen
          && played == w.sentences_received
        then complete now w'
        else w')

-- `if (old.token) old.token->cancel();`
abbrev cancel_token : Option ℕ → TokenStore → TokenStore
cancel_token none s = s
cancel_token (some a) s = cancel a s

-- The count and the label of an interrupted turn: interrupted once a sentence has been played.
settle : World → World
settle w =
    if leb 1 w.sentences_played
    then record w {
      fsm = record (w.fsm) {
        outcome = TurnOutcome.interrupted;
        turns_interrupted = u64 (w.turns_interrupted + 1);
      };
      outcomes = Label.interrupted ∷ w.outcomes;
    }
    else record w {
      fsm = record (w.fsm) {
        outcome = TurnOutcome.discarded;
        turns_discarded = u64 (w.turns_discarded + 1);
      };
      outcomes = Label.discarded ∷ w.outcomes;
    }

unfoldable pub handle_user_interrupted : ℕ → World → World
unfolding transition cancel settle
handle_user_interrupted now w =
    if same_state w.state State.listening || same_state w.state State.idle
    then w
    else transition now State.listening (
        transition now State.interrupted (
          settle (record w {
            tokens = cancel_token w.active.token w.tokens;
            published = cancel_generation w.active.id ∷ w.published;
          })))

unfoldable pub on_event : Event → ℕ → World → World
unfolding handle_speech_started handle_speech_ended handle_final_transcript handle_llm_sentence
    handle_llm_finished handle_playback_finished handle_user_interrupted
on_event (speech_started turn ts) now w = handle_speech_started now w
on_event (speech_ended turn ts) now w = handle_speech_ended now w
on_event (final_transcript turn) now w = handle_final_transcript now w
on_event (llm_sentence turn seq) now w = handle_llm_sentence now w
on_event (llm_finished turn cancelled tokens) now w = handle_llm_finished now w
on_event (playback_finished turn seq) now w = handle_playback_finished turn now w
on_event (user_interrupted turn ts) now w = handle_user_interrupted now w
on_event _ now w = w

-- The subscription's worker: the events of its queue in order, each with the time of its handling.
unfoldable pub run : World → List (Event × ℕ) → World
run w [] = w
run w ((e, now) ∷ es) = run (on_event e now w) es
