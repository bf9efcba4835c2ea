-- ===== src/Dialogue/Fsm/Interruption.antt =====
-- The cancellation cascade of a barge-in, and what it leaves behind.
use lclva.Prelude.{
  ℕ, ◌+◌, ◌^◌, ◌<◌, ◌≡◌, ◌≢◌, ◌⊎◌, [], ◌∷◌, some, true, false, arith, u64, if◌then◌else◌, leb,
}
use lclva.Event.Types.{
  speech_started, speech_ended, final_transcript, playback_finished, user_interrupted,
  cancel_generation,
}
use lclva.Dialogue.Turn.{is_cancelled}
use lclva.Dialogue.Fsm.{State, Label, World, on_event, run}
use lclva.Dialogue.Fsm.Accounting.{busy}

-- An interruption of a turn under way cancels the token of that turn and no other token, asks once for
-- the generation of that turn to be cancelled, counts the turn as interrupted if a sentence of it has
-- been played and as discarded if not, and goes back to listening.
pub user_interrupted_cascade :
    (w : World) (turn ts now : ℕ)
    → busy w.state ≡ 1
    → let w' = on_event (user_interrupted turn ts) now w in
      (is_cancelled w'.tokens w.active ≡ true)
      × ((a : ℕ) → w.active.token ≢ some a → w'.tokens.cancelled a ≡ w.tokens.cancelled a)
      × (w'.published ≡ cancel_generation w.active.id ∷ w.published)
      × (w'.state ≡ State.listening)
      × (w'.outcomes
          ≡ (if leb 1 w.sentences_played then Label.interrupted else Label.discarded) ∷ w.outcomes)
      × (w'.turns_interrupted ≡ (
          if leb 1 w.sentences_played then u64 (w.turns_interrupted + 1) else w.turns_interrupted))
      × (w'.turns_discarded
          ≡ (if leb 1 w.sentences_played then w.turns_discarded else u64 (w.turns_discarded + 1)))
      × (w'.turns_completed ≡ w.turns_completed)
unfolding on_event is_cancelled
user_interrupted_cascade w turn ts now h = (
  ground arith,
  λ a ne. ground arith,
  ground arith,
  ground arith,
  ground arith,
  ground arith,
  ground arith,
  ground arith,
)

-- With no turn under way an interruption changes nothing.
pub user_interrupted_idle :
    (w : World) (turn ts now : ℕ)
    → (w.state ≡ State.listening) ⊎ (w.state ≡ State.idle)
    → on_event (user_interrupted turn ts) now w ≡ w
unfolding on_event
user_interrupted_idle w turn ts now h = ground arith

-- The utterance that barges in is not taken up: a `SpeechStarted` while the machine speaks is dropped,
-- the interruption that it causes leads to listening, and the end and the transcript of the utterance
-- find no turn. No turn is minted, the active turn is still the one that was interrupted, and the
-- machine only listens.
pub barge_in_utterance_dropped :
    (w : World) (turn t₀ t₁ t₂ t₃ : ℕ)
    → w.state ≡ State.speaking
    → let w' = run w (
        (speech_started turn t₀, t₀)
        ∷ (user_interrupted w.active.id t₁, t₁)
        ∷ (speech_ended turn t₂, t₂)
        ∷ (final_transcript turn, t₃)
        ∷ []) in
      (w'.state ≡ State.listening) × (w'.turns ≡ w.turns) × (w'.active ≡ w.active)
unfolding run on_event
barge_in_utterance_dropped w turn t₀ t₁ t₂ t₃ h = ground arith

-- After an interruption the next `SpeechStarted` starts a turn with a greater id and a token of its
-- own, which is not cancelled while the old one stays cancelled; playback of the old turn is then
-- ignored.
pub next_turn_fresh :
    (w : World) (a turn ts t₀ t₁ t₂ seq : ℕ)
    → busy w.state ≡ 1
    → w.active.token ≡ some a
    → a < w.tokens.count
    → w.active.id < w.turns.next
    → w.turns.next + 1 < 2 ^ 64
    → let w₁ = on_event (user_interrupted turn ts) t₀ w in
      let w₂ = on_event (speech_started 0 t₁) t₁ w₁ in
      (w₂.state ≡ State.user_speaking)
      × (w.active.id < w₂.active.id)
      × (w₂.active.id < w₂.turns.next)
      × (is_cancelled w₂.tokens w₂.active ≡ false)
      × (is_cancelled w₂.tokens w.active ≡ true)
      × (on_event (playback_finished w.active.id seq) t₂ w₂ ≡ w₂)
unfolding on_event is_cancelled
next_turn_fresh w a turn ts t₀ t₁ t₂ seq b k lt id room =
    (ground arith, ground arith, ground arith, ground arith, ground arith, ground arith)
