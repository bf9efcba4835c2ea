-- ===== src/Dialogue/Fsm/Stale.antt =====
-- A sentence of an earlier turn that is counted for the present one.
use lclva.Prelude.{
  ℕ, ◌+◌, ◌<◌, ◌≡◌, ◌≢◌, ◌⊎◌, inr, List, ◌∷◌, Bool, true, false, arith, length, ◌^◌,
}
use lclva.Event.Types.{
  TurnId, Event, speech_ended, final_transcript, llm_sentence, llm_finished, playback_finished,
}
use lclva.Dialogue.Fsm.{State, World, on_event, run}
use lclva.Dialogue.Fsm.Completion.{
  Plays, over, sentence, finish, playback, Live, sentence-Live, finish-Live, playback-Live,
}

-- Where the machine stands when every event of the turn has come.
Plays-Live :
    {turn stale r p : ℕ} {f : Bool} {es : List (Event × ℕ)} (done : ℕ) (w : World)
    → Plays turn r p f es
    → 0 < stale
    → Live turn stale r p f done w
    → stale + r + length es < 2 ^ 32
    → (n : ℕ) × Live turn stale n n true done (run w es)
unfolding run
Plays-Live {r = r} done w over z l b = (r, l)
Plays-Live {turn} {stale} {r} {p} done w (sentence seq now rest) z l b =
    Plays-Live done (on_event (llm_sentence turn seq) now w) rest z
      (sentence-Live turn seq now stale r p done w (omega arith) l) (omega arith)
Plays-Live {turn} {stale} {r} {p} done w (finish c tokens now rest) z l b =
    Plays-Live done (on_event (llm_finished turn c tokens) now w) rest z
      (finish-Live turn tokens now stale r p done c w (omega (arith, l.order)) l) (omega arith)
Plays-Live {turn} {stale} {r} {p} {f} done w (playback seq now lt rest) z l b =
    Plays-Live done (on_event (playback_finished turn seq) now w) rest z
      (playback-Live turn seq now stale r p done f w lt (omega arith) (inr (omega arith)) l)
      (omega arith)

-- A sentence that an earlier turn publishes late, while the user speaks, is counted for the new turn,
-- since its turn is not looked at. Then the new turn is never completed: behind all its own events,
-- in whatever order they come, the machine still thinks or speaks and has counted no completed turn.
pub stale_sentence_strands :
    {turn : TurnId} {es : List (Event × ℕ)} (w : World) (old seq t₀ t₁ t₂ : ℕ)
    → old ≢ turn
    → w.state ≡ State.user_speaking
    → w.active.id ≡ turn
    → w.sentences_received ≡ 0
    → w.sentences_played ≡ 0
    → w.llm_finished_seen ≡ false
    → Plays turn 0 0 false es
    → 1 + length es < 2 ^ 32
    → let w' = run w (
        (llm_sentence old seq, t₀)
        ∷ (speech_ended turn t₁, t₁)
        ∷ (final_transcript turn, t₂)
        ∷ es) in
      ((w'.state ≡ State.thinking) ⊎ (w'.state ≡ State.speaking))
      × (w'.turns_completed ≡ w.turns_completed)
unfolding run on_event
stale_sentence_strands {turn} w old seq t₀ t₁ t₂ ne s a r p f plays b =
    let w₁ = on_event (llm_sentence old seq) t₀ w in
    let w₂ = on_event (speech_ended turn t₁) t₁ w₁ in
    let w₃ = on_event (final_transcript turn) t₂ w₂ in
    let l : Live turn 1 0 0 false w.turns_completed w₃ = ground arith in
    let (n, l') = Plays-Live w.turns_completed w₃ plays (omega arith) l (omega arith) in
    ground (arith, l')
