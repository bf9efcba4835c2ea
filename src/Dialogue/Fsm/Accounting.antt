-- ===== src/Dialogue/Fsm/Accounting.antt =====
-- Every turn that starts ends once: the counters, the outcome observer and the state observer agree.
use lclva.Prelude.{ℕ, suc, ◌+◌, ◌≡◌, ◌≢◌, List, [], ◌∷◌, arith, u64, length}
use lclva.Event.Types.{
  Event, speech_started, speech_ended, final_transcript, llm_sentence, llm_finished,
  playback_finished, user_interrupted,
}
use lclva.Dialogue.Turn.{TurnFactory, TokenStore}
use lclva.Dialogue.Fsm.{State, Label, World, start, on_event, run, initial}

-- A turn is under way.
abbrev pub busy : State → ℕ
busy State.user_speaking = 1
busy State.transcribing = 1
busy State.thinking = 1
busy State.speaking = 1
busy _ = 0

-- How many turns the state observer has seen start.
abbrev pub started : List (State × State) → ℕ
started [] = 0
started ((prev, State.user_speaking) ∷ log) = suc (started log)
started ((prev, _) ∷ log) = started log

abbrev pub count : Label → List Label → ℕ
count l [] = 0
count Label.completed (Label.completed ∷ log) = suc (count Label.completed log)
count Label.interrupted (Label.interrupted ∷ log) = suc (count Label.interrupted log)
count Label.discarded (Label.discarded ∷ log) = suc (count Label.discarded log)
count l (_ ∷ log) = count l log

-- What the state observer has been told leads from `idle` to a state, each change to the next.
abbrev pub Leads : List (State × State) → State → Type 0
Leads [] s = s ≡ State.idle
Leads ((prev, next) ∷ log) s = (next ≡ s) × (prev ≢ next) × Leads log prev

-- The books of the machine between two events.
pub record Inv (w : World) : Type 0 where
  pub not_completed : w.state ≢ State.completed
  pub not_interrupted : w.state ≢ State.interrupted
  pub turns_once : started w.observed ≡ length w.outcomes + busy w.state
  pub completed_counted : w.turns_completed ≡ u64 (count Label.completed w.outcomes)
  pub interrupted_counted : w.turns_interrupted ≡ u64 (count Label.interrupted w.outcomes)
  pub discarded_counted : w.turns_discarded ≡ u64 (count Label.discarded w.outcomes)
  pub leads : Leads w.observed w.state

on_event-Inv : (e : Event) (now : ℕ) (w : World) → Inv w → Inv (on_event e now w)
unfolding on_event
on_event-Inv (speech_started turn ts) now w i = ground arith
on_event-Inv (speech_ended turn ts) now w i = ground arith
on_event-Inv (final_transcript turn) now w i = ground arith
on_event-Inv (llm_sentence turn seq) now w i = ground arith
on_event-Inv (llm_finished turn c tokens) now w i = ground arith
on_event-Inv (playback_finished turn seq) now w i = ground arith
on_event-Inv (user_interrupted turn ts) now w i = ground arith
on_event-Inv _ now w i = i

run-Inv : (es : List (Event × ℕ)) (w : World) → Inv w → Inv (run w es)
unfolding run
run-Inv [] w i = i
run-Inv ((e, now) ∷ es) w i = run-Inv es (on_event e now w) (on_event-Inv e now w i)

-- A machine that has not been started, with whatever turns and tokens there are by then.
abbrev pub fresh : TurnFactory → TokenStore → World
fresh turns tokens = record {
  fsm = initial;
  turns = turns;
  tokens = tokens;
  published = [];
  outcomes = [];
  observed = [];
}

-- After `start` and any events at any times: the machine rests in neither transient state, every
-- turn that the state observer saw start has had exactly one outcome or is the one under way, the
-- three counters are the numbers of the outcomes modulo 2 ^ 64, and the observed changes lead from
-- `idle` to the present state without a gap.
pub run_accounts :
    (turns : TurnFactory) (tokens : TokenStore) (t : ℕ) (es : List (Event × ℕ))
    → Inv (run (start t (fresh turns tokens)) es)
unfolding start
run_accounts turns tokens t es = run-Inv es _ (ground arith)
