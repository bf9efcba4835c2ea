-- ===== src/Audio/HalfDuplexGate/Tests.antt =====
-- The gate over a few calls and over the changes of a dialogue machine.
use lclva.Prelude.{ℕ, ◌-◌, ◌≡◌, refl, List, [], ◌∷◌, Bool, true, false, arith}
use lclva.Dialogue.Fsm.{State}
use lclva.Dialogue.Fsm.Accounting.{Leads}
use lclva.Audio.HalfDuplexGate.{half_duplex_gate, set_speaking, should_drop_now}
use lclva.Audio.HalfDuplexGate.Drops.{
  calls_of, dropped, should_drop_now_lem, observed_by, gate_follows_fsm,
}

-- On at 1 ms, off at 5 ms, and off again at 9 ms.
abbrev calls : List (Bool × ℕ)
calls = (false, 9000000) ∷ (false, 5000000) ∷ (true, 1000000) ∷ []

drops_in_hangover : should_drop_now (calls_of 10 calls) 14999999 ≡ true
unfolding calls_of set_speaking should_drop_now half_duplex_gate
drops_in_hangover = refl

passes_behind_it : should_drop_now (calls_of 10 calls) 15000000 ≡ false
unfolding calls_of set_speaking should_drop_now half_duplex_gate
passes_behind_it = refl

tail_dropped : should_drop_now (calls_of 10 calls) 14000000 ≡ dropped 10 calls 14000000
tail_dropped = should_drop_now_lem 10 calls 14000000

abbrev changes : List (State × State)
changes =
    (State.thinking, State.speaking)
    ∷ (State.transcribing, State.thinking)
    ∷ (State.user_speaking, State.transcribing)
    ∷ (State.listening, State.user_speaking)
    ∷ (State.idle, State.listening)
    ∷ []

changes-Leads : Leads changes State.speaking
changes-Leads = ground arith

gate_follows_fsm_example : (observed_by (half_duplex_gate 10) changes (λ n. 90 - n)).speaking ≡ true
gate_follows_fsm_example = gate_follows_fsm 10 changes State.speaking (λ n. 90 - n) changes-Leads
