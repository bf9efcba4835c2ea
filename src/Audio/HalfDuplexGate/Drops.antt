-- ===== src/Audio/HalfDuplexGate/Drops.antt =====
-- When the gate drops samples, told from its calls alone.
use lclva.Prelude.{
  ℕ, ◌+◌, ◌-◌, ◌≡◌, refl, List, [], ◌∷◌, Option, none, some, Bool, true, false, arith,
  if◌then◌else◌, ltb,
}
use lclva.Dialogue.Fsm.{State, is_speaking}
use lclva.Dialogue.Fsm.Accounting.{Leads}
use lclva.Audio.HalfDuplexGate.{
  HalfDuplexGate, half_duplex_gate, set_speaking, should_drop_now, observe, to_ms,
}

-- The calls of `set_speaking` so far, the latest first.
unfoldable pub calls_of : ℕ → List (Bool × ℕ) → HalfDuplexGate
unfolding half_duplex_gate
calls_of hangover [] = half_duplex_gate hangover
calls_of hangover ((active, now) ∷ calls) = set_speaking (calls_of hangover calls) active now

-- The flag of the latest call, and the time of the latest call that turned it off.
abbrev pub is_on : List (Bool × ℕ) → Bool
is_on [] = false
is_on ((active, now) ∷ calls) = active

abbrev pub turned_off : List (Bool × ℕ) → Option ℕ
turned_off [] = none
turned_off ((true, now) ∷ calls) = none
turned_off ((false, now) ∷ calls) = if is_on calls then some now else turned_off calls

-- Dropped while the flag is on, and for less than the hangover since it was last turned off.
abbrev pub dropped : ℕ → List (Bool × ℕ) → ℕ → Bool
dropped hangover calls now =
    if is_on calls
    then true
    else elim (turned_off calls) [ none ↦ false | some t ↦ ltb (to_ms (now - t)) hangover ]

abbrev ends_at : HalfDuplexGate → Option ℕ
ends_at g = if g.in_hangover then some g.ended_at else none

calls_of-fields :
    (hangover : ℕ) (calls : List (Bool × ℕ))
    → let g = calls_of hangover calls in
      (g.speaking ≡ is_on calls) × (ends_at g ≡ turned_off calls) × (g.hangover ≡ hangover)
unfolding calls_of set_speaking
calls_of-fields hangover [] = (refl, refl, refl)
calls_of-fields hangover ((true, now) ∷ calls) = ground (arith, calls_of-fields hangover calls)
calls_of-fields hangover ((false, now) ∷ calls) = ground (arith, calls_of-fields hangover calls)

-- After any calls of `set_speaking`, repeated ones included, the gate drops samples exactly while the
-- flag is on and for less than the hangover since the call that last turned it off; a repeated call
-- moves no edge, and turning the flag on cancels a hangover.
pub should_drop_now_lem :
    (hangover : ℕ) (calls : List (Bool × ℕ)) (now : ℕ)
    → should_drop_now (calls_of hangover calls) now ≡ dropped hangover calls now
unfolding should_drop_now
should_drop_now_lem hangover calls now = ground (arith, calls_of-fields hangover calls)

-- The gate behind the changes that the dialogue machine has reported, the latest first, with the time
-- of each.
unfoldable pub observed_by : HalfDuplexGate → List (State × State) → (ℕ → ℕ) → HalfDuplexGate
observed_by g [] times = g
observed_by g (change ∷ log) times =
    observe (observed_by g log (λ n. times (n + 1))) change (times 0)

-- Wired to the state observer of the dialogue machine, the gate speaks exactly while the machine is in
-- `speaking`, whatever changes it has reported on its way from `idle`.
pub gate_follows_fsm :
    (hangover : ℕ) (log : List (State × State)) (s : State) (times : ℕ → ℕ)
    → Leads log s
    → (observed_by (half_duplex_gate hangover) log times).speaking ≡ is_speaking s
unfolding observed_by observe half_duplex_gate
gate_follows_fsm hangover [] s times l = ground arith
gate_follows_fsm hangover ((prev, next) ∷ log) s times l =
    ground (arith, gate_follows_fsm hangover log prev (λ n. times (n + 1)) l.2)
