-- ===== src/Audio/HalfDuplexGate.antt =====
-- src/audio/half_duplex_gate.hpp: the gate that drops microphone samples while the assistant speaks
-- and for a hangover behind it. `now` is the count of the clock, in nanoseconds; the hangover is in
-- milliseconds. The clock is steady, so a later call has no earlier time.
pub mod Drops
mod Tests
use lclva.Prelude.{
  ℕ, ◌+◌, ◌-◌, ◌/◌, List, [], ◌∷◌, Bool, true, false, not, ◌&&◌, ◌||◌, if◌then◌else◌, ltb,
}
use lclva.Dialogue.Fsm.{State, is_speaking}

pub record HalfDuplexGate : Type 0 where
  pub speaking : Bool
  pub in_hangover : Bool
  pub ended_at : ℕ
  pub hangover : ℕ

unfoldable pub half_duplex_gate : ℕ → HalfDuplexGate
half_duplex_gate hangover = record {
  speaking = false;
  in_hangover = false;
  ended_at = 0;
  hangover = hangover;
}

unfoldable pub set_speaking : HalfDuplexGate → Bool → ℕ → HalfDuplexGate
set_speaking g active now =
    let prev = g.speaking in
    let g' = record g { speaking = active } in
    if prev && not active
    then record g' { ended_at = now; in_hangover = true }
    else if not prev && active
    then record g' { in_hangover = false }
    else g'

-- Nanoseconds to whole milliseconds, as `duration_cast` truncates.
abbrev pub to_ms : ℕ → ℕ
to_ms ns = ns / 1000000

unfoldable pub should_drop_now : HalfDuplexGate → ℕ → Bool
should_drop_now g now =
    if g.speaking
    then true
    else if not g.in_hangover
    then false
    else ltb (to_ms (now - g.ended_at)) g.hangover

-- src/orchestrator/capture_stack.cpp: the state observer that drives the gate.
unfoldable pub observe : HalfDuplexGate → State × State → ℕ → HalfDuplexGate
unfolding set_speaking
observe g (prev, next) now =
    let was = is_speaking prev in
    let is = is_speaking next in
    if (was && not is) || (not was && is) then set_speaking g is now else g
