-- ===== src/Dialogue/BargeIn/Gates.antt =====
-- When the detector fires, how often, and what its firing does to the dialogue machine.
use lclva.Prelude.{
  ℕ, ◌+◌, ◌-◌, ◌/◌, ◌≤◌, ◌<◌, ◌≡◌, ◌≢◌, List, [], ◌∷◌, Option, none, some, Bool, true, not, ◌&&◌,
  ◌||◌, arith, if◌then◌else◌, leb, ◌==◌, u64, Bool-cases, inl, inr, subst, sym, ◌∙◌, if_true,
  if_false,
}
use native.Mathlib.Nat.{le_refl}
use lclva.Float.{Float}
use lclva.Event.Types.{TurnId, k_no_turn, Event, user_interrupted, cancel_generation}
use lclva.Dialogue.Turn.{is_cancelled}
use lclva.Dialogue.Fsm.{State, World, FsmSnapshot, snapshot, is_speaking, on_event}
use lclva.Dialogue.Fsm.Accounting.{busy}
use lclva.Dialogue.Fsm.Interruption.{user_interrupted_cascade}
use lclva.Dialogue.BargeIn.{ApmView, BargeInDetector, on_speech_started}

module _ {fl : Float} where
  -- Echo cancellation is not asked for, done by the system, or running and strong enough.
  abbrev pub converged : BargeInDetector fl → Option (ApmView fl) → Bool
  converged d none = not d.require_aec_converged || d.system_aec_active
  converged d (some apm) =
      not d.require_aec_converged
      || d.system_aec_active
      || (apm.aec_active && fl.ge apm.erle_db d.min_aec_erle_db)

  -- The assistant speaks in a turn that has not been interrupted yet, the cool-down is over, and the
  -- echo is cancelled.
  abbrev pub fires : BargeInDetector fl → Option (ApmView fl) → FsmSnapshot → ℕ → Bool
  fires d apm snap now =
      is_speaking snap.state
      && not (snap.active_turn == k_no_turn)
      && not (d.last_fired_turn == snap.active_turn)
      && leb d.cool_down_after_turn_ms ((now - snap.entered_speaking_at) / 1000000)
      && converged d apm

  -- The detector publishes one interruption of the active turn, calls back and remembers the turn
  -- exactly when the assistant speaks in a turn that it has not interrupted last, the cool-down is
  -- over and echo cancellation is met or not asked for; else it publishes and remembers nothing. A
  -- NaN for the echo return loss counts as not met, and so does a detector without an APM, where the
  -- system does not cancel the echo.
  pub on_speech_started_lem :
      (d : BargeInDetector fl) (apm : Option (ApmView fl)) (snap : FsmSnapshot) (now : ℕ)
      → let d' = on_speech_started d apm snap now in
        let b = fires d apm snap now in
        (d'.published
          ≡ (if b then user_interrupted snap.active_turn now ∷ d.published else d.published))
        × (d'.fired ≡ (if b then (snap.active_turn, now) ∷ d.fired else d.fired))
        × (d'.last_fired_turn ≡ (if b then snap.active_turn else d.last_fired_turn))
        × (d'.fires_total ≡ (if b then u64 (d.fires_total + 1) else d.fires_total))
        × (d'.cfg ≡ d.cfg)
  unfolding on_speech_started
  on_speech_started_lem d none snap now =
      (ground arith, ground arith, ground arith, ground arith, ground arith)
  on_speech_started_lem d (some apm) snap now =
      let nan = fl.ge-nan apm.erle_db d.min_aec_erle_db in
      (
        ground (arith, nan),
        ground (arith, nan),
        ground (arith, nan),
        ground (arith, nan),
        ground arith,
      )

-- A `SpeechStarted` as the detector meets it: the canceller, the snapshot and the time.
abbrev pub Moment : Float → Type 0
Moment fl = Option (ApmView fl) × FsmSnapshot × ℕ

-- The turns of the interruptions fall strictly along the publications, latest first, from `n` on.
abbrev pub Below : TurnId → List Event → Type 0
Below n [] = Unit
Below n (user_interrupted turn ts ∷ es) = (turn < n) × Below turn es
Below n (_ ∷ es) = ⊥

-- So too, and the latest is the remembered turn, at most `n`.
abbrev pub Latest : TurnId → TurnId → List Event → Type 0
Latest n last [] = last ≡ k_no_turn
Latest n last (user_interrupted turn ts ∷ es) = (last ≡ turn) × (turn ≤ n) × Below turn es
Latest n last (_ ∷ es) = ⊥

Latest-Below :
    (n last turn : ℕ) (es : List Event)
    → n ≤ turn
    → turn ≢ k_no_turn
    → last ≢ turn
    → Latest n last es
    → Below turn es
Latest-Below n last turn [] h z ne l = tt
Latest-Below n last turn (user_interrupted t ts ∷ es) h z ne l = (omega arith, l.2)
Latest-Below n last turn (_ ∷ es) h z ne l = absurd l

Latest-mono : (n m last : ℕ) (es : List Event) → n ≤ m → Latest n last es → Latest m last es
Latest-mono n m last [] h l = l
Latest-mono n m last (user_interrupted t ts ∷ es) h l = (l.0, omega arith, l.2)
Latest-mono n m last (_ ∷ es) h l = l

module _ {fl : Float} where
  unfoldable pub run : BargeInDetector fl → List (Moment fl) → BargeInDetector fl
  run d [] = d
  run d ((apm, snap, now) ∷ ms) = run (on_speech_started d apm snap now) ms

  -- The active turn never goes back.
  abbrev pub Advances : TurnId → List (Moment fl) → Type 0
  Advances n [] = Unit
  Advances n ((apm, snap, now) ∷ ms) = (n ≤ snap.active_turn) × Advances snap.active_turn ms

  gate_no_turn :
      (d : BargeInDetector fl) (apm : Option (ApmView fl)) (snap : FsmSnapshot) (now : ℕ)
      → fires d apm snap now ≡ true
      → snap.active_turn ≢ k_no_turn
  gate_no_turn d apm snap now b = ground arith

  gate_last :
      (d : BargeInDetector fl) (apm : Option (ApmView fl)) (snap : FsmSnapshot) (now : ℕ)
      → fires d apm snap now ≡ true
      → d.last_fired_turn ≢ snap.active_turn
  gate_last d apm snap now b = ground arith

  -- A turn that was interrupted last is not looked at again.
  silent_again :
      (d : BargeInDetector fl) (apm : Option (ApmView fl)) (snap : FsmSnapshot) (now : ℕ)
      → d.last_fired_turn ≡ snap.active_turn
      → on_speech_started d apm snap now ≡ d
  unfolding on_speech_started
  silent_again d apm snap now e = ground arith

  step-Latest :
      (d : BargeInDetector fl) (apm : Option (ApmView fl)) (snap : FsmSnapshot) (now n : ℕ)
      → n ≤ snap.active_turn
      → Latest n d.last_fired_turn d.published
      → let d' = on_speech_started d apm snap now in
        Latest snap.active_turn d'.last_fired_turn d'.published
  step-Latest d apm snap now n h l =
      let s = on_speech_started_lem d apm snap now in
      let f = fires d apm snap now in
      let last = (on_speech_started d apm snap now).last_fired_turn in
      elim (Bool-cases f) [
        | inl b ↦ subst (Latest snap.active_turn last) (sym (s.0 ∙ if_true f _ _ b)) (
          s.2 ∙ if_true f _ _ b,
          le_refl snap.active_turn,
          Latest-Below n d.last_fired_turn snap.active_turn d.published h
              (gate_no_turn d apm snap now b) (gate_last d apm snap now b) l,
        )
        | inr b ↦ subst (Latest snap.active_turn last) (sym (s.0 ∙ if_false f _ _ b)) (
            subst (λ (t : ℕ). Latest snap.active_turn t d.published) (sym (s.2 ∙ if_false f _ _ b))
              (Latest-mono n snap.active_turn d.last_fired_turn d.published h l))
      ]

  -- While the active turn only grows, no turn is interrupted twice: from a detector that has fired
  -- for nothing, the interruptions published over any moments are of strictly growing turns.
  pub interrupts_once :
      (d : BargeInDetector fl) (ms : List (Moment fl)) (n : ℕ)
      → Advances n ms
      → Latest n d.last_fired_turn d.published
      → (m : ℕ) × Latest m (run d ms).last_fired_turn (run d ms).published
  unfolding run
  interrupts_once d [] n a l = (n, l)
  interrupts_once d ((apm, snap, now) ∷ ms) n a l =
      interrupts_once (on_speech_started d apm snap now) ms snap.active_turn a.1
        (step-Latest d apm snap now n a.0 l)

  -- Each suppressed moment is counted once in the total and once under its cause.
  pub suppressed_counted :
      (d : BargeInDetector fl) (ms : List (Moment fl))
      → u64 d.suppressed_total ≡ u64 (d.suppressed_cooldown + d.suppressed_aec)
      → let d' = run d ms in
        u64 d'.suppressed_total ≡ u64 (d'.suppressed_cooldown + d'.suppressed_aec)
  unfolding run on_speech_started
  suppressed_counted d [] e = e
  suppressed_counted d ((none, snap, now) ∷ ms) e =
      suppressed_counted (on_speech_started d none snap now) ms (ground arith)
  suppressed_counted d ((some apm, snap, now) ∷ ms) e =
      suppressed_counted (on_speech_started d (some apm) snap now) ms (ground arith)

  -- A barge-in from end to end: where the gates are open on the machine's own snapshot, the event that
  -- the detector publishes makes the machine cancel the token of the turn being spoken, ask for its
  -- generation to be cancelled and listen again; the detector then stays silent for that turn.
  pub barge_in_cancels :
      (d : BargeInDetector fl) (apm apm' : Option (ApmView fl)) (w : World) (now t now' : ℕ)
      → fires d apm (snapshot w.fsm) now ≡ true
      → let d' = on_speech_started d apm (snapshot w.fsm) now in
        let w' = on_event (user_interrupted w.active.id now) t w in
        (d'.published ≡ user_interrupted w.active.id now ∷ d.published)
        × (is_cancelled w'.tokens w.active ≡ true)
        × (w'.published ≡ cancel_generation w.active.id ∷ w.published)
        × (w'.state ≡ State.listening)
        × (on_speech_started d' apm' (snapshot w.fsm) now' ≡ d')
  unfolding snapshot
  barge_in_cancels d apm apm' w now t now' h =
      let s = on_speech_started_lem d apm (snapshot w.fsm) now in
      let b : busy w.state ≡ 1 = ground arith in
      let c = user_interrupted_cascade w w.active.id now t b in
      (
        s.0 ∙ if_true (fires d apm (snapshot w.fsm) now) _ _ h,
        c.0,
        c.2,
        c.3,
        silent_again (on_speech_started d apm (snapshot w.fsm) now) apm' (snapshot w.fsm) now'
            (s.2 ∙ if_true (fires d apm (snapshot w.fsm) now) _ _ h),
      )
