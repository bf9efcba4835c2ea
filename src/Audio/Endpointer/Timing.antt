-- ===== src/Audio/Endpointer/Timing.antt =====
-- How long the endpointer waits: the counters in each state, and that a hangover ends.
use lclva.Prelude.{
  ℕ, subst, sym, ap, ◌∙◌, ◌⊎◌, inl, inr, ◌+◌, ◌≤◌, ◌<◌, ◌≡◌, refl, List, [], ◌∷◌, Bool, true, false,
  ◌||◌, arith, All,
}
use lclva.Float.{Float}
use lclva.Audio.Endpointer.{
  onset, speaking, endpoint, FrameOutcome, speech_ended, EndpointerConfig, Endpointer, Op, frame,
  force, above_onset, endpointer, reset, on_frame, step, run,
}
use lclva.Audio.Endpointer.Outcomes.{in_speech}

-- The counters between two calls: an open utterance has lasted for the minimum, quiet time is
-- counted only in a hangover, and a hangover that still waits has not run out.
module _ {fl : Float} where
  pub record IsValid (e : Endpointer fl) : Type 0 where
    pub matured : in_speech e.state ≡ true → e.min_speech_ms ≤ e.speech_dur
    pub no_quiet : e.state ≡ speaking → e.quiet_dur ≡ 0
    pub onset_no_quiet : e.state ≡ onset → e.quiet_dur ≡ 0
    pub hanging : e.state ≡ endpoint → e.quiet_dur < e.hangover_ms

-- Frames shorter than the hangover.
abbrev pub IsShort : {fl : Float} → ℕ → Op fl → Type 0
IsShort h (frame p d t) = d < h
IsShort h (force now) = Unit

module _ {fl : Float} where
  endpointer-IsValid : (c : EndpointerConfig fl) (rate : ℕ) → IsValid (endpointer c rate)
  unfolding endpointer
  endpointer-IsValid c rate = ground arith

  reset-IsValid : (e : Endpointer fl) → IsValid (reset e)
  unfolding reset
  reset-IsValid e = ground arith

  pub step-IsValid :
      (e : Endpointer fl) (op : Op fl)
      → IsShort e.hangover_ms op
      → IsValid e
      → IsValid (step e op).0
  unfolding step
  step-IsValid e (frame p d t) h v = ground arith
  step-IsValid e (force now) h v = ground arith

  cfg-step : (e : Endpointer fl) (op : Op fl) → (step e op).0.cfg ≡ e.cfg
  unfolding step
  cfg-step e (frame p d t) = ground arith
  cfg-step e (force now) = ground arith

  -- From a valid state, frames shorter than the hangover and forced endpoints keep the counters
  -- valid, and the configuration never changes.
  pub run-IsValid :
      (e : Endpointer fl) (ops : List (Op fl))
      → All (IsShort e.hangover_ms) ops
      → IsValid e
      → IsValid (run e ops).0 × ((run e ops).0.cfg ≡ e.cfg)
  unfolding run
  run-IsValid e [] h v = (v, refl)
  run-IsValid e (op ∷ ops) h v =
      let c = cfg-step e op in
      let rest =
        run-IsValid (step e op).0 ops
          (subst (λ (k : EndpointerConfig fl). All (IsShort k.hangover_ms) ops) (sym c) h.1)
          (step-IsValid e op h.0 v) in
      (rest.0, rest.1 ∙ c)

-- A frame below the onset threshold.
abbrev pub IsBelow : {fl : Float} → EndpointerConfig fl → Op fl → Type 0
IsBelow {fl} c (frame p d t) = fl.ge p c.onset_threshold ≡ false
IsBelow c (force now) = ⊥

abbrev pub duration : {fl : Float} → Op fl → ℕ
duration (frame p d t) = d
duration (force now) = 0

abbrev pub total : {fl : Float} → List (Op fl) → ℕ
total [] = 0
total (op ∷ ops) = duration op + total ops

abbrev pub ended : FrameOutcome → Bool
ended speech_ended = true
ended _ = false

-- The utterance was closed somewhere in a list of outcomes.
abbrev pub ends : List FrameOutcome → Bool
ends [] = false
ends (o ∷ os) = ended o || ends os

or_true : (a : Bool) {b : Bool} → b ≡ true → (a || b) ≡ true
or_true a h = ground arith

module _ {fl : Float} where
  -- One more frame of a hangover: it ends the utterance or goes on counting.
  hang_cases :
      (e : Endpointer fl) (p : fl.F) (d t : ℕ)
      → e.state ≡ endpoint
      → above_onset e p ≡ false
      → let r = on_frame e p d t in
        (r.1 ≡ speech_ended)
        ⊎ ((r.0.state ≡ endpoint)
            × (r.0.quiet_dur ≡ e.quiet_dur + d)
            × (r.0.quiet_dur < e.hangover_ms)
            × (r.0.cfg ≡ e.cfg))
  unfolding on_frame
  hang_cases e p d t s a = ground arith

  -- Once in the hangover, frames below the onset threshold whose durations add up to what is left
  -- of it close the utterance, whichever of the two lower bands they fall in.
  pub hangover_ends :
      (e : Endpointer fl) (op : Op fl) (ops : List (Op fl))
      → e.state ≡ endpoint
      → All (IsBelow e.cfg) (op ∷ ops)
      → e.hangover_ms ≤ e.quiet_dur + total (op ∷ ops)
      → ends (run e (op ∷ ops)).1 ≡ true
  unfolding run step
  hangover_ends e (force now) ops s b h = absurd b.0
  hangover_ends e (frame p d t) [] s b h = elim (hang_cases e p d t s b.0) [
    | inl o ↦ rw o
    | inr k ↦ absurd (omega arith)
  ]
  hangover_ends e (frame p d t) (op' ∷ ops) s b h = elim (hang_cases e p d t s b.0) [
    | inl o ↦ rw o
    | inr k ↦
        let rest =
          hangover_ends (on_frame e p d t).0 op' ops k.0
            (subst (λ (c : EndpointerConfig fl). All (λ (o : Op fl). IsBelow c o) (op' ∷ ops))
              (sym k.3) b.1)
            (omega (arith, ap (λ (c : EndpointerConfig fl). c.hangover_ms) k.3)) in
        or_true _ rest
  ]
