-- ===== src/Audio/Endpointer/Outcomes.antt =====
-- What each outcome of the endpointer means, and the order in which outcomes come.
use lclva.Prelude.{ℕ, subst, ◌+◌, ◌≤◌, ◌≡◌, ◌↔◌, List, [], ◌∷◌, Bool, true, false, arith}
use lclva.Float.{Float}
use lclva.Audio.Endpointer.{
  EndpointerState, quiet, onset, speaking, endpoint, FrameOutcome, nothing, speech_started,
  false_start, speech_ended, Endpointer, Op, frame, force, above_onset, below_offset, on_frame,
  step, run,
}

-- The states between a `SpeechStarted` and its `SpeechEnded`.
abbrev pub in_speech : EndpointerState → Bool
in_speech quiet = false
in_speech onset = false
in_speech speaking = true
in_speech endpoint = true

-- Starts and ends take turns; a false start comes only between utterances. The flag says whether an
-- utterance is open.
abbrev pub Alternates : Bool → List FrameOutcome → Type 0
Alternates b [] = Unit
Alternates b (nothing ∷ os) = Alternates b os
Alternates false (speech_started ∷ os) = Alternates true os
Alternates false (false_start ∷ os) = Alternates false os
Alternates true (speech_ended ∷ os) = Alternates false os
Alternates false (speech_ended ∷ os) = ⊥
Alternates true (speech_started ∷ os) = ⊥
Alternates true (false_start ∷ os) = ⊥

-- What an outcome says of the flag before and after it.
abbrev Turns : Bool → FrameOutcome → Bool → Type 0
Turns b nothing b' = b' ≡ b
Turns b speech_started b' = (b ≡ false) × (b' ≡ true)
Turns b false_start b' = (b ≡ false) × (b' ≡ false)
Turns b speech_ended b' = (b ≡ true) × (b' ≡ false)

module _ {fl : Float} where
  step-Turns :
      (e : Endpointer fl) (op : Op fl)
      → Turns (in_speech e.state) (step e op).1 (in_speech (step e op).0.state)
  unfolding step
  step-Turns e (frame p d t) = ground arith
  step-Turns e (force now) = ground arith

Alternates-cons :
    (b : Bool) (o : FrameOutcome) (b' : Bool) (os : List FrameOutcome)
    → Turns b o b'
    → Alternates b' os
    → Alternates b (o ∷ os)
Alternates-cons b nothing b' os h a = subst (λ x. Alternates x os) h a
Alternates-cons false speech_started b' os h a = subst (λ x. Alternates x os) h.1 a
Alternates-cons true speech_started b' os h a = cc
Alternates-cons false false_start b' os h a = subst (λ x. Alternates x os) h.1 a
Alternates-cons true false_start b' os h a = cc
Alternates-cons true speech_ended b' os h a = subst (λ x. Alternates x os) h.1 a
Alternates-cons false speech_ended b' os h a = cc

module _ {fl : Float} where
  -- Over every list of frames and forced endpoints, from every state, each `SpeechEnded` answers
  -- one `SpeechStarted`: the two take turns, and a false start comes only outside an utterance.
  pub run-Alternates :
      (e : Endpointer fl) (ops : List (Op fl)) → Alternates (in_speech e.state) (run e ops).1
  unfolding run
  run-Alternates e [] = tt
  run-Alternates e (op ∷ ops) =
      Alternates-cons _ _ _ _ (step-Turns e op) (run-Alternates (step e op).0 ops)

  -- A frame starts speech exactly when a candidate onset is above the threshold again and has then
  -- lasted for the minimum; it is a false start exactly when the candidate falls below the offset
  -- threshold; and it ends speech exactly when the hangover runs out with no frame above the onset.
  pub on_frame_outcomes :
      (e : Endpointer fl) (p : fl.F) (d t : ℕ)
      → let o = (on_frame e p d t).1 in
        ((o ≡ speech_started)
          ↔ ((e.state ≡ onset) × (above_onset e p ≡ true) × (e.min_speech_ms ≤ e.speech_dur + d)))
        × ((o ≡ false_start)
            ↔ ((e.state ≡ onset) × (above_onset e p ≡ false) × (below_offset e p ≡ true)))
        × ((o ≡ speech_ended) ↔ (
            (e.state ≡ endpoint) × (above_onset e p ≡ false) × (e.hangover_ms ≤ e.quiet_dur + d)))
  unfolding on_frame
  on_frame_outcomes e p d t = (ground arith, ground arith, ground arith)
