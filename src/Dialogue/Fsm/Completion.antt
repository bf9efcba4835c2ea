-- ===== src/Dialogue/Fsm/Completion.antt =====
-- How a turn that nobody interrupts ends.
use lclva.Prelude.{
  ℕ, suc, ◌+◌, ◌^◌, ◌≤◌, ◌<◌, ◌≡◌, ◌≢◌, ◌⊎◌, inl, inr, refl, sym, subst, List, [], ◌∷◌, Bool, true,
  false, arith, u64, length,
}
use native.Mathlib.Decide.{ℕ_discrete}
use lclva.Event.Types.{TurnId, Event, llm_sentence, llm_finished, playback_finished}
use lclva.Dialogue.Fsm.{State, TurnOutcome, World, on_event, run}

-- The events of one turn: sentences arrive, the stream ends behind the last one, and each sentence is
-- played once it has arrived. The first three arguments are the sentences so far, those played, and
-- whether the stream has ended.
pub data Plays (turn : TurnId) : ℕ → ℕ → Bool → List (Event × ℕ) → Type 0 where
  over : {n : ℕ} → Plays turn n n true []
  sentence :
      {r p : ℕ} {es : List (Event × ℕ)} (seq now : ℕ)
      → Plays turn (suc r) p false es
      → Plays turn r p false ((llm_sentence turn seq, now) ∷ es)
  finish :
      {r p : ℕ} {es : List (Event × ℕ)} (c : Bool) (tokens now : ℕ)
      → Plays turn r p true es
      → Plays turn r p false ((llm_finished turn c tokens, now) ∷ es)
  playback :
      {r p : ℕ} {f : Bool} {es : List (Event × ℕ)} (seq now : ℕ)
      → p < r
      → Plays turn r (suc p) f es
      → Plays turn r p f ((playback_finished turn seq, now) ∷ es)

-- The machine inside such a turn, with `stale` sentences counted before it. `done` is the number of
-- completed turns before this one.
pub record Live (turn : TurnId) (stale r p : ℕ) (f : Bool) (done : ℕ) (w : World) : Type 0 where
  pub in_turn : w.active.id ≡ turn
  pub received : w.sentences_received ≡ stale + r
  pub played : w.sentences_played ≡ p
  pub ended : w.llm_finished_seen ≡ f
  pub counted : w.turns_completed ≡ done
  pub order : p ≤ r
  pub place : ((r ≡ 0) × (w.state ≡ State.thinking)) ⊎ ((0 < r) × (w.state ≡ State.speaking))

-- The turn is over.
pub record Done (done : ℕ) (w : World) : Type 0 where
  pub listens : w.state ≡ State.listening
  pub counted : w.turns_completed ≡ u64 (done + 1)
  pub outcome_is : w.outcome ≡ TurnOutcome.completed

pub sentence-Live :
    (turn seq now stale r p done : ℕ) (w : World)
    → stale + suc r < 2 ^ 32
    → Live turn stale r p false done w
    → Live turn stale (suc r) p false done (on_event (llm_sentence turn seq) now w)
unfolding on_event
sentence-Live turn seq now stale r p done w b l = ground arith

pub finish-Live :
    (turn tokens now stale r p done : ℕ) (c : Bool) (w : World)
    → stale + r ≢ p
    → Live turn stale r p false done w
    → Live turn stale r p true done (on_event (llm_finished turn c tokens) now w)
unfolding on_event
finish-Live turn tokens now stale r p done c w ne l = ground arith

finish-Done :
    (turn tokens now n done : ℕ) (c : Bool) (w : World)
    → Live turn 0 n n false done w
    → Done done (on_event (llm_finished turn c tokens) now w)
unfolding on_event
finish-Done turn tokens now n done c w l = ground arith

pub playback-Live :
    (turn seq now stale r p done : ℕ) (f : Bool) (w : World)
    → p < r
    → stale + r < 2 ^ 32
    → (f ≡ false) ⊎ (suc p ≢ stale + r)
    → Live turn stale r p f done w
    → Live turn stale r (suc p) f done (on_event (playback_finished turn seq) now w)
unfolding on_event
playback-Live turn seq now stale r p done f w lt b ne l = ground arith

playback-Done :
    (turn seq now p done : ℕ) (w : World)
    → suc p < 2 ^ 32
    → Live turn 0 (suc p) p true done w
    → Done done (on_event (playback_finished turn seq) now w)
unfolding on_event
playback-Done turn seq now p done w b l = ground arith

-- Nothing is left to come once the stream has ended and everything has been played.
Plays-end :
    {turn r p : ℕ} {f : Bool} {es : List (Event × ℕ)}
    → Plays turn r p f es
    → f ≡ true
    → r ≡ p
    → es ≡ []
Plays-end over e q = refl
Plays-end (sentence seq now rest) e q = cc
Plays-end (finish c tokens now rest) e q = cc
Plays-end (playback seq now lt rest) e q = absurd (omega arith)

run-Done :
    {es : List (Event × ℕ)} (w : World) (done : ℕ) → es ≡ [] → Done done w → Done done (run w es)
unfolding run
run-Done w done e d = subst (λ (l : List (Event × ℕ)). Done done (run w l)) (sym e) d

Plays-Done :
    {turn r p : ℕ} {f : Bool} {es : List (Event × ℕ)} (done : ℕ) (w : World)
    → Plays turn r p f es
    → Live turn 0 r p f done w
    → (f ≡ false) ⊎ (p ≢ r)
    → r + length es < 2 ^ 32
    → Done done (run w es)
unfolding run
Plays-Done done w over l (inl e) b = cc
Plays-Done done w over l (inr ne) b = absurd (ne refl)
Plays-Done {turn} {r} {p} done w (sentence seq now rest) l ne b =
    Plays-Done done (on_event (llm_sentence turn seq) now w) rest
      (sentence-Live turn seq now 0 r p done w (omega arith) l) (inl refl) (omega arith)
Plays-Done {turn} {r} {p} done w (finish c tokens now rest) l ne b = elim (ℕ_discrete r p) [
  | yes e ↦ run-Done (on_event (llm_finished turn c tokens) now w) done (Plays-end rest refl e) (
      finish-Done turn tokens now r done c w
        (subst (λ (q : ℕ). Live turn 0 r q false done w) (sym e) l))
  | no d ↦
      Plays-Done done (on_event (llm_finished turn c tokens) now w) rest
        (finish-Live turn tokens now 0 r p done c w (λ e. d (omega arith)) l) (inr (λ e. d (sym e)))
        (omega arith)
]
Plays-Done {turn} {r} {p} {f = true} done w (playback seq now lt rest) l ne b =
    elim (ℕ_discrete r (suc p)) [
      | yes e ↦
          run-Done (on_event (playback_finished turn seq) now w) done (Plays-end rest refl e) (
            playback-Done turn seq now p done w (omega arith)
              (subst (λ (q : ℕ). Live turn 0 q p true done w) e l))
      | no d ↦
          Plays-Done done (on_event (playback_finished turn seq) now w) rest
            (playback-Live turn seq now 0 r p done true w lt (omega arith)
              (inr (λ e. d (omega arith))) l)
            (inr (λ e. d (sym e))) (omega arith)
    ]
Plays-Done {turn} {r} {p} {f = false} done w (playback seq now lt rest) l ne b =
    Plays-Done done (on_event (playback_finished turn seq) now w) rest
      (playback-Live turn seq now 0 r p done false w lt (omega arith) (inl refl) l) (inl refl)
      (omega arith)

-- A turn that begins in `thinking` with nothing counted, and whose sentences, end of stream and
-- playbacks come in any order in which each sentence is played after it has arrived and none arrives
-- behind the end, is completed: the machine listens again and counts one more completed turn.
pub turn_completes :
    {turn : TurnId} {es : List (Event × ℕ)} (w : World)
    → Plays turn 0 0 false es
    → w.state ≡ State.thinking
    → w.active.id ≡ turn
    → w.sentences_received ≡ 0
    → w.sentences_played ≡ 0
    → w.llm_finished_seen ≡ false
    → length es < 2 ^ 32
    → Done w.turns_completed (run w es)
turn_completes w plays s a r p f b =
    Plays-Done w.turns_completed w plays
      (record {
        in_turn = a;
        received = r;
        played = p;
        ended = f;
        counted = refl;
        order = omega arith;
        place = inl (refl, s);
      })
      (inl refl) (omega arith)
