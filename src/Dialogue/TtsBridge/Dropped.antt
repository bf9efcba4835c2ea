-- ===== src/Dialogue/TtsBridge/Dropped.antt =====
-- src/dialogue/tts_bridge.cpp: the jobs of an interrupted turn, and its later sentences.
use native.Mathlib.Decide.{ℕ_discrete}
use lclva.Prelude.{
  ℕ, ◌+◌, ◌<◌, ◌≡◌, ◌≢◌, refl, sym, ap, ap₂, subst, ◌∙◌, List, [], ◌∷◌, ◌++◌, Option, none, some,
  true, not, ◌==◌, u64, keep, keep-append, All, arith, if_true,
}
use lclva.Event.Types.{TurnId, Event, llm_started, llm_sentence, llm_finished, user_interrupted}
use lclva.Dialogue.Turn.{make_token, cancel}
use lclva.Playback.Queue.{clear}
use lclva.Dialogue.TtsBridge.{
  Job, TtsBridge, new_token, known_or_new, token_for, cancel_known, add_job, count_cancelled,
  on_llm_started, on_llm_sentence, on_llm_finished, on_user_interrupted, on_event, drop_turn,
  cancel_turn, cancel_in_flight, Other, event, dequeues, run_other, run_others,
}

drop_turn-kept :
    (turn : TurnId) (js : List Job) (n : ℕ)
    → (drop_turn turn js n).0 ≡ keep (λ (j : Job). not (j.turn == turn)) js
unfolding drop_turn
drop_turn-kept turn [] n = refl
drop_turn-kept turn (j ∷ js) n =
    ground (arith, drop_turn-kept turn js n, drop_turn-kept turn js (u64 (n + 1)))

-- An interrupted turn: its token is in the map, cancelled, and it has no job.
record Off (turn : TurnId) (a : ℕ) (b : TtsBridge) : Type 0 where
  token_is : b.tokens turn ≡ some a
  known : a < b.store.count
  off : b.store.cancelled a ≡ true
  no_job : keep (λ (j : Job). j.turn == turn) b.pending ≡ []

cancel_known-token :
    (turn : TurnId) (b : TtsBridge) (o : Option ℕ)
    → b.tokens turn ≡ o
    → ((a : ℕ) → o ≡ some a → a < b.store.count)
    → let b' = cancel_known turn b o in
      (a : ℕ) × (b'.tokens turn ≡ some a) × (a < b'.store.count) × (b'.store.cancelled a ≡ true)
unfolding cancel_known new_token make_token cancel
cancel_known-token turn b none e k = (b.store.count, ground arith, ground arith, ground arith)
cancel_known-token turn b (some a) e k = (a, e, k a refl, ground arith)

cancel_known-pending :
    (turn : TurnId) (b : TtsBridge) (o : Option ℕ) → (cancel_known turn b o).pending ≡ b.pending
unfolding cancel_known new_token make_token
cancel_known-pending turn b none = refl
cancel_known-pending turn b (some a) = refl

cancel_known-Off :
    (turn t a : ℕ) (b : TtsBridge) (o : Option ℕ)
    → b.tokens t ≡ o
    → Off turn a b
    → Off turn a (cancel_known t b o)
unfolding cancel_known new_token make_token cancel
cancel_known-Off turn t a b none e f =
    let k = f.known in
    record {
      token_is = ground (arith, e, f.token_is);
      known = omega (arith, k);
      off = ground (arith, k, f.off);
      no_job = f.no_job;
    }
cancel_known-Off turn t a b (some c) e f = record {
  token_is = f.token_is;
  known = f.known;
  off = ground (arith, f.off);
  no_job = f.no_job;
}

cancel_in_flight-Off :
    (turn a : ℕ) (o : Option ℕ) (b : TtsBridge) → Off turn a b → Off turn a (cancel_in_flight o b)
unfolding cancel
cancel_in_flight-Off turn a none b f = f
cancel_in_flight-Off turn a (some c) b f = record {
  token_is = f.token_is;
  known = f.known;
  off = ground (arith, f.off);
  no_job = f.no_job;
}

cancel_in_flight-pending :
    (o : Option ℕ) (b : TtsBridge) → (cancel_in_flight o b).pending ≡ b.pending
cancel_in_flight-pending none b = refl
cancel_in_flight-pending (some c) b = refl

-- Dropping the jobs of some turn leaves none of a turn that had none, and none of its own.
keep-keep :
    (turn t : TurnId) (js : List Job)
    → keep (λ (j : Job). j.turn == turn) js ≡ []
    → keep (λ (j : Job). j.turn == turn) (keep (λ (j : Job). not (j.turn == t)) js) ≡ []
keep-keep turn t [] e = refl
keep-keep turn t (j ∷ js) e =
    let ih : keep (λ (j : Job). j.turn == turn) js ≡ []
        → keep (λ (j : Job). j.turn == turn) (keep (λ (j : Job). not (j.turn == t)) js) ≡ [] =
      keep-keep turn t js in
    ground (arith, e, ih)

keep-drop :
    (turn : TurnId) (js : List Job)
    → keep (λ (j : Job). j.turn == turn) (keep (λ (j : Job). not (j.turn == turn)) js) ≡ []
keep-drop turn [] = refl
keep-drop turn (j ∷ js) = ground (arith, keep-drop turn js)

on_user_interrupted-pending :
    (turn : TurnId) (b : TtsBridge)
    → (on_user_interrupted turn b).pending ≡ keep (λ (j : Job). not (j.turn == turn)) b.pending
unfolding on_user_interrupted cancel_turn
on_user_interrupted-pending turn b =
    let b₁ = cancel_turn turn b in
    let x = drop_turn turn b₁.pending b₁.cancelled in
    let b₂ : TtsBridge = record b₁ { pending = x.0; cancelled = x.1 } in
    cancel_in_flight-pending b₂.in_flight b₂
    ∙ drop_turn-kept turn b₁.pending b₁.cancelled
    ∙ ap (keep (λ (j : Job). not (j.turn == turn))) (cancel_known-pending turn b (b.tokens turn))

-- The interruption makes it so,
interrupted-Off :
    (turn : TurnId) (b : TtsBridge)
    → ((a : ℕ) → b.tokens turn ≡ some a → a < b.store.count)
    → (a : ℕ) × Off turn a (on_user_interrupted turn b)
unfolding on_user_interrupted cancel_turn
interrupted-Off turn b k =
    let b₁ = cancel_turn turn b in
    let (a, e, lt, off) = cancel_known-token turn b (b.tokens turn) refl k in
    let x = drop_turn turn b₁.pending b₁.cancelled in
    let b₂ : TtsBridge = record b₁ { pending = x.0; cancelled = x.1 } in
    let f : Off turn a b₂ = record {
      token_is = e;
      known = lt;
      off = off;
      no_job =
          ap (keep (λ (j : Job). j.turn == turn)) (drop_turn-kept turn b₁.pending b₁.cancelled)
          ∙ keep-drop turn b₁.pending;
    } in
    let g = cancel_in_flight-Off turn a b₂.in_flight b₂ f in
    (a, record { token_is = g.token_is; known = g.known; off = g.off; no_job = g.no_job })

-- and another interruption keeps it.
on_user_interrupted-Off :
    (turn t a : ℕ) (b : TtsBridge) → Off turn a b → Off turn a (on_user_interrupted t b)
unfolding on_user_interrupted cancel_turn
on_user_interrupted-Off turn t a b f =
    let b₁ = cancel_turn t b in
    let f₁ = cancel_known-Off turn t a b (b.tokens t) refl f in
    let x = drop_turn t b₁.pending b₁.cancelled in
    let b₂ : TtsBridge = record b₁ { pending = x.0; cancelled = x.1 } in
    let f₂ : Off turn a b₂ = record {
      token_is = f₁.token_is;
      known = f₁.known;
      off = f₁.off;
      no_job =
          ap (keep (λ (j : Job). j.turn == turn)) (drop_turn-kept t b₁.pending b₁.cancelled)
          ∙ keep-keep turn t b₁.pending f₁.no_job;
    } in
    let g = cancel_in_flight-Off turn a b₂.in_flight b₂ f₂ in
    record { token_is = g.token_is; known = g.known; off = g.off; no_job = g.no_job }

-- A sentence of such a turn makes no job.
on_llm_sentence-Off :
    (turn seq a : ℕ) (b : TtsBridge) → Off turn a b → on_llm_sentence turn seq b ≡ count_cancelled b
unfolding on_llm_sentence token_for known_or_new add_job
on_llm_sentence-Off turn seq a b f =
    ap (λ o. add_job turn seq (known_or_new turn b o)) f.token_is
    ∙ if_true (b.store.cancelled a) (count_cancelled b) _ f.off

new_token-Off :
    (turn t a : ℕ) (b : TtsBridge) → turn ≢ t → Off turn a b → Off turn a (new_token t b).1
unfolding new_token make_token
new_token-Off turn t a b ne f =
    let k = f.known in
    record {
      token_is = ground (arith, ne, f.token_is);
      known = omega (arith, k);
      off = ground (arith, k, f.off);
      no_job = f.no_job;
    }

token_for-Off :
    (turn t a : ℕ) (b : TtsBridge) (o : Option ℕ)
    → turn ≢ t
    → Off turn a b
    → Off turn a (known_or_new t b o).1
unfolding known_or_new
token_for-Off turn t a b none ne f = new_token-Off turn t a b ne f
token_for-Off turn t a b (some c) ne f = f

add_job-Off :
    (turn t seq a c : ℕ) (b : TtsBridge)
    → turn ≢ t
    → Off turn a b
    → Off turn a (add_job t seq (c, b))
unfolding add_job
add_job-Off turn t seq a c b ne f =
    let j : Job = record { turn = t; seq = seq; cancel = c } in
    let none_more : keep (λ (j : Job). j.turn == turn) (j ∷ []) ≡ [] = ground (arith, ne) in
    let more : keep (λ (j : Job). j.turn == turn) (b.pending ++ j ∷ []) ≡ [] =
      keep-append (λ (j : Job). j.turn == turn) b.pending (j ∷ [])
      ∙ ap₂ (λ xs ys. xs ++ ys) f.no_job none_more in
    record {
      token_is = ground (arith, f.token_is);
      known = ground (arith, f.known);
      off = ground (arith, f.off);
      no_job = ground (arith, f.no_job, more);
    }

other_sentence-Off :
    (turn t seq a : ℕ) (b : TtsBridge)
    → turn ≢ t
    → Off turn a b
    → Off turn a (on_llm_sentence t seq b)
unfolding on_llm_sentence token_for
other_sentence-Off turn t seq a b ne f =
    let (c, b') = token_for t b in
    add_job-Off turn t seq a c b' ne (token_for-Off turn t a b (b.tokens t) ne f)

count_cancelled-Off : (turn a : ℕ) (b : TtsBridge) → Off turn a b → Off turn a (count_cancelled b)
count_cancelled-Off turn a b f = record {
  token_is = f.token_is;
  known = f.known;
  off = f.off;
  no_job = f.no_job;
}

-- Steps of other threads that neither start nor end the stream of a turn.
abbrev pub Within : TurnId → Other → Type 0
Within turn (event (llm_started t)) = turn ≢ t
Within turn (event (llm_finished t c n)) = turn ≢ t
Within turn _ = Unit

on_event-Off :
    (turn a : ℕ) (e : Event) (b : TtsBridge)
    → Within turn (event e)
    → Off turn a b
    → Off turn a (on_event e b)
unfolding on_event on_llm_started on_llm_finished
on_event-Off turn a (llm_started t) b ne f = new_token-Off turn t a b ne f
on_event-Off turn a (llm_sentence t seq) b w f = elim (ℕ_discrete t turn) [
  | yes e ↦
      subst (λ x. Off turn a (on_llm_sentence x seq b)) (sym e)
        (subst (Off turn a) (sym (on_llm_sentence-Off turn seq a b f))
          (count_cancelled-Off turn a b f))
  | no ne ↦ other_sentence-Off turn t seq a b (λ e. ne (sym e)) f
]
on_event-Off turn a (llm_finished t c n) b ne f =
    let e = f.token_is in
    record { token_is = ground (arith, ne, e); known = f.known; off = f.off; no_job = f.no_job }
on_event-Off turn a (user_interrupted t ts) b w f = on_user_interrupted-Off turn t a b f
on_event-Off turn a _ b w f = f

run_others-Off :
    (turn a : ℕ) (os : List Other) (b : TtsBridge)
    → All (Within turn) os
    → Off turn a b
    → Off turn a (run_others os b)
unfolding run_others run_other
run_others-Off turn a [] b w f = f
run_others-Off turn a (event e ∷ os) b w f =
    run_others-Off turn a os (on_event e b) w.1 (on_event-Off turn a e b w.0 f)
run_others-Off turn a (dequeues t ∷ os) b w f =
    run_others-Off turn a os (run_other (dequeues t) b) w.1
      (record { token_is = f.token_is; known = f.known; off = f.off; no_job = f.no_job })

-- An interruption of a turn empties the playback queue and drops the jobs of that turn and no others, in
-- their order. From then on, through any events that neither start nor end the stream of the turn, other
-- turns' events and further interruptions and sentences of the turn among them, and any dequeuing: no
-- job of the turn is pending, and a sentence of it is counted as cancelled and changes nothing else. The
-- token of the turn, if it has one, is known.
pub interrupted_turn_dropped :
    (turn : TurnId) (b : TtsBridge) (os : List Other)
    → ((a : ℕ) → b.tokens turn ≡ some a → a < b.store.count)
    → All (Within turn) os
    → let b' = on_user_interrupted turn b in
      let b'' = run_others os b' in
      (b'.pending ≡ keep (λ (j : Job). not (j.turn == turn)) b.pending)
      × (b'.queue.q ≡ [])
      × (keep (λ (j : Job). j.turn == turn) b''.pending ≡ [])
      × ((seq : ℕ) → on_llm_sentence turn seq b'' ≡ count_cancelled b'')
unfolding on_user_interrupted clear
interrupted_turn_dropped turn b os k w =
    let b' = on_user_interrupted turn b in
    let (a, f) = interrupted-Off turn b k in
    let g = run_others-Off turn a os b' w f in
    (
      on_user_interrupted-pending turn b,
      refl,
      g.no_job,
      λ seq. on_llm_sentence-Off turn seq a (run_others os b') g,
    )
