-- ===== src/Dialogue/TtsBridge/Steps.antt =====
-- src/dialogue/tts_bridge.cpp: what the steps of other threads keep, and what an interruption among them
-- brings about.
use lclva.Prelude.{
  ℕ, ◌<◌, ◌≤◌, ◌≡◌, refl, sym, ap, subst, List, [], ◌∷◌, ◌++◌, Option, none, some, true, arith,
  length, length-append,
}
use lclva.Event.Types.{Event, llm_started, llm_sentence, llm_finished, user_interrupted}
use lclva.Dialogue.Turn.{make_token, cancel}
use lclva.Playback.Queue.{dequeue_active, clear}
use lclva.Playback.Queue.Order.{dequeue_active-prefix}
use lclva.Dialogue.TtsBridge.{
  TtsBridge, new_token, known_or_new, token_for, cancel_known, add_job, on_llm_started,
  on_llm_sentence, on_llm_finished, on_user_interrupted, cancel_turn, on_event, Other, event,
  dequeues, run_other, run_others,
}

-- The synthesis of a job with token `a` is under way, and these are the counters.
pub record Going (a synthesized errored : ℕ) (b : TtsBridge) : Type 0 where
  pub in_flight_is : b.in_flight ≡ some a
  pub known : a < b.store.count
  pub synthesized_is : b.synthesized ≡ synthesized
  pub errored_is : b.errored ≡ errored

-- It has been interrupted, and `k` chunks at most are queued.
pub record Silent (k a synthesized errored : ℕ) (b : TtsBridge) : Type 0 where
  pub going : Going a synthesized errored b
  pub token_is : b.store.cancelled a ≡ true
  pub queue_is : length b.queue.q ≤ k

new_token-Going :
    (a x y turn : ℕ) (b : TtsBridge) → Going a x y b → Going a x y (new_token turn b).1
unfolding new_token make_token
new_token-Going a x y turn b g = ground arith

known_or_new-Going :
    (a x y turn : ℕ) (b : TtsBridge) (o : Option ℕ)
    → Going a x y b
    → Going a x y (known_or_new turn b o).1
unfolding known_or_new
known_or_new-Going a x y turn b none g = new_token-Going a x y turn b g
known_or_new-Going a x y turn b (some c) g = g

token_for-Going :
    (a x y turn : ℕ) (b : TtsBridge) → Going a x y b → Going a x y (token_for turn b).1
unfolding token_for
token_for-Going a x y turn b g = known_or_new-Going a x y turn b (b.tokens turn) g

add_job-Going :
    (a x y turn seq t : ℕ) (b : TtsBridge) → Going a x y b → Going a x y (add_job turn seq (t, b))
unfolding add_job
add_job-Going a x y turn seq t b g = ground arith

cancel_known-Going :
    (a x y turn : ℕ) (b : TtsBridge) (o : Option ℕ)
    → Going a x y b
    → Going a x y (cancel_known turn b o)
unfolding cancel_known cancel new_token make_token
cancel_known-Going a x y turn b none g = ground arith
cancel_known-Going a x y turn b (some c) g = ground arith

cancel_turn-Going :
    (a x y turn : ℕ) (b : TtsBridge) → Going a x y b → Going a x y (cancel_turn turn b)
unfolding cancel_turn
cancel_turn-Going a x y turn b g = cancel_known-Going a x y turn b (b.tokens turn) g

on_user_interrupted-Going :
    (a x y turn : ℕ) (b : TtsBridge) → Going a x y b → Going a x y (on_user_interrupted turn b)
unfolding on_user_interrupted cancel
on_user_interrupted-Going a x y turn b g =
    let b₁ = cancel_turn turn b in let g₁ = cancel_turn-Going a x y turn b g in ground arith

on_event-Going :
    (a x y : ℕ) (e : Event) (b : TtsBridge) → Going a x y b → Going a x y (on_event e b)
unfolding on_event on_llm_started on_llm_sentence on_llm_finished
on_event-Going a x y (llm_started turn) b g = new_token-Going a x y turn b g
on_event-Going a x y (llm_sentence turn seq) b g =
    add_job-Going a x y turn seq (token_for turn b).0 (token_for turn b).1
      (token_for-Going a x y turn b g)
on_event-Going a x y (llm_finished turn c n) b g = ground arith
on_event-Going a x y (user_interrupted turn ts) b g = on_user_interrupted-Going a x y turn b g
on_event-Going a x y _ b g = g

new_token-Silent :
    (k a x y turn : ℕ) (b : TtsBridge) → Silent k a x y b → Silent k a x y (new_token turn b).1
unfolding new_token make_token
new_token-Silent k a x y turn b s =
    let known = s.going.known in
    record {
      going = new_token-Going a x y turn b s.going;
      token_is = ground (arith, known, s.token_is);
      queue_is = s.queue_is;
    }

known_or_new-Silent :
    (k a x y turn : ℕ) (b : TtsBridge) (o : Option ℕ)
    → Silent k a x y b
    → Silent k a x y (known_or_new turn b o).1
unfolding known_or_new
known_or_new-Silent k a x y turn b none s = new_token-Silent k a x y turn b s
known_or_new-Silent k a x y turn b (some c) s = s

token_for-Silent :
    (k a x y turn : ℕ) (b : TtsBridge) → Silent k a x y b → Silent k a x y (token_for turn b).1
unfolding token_for
token_for-Silent k a x y turn b s = known_or_new-Silent k a x y turn b (b.tokens turn) s

add_job-Silent :
    (k a x y turn seq t : ℕ) (b : TtsBridge)
    → Silent k a x y b
    → Silent k a x y (add_job turn seq (t, b))
unfolding add_job
add_job-Silent k a x y turn seq t b s = record {
  going = add_job-Going a x y turn seq t b s.going;
  token_is = ground (arith, s.token_is);
  queue_is = ground (arith, s.queue_is);
}

-- The interruption cancels the token in flight and empties the queue, whatever turn it names.
pub on_user_interrupted-Silent :
    (k a x y turn : ℕ) (b : TtsBridge) → Going a x y b → Silent k a x y (on_user_interrupted turn b)
unfolding on_user_interrupted cancel clear
on_user_interrupted-Silent k a x y turn b g =
    let g₁ = cancel_turn-Going a x y turn b g in
    let inside = g₁.in_flight_is in
    record {
      going = on_user_interrupted-Going a x y turn b g;
      token_is = ground (arith, inside);
      queue_is = omega arith;
    }

on_event-Silent :
    (k a x y : ℕ) (e : Event) (b : TtsBridge) → Silent k a x y b → Silent k a x y (on_event e b)
unfolding on_event on_llm_started on_llm_sentence on_llm_finished
on_event-Silent k a x y (llm_started turn) b s = new_token-Silent k a x y turn b s
on_event-Silent k a x y (llm_sentence turn seq) b s =
    add_job-Silent k a x y turn seq (token_for turn b).0 (token_for turn b).1
      (token_for-Silent k a x y turn b s)
on_event-Silent k a x y (llm_finished turn c n) b s = record {
  going = on_event-Going a x y (llm_finished turn c n) b s.going;
  token_is = s.token_is;
  queue_is = s.queue_is;
}
on_event-Silent k a x y (user_interrupted turn ts) b s =
    on_user_interrupted-Silent k a x y turn b s.going
on_event-Silent k a x y _ b s = s

pub run_other-Going :
    (a x y : ℕ) (o : Other) (b : TtsBridge) → Going a x y b → Going a x y (run_other o b)
unfolding run_other
run_other-Going a x y (event e) b g = on_event-Going a x y e b g
run_other-Going a x y (dequeues active) b g = record {
  in_flight_is = g.in_flight_is;
  known = g.known;
  synthesized_is = g.synthesized_is;
  errored_is = g.errored_is;
}

pub run_others-Going :
    (a x y : ℕ) (os : List Other) (b : TtsBridge) → Going a x y b → Going a x y (run_others os b)
unfolding run_others
run_others-Going a x y [] b g = g
run_others-Going a x y (o ∷ os) b g =
    run_others-Going a x y os (run_other o b) (run_other-Going a x y o b g)

pub run_other-Silent :
    (k a x y : ℕ) (o : Other) (b : TtsBridge) → Silent k a x y b → Silent k a x y (run_other o b)
unfolding run_other
run_other-Silent k a x y (event e) b s = on_event-Silent k a x y e b s
run_other-Silent k a x y (dequeues active) b s =
    let (gone, split) = dequeue_active-prefix b.queue active in
    let p = (dequeue_active b.queue active).0 in
    record {
      going = run_other-Going a x y (dequeues active) b s.going;
      token_is = s.token_is;
      queue_is = omega (arith, length-append gone p.q, ap length split, s.queue_is);
    }

pub run_others-Silent :
    (k a x y : ℕ) (os : List Other) (b : TtsBridge)
    → Silent k a x y b
    → Silent k a x y (run_others os b)
unfolding run_others
run_others-Silent k a x y [] b s = s
run_others-Silent k a x y (o ∷ os) b s =
    run_others-Silent k a x y os (run_other o b) (run_other-Silent k a x y o b s)

run_others-append :
    (os ps : List Other) (b : TtsBridge) → run_others (os ++ ps) b ≡ run_others ps (run_others os b)
unfolding run_others
run_others-append [] ps b = refl
run_others-append (o ∷ os) ps b = run_others-append os ps (run_other o b)

-- Steps of other threads with an interruption among them.
pub interrupted-Silent :
    (k a x y turn ts : ℕ) (os ps : List Other) (b : TtsBridge)
    → Going a x y b
    → Silent k a x y (run_others (os ++ event (user_interrupted turn ts) ∷ ps) b)
unfolding run_others run_other on_event
interrupted-Silent k a x y turn ts os ps b g =
    let b' = on_user_interrupted turn (run_others os b) in
    subst (Silent k a x y) (sym (run_others-append os (event (user_interrupted turn ts) ∷ ps) b)) (
      run_others-Silent k a x y ps b'
        (on_user_interrupted-Silent k a x y turn (run_others os b) (run_others-Going a x y os b g)))
