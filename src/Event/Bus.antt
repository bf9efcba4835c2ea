-- ===== src/Event/Bus.antt =====
-- src/event/bus.hpp and bus.cpp: subscriptions with a queue and a worker each, and the bus that feeds
-- them. A worker's loop is cut at its tests; the join of a stopped worker, and the lock under which
-- the list of subscriptions is copied, are left out.
pub mod Delivery
mod Tests
use Prim.Native.String.{String}
use lclva.Prelude.{
  ℕ, ◌+◌, List, [], ◌∷◌, ◌++◌, Option, none, some, Bool, true, false, not, if◌then◌else◌, ◌==◌, u64,
}
use lclva.Event.Types.{
  Event, speech_started, speech_ended, utterance_ready, partial_transcript, final_transcript,
  llm_started, llm_token, llm_sentence, llm_finished, tts_started, tts_audio_chunk, tts_finished,
  playback_started, playback_finished, user_interrupted, cancel_generation, pause, resume,
  error_event, health_changed,
}
use lclva.Event.BoundedQueue.{
  OverflowPolicy, BoundedQueue, Section, returns, waits, push, pop, close, bounded_queue,
}

-- The alternative that a variant holds, by its index.
unfoldable pub index : Event → ℕ
index (speech_started turn ts) = 0
index (speech_ended turn ts) = 1
index (utterance_ready turn) = 2
index (partial_transcript turn len seq) = 3
index (final_transcript turn) = 4
index (llm_started turn) = 5
index (llm_token turn) = 6
index (llm_sentence turn seq) = 7
index (llm_finished turn cancelled tokens) = 8
index (tts_started turn seq) = 9
index (tts_audio_chunk turn seq bytes) = 10
index (tts_finished turn seq) = 11
index (playback_started turn seq) = 12
index (playback_finished turn seq) = 13
index (user_interrupted turn ts) = 14
index (cancel_generation turn) = 15
index pause = 16
index resume = 17
index (error_event component message) = 18
index (health_changed service state detail) = 19

-- `typeid(Event)`, or the type of one alternative.
pub data Target : Type 0 where
  every : Target
  only : ℕ → Target

unfoldable pub matches : Target → Event → Bool
matches every e = true
matches (only i) e = index e == i

-- `handled` is what the handler has been called with, the latest first; what it throws is swallowed.
pub record Subscription : Type 0 where
  pub name : String
  pub target : Target
  pub queue : BoundedQueue Event
  pub running : Bool
  pub handled : List Event

unfoldable pub subscription : String → Target → ℕ → OverflowPolicy → Subscription
unfolding bounded_queue
subscription name target capacity policy = record {
  name = name;
  target = target;
  queue = bounded_queue capacity policy;
  running = true;
  handled = [];
}

-- Sets the flag and closes the queue, once.
unfoldable pub stop : Subscription → Subscription
unfolding close
stop s = if not s.running then s else record s { running = false; queue = close s.queue }

-- What the worker's loop does next.
pub data Worker : Type 0 where
  goes_on : Subscription → Worker
  sleeps : Worker
  exits : Subscription → Worker

on_pop : Subscription → Section Event (Option Event) → Worker
on_pop s waits = sleeps
on_pop s (returns b none) = exits (record s { queue = b })
on_pop s (returns b (some e)) = goes_on (record s { queue = b; handled = e ∷ s.handled })

unfoldable pub worker_round : Subscription → Worker
unfolding on_pop
worker_round s = if not s.running then exits s else on_pop s (pop s.queue)

pub record EventBus : Type 0 where
  pub subs : List Subscription
  pub shutting_down : Bool
  pub published : ℕ  -- std::uint64_t

unfoldable pub register_sub : EventBus → Subscription → EventBus
register_sub bus s = record bus { subs = bus.subs ++ s ∷ [] }

pushed : Subscription → Section Event Bool → Subscription × Bool
pushed s waits = (s, true)
pushed s (returns b accepted) = (record s { queue = b }, false)

-- The push into one subscription's queue; the flag says that the publisher waits in it.
offer : Event → Subscription → Subscription × Bool
unfolding pushed
offer e s = if matches s.target e then pushed s (push s.queue e) else (s, false)

-- The loop over the snapshot of the subscriptions, up to a push that waits.
offer_all : Event → List Subscription → List Subscription × Bool
unfolding offer
offer_all e [] = ([], false)
offer_all e (s ∷ ss) =
    let (t, waiting) = offer e s in
    let (ts, later) = offer_all e ss in if waiting then (t ∷ ss, true) else (t ∷ ts, later)

-- The bus when the call has returned, or when it waits in a push, with what it has delivered by then.
unfoldable pub publish_event : EventBus → Event → EventBus × Bool
unfolding offer_all
publish_event bus e =
    if bus.shutting_down
    then (bus, false)
    else (let (ss, waiting) = offer_all e bus.subs in
        (record bus { subs = ss; published = u64 (bus.published + 1) }, waiting))

stop_all : List Subscription → List Subscription
stop_all [] = []
stop_all (s ∷ ss) = stop s ∷ stop_all ss

-- The bus behind `shutdown`, and the subscriptions that it has stopped.
unfoldable pub shutdown : EventBus → EventBus × List Subscription
unfolding stop_all
shutdown bus =
    if bus.shutting_down
    then (bus, [])
    else (record bus { shutting_down = true; subs = [] }, stop_all bus.subs)
