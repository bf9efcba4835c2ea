-- ===== src/Event/Bus/Tests.antt =====
-- A bus with a subscription to everything that blocks, and one to a single kind of event.
use lclva.Prelude.{◌≡◌, refl, [], ◌∷◌, true, false, arith}
use lclva.Event.Types.{cancel_generation, pause}
use lclva.Event.BoundedQueue.{block, drop_oldest, push}
use lclva.Event.Bus.{
  index, every, only, Subscription, EventBus, matches, publish_event, goes_on, worker_round,
}
use lclva.Event.Bus.Delivery.{Served, publish_event_lem, worker_round_lem}

abbrev fsm_sub : Subscription
fsm_sub = record {
  name = "dialogue.fsm";
  target = every;
  queue = record {
    capacity = 1;
    policy = block;
    q = pause ∷ [];
    closed = false;
    pushes = 1;
    pops = 0;
    drops = 0;
  };
  running = true;
  handled = [];
}

abbrev detector_sub : Subscription
detector_sub = record fsm_sub {
  name = "dialogue.barge_in";
  target = only 0;
  queue = record (fsm_sub.queue) { policy = drop_oldest };
}

abbrev bus : EventBus
bus = record { subs = detector_sub ∷ fsm_sub ∷ []; shutting_down = false; published = 1 }

-- The machine's own worker would wait for itself here.
publish_event_example :
    let (bus', waiting) = publish_event bus (cancel_generation 1) in
    Served (cancel_generation 1) bus.subs bus'.subs waiting
    × (bus'.published ≡ 2)
    × (bus'.shutting_down ≡ false)
publish_event_example =
    publish_event_lem bus (cancel_generation 1) refl
      ((omega arith, omega arith), ((omega arith, omega arith), tt))

machine_waits : (publish_event bus (cancel_generation 1)).1 ≡ true
unfolding publish_event matches push index
machine_waits = refl

worker_round_example :
    (s' : Subscription) × (worker_round fsm_sub ≡ goes_on s')
    × (s'.queue.q ≡ [])
    × (s'.handled ≡ pause ∷ [])
worker_round_example = worker_round_lem fsm_sub pause [] refl refl
