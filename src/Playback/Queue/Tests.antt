-- ===== src/Playback/Queue/Tests.antt =====
-- A queue of at most three chunks with chunks of turns 1 and 2.
use lclva.Prelude.{
  ℕ, ◌+◌, ◌≡◌, ◌≢◌, refl, List, [], ◌∷◌, some, true, false, arith, u64, length, All,
}
use lclva.Playback.Queue.{
  AudioChunk, PlaybackQueue, enqueue, blocking_round, enqueue_blocking, dequeue_active,
  invalidate_before,
}
use lclva.Playback.Queue.Order.{
  Dequeued, dequeue_active_lem, invalidate_before_lem, drain, drain_in_order,
}
use lclva.Playback.Queue.Books.{
  QueueCall, enqueues, enqueues_blocking, dequeues, invalidates, call, calls,
}
use lclva.Playback.Queue.Room.{enqueue_lem}

abbrev chunk : ℕ → ℕ → AudioChunk
chunk turn seq = record { turn = turn; seq = seq; samples = 5 ∷ 6 ∷ []; end_of_sentence = true }

abbrev full : PlaybackQueue
full = record {
  q = chunk 1 0 ∷ chunk 2 0 ∷ chunk 2 1 ∷ [];
  cap = 3;
  drops = 0;
  enqueued = 3;
  dequeued = 0;
}

abbrev session : List QueueCall
session =
    enqueues (chunk 2 2)
    ∷ enqueues_blocking (chunk 2 2) false
    ∷ dequeues 2
    ∷ enqueues_blocking (chunk 1 1) false
    ∷ invalidates 2
    ∷ []

session_end :
    ((calls full session).0.q ≡ chunk 2 1 ∷ [])
    × ((calls full session).0.drops ≡ 3)
    × ((calls full session).1 ≡ 1)
unfolding calls call enqueue blocking_round dequeue_active invalidate_before
session_end = (refl, refl, refl)

stale_head_dropped :
    (stale : List AudioChunk) × All (λ c. c.turn ≢ 2) stale
    × (u64 (dequeue_active full 2).0.drops ≡ u64 (0 + length stale))
    × Dequeued full 2 stale (dequeue_active full 2)
stale_head_dropped = dequeue_active_lem full 2

later_turns_kept : (invalidate_before full 2).0.q ≡ chunk 2 0 ∷ chunk 2 1 ∷ []
later_turns_kept = (invalidate_before_lem full 2).0

drain_in_order_example : drain 4 full 2 ≡ chunk 2 0 ∷ chunk 2 1 ∷ []
drain_in_order_example = drain_in_order 4 full 2 (omega arith)

full_queue_rejects : (enqueue full (chunk 1 1)).1 ≡ false
full_queue_rejects = (enqueue_lem full (chunk 1 1)).0

-- The consumer takes a chunk in the second round.
blocked_once :
    enqueue_blocking full
      (chunk 2 2)
      ((false, λ p. p) ∷ (false, λ p. record p { q = [] }) ∷ (true, λ p. p) ∷ [])
    ≡ some (record full { q = chunk 2 2 ∷ []; enqueued = 4 }, true)
unfolding enqueue_blocking
blocked_once = refl
