-- ===== src/Playback/Queue/Books.antt =====
-- The counters of the queue against its calls.
use lclva.Prelude.{ℕ, ◌+◌, ◌≤◌, ◌≡◌, ◌≢◌, Bool, List, [], ◌∷◌, u64, if◌then◌else◌, length}
use lclva.Event.Types.{TurnId}
use lclva.Playback.Queue.{
  AudioChunk, PlaybackQueue, enqueue, pushed, cancelled, waits, blocking_round, dequeue_active,
  invalidate_before, clear,
}

pub data QueueCall : Type 0 where
  enqueues : AudioChunk → QueueCall
  enqueues_blocking : AudioChunk → (is_cancelled : Bool) → QueueCall
  dequeues : TurnId → QueueCall
  invalidates : TurnId → QueueCall
  clears : QueueCall

-- A blocking call is a round of its loop; the round that waits or ends by the token changes nothing.
-- The queue behind a call, and 1 if the call was an `enqueue` that was refused.
unfoldable pub call : PlaybackQueue → QueueCall → PlaybackQueue × ℕ
call p (enqueues c) = let (p', accepted) = enqueue p c in (p', if accepted then 0 else 1)
call p (enqueues_blocking c is_cancelled) =
    (elim (blocking_round p c is_cancelled) [ pushed p' ↦ p' | cancelled ↦ p | waits ↦ p ], 0)
call p (dequeues active) = ((dequeue_active p active).0, 0)
call p (invalidates next_turn) = ((invalidate_before p next_turn).0, 0)
call p clears = ((clear p).0, 0)

-- The queue behind a list of calls, and how many chunks were refused.
unfoldable pub calls : PlaybackQueue → List QueueCall → PlaybackQueue × ℕ
calls p [] = (p, 0)
calls p (c ∷ cs) = let (p', n) = call p c in let (p'', m) = calls p' cs in (p'', n + m)

-- Every chunk that was offered is still queued, was taken out, or was dropped.
abbrev pub Balanced : PlaybackQueue → ℕ → PlaybackQueue → Type 0
Balanced p refused p' =
    u64 (p'.enqueued + refused + p.dequeued + p.drops + length p.q)
    ≡ u64 (p.enqueued + p'.dequeued + p'.drops + length p'.q)

abbrev pub IsBounded : PlaybackQueue → Type 0
IsBounded p = p.cap ≢ 0 → length p.q ≤ p.cap
