-- ===== src/Playback/Queue.antt =====
-- src/playback/queue.hpp and queue.cpp: the bounded queue between speech synthesis and the audio
-- callback. Each call runs under the queue's mutex, so calls are functions of the queue; the oldest
-- chunk is the head of the list. Samples are only moved, so a sample is any number.
pub mod Order
pub mod Books
pub mod Room
mod Tests
use lclva.Prelude.{
  ℕ, zero, suc, ◌+◌, List, [], ◌∷◌, ◌++◌, Option, none, some, Bool, true, false, not, ◌&&◌, ◌||◌,
  if◌then◌else◌, leb, ltb, ◌==◌, u64, length,
}
use lclva.Event.Types.{TurnId}

pub record AudioChunk : Type 0 where
  pub turn : TurnId
  pub seq : ℕ
  pub samples : List ℕ
  pub end_of_sentence : Bool

pub record PlaybackQueue : Type 0 where
  pub q : List AudioChunk
  pub cap : ℕ
  pub drops : ℕ  -- std::uint64_t
  pub enqueued : ℕ  -- std::uint64_t
  pub dequeued : ℕ  -- std::uint64_t

unfoldable pub playback_queue : ℕ → PlaybackQueue
playback_queue max_chunks = record {
  q = [];
  cap = max_chunks;
  drops = 0;
  enqueued = 0;
  dequeued = 0;
}

-- `cap_ == 0` means that the queue has no bound.
unfoldable pub enqueue : PlaybackQueue → AudioChunk → PlaybackQueue × Bool
enqueue p chunk =
    if not (p.cap == 0) && leb p.cap (length p.q)
    then (record p { drops = u64 (p.drops + 1) }, false)
    else (record p { q = p.q ++ chunk ∷ []; enqueued = u64 (p.enqueued + 1) }, true)

-- How one round of the blocking call ends.
pub data Round : Type 0 where
  pushed : PlaybackQueue → Round
  cancelled : Round
  waits : Round

unfoldable pub blocking_round : PlaybackQueue → AudioChunk → Bool → Round
blocking_round p chunk is_cancelled =
    if p.cap == 0 || ltb (length p.q) p.cap
    then pushed (record p { q = p.q ++ chunk ∷ []; enqueued = u64 (p.enqueued + 1) })
    else if is_cancelled
    then cancelled
    else waits

-- The loop. A schedule says for each round whether the token is cancelled by then and what the other
-- threads do to the queue while the caller sleeps; `none` is a caller that still waits at its end.
unfoldable pub enqueue_blocking :
    PlaybackQueue
    → AudioChunk
    → List (Bool × (PlaybackQueue → PlaybackQueue))
    → Option (PlaybackQueue × Bool)
unfolding blocking_round
enqueue_blocking p chunk [] = none
enqueue_blocking p chunk ((is_cancelled, others) ∷ schedule) =
    elim (blocking_round p chunk is_cancelled) [
      | pushed p' ↦ some (p', true)
      | cancelled ↦ some (p, false)
      | waits ↦ enqueue_blocking (others p) chunk schedule
    ]

-- The loop that pops stale chunks off the head: what is left, and the counter of drops.
skip_stale : TurnId → List AudioChunk → ℕ → List AudioChunk × ℕ
skip_stale active [] drops = ([], drops)
skip_stale active (c ∷ cs) drops =
    let rest = skip_stale active cs (u64 (drops + 1)) in
    if not (c.turn == active) then rest else (c ∷ cs, drops)

take_head : PlaybackQueue → List AudioChunk × ℕ → PlaybackQueue × Option AudioChunk
take_head p ([], drops) = (record p { q = []; drops = drops }, none)
take_head p (c ∷ cs, drops) =
    (record p { q = cs; drops = drops; dequeued = u64 (p.dequeued + 1) }, some c)

unfoldable pub dequeue_active : PlaybackQueue → TurnId → PlaybackQueue × Option AudioChunk
unfolding skip_stale take_head
dequeue_active p active = take_head p (skip_stale active p.q p.drops)

-- The loop that rebuilds the queue: the survivors, and how many were dropped.
rebuild : TurnId → List AudioChunk → List AudioChunk × ℕ
rebuild next_turn [] = ([], 0)
rebuild next_turn (c ∷ cs) =
    let (kept, dropped) = rebuild next_turn cs in
    if ltb c.turn next_turn then (kept, dropped + 1) else (c ∷ kept, dropped)

unfoldable pub invalidate_before : PlaybackQueue → TurnId → PlaybackQueue × ℕ
unfolding rebuild
invalidate_before p next_turn = elim p.q [
  | [] ↦ (p, 0)
  | c ∷ cs ↦
      (let (kept, dropped) = rebuild next_turn (c ∷ cs) in
        (record p { q = kept; drops = u64 (p.drops + dropped) }, dropped))
]

unfoldable pub clear : PlaybackQueue → PlaybackQueue × ℕ
clear p = (record p { q = []; drops = u64 (p.drops + length p.q) }, length p.q)

unfoldable pub size : PlaybackQueue → ℕ
size p = length p.q

-- The samples queued for a turn.
unfoldable pub pending_in : TurnId → List AudioChunk → ℕ
pending_in turn [] = 0
pending_in turn (c ∷ cs) =
    let rest = pending_in turn cs in if c.turn == turn then length c.samples + rest else rest

unfoldable pub pending_samples_for : PlaybackQueue → TurnId → ℕ
unfolding pending_in
pending_samples_for p turn = pending_in turn p.q
