-- ===== src/Playback/Queue/Room.antt =====
-- When a chunk is accepted.
use lclva.Prelude.{
  ◌+◌, ◌≡◌, [], ◌∷◌, ◌++◌, Bool, ◌||◌, arith, u64, if◌then◌else◌, length, ltb, ◌==◌,
}
use lclva.Playback.Queue.{AudioChunk, PlaybackQueue, enqueue}

abbrev pub has_room : PlaybackQueue → Bool
has_room p = p.cap == 0 || ltb (length p.q) p.cap

-- Whether a chunk is accepted depends on room alone, never on its turn: also a chunk of a turn that
-- has just been invalidated is queued, at the end, and a refused chunk changes only the counter.
pub enqueue_lem :
    (p : PlaybackQueue) (chunk : AudioChunk)
    → let (p', accepted) = enqueue p chunk in
      (accepted ≡ has_room p)
      × (p'.q ≡ (if has_room p then p.q ++ chunk ∷ [] else p.q))
      × (p'.drops ≡ (if has_room p then p.drops else u64 (p.drops + 1)))
unfolding enqueue
enqueue_lem p chunk = (ground arith, ground arith, ground arith)
