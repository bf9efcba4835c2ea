-- ===== src/Dialogue/TtsBridge/Speech.antt =====
-- src/dialogue/tts_bridge.cpp: what a synthesis that nobody interrupts puts into the playback queue.
use lclva.Prelude.{ℕ, ◌+◌, ◌≡◌, List, [], ◌∷◌, ◌++◌, Option, true, false, u64}
use lclva.Event.Types.{TurnId}
use lclva.Playback.Queue.{AudioChunk}
use lclva.Dialogue.TtsBridge.{
  Job, TtsBridge, Other, dequeues, Callback, on_audio, on_finished, Resampling, Synthesis, announce,
  last_chunk,
}

-- The audio callback takes chunks.
abbrev pub taking : List TurnId → List Other
taking [] = []
taking (t ∷ ts) = dequeues t ∷ taking ts

-- The pieces of audio as callbacks, with what is taken in each.
abbrev pub pieces : List (List ℕ × List TurnId) → List Callback
pieces [] = on_finished ∷ []
pieces ((c, ts) ∷ cs) = on_audio c (taking ts) ∷ pieces cs

abbrev pub audio : List (List ℕ × List TurnId) → List (List ℕ)
audio [] = []
audio ((c, ts) ∷ cs) = c ∷ audio cs

-- Chunks have gone from the front, and these are left.
abbrev pub Passed : List AudioChunk → List AudioChunk → Type 0
Passed all left = (gone : List AudioChunk) × (gone ++ left ≡ all)

-- Taking chunks changes nothing but the queue, from its front.
record Taken (b b' : TtsBridge) : Type 0 where
  store_is : b'.store ≡ b.store
  cap_is : b'.queue.cap ≡ b.queue.cap
  passed : Passed b.queue.q b'.queue.q
  synthesized_is : b'.synthesized ≡ b.synthesized
  errored_is : b'.errored ≡ b.errored

module _ {R : Type 0} (resampling : Resampling R) (device_rate : ℕ) (job : Job) where
  -- A synthesis without a fault, at some resampler, with the chunks queued in all.
  record Clear (o : Option R) (q : List AudioChunk) (n e : ℕ) (s : Synthesis resampling device_rate)
      : Type 0 where
    resampler_is : s.resampler ≡ o
    format_is : s.got_format ≡ true
    no_error : s.got_error ≡ false
    live : s.bridge.store.cancelled job.cancel ≡ false
    unbounded : s.bridge.queue.cap ≡ 0
    passed : Passed q s.bridge.queue.q
    synthesized_is : s.bridge.synthesized ≡ n
    errored_is : s.bridge.errored ≡ e

  -- The bridge behind the last enqueue.
  abbrev with_last : List ℕ → TtsBridge → TtsBridge
  with_last tail b = record b {
    queue = record b.queue {
      q = b.queue.q ++ last_chunk resampling device_rate job tail ∷ [];
      enqueued = u64 (b.queue.enqueued + 1);
    };
    published = announce resampling device_rate job tail b.published;
  }
