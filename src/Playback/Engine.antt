-- ===== src/Playback/Engine.antt =====
-- src/playback/engine.cpp: what the audio callback does. `out` holds the frames written so far in a
-- call, `postbox` the `PlaybackFinished` posts, the newest first. Latencies stay in nanoseconds. The
-- producer does not run in the middle of a call; the active turn is read anew in each round. The
-- loopback tap and the device are left out.
pub mod Fill
mod Tests
use lclva.Prelude.{
  ℕ, zero, suc, ◌+◌, ◌-◌, ◌*◌, ◌/◌, min, List, [], ◌∷◌, ◌++◌, Option, none, some, Bool, true, false,
  not, ◌&&◌, ◌||◌, if◌then◌else◌, leb, ltb, ◌==◌, u64, length, take, drop,
}
use lclva.Event.Types.{TurnId, k_no_turn}
use lclva.Playback.Queue.{AudioChunk, PlaybackQueue, dequeue_active, pending_samples_for}

-- `event::PlaybackFinished`, as far as the callback fills it in.
pub record PlaybackFinished : Type 0 where
  pub turn : TurnId
  pub seq : ℕ

-- `AudioChunk{}`
abbrev pub no_chunk : AudioChunk
no_chunk = record { turn = k_no_turn; seq = 0; samples = []; end_of_sentence = false }

pub record PlaybackEngine : Type 0 where
  pub queue : PlaybackQueue
  pub prefill_target_samples : ℕ
  pub primed_turn : TurnId
  pub current : AudioChunk
  pub pos : ℕ
  pub postbox : List PlaybackFinished
  pub underruns : ℕ  -- std::uint64_t, as are the next three
  pub frames_played : ℕ
  pub chunks_played : ℕ
  pub prefill_silence_frames : ℕ
  pub barge_in_publish_ns : ℕ
  pub barge_in_target_turn : TurnId
  pub barge_in_pending_latency : Option ℕ
  pub out : List ℕ

unfoldable pub playback_engine : (prefill_ms sample_rate_hz : ℕ) → PlaybackQueue → PlaybackEngine
playback_engine prefill_ms sample_rate_hz q = record {
  queue = q;
  prefill_target_samples = prefill_ms * sample_rate_hz / 1000;
  primed_turn = k_no_turn;
  current = no_chunk;
  pos = 0;
  postbox = [];
  underruns = 0;
  frames_played = 0;
  chunks_played = 0;
  prefill_silence_frames = 0;
  barge_in_publish_ns = 0;
  barge_in_target_turn = k_no_turn;
  barge_in_pending_latency = none;
  out = [];
}

unfoldable pub note_barge_in : TurnId → ℕ → PlaybackEngine → PlaybackEngine
note_barge_in cancelled_turn ns e = record e {
  barge_in_target_turn = cancelled_turn;
  barge_in_publish_ns = ns;
}

unfoldable pub consume_pending_barge_in_latency : PlaybackEngine → Option ℕ × PlaybackEngine
consume_pending_barge_in_latency e =
    (e.barge_in_pending_latency, record e { barge_in_pending_latency = none })

unfoldable pub maybe_close_barge_in_timer : (now : ℕ) → TurnId → PlaybackEngine → PlaybackEngine
maybe_close_barge_in_timer now active e =
    if e.barge_in_publish_ns == 0
    then e
    else if active == e.barge_in_target_turn
    then e
    else record e {
      barge_in_publish_ns = 0;
      barge_in_pending_latency = some (now - e.barge_in_publish_ns);
    }

-- The bookkeeping for a chunk that was played to its end.
unfoldable pub finish_chunk : PlaybackEngine → PlaybackEngine
finish_chunk e = if e.current.turn == k_no_turn then e else record e {
  chunks_played =
      if leb 1 (length e.current.samples) then u64 (e.chunks_played + 1) else e.chunks_played;
  postbox =
      if e.current.end_of_sentence
      then record { turn = e.current.turn; seq = e.current.seq } ∷ e.postbox
      else e.postbox;
  current = no_chunk;
  pos = 0;
}

abbrev pub zeros : ℕ → List ℕ
zeros zero = []
zeros (suc n) = 0 ∷ zeros n

-- A round of the loop: it goes on, or the call returns.
pub data Round : Type 0 where
  goes_on : PlaybackEngine → Round
  returns : PlaybackEngine → Round

unfoldable pub copy : (frames : ℕ) → PlaybackEngine → PlaybackEngine
copy frames e =
    let n = min (frames - length e.out) (length e.current.samples - e.pos) in
    record e { out = e.out ++ take n (drop e.pos e.current.samples); pos = e.pos + n }

unfoldable pub silence : (frames : ℕ) → PlaybackEngine → PlaybackEngine
silence frames e = record e { out = e.out ++ zeros (frames - length e.out) }

-- The turn has to wait for its prefill, unless enough of it is queued by now.
unfoldable pub waits : TurnId → PlaybackEngine → Bool
waits active e =
    leb 1 e.prefill_target_samples && (not (active == k_no_turn) && not (e.primed_turn == active))

unfoldable pub on_dequeued :
    (now frames : ℕ) → TurnId → PlaybackEngine → PlaybackQueue × Option AudioChunk → Round
unfolding maybe_close_barge_in_timer silence copy
on_dequeued now frames active e (q, none) = returns (
    maybe_close_barge_in_timer now active
      (silence frames (record e { queue = q; underruns = u64 (e.underruns + 1) })))
on_dequeued now frames active e (q, some next) =
    let e' = record e { queue = q; current = next; pos = 0 } in
    if leb (length next.samples) 0 then goes_on e' else goes_on (copy frames e')

unfoldable pub next_chunk : (now frames : ℕ) → TurnId → PlaybackEngine → Round
unfolding waits on_dequeued maybe_close_barge_in_timer silence
next_chunk now frames active e =
    if waits active e
    then (if leb e.prefill_target_samples (pending_samples_for e.queue active)
        then (let e' = record e { primed_turn = active } in
            on_dequeued now frames active e' (dequeue_active e.queue active))
        else returns (
            maybe_close_barge_in_timer now active (
              silence frames (record e {
                prefill_silence_frames = u64 (e.prefill_silence_frames + (frames - length e.out));
              }))))
    else on_dequeued now frames active e (dequeue_active e.queue active)

unfoldable pub round : (now frames : ℕ) → TurnId → PlaybackEngine → Round
unfolding next_chunk finish_chunk copy
round now frames active e =
    if leb (length e.current.samples) e.pos
    then next_chunk now frames active (finish_chunk e)
    else goes_on (copy frames e)

-- The loop, on fuel: none is a loop that did not end. `active n` is the turn read with `n` rounds left.
unfoldable pub render_loop :
    (fuel now frames : ℕ) → (ℕ → TurnId) → PlaybackEngine → Option PlaybackEngine
unfolding round
render_loop zero now frames active e = none
render_loop (suc n) now frames active e =
    if leb frames (length e.out)
    then some (record e { frames_played = u64 (e.frames_played + frames) })
    else elim (round now frames (active n) e) [
      | goes_on e' ↦ render_loop n now frames active e'
      | returns e' ↦ some e'
    ]

unfoldable pub render_into :
    (fuel now frames : ℕ) → (ℕ → TurnId) → PlaybackEngine → Option PlaybackEngine
unfolding render_loop
render_into fuel now frames active e = render_loop fuel now frames active (record e { out = [] })
