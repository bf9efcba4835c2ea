-- ===== src/Audio/UtteranceBuffer.antt =====
-- src/audio/utterance.cpp: the assembly of utterances from 16 kHz samples. Samples are only moved, so a
-- sample is any number; times are in nanoseconds and durations in milliseconds. A slice in flight is
-- its number, and which of them have expired is up to the consumers.
pub mod Padding
mod Tests
use lclva.Prelude.{
  ℕ, zero, suc, ◌+◌, ◌-◌, ◌*◌, ◌/◌, ◌^◌, List, [], ◌∷◌, ◌++◌, Option, none, some, Bool, true, false,
  not, ◌&&◌, if◌then◌else◌, leb, ltb, u64, length, take, drop, keep,
}

pub record AudioSlice : Type 0 where
  pub samples : List ℕ
  pub sample_rate : ℕ
  pub started_at : ℕ
  pub ended_at : ℕ

-- `AudioSlice::duration`, in milliseconds.
unfoldable pub duration : AudioSlice → ℕ
duration s = if leb s.sample_rate 0 then 0 else u64 (length s.samples * 1000) / s.sample_rate

pub record UtteranceBuffer : Type 0 where
  pub sample_rate : ℕ
  pub pre_padding_ms : ℕ
  pub post_padding_ms : ℕ
  pub max_duration_ms : ℕ
  pub max_in_flight : ℕ
  pub pre_pad_capacity : ℕ
  pub pre_buffer : List ℕ
  pub recording : Bool
  pub active_samples : List ℕ
  pub active_started_at : ℕ
  pub active_speech_started_at : ℕ
  pub in_flight : List ℕ
  pub next_slice : ℕ
  pub drops : ℕ  -- std::uint64_t

unfoldable pub utterance_buffer :
    (sample_rate pre post max_in_flight max_duration : ℕ) → UtteranceBuffer
utterance_buffer sample_rate pre post max_in_flight max_duration = record {
  sample_rate = sample_rate;
  pre_padding_ms = pre;
  post_padding_ms = post;
  max_duration_ms = max_duration;
  max_in_flight = max_in_flight;
  pre_pad_capacity = u64 (sample_rate * pre) / 1000;
  pre_buffer = [];
  recording = false;
  active_samples = [];
  active_started_at = 0;
  active_speech_started_at = 0;
  in_flight = [];
  next_slice = 0;
  drops = 0;
}

-- The loop of `pop_front` while the buffer is longer than the capacity.
unfoldable pub trim_pre_buffer : ℕ → List ℕ → List ℕ
trim_pre_buffer cap [] = []
trim_pre_buffer cap (s ∷ ss) = if ltb cap (length (s ∷ ss)) then trim_pre_buffer cap ss else s ∷ ss

unfoldable pub cap_samples : UtteranceBuffer → ℕ
cap_samples b = u64 (b.sample_rate * b.max_duration_ms) / 1000

unfoldable pub append_active : List ℕ → UtteranceBuffer → UtteranceBuffer
unfolding cap_samples
append_active samples b =
    let all = b.active_samples ++ samples in
    let cap = cap_samples b in
    if ltb 0 cap && ltb cap (length all)
    then (let excess = length all - cap in
        record b {
          active_samples = drop excess all;
          active_started_at = b.active_started_at + excess * 1000 / b.sample_rate * 1000000;
        })
    else record b { active_samples = all }

unfoldable pub append : List ℕ → UtteranceBuffer → UtteranceBuffer
unfolding append_active trim_pre_buffer
append [] b = b
append (s ∷ ss) b =
    if b.recording
    then append_active (s ∷ ss) b
    else record b { pre_buffer = trim_pre_buffer b.pre_pad_capacity (b.pre_buffer ++ s ∷ ss) }

-- An utterance under way is dropped.
unfoldable pub on_speech_started :
    (pre_pad_start speech_started_at : ℕ) → UtteranceBuffer → UtteranceBuffer
on_speech_started pre_pad_start speech_started_at b = record b {
  recording = true;
  active_speech_started_at = speech_started_at;
  active_started_at = pre_pad_start;
  active_samples = b.pre_buffer;
  pre_buffer = [];
}

unfoldable pub abort_active : UtteranceBuffer → UtteranceBuffer
abort_active b = if not b.recording then b else record b {
  active_samples = [];
  recording = false;
  active_started_at = 0;
  active_speech_started_at = 0;
}

-- The milliseconds from the start to the end and the post-padding, as the cast to `std::size_t` gives
-- them: a negative number wraps.
unfoldable pub active_dur : (started ended post : ℕ) → ℕ
active_dur started ended post =
    let negative = (started - ended) / 1000000 in
    if leb started ended
    then u64 ((ended - started) / 1000000 + post)
    else if leb negative post
    then post - negative
    else u64 (2 ^ 64 + post - negative)

-- The bookkeeping of the slices in flight: an empty list has no first slice to drop.
unfoldable pub track : (ℕ → Bool) → UtteranceBuffer → UtteranceBuffer
track expired b =
    let live = keep (λ n. not (expired n)) b.in_flight in
    let is_full = leb b.max_in_flight (length live) in
    record b {
      in_flight = (if is_full then drop 1 live else live) ++ b.next_slice ∷ [];
      next_slice = suc b.next_slice;
      drops = if is_full then u64 (b.drops + 1) else b.drops;
    }

unfoldable pub on_speech_ended :
    (ℕ → Bool) → ℕ → UtteranceBuffer → UtteranceBuffer × Option AudioSlice
unfolding active_dur track
on_speech_ended expired speech_ended_at b =
    let target =
      u64 (b.sample_rate * active_dur b.active_started_at speech_ended_at b.post_padding_ms)
      / 1000 in
    let samples =
      if ltb 0 target && ltb target (length b.active_samples)
      then take target b.active_samples
      else b.active_samples in
    if not b.recording then (b, none) else (
      track expired (record b { active_samples = []; recording = false }),
      some (record {
        samples = samples;
        sample_rate = b.sample_rate;
        started_at = b.active_started_at;
        ended_at = speech_ended_at;
      }),
    )
