-- ===== src/Event/Types.antt =====
-- src/event/event.hpp and event.cpp: what flows on the control bus. Text, durations, confidences and
-- the audio slice are carried by the code and read by nothing that is modelled, so the constructors
-- hold the turn, the sequence number, the flags and the times.
use Prim.Native.String.{String}
use lclva.Prelude.{ℕ, Bool}

-- std::uint64_t
abbrev pub TurnId : Type 0
TurnId = ℕ

abbrev pub k_no_turn : TurnId
k_no_turn = 0

pub data HealthState : Type 0 where
  unknown healthy degraded unhealthy : HealthState

pub data Event : Type 0 where
  speech_started : TurnId → (ts : ℕ) → Event
  speech_ended : TurnId → (ts : ℕ) → Event
  utterance_ready : TurnId → Event
  partial_transcript : TurnId → (stable_prefix_len seq : ℕ) → Event
  final_transcript : TurnId → Event
  llm_started : TurnId → Event
  llm_token : TurnId → Event
  llm_sentence : TurnId → (seq : ℕ) → Event
  llm_finished : TurnId → (cancelled : Bool) (tokens_generated : ℕ) → Event
  tts_started : TurnId → (seq : ℕ) → Event
  tts_audio_chunk : TurnId → (seq bytes : ℕ) → Event
  tts_finished : TurnId → (seq : ℕ) → Event
  playback_started : TurnId → (seq : ℕ) → Event
  playback_finished : TurnId → (seq : ℕ) → Event
  user_interrupted : TurnId → (ts : ℕ) → Event
  cancel_generation : TurnId → Event
  pause : Event
  resume : Event
  error_event : (component message : String) → Event
  health_changed : (service : String) → HealthState → (detail : String) → Event

-- The turn that an event carries, or `k_no_turn`.
unfoldable pub event_turn : Event → TurnId
event_turn (speech_started turn ts) = turn
event_turn (speech_ended turn ts) = turn
event_turn (utterance_ready turn) = turn
event_turn (partial_transcript turn len seq) = turn
event_turn (final_transcript turn) = turn
event_turn (llm_started turn) = turn
event_turn (llm_token turn) = turn
event_turn (llm_sentence turn seq) = turn
event_turn (llm_finished turn cancelled tokens) = turn
event_turn (tts_started turn seq) = turn
event_turn (tts_audio_chunk turn seq bytes) = turn
event_turn (tts_finished turn seq) = turn
event_turn (playback_started turn seq) = turn
event_turn (playback_finished turn seq) = turn
event_turn (user_interrupted turn ts) = turn
event_turn (cancel_generation turn) = turn
event_turn pause = k_no_turn
event_turn resume = k_no_turn
event_turn (error_event component message) = k_no_turn
event_turn (health_changed service state detail) = k_no_turn

-- The name of an event in metrics and logs.
unfoldable pub event_name : Event → String
event_name (speech_started turn ts) = "speech_started"
event_name (speech_ended turn ts) = "speech_ended"
event_name (utterance_ready turn) = "utterance_ready"
event_name (partial_transcript turn len seq) = "partial_transcript"
event_name (final_transcript turn) = "final_transcript"
event_name (llm_started turn) = "llm_started"
event_name (llm_token turn) = "llm_token"
event_name (llm_sentence turn seq) = "llm_sentence"
event_name (llm_finished turn cancelled tokens) = "llm_finished"
event_name (tts_started turn seq) = "tts_started"
event_name (tts_audio_chunk turn seq bytes) = "tts_audio_chunk"
event_name (tts_finished turn seq) = "tts_finished"
event_name (playback_started turn seq) = "playback_started"
event_name (playback_finished turn seq) = "playback_finished"
event_name (user_interrupted turn ts) = "user_interrupted"
event_name (cancel_generation turn) = "cancel_generation"
event_name pause = "pause"
event_name resume = "resume"
event_name (error_event component message) = "error"
event_name (health_changed service state detail) = "health_changed"
