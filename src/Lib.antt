-- ===== src/Lib.antt =====
-- A model of acva, a voice assistant: audio comes in, an endpointer finds utterances, a dialogue machine
-- runs turns, a language model streams text that is split into sentences and spoken, and the user may
-- barge in at any time. The parts talk through an event bus; a supervisor watches the services.
--
-- Which file models which part (paths from the repository's root):
--   Audio/Endpointer          src/audio/endpointer.cpp: on_frame, force_endpoint, reset
--   Audio/SpscRing            src/audio/spsc_ring.hpp: push, pop, size, empty; in Concurrent the atomic
--                             steps of the two threads
--   Audio/UtteranceBuffer     src/audio/utterance.cpp
--   Audio/HalfDuplexGate      src/audio/half_duplex_gate.hpp, and the observer of
--                             src/orchestrator/capture_stack.cpp that drives it from the dialogue machine
--   Audio/Wav                 src/audio/wav.cpp: make_wav, and read_wav_file on the bytes of a file
--   Event/Types               src/event/event.hpp and event.cpp
--   Event/BoundedQueue        src/event/queue.hpp
--   Event/Bus                 src/event/bus.cpp: subscriptions, their workers, publish_event, shutdown
--   Dialogue/Turn             src/dialogue/turn.cpp: turns and their shared cancellation tokens
--   Dialogue/Fsm              src/dialogue/fsm.cpp: one function per handler
--   Dialogue/BargeIn          src/dialogue/barge_in.cpp
--   Dialogue/SentenceSplitter src/dialogue/sentence_splitter.cpp
--   Dialogue/Manager          src/dialogue/manager.cpp: filters, pending slot, run_one with its sentence cap;
--                             Memory joins it to the turn writer
--   Dialogue/TtsBridge        src/dialogue/tts_bridge.cpp: handlers, and run_one over the service's callbacks,
--                             with the steps of other threads wherever it holds no lock
--   Dialogue/TurnWriter       src/dialogue/turn_writer.cpp: what is remembered of a turn
--   Llm/SseParser             src/llm/sse_parser.cpp
--   Llm/Client                src/llm/client.cpp: submit, with libcurl and the JSON reader as parameters
--   Playback/Queue            src/playback/queue.cpp
--   Playback/Engine           src/playback/engine.cpp: render_into
--   Stt/Base64, Stt/Envelope  src/stt/realtime_envelope.cpp: base64, and the reassembly of fragments
--   Supervisor/Service        src/supervisor/service.cpp
--   Supervisor/Pipeline       src/supervisor/supervisor.cpp: evaluate_pipeline
-- Prelude holds the shared names, tests, list and number lemmas; Float is the interface of floating
-- point numbers, with NaN, that the thresholds need.
--
-- State is a record, an operation a function from state to state with the source's name, a call under a
-- mutex one such function. A call that may wait returns a value that says so, and a loop over other
-- threads' work takes a schedule. Events that a part publishes and callbacks that it makes are logged in
-- its state, the newest first. Where two threads share memory without a lock (the ring), a step relation
-- interleaves their atomic loads and stores. Machine integers wrap: u32 and u64 are written out where the
-- source counts; times and durations are natural numbers, which is what the clock gives in a run.
--
-- Fuel: the loop of `feed` in Llm/SseParser takes two bytes in each round, so that the length of the
-- buffer and one more is enough; the loop of `render_into` in Playback/Engine takes a chunk off the
-- queue in each round but the first and the last. The walk of Audio/Wav over the chunks of a file has as many rounds as
-- the file has bytes, which is enough where no step is 0; a step of 0 is a loop that never ends. Other
-- loops recur on their data.
--
-- Not modelled: devices and signal processing (PortAudio, the APM, resampling, voice activity), the HTTP
-- clients, SQLite, YAML, metrics, logs, the wiring in src/orchestrator, the
-- memory.
pub mod Prelude
pub mod Float
pub mod Audio
pub mod Event
pub mod Dialogue
pub mod Llm
pub mod Playback
pub mod Stt
pub mod Supervisor
