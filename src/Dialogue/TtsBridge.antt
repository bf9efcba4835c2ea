-- ===== src/Dialogue/TtsBridge.antt =====
-- src/dialogue/tts_bridge.cpp: from sentences to chunks of speech in the playback queue. Each call under a
-- lock is a step: a handler of the subscriber thread, the audio callback's dequeuing, an enqueue. The
-- other threads take steps wherever the synthesis holds no lock: between two callbacks, between the test
-- of the token and the enqueue in a callback, before each round of the last enqueue and behind it. The
-- synthesis service is a parameter: the callbacks that it makes. So is the resampler. The optional sink for self-listening is left out.
pub mod Steps
pub mod Interruption
pub mod Dropped
pub mod Chunks
pub mod Speech
mod Tests
use lclva.Prelude.{
  ℕ, ◌+◌, ◌*◌, List, [], ◌∷◌, ◌++◌, Option, none, some, Bool, true, false, not, ◌||◌, if◌then◌else◌,
  ◌==◌, u64, length,
}
use lclva.Event.Types.{
  TurnId, Event, tts_started, tts_audio_chunk, tts_finished, llm_started, llm_sentence,
  llm_finished, user_interrupted,
}
use lclva.Dialogue.Turn.{TokenStore, make_token, cancel}
use lclva.Playback.Queue.{
  AudioChunk, PlaybackQueue, enqueue, dequeue_active, clear, Round, blocking_round, pushed,
  cancelled, waits,
}

-- A sentence with the address of its token; its text goes to the service alone.
pub record Job : Type 0 where
  pub turn : TurnId
  pub seq : ℕ
  pub cancel : ℕ

pub record TtsBridge : Type 0 where
  pub tokens : TurnId → Option ℕ
  pub store : TokenStore
  pub pending : List Job
  pub in_flight : Option ℕ
  pub queue : PlaybackQueue
  pub synthesized : ℕ  -- std::uint64_t
  pub cancelled : ℕ  -- std::uint64_t
  pub errored : ℕ  -- std::uint64_t
  pub published : List Event

unfoldable pub tts_bridge : TokenStore → PlaybackQueue → TtsBridge
tts_bridge store queue = record {
  tokens = λ _. none;
  store = store;
  pending = [];
  in_flight = none;
  queue = queue;
  synthesized = 0;
  cancelled = 0;
  errored = 0;
  published = [];
}

abbrev pub update : (TurnId → Option ℕ) → TurnId → Option ℕ → TurnId → Option ℕ
update f t v x = if x == t then v else f x

-- A token of one's own for a turn.
unfoldable pub new_token : TurnId → TtsBridge → ℕ × TtsBridge
unfolding make_token
new_token turn b =
    let (a, store') = make_token b.store in
    (a, record b { store = store'; tokens = update b.tokens turn (some a) })

unfoldable pub known_or_new : TurnId → TtsBridge → Option ℕ → ℕ × TtsBridge
unfolding new_token
known_or_new turn b none = new_token turn b
known_or_new turn b (some a) = (a, b)

unfoldable pub token_for : TurnId → TtsBridge → ℕ × TtsBridge
unfolding known_or_new
token_for turn b = known_or_new turn b (b.tokens turn)

unfoldable pub on_llm_started : TurnId → TtsBridge → TtsBridge
unfolding new_token
on_llm_started turn b = (new_token turn b).1

abbrev pub count_cancelled : TtsBridge → TtsBridge
count_cancelled b = record b { cancelled = u64 (b.cancelled + 1) }

unfoldable pub add_job : TurnId → ℕ → ℕ × TtsBridge → TtsBridge
add_job turn seq (a, b) =
    if b.store.cancelled a
    then count_cancelled b
    else record b { pending = b.pending ++ record { turn = turn; seq = seq; cancel = a } ∷ [] }

unfoldable pub on_llm_sentence : TurnId → ℕ → TtsBridge → TtsBridge
unfolding token_for add_job
on_llm_sentence turn seq b = add_job turn seq (token_for turn b)

unfoldable pub on_llm_finished : TurnId → TtsBridge → TtsBridge
on_llm_finished turn b = record b { tokens = update b.tokens turn none }

-- The loop that drops the jobs of a turn: what is kept, and the counter.
unfoldable pub drop_turn : TurnId → List Job → ℕ → List Job × ℕ
drop_turn turn [] count = ([], count)
drop_turn turn (j ∷ js) count =
    let hit = j.turn == turn in
    let (kept, count') = drop_turn turn js (if hit then u64 (count + 1) else count) in
    (if hit then kept else j ∷ kept, count')

-- The token of the turn is cancelled in place; a turn that has none gets one that is.
unfoldable pub cancel_known : TurnId → TtsBridge → Option ℕ → TtsBridge
unfolding new_token
cancel_known turn b none = let (a, b') = new_token turn b in record b' { store = cancel a b'.store }
cancel_known turn b (some a) = record b { store = cancel a b.store }

unfoldable pub cancel_turn : TurnId → TtsBridge → TtsBridge
unfolding cancel_known
cancel_turn turn b = cancel_known turn b (b.tokens turn)

abbrev pub cancel_in_flight : Option ℕ → TtsBridge → TtsBridge
cancel_in_flight none b = b
cancel_in_flight (some a) b = record b { store = cancel a b.store }

unfoldable pub on_user_interrupted : TurnId → TtsBridge → TtsBridge
unfolding cancel_turn drop_turn clear cancel
on_user_interrupted turn b =
    let b₁ = cancel_turn turn b in
    let (kept, count) = drop_turn turn b₁.pending b₁.cancelled in
    let b₂ : TtsBridge = record b₁ { pending = kept; cancelled = count } in
    let b₃ = cancel_in_flight b₂.in_flight b₂ in record b₃ { queue = (clear b₃.queue).0 }

unfoldable pub on_event : Event → TtsBridge → TtsBridge
unfolding on_llm_started on_llm_sentence on_llm_finished on_user_interrupted
on_event (llm_started turn) b = on_llm_started turn b
on_event (llm_sentence turn seq) b = on_llm_sentence turn seq b
on_event (llm_finished turn c tokens) b = on_llm_finished turn b
on_event (user_interrupted turn ts) b = on_user_interrupted turn b
on_event _ b = b

-- A step of another thread: the subscriber handles an event, or the audio callback takes a chunk.
pub data Other : Type 0 where
  event : Event → Other
  dequeues : TurnId → Other

unfoldable pub run_other : Other → TtsBridge → TtsBridge
unfolding on_event
run_other (event e) b = on_event e b
run_other (dequeues active) b = record b { queue = (dequeue_active b.queue active).0 }

unfoldable pub run_others : List Other → TtsBridge → TtsBridge
unfolding run_other
run_others [] b = b
run_others (o ∷ os) b = run_others os (run_other o b)

-- What happens in the call of the service: its callbacks, and what other threads do between them. For a
-- piece of audio, `between` is what they do between the test of the token and the enqueue.
pub data Callback : Type 0 where
  on_format : (rate : Option ℕ) → Callback  -- none where the rate is not positive
  on_audio : (samples : List ℕ) (between : List Other) → Callback
  on_finished on_error : Callback
  meanwhile : Other → Callback

pub record Resampling (R : Type 0) : Type 0 where
  pub make : ℕ → R
  pub process : R → List ℕ → R × List ℕ
  pub flush : R → List ℕ  -- empty where it throws

module _ {R : Type 0} (resampling : Resampling R) (device_rate : ℕ) where
  -- The locals of `run_one`.
  pub record Synthesis : Type 0 where
    pub resampler : Option R
    pub got_format : Bool
    pub got_error : Bool
    pub bridge : TtsBridge

  unfoldable pub on_rate : Option ℕ → Synthesis → Synthesis
  on_rate none s = record s { got_error = true }
  on_rate (some rate) s = record s {
    resampler = if rate == device_rate then none else some (resampling.make rate);
    got_format = true;
  }

  abbrev pub resample : Option R → List ℕ → Option R × List ℕ
  resample none samples = (none, samples)
  resample (some r) samples = let (r', out) = resampling.process r samples in (some r', out)

  -- `enqueue` of what is there, and the event if it was taken.
  unfoldable pub offer : Job → List ℕ → TtsBridge → TtsBridge
  unfolding enqueue
  offer job [] b = b
  offer job (x ∷ xs) b =
      let (q, ok) =
        enqueue b.queue
          (record { turn = job.turn; seq = job.seq; samples = x ∷ xs; end_of_sentence = false }) in
      record b {
        queue = q;
        published =
            if ok
            then tts_audio_chunk job.turn job.seq (2 * length (x ∷ xs)) ∷ b.published
            else b.published;
      }

  unfoldable pub on_samples : Job → List ℕ → List Other → Synthesis → Synthesis
  unfolding offer run_others
  on_samples job samples between s =
      if s.got_error || s.bridge.store.cancelled job.cancel
      then s
      else (let (r, out) = resample s.resampler samples in
          record s { resampler = r; bridge = offer job out (run_others between s.bridge) })

  unfoldable pub on_callback : Job → Callback → Synthesis → Synthesis
  unfolding on_rate on_samples run_other
  on_callback job (on_format rate) s = on_rate rate s
  on_callback job (on_audio samples between) s = on_samples job samples between s
  on_callback job on_finished s = s
  on_callback job on_error s = record s { got_error = true }
  on_callback job (meanwhile o) s = record s { bridge = run_other o s.bridge }

  unfoldable pub submit : Job → List Callback → Synthesis → Synthesis
  unfolding on_callback
  submit job [] s = s
  submit job (c ∷ cs) s = submit job cs (on_callback job c s)

  abbrev pub tail_of : Synthesis → List ℕ
  tail_of s =
      if s.got_format then elim s.resampler [ none ↦ [] | some r ↦ resampling.flush r ] else []

  abbrev pub last_chunk : Job → List ℕ → AudioChunk
  last_chunk job tail = record {
    turn = job.turn;
    seq = job.seq;
    samples = tail;
    end_of_sentence = true;
  }

  abbrev pub announce : Job → List ℕ → List Event → List Event
  announce job [] published = published
  announce job (x ∷ xs) published =
      tts_audio_chunk job.turn job.seq (2 * length (x ∷ xs)) ∷ published

  -- How a round of `enqueue_blocking` ends; `k` is the rest of the loop.
  abbrev pub on_round : Job → List ℕ → TtsBridge → Option TtsBridge → Round → Option TtsBridge
  on_round job tail b k (pushed q) =
      some (record b { queue = q; published = announce job tail b.published })
  on_round job tail b k cancelled = some b
  on_round job tail b k waits = k

  -- `enqueue_blocking` of the last chunk: none where it still waits at the end of the schedule of what the
  -- other threads do before each of its rounds.
  unfoldable pub offer_last : Job → List ℕ → List (List Other) → TtsBridge → Option TtsBridge
  unfolding blocking_round run_others
  offer_last job tail [] b = none
  offer_last job tail (others ∷ schedule) b =
      let b' = run_others others b in
      on_round job tail b' (offer_last job tail schedule b')
        (blocking_round b'.queue (last_chunk job tail) (b'.store.cancelled job.cancel))

  abbrev pub settle : Job → Bool → TtsBridge → TtsBridge
  settle job got_error b =
      if b.store.cancelled job.cancel
      then count_cancelled b
      else if got_error
      then record b { errored = u64 (b.errored + 1) }
      else record b {
        synthesized = u64 (b.synthesized + 1);
        published = tts_finished job.turn job.seq ∷ b.published;
      }

  abbrev pub settled : Job → Bool → List Other → Option TtsBridge → Option TtsBridge
  settled job got_error late none = none
  settled job got_error late (some b) = some (settle job got_error (run_others late b))

  -- Behind the call of the service; `late` is what other threads do behind the last enqueue.
  unfoldable pub wind_up : Job → List (List Other) → List Other → Synthesis → Option TtsBridge
  unfolding offer_last run_others
  wind_up job schedule late s = settled job s.got_error late (
      if s.bridge.store.cancelled job.cancel
      then some s.bridge
      else offer_last job (tail_of s) schedule s.bridge)

  abbrev pub opening : Job → TtsBridge → Synthesis
  opening job b = record {
    resampler = none;
    got_format = false;
    got_error = false;
    bridge = record b { published = tts_started job.turn job.seq ∷ b.published };
  }

  unfoldable pub run_one :
      Job → List Callback → List (List Other) → List Other → TtsBridge → Option TtsBridge
  unfolding submit wind_up
  run_one job calls schedule late b =
      if b.store.cancelled job.cancel
      then some (count_cancelled b)
      else wind_up job schedule late (submit job calls (opening job b))

  abbrev pub landed : Option TtsBridge → Option TtsBridge
  landed none = none
  landed (some b) = some (record b { in_flight = none })

  -- One round of `io_loop` with a job: none where there is no job, or the round still waits.
  unfoldable pub io_round :
      List Callback → List (List Other) → List Other → TtsBridge → Option TtsBridge
  unfolding run_one
  io_round calls schedule late b = elim b.pending [
    | [] ↦ none
    | job ∷ jobs ↦
        landed (
          run_one job calls schedule late
            (record b { pending = jobs; in_flight = some job.cancel }))
  ]
