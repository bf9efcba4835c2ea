-- ===== src/Dialogue/TtsBridge/Tests.antt =====
-- Runs of the bridge with a resampler that doubles each sample and holds one back.
use lclva.Prelude.{ℕ, ◌≡◌, refl, List, [], ◌∷◌, ◌++◌, some, Bool, true, false, arith, keep, ◌==◌}
use lclva.Event.Types.{llm_started, llm_sentence, user_interrupted}
use lclva.Playback.Queue.{AudioChunk, playback_queue, enqueue, dequeue_active}
use lclva.Dialogue.TtsBridge.{
  Job, TtsBridge, tts_bridge, on_llm_sentence, on_user_interrupted, count_cancelled, event,
  run_others, on_format, on_audio, meanwhile, Resampling, offer, submit, offer_last, wind_up,
  run_one,
}
use lclva.Dialogue.TtsBridge.Interruption.{
  Ends, interrupted_synthesis_is_quiet, interrupted_audio_leaves_one,
}
use lclva.Dialogue.TtsBridge.Dropped.{interrupted_turn_dropped}
use lclva.Dialogue.TtsBridge.Speech.{taking, pieces}

abbrev twice : List ℕ → List ℕ
twice [] = []
twice (x ∷ xs) = x ∷ x ∷ twice xs

abbrev doubling : Resampling Unit
doubling = record { make = λ rate. tt; process = λ r xs. (r, twice xs); flush = λ r. 9 ∷ [] }

abbrev job : Job
job = record { turn = 5; seq = 1; cancel = 0 }

-- The token at address 0 is in flight for turn 5.
abbrev busy : TtsBridge
busy = record (tts_bridge (record { count = 1; cancelled = λ _. false }) (playback_queue 0)) {
  tokens = λ t. some 0;
  in_flight = some 0;
}

abbrev chunk : List ℕ → Bool → AudioChunk
chunk samples last = record { turn = 5; seq = 1; samples = samples; end_of_sentence = last }

abbrev spoken : List (List ℕ × List ℕ)
spoken = ((1 ∷ 2 ∷ []), []) ∷ ([], []) ∷ ((3 ∷ []), []) ∷ []

-- The same run: the chunk taken before the last enqueue is gone.
spoken_left :
    (b' : TtsBridge) × (run_one doubling 48 job
        (on_format (some 24) ∷ pieces spoken)
        (taking (5 ∷ []) ∷ [])
        (taking [])
        busy
      ≡ some b')
    × (b'.queue.q ≡ chunk (3 ∷ 3 ∷ []) false ∷ chunk (9 ∷ []) true ∷ [])
unfolding tts_bridge playback_queue run_one submit wind_up offer_last offer dequeue_active enqueue
spoken_left = (_, refl, refl)

interrupted_synthesis_is_quiet_example :
    Ends doubling 48 job
      ((on_format (some 24) ∷ on_audio (1 ∷ []) [] ∷ [])
        ++ meanwhile (event (user_interrupted 5 7)) ∷ on_audio (2 ∷ []) [] ∷ [])
      []
      []
      0
      busy
unfolding tts_bridge
interrupted_synthesis_is_quiet_example =
    interrupted_synthesis_is_quiet doubling 48 job (on_format (some 24) ∷ on_audio (1 ∷ []) [] ∷ [])
      (on_audio (2 ∷ []) [] ∷ []) 5 7 [] [] busy refl (omega arith) refl

-- The interruption comes between the test of the token and the enqueue.
interrupted_audio_leaves_one_example :
    Ends doubling 48 job
      ((on_format (some 24) ∷ on_audio (1 ∷ []) [] ∷ [])
        ++ on_audio (2 ∷ []) ([] ++ event (user_interrupted 5 7) ∷ []) ∷ on_audio (3 ∷ []) [] ∷ [])
      []
      []
      1
      busy
unfolding tts_bridge submit offer
interrupted_audio_leaves_one_example =
    interrupted_audio_leaves_one doubling 48 job (on_format (some 24) ∷ on_audio (1 ∷ []) [] ∷ [])
      (on_audio (3 ∷ []) [] ∷ []) 5 7 [] [] busy refl (omega arith) refl (2 ∷ []) [] [] refl

stale_chunk_left :
    (b' : TtsBridge) × (run_one doubling 48 job
        (on_format (some 24) ∷ on_audio (2 ∷ []) (event (user_interrupted 5 7) ∷ []) ∷ [])
        []
        []
        busy
      ≡ some b')
    × (b'.queue.q ≡ chunk (2 ∷ 2 ∷ []) false ∷ [])
unfolding tts_bridge playback_queue run_one submit wind_up offer on_user_interrupted enqueue
stale_chunk_left = (_, refl, refl)

abbrev waiting : TtsBridge
waiting = record busy { pending = job ∷ record { turn = 6; seq = 0; cancel = 3 } ∷ job ∷ [] }

-- A sentence of another turn and one of the turn itself come behind the interruption.
interrupted_turn_dropped_example :
    let b' = on_user_interrupted 5 waiting in
    let b'' =
      run_others
        (event (llm_sentence 6 0) ∷ event (llm_sentence 5 2) ∷ event (llm_started 7) ∷ [])
        b' in
    (b'.pending ≡ record { turn = 6; seq = 0; cancel = 3 } ∷ [])
    × (b'.queue.q ≡ [])
    × (keep (λ (j : Job). j.turn == 5) b''.pending ≡ [])
    × ((seq : ℕ) → on_llm_sentence 5 seq b'' ≡ count_cancelled b'')
unfolding tts_bridge
interrupted_turn_dropped_example =
    interrupted_turn_dropped 5 waiting
      (event (llm_sentence 6 0) ∷ event (llm_sentence 5 2) ∷ event (llm_started 7) ∷ [])
      (λ a e. ground (arith, e)) (tt, (tt, ((λ e. omega (arith, e)), tt)))
