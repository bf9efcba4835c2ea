-- ===== src/Dialogue/TtsBridge/Interruption.antt =====
-- src/dialogue/tts_bridge.cpp: what an interruption silences.
use lclva.Prelude.{
  ℕ, ◌<◌, ◌≤◌, ◌≡◌, refl, sym, ap, subst, ◌∙◌, List, [], ◌∷◌, ◌++◌, none, some, Bool, true, false,
  ◌||◌, if◌then◌else◌, arith, if_true, if_false, length, length-append,
}
use lclva.Event.Types.{TurnId, user_interrupted}
use lclva.Playback.Queue.{AudioChunk, enqueue}
use lclva.Dialogue.TtsBridge.{
  Job, TtsBridge, count_cancelled, on_event, Other, event, run_other, run_others, Callback,
  on_format, on_audio, on_finished, on_error, meanwhile, Resampling, Synthesis, on_rate, on_samples,
  offer, on_callback, submit, resample, offer_last, settled, tail_of, wind_up, opening, run_one,
}
use lclva.Dialogue.TtsBridge.Steps.{
  Going, Silent, on_user_interrupted-Silent, run_other-Going, run_others-Going, run_other-Silent,
  run_others-Silent, interrupted-Silent,
}

or_true : (b c : Bool) → c ≡ true → (b || c) ≡ true
or_true true c e = refl
or_true false c e = e

module _ {R : Type 0} (resampling : Resampling R) (device_rate : ℕ) (job : Job) (x y : ℕ) where
  offer-Going :
      (out : List ℕ) (b : TtsBridge)
      → Going job.cancel x y b
      → Going job.cancel x y (offer resampling device_rate job out b)
  unfolding offer
  offer-Going [] b g = g
  offer-Going (c ∷ cs) b g = ground arith

  if-Going :
      (c : Bool) (s t : Synthesis resampling device_rate)
      → Going job.cancel x y s.bridge
      → Going job.cancel x y t.bridge
      → Going job.cancel x y (if c then s else t).bridge
  if-Going true s t p q = p
  if-Going false s t p q = q

  on_samples-Going :
      (samples : List ℕ) (between : List Other) (s : Synthesis resampling device_rate)
      → Going job.cancel x y s.bridge
      → Going job.cancel x y (on_samples resampling device_rate job samples between s).bridge
  unfolding on_samples
  on_samples-Going samples between s g =
      let b' = run_others between s.bridge in
      let (r, out) = resample resampling device_rate s.resampler samples in
      if-Going (s.got_error || s.bridge.store.cancelled job.cancel) s
        (record s { resampler = r; bridge = offer resampling device_rate job out b' }) g
        (offer-Going out b' (run_others-Going job.cancel x y between s.bridge g))

  -- Audio for a cancelled token is dropped.
  on_samples-Silent :
      (k : ℕ) (samples : List ℕ) (between : List Other) (s : Synthesis resampling device_rate)
      → Silent k job.cancel x y s.bridge
      → on_samples resampling device_rate job samples between s ≡ s
  unfolding on_samples
  on_samples-Silent k samples between s g =
      if_true (s.got_error || s.bridge.store.cancelled job.cancel) s _
        (or_true s.got_error (s.bridge.store.cancelled job.cancel) g.token_is)

  on_callback-Going :
      (c : Callback) (s : Synthesis resampling device_rate)
      → Going job.cancel x y s.bridge
      → Going job.cancel x y (on_callback resampling device_rate job c s).bridge
  unfolding on_callback on_rate on_samples
  on_callback-Going (on_format none) s g = g
  on_callback-Going (on_format (some rate)) s g = g
  on_callback-Going (on_audio samples between) s g = on_samples-Going samples between s g
  on_callback-Going on_finished s g = g
  on_callback-Going on_error s g = g
  on_callback-Going (meanwhile o) s g = run_other-Going job.cancel x y o s.bridge g

  on_callback-Silent :
      (k : ℕ) (c : Callback) (s : Synthesis resampling device_rate)
      → Silent k job.cancel x y s.bridge
      → Silent k job.cancel x y (on_callback resampling device_rate job c s).bridge
  unfolding on_callback on_rate on_samples
  on_callback-Silent k (on_format none) s g = g
  on_callback-Silent k (on_format (some rate)) s g = g
  on_callback-Silent k (on_audio samples between) s g =
      subst (λ (z : Synthesis resampling device_rate). Silent k job.cancel x y z.bridge)
        (sym (on_samples-Silent k samples between s g)) g
  on_callback-Silent k on_finished s g = g
  on_callback-Silent k on_error s g = g
  on_callback-Silent k (meanwhile o) s g = run_other-Silent k job.cancel x y o s.bridge g

  submit-Going :
      (cs : List Callback) (s : Synthesis resampling device_rate)
      → Going job.cancel x y s.bridge
      → Going job.cancel x y (submit resampling device_rate job cs s).bridge
  unfolding submit
  submit-Going [] s g = g
  submit-Going (c ∷ cs) s g =
      submit-Going cs (on_callback resampling device_rate job c s) (on_callback-Going c s g)

  submit-Silent :
      (k : ℕ) (cs : List Callback) (s : Synthesis resampling device_rate)
      → Silent k job.cancel x y s.bridge
      → Silent k job.cancel x y (submit resampling device_rate job cs s).bridge
  unfolding submit
  submit-Silent k [] s g = g
  submit-Silent k (c ∷ cs) s g =
      submit-Silent k cs (on_callback resampling device_rate job c s) (on_callback-Silent k c s g)

  submit-append :
      (cs ds : List Callback) (s : Synthesis resampling device_rate)
      → submit resampling device_rate job (cs ++ ds) s
        ≡ submit resampling device_rate job ds (submit resampling device_rate job cs s)
  unfolding submit
  submit-append [] ds s = refl
  submit-append (c ∷ cs) ds s = submit-append cs ds (on_callback resampling device_rate job c s)

  -- A cancelled job comes to its end at once, with no last chunk.
  wind_up-Silent :
      (k : ℕ) (schedule : List (List Other)) (late : List Other)
      (s : Synthesis resampling device_rate)
      → Silent k job.cancel x y s.bridge
      → wind_up resampling device_rate job schedule late s
        ≡ some (count_cancelled (run_others late s.bridge))
  unfolding wind_up
  wind_up-Silent k schedule late s g =
      let b' = run_others late s.bridge in
      let g' = run_others-Silent k job.cancel x y late s.bridge g in
      ap (settled resampling device_rate job s.got_error late) (
        if_true (s.bridge.store.cancelled job.cancel) (some s.bridge)
          (offer_last resampling device_rate job (tail_of resampling device_rate s) schedule
            s.bridge)
          g.token_is)
      ∙ ap (λ z. some z)
          (if_true (b'.store.cancelled job.cancel) (count_cancelled b') _ g'.token_is)

  -- What one piece of audio may still add.
  offer-Silent :
      (out : List ℕ) (b : TtsBridge)
      → Silent 0 job.cancel x y b
      → Silent 1 job.cancel x y (offer resampling device_rate job out b)
  unfolding offer enqueue
  offer-Silent [] b s = record {
    going = s.going;
    token_is = s.token_is;
    queue_is = omega (arith, s.queue_is);
  }
  offer-Silent (c ∷ cs) b s =
      let chunk : AudioChunk = record {
        turn = job.turn;
        seq = job.seq;
        samples = c ∷ cs;
        end_of_sentence = false;
      } in
      record {
        going = offer-Going (c ∷ cs) b s.going;
        token_is = s.token_is;
        queue_is = ground (arith, length-append b.queue.q (chunk ∷ []), s.queue_is);
      }

  -- The rest of a round, from a bridge that has been interrupted.
  quiet_end :
      (k : ℕ) (behind : List Callback) (schedule : List (List Other)) (late : List Other)
      (s : Synthesis resampling device_rate)
      → Silent k job.cancel x y s.bridge
      → (b' : TtsBridge) × (wind_up resampling device_rate job schedule late
            (submit resampling device_rate job behind s)
          ≡ some b')
        × (length b'.queue.q ≤ k)
        × (b'.synthesized ≡ x)
        × (b'.errored ≡ y)
  quiet_end k behind schedule late s g =
      let s' = submit resampling device_rate job behind s in
      let g' = submit-Silent k behind s g in
      let b' = run_others late s'.bridge in
      let end = run_others-Silent k job.cancel x y late s'.bridge g' in
      (
        count_cancelled b',
        wind_up-Silent k schedule late s' g',
        end.queue_is,
        end.going.synthesized_is,
        end.going.errored_is,
      )

  if-Silent :
      (c : Bool) (s t : Synthesis resampling device_rate)
      → c ≡ false
      → Silent 1 job.cancel x y t.bridge
      → Silent 1 job.cancel x y (if c then s else t).bridge
  if-Silent true s t e g = absurd cc
  if-Silent false s t e g = g

  on_samples-interrupted :
      (samples : List ℕ) (os ps : List Other) (turn ts : ℕ) (s : Synthesis resampling device_rate)
      → Going job.cancel x y s.bridge
      → (s.got_error || s.bridge.store.cancelled job.cancel) ≡ false
      → Silent 1 job.cancel x y
          (on_samples resampling device_rate job samples
            (os ++ event (user_interrupted turn ts) ∷ ps)
            s).bridge
  unfolding on_samples
  on_samples-interrupted samples os ps turn ts s g e =
      let b' = run_others (os ++ event (user_interrupted turn ts) ∷ ps) s.bridge in
      let (r, out) = resample resampling device_rate s.resampler samples in
      if-Silent (s.got_error || s.bridge.store.cancelled job.cancel) s
        (record s { resampler = r; bridge = offer resampling device_rate job out b' }) e
        (offer-Silent out b' (interrupted-Silent 0 job.cancel x y turn ts os ps s.bridge g))

-- How a round goes whose callbacks are those given.
abbrev pub Ends :
    {R : Type 0}
    → Resampling R
    → ℕ
    → Job
    → List Callback
    → List (List Other)
    → List Other
    → ℕ
    → TtsBridge
    → Type 0
Ends resampling device_rate job calls schedule late k b =
    (b' : TtsBridge) × (run_one resampling device_rate job calls schedule late b ≡ some b')
    × (length b'.queue.q ≤ k)
    × (b'.synthesized ≡ b.synthesized)
    × (b'.errored ≡ b.errored)

module _ {R : Type 0} (resampling : Resampling R) (device_rate : ℕ) (job : Job)
    (before behind : List Callback) (turn : TurnId) (ts : ℕ) (schedule : List (List Other))
    (late : List Other) (b : TtsBridge) (inside : b.in_flight ≡ some job.cancel)
    (known : job.cancel < b.store.count) (live : b.store.cancelled job.cancel ≡ false) where
  abbrev so_far : Synthesis resampling device_rate
  so_far = submit resampling device_rate job before (opening resampling device_rate job b)

  so_far-Going : Going job.cancel b.synthesized b.errored so_far.bridge
  so_far-Going =
      submit-Going resampling device_rate job b.synthesized b.errored before
        (opening resampling device_rate job b)
        (record { in_flight_is = inside; known = known; synthesized_is = refl; errored_is = refl })

  ends :
      (k : ℕ) (c : Callback)
      → Silent k job.cancel b.synthesized b.errored
          (on_callback resampling device_rate job c so_far).bridge
      → Ends resampling device_rate job (before ++ c ∷ behind) schedule late k b
  unfolding run_one submit
  ends k c g =
      let s = on_callback resampling device_rate job c so_far in
      let (b', runs, small, n, e) =
        quiet_end resampling device_rate job b.synthesized b.errored k behind schedule late s g in
      (
        b',
        if_false (b.store.cancelled job.cancel) (some (count_cancelled b)) _ live
            ∙ ap (wind_up resampling device_rate job schedule late) (
                submit-append resampling device_rate job b.synthesized b.errored before (c ∷ behind)
                  (opening resampling device_rate job b))
            ∙ runs,
        small,
        n,
        e,
      )

  -- A user interrupts between two callbacks of a synthesis. The bridge's round for the sentence comes to an
  -- end, whatever other threads do before and behind, events and the taking of chunks: the playback queue
  -- is empty then, and the sentence counts neither as synthesized nor as failed. The interruption may name
  -- any turn. At the start the job's token is in flight, known and not cancelled.
  pub interrupted_synthesis_is_quiet :
      Ends resampling device_rate job
        (before ++ meanwhile (event (user_interrupted turn ts)) ∷ behind)
        schedule
        late
        0
        b
  unfolding on_callback run_other on_event
  interrupted_synthesis_is_quiet = ends 0 (meanwhile (event (user_interrupted turn ts))) (
      on_user_interrupted-Silent 0 job.cancel b.synthesized b.errored turn so_far.bridge
        so_far-Going)

  -- A user interrupts inside the callback for a piece of audio, between its test of the token and its
  -- enqueue: a chunk of the interrupted sentence may then stand in the queue, behind its clearing, and one at
  -- most is queued at the end of the round, which comes; the sentence counts neither as synthesized nor as
  -- failed. Up to the interruption nothing has cancelled the job or gone wrong; `os` and `ps` are the other
  -- steps between the test and the enqueue.
  pub interrupted_audio_leaves_one :
      (samples : List ℕ) (os ps : List Other)
      → (so_far.got_error || so_far.bridge.store.cancelled job.cancel) ≡ false
      → Ends resampling device_rate job
          (before ++ on_audio samples (os ++ event (user_interrupted turn ts) ∷ ps) ∷ behind)
          schedule
          late
          1
          b
  unfolding on_callback
  interrupted_audio_leaves_one samples os ps e =
      ends 1 (on_audio samples (os ++ event (user_interrupted turn ts) ∷ ps)) (
        on_samples-interrupted resampling device_rate job b.synthesized b.errored samples os ps turn
          ts so_far so_far-Going e)
