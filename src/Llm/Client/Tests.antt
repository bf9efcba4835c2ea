-- ===== src/Llm/Client/Tests.antt =====
-- Runs of one completion, with a caller that logs what it is told.
use lclva.Prelude.{
  ℕ, ◌≡◌, refl, append-nil, List, [], ◌∷◌, ◌++◌, Option, some, Bool, true, false, inl, inr,
}
use lclva.Event.Types.{llm_finished}
use lclva.Llm.SseParser.{Text, k_done_sentinel}
use lclva.Llm.SseParser.Frames.{frame, frames}
use lclva.Llm.Client.{LlmFinish, LlmCallbacks, submit}
use lclva.Llm.Client.Stream.{submit_streams, quiet}
use lclva.Llm.Client.Cancellation.{submit_cancelled}

record Log : Type 0 where
  told : List Text
  ended : List LlmFinish
  cancelled : Bool

abbrev quiet_log : Log
quiet_log = record { told = []; ended = []; cancelled = false }

abbrev logging : LlmCallbacks Log
logging = record {
  on_token = λ t s. record s { told = t ∷ s.told };
  on_finished = λ f s. record s { ended = f ∷ s.ended };
  is_cancelled = λ s. s.cancelled;
  cancel = λ s. record s { cancelled = true };
}

-- The reader takes a payload for its content.
abbrev as_it_is : Text → Option Text
as_it_is p = some p

abbrev stream : Text
stream = frames ((72 ∷ []) ∷ (105 ∷ []) ∷ []) ++ (frame k_done_sentinel ++ [])

abbrev ending : Bool → LlmFinish
ending c = record { turn = 3; cancelled = c; error = false; tokens_generated = 2 }

-- No handle: the caller is told of an error, and the end of the stream is not published.
no_handle :
    submit as_it_is logging 3
      (record {
        handle = false;
        writes = [];
        late_cancel = false;
        curl_ok = true;
        http_status = 200;
      })
      quiet_log
    ≡ (
      record quiet_log {
        ended = record { turn = 3; cancelled = false; error = true; tokens_generated = 0 } ∷ [];
      },
      [],
    )
unfolding submit
no_handle = refl

submit_streams_example :
    submit as_it_is logging 3
      (record {
        handle = true;
        writes = quiet (stream ∷ []);
        late_cancel = false;
        curl_ok = true;
        http_status = 200;
      })
      quiet_log
    ≡ (
      record { told = (105 ∷ []) ∷ (72 ∷ []) ∷ []; ended = ending false ∷ []; cancelled = false },
      llm_finished 3 false 2 ∷ [],
    )
submit_streams_example =
    submit_streams as_it_is logging 3 (λ s. s.cancelled ≡ false) quiet_log
      ((72 ∷ []) ∷ (105 ∷ []) ∷ []) [] stream [] true 200
      (((refl, tt), refl), (((refl, tt), refl), tt)) (append-nil stream) refl (λ x h. h)
      (λ t x h. h)

submit_cancelled_example :
    (n : ℕ) × (x : Log) × (submit as_it_is logging 3
        (record {
          handle = true;
          writes = (false, stream) ∷ (true, []) ∷ [];
          late_cancel = false;
          curl_ok = false;
          http_status = 200;
        })
        quiet_log
      ≡ (
        record x {
          ended =
              record { turn = 3; cancelled = true; error = false; tokens_generated = n } ∷ x.ended;
        },
        llm_finished 3 true n ∷ [],
      ))
submit_cancelled_example =
    submit_cancelled as_it_is logging (λ x. refl) (λ t x h. h) 3
      (record {
        handle = true;
        writes = (false, stream) ∷ (true, []) ∷ [];
        late_cancel = false;
        curl_ok = false;
        http_status = 200;
      })
      quiet_log refl (inl (inr (inl refl)))
