-- ===== src/Llm/Client/Cancellation.antt =====
-- src/llm/client.cpp: how a cancelled transfer ends.
use lclva.Prelude.{
  ℕ, ◌≡◌, sym, ap, subst, ◌∙◌, ◌⊎◌, inl, inr, List, [], ◌∷◌, Option, none, some, Bool, true, false,
  not, ◌==◌, if◌then◌else◌, Bool-cases, if_false,
}
use lclva.Event.Types.{TurnId, Event, llm_finished}
use lclva.Llm.SseParser.{Text, Call, on_data, on_done, on_comment, sse_parser, feed, finish}
use lclva.Llm.Client.{
  LlmCallbacks, Transfer, WriteCtx, on_content, on_calls, parse_to, fresh_calls, curl_write,
  cancel_if, resume, perform, report, wind_up, submit,
}

-- Another thread cancels the token before one of the writes.
abbrev pub Marked : List (Bool × Text) → Type 0
Marked [] = ⊥
Marked ((c, bytes) ∷ writes) = (c ≡ true) ⊎ Marked writes

module _ {S : Type 0} (read_content : Text → Option Text) (cb : LlmCallbacks S) where
  abbrev Cancelled : WriteCtx S → Type 0
  Cancelled st = cb.is_cancelled st.caller ≡ true

  module _ (cancels : (x : S) → cb.is_cancelled (cb.cancel x) ≡ true)
      (stays : (t : Text) (x : S)
        → cb.is_cancelled x ≡ true
        → cb.is_cancelled (cb.on_token t x) ≡ true) where
    on_content-Cancelled :
        (o : Option Text) (st : WriteCtx S)
        → Cancelled st
        → Cancelled (on_content read_content cb o st)
    on_content-Cancelled none st h = h
    on_content-Cancelled (some []) st h = h
    on_content-Cancelled (some (c ∷ t)) st h = stays (c ∷ t) st.caller h

    on_calls-Cancelled :
        (cs : List Call) (st : WriteCtx S)
        → Cancelled st
        → Cancelled (on_calls read_content cb cs st)
    on_calls-Cancelled [] st h = h
    on_calls-Cancelled (on_data payload ∷ cs) st h =
        on_content-Cancelled (read_content payload) (on_calls read_content cb cs st)
          (on_calls-Cancelled cs st h)
    on_calls-Cancelled (on_done ∷ cs) st h = on_calls-Cancelled cs st h
    on_calls-Cancelled (on_comment line ∷ cs) st h = on_calls-Cancelled cs st h

    cancel_if-Cancelled :
        (c : Bool) (st : WriteCtx S)
        → (c ≡ true) ⊎ Cancelled st
        → Cancelled (cancel_if read_content cb c st)
    cancel_if-Cancelled true st h = cancels st.caller
    cancel_if-Cancelled false st (inl e) = cc
    cancel_if-Cancelled false st (inr h) = h

    -- A cancelled transfer takes nothing more.
    perform-Cancelled :
        (writes : List (Bool × Text)) (st : WriteCtx S)
        → Cancelled st
        → Cancelled (perform read_content cb writes st)
    unfolding perform curl_write
    perform-Cancelled [] st h = h
    perform-Cancelled ((c, bytes) ∷ writes) st h =
        let st' = cancel_if read_content cb c st in
        let h' : Cancelled st' = cancel_if-Cancelled c st (inr h) in
        subst
          (λ b. Cancelled (
            resume read_content cb (perform read_content cb writes) st'
              (if b then none else some (parse_to read_content cb (feed bytes st'.parser) st'))))
          (sym h') h'

    perform-Marked :
        (writes : List (Bool × Text)) (st : WriteCtx S)
        → Marked writes
        → Cancelled (perform read_content cb writes st)
    unfolding perform curl_write
    perform-Marked [] st m = absurd m
    perform-Marked ((c, bytes) ∷ writes) st (inl e) =
        let st' = cancel_if read_content cb c st in
        let h' : Cancelled st' = cancel_if-Cancelled c st (inl e) in
        subst
          (λ b. Cancelled (
            resume read_content cb (perform read_content cb writes) st'
              (if b then none else some (parse_to read_content cb (feed bytes st'.parser) st'))))
          (sym h') h'
    perform-Marked ((c, bytes) ∷ writes) st (inr m) =
        let st' = cancel_if read_content cb c st in
        let fed = parse_to read_content cb (feed bytes st'.parser) st' in
        elim (Bool-cases (cb.is_cancelled st'.caller)) [
          | inl h' ↦
              subst
                (λ b. Cancelled (
                  resume read_content cb (perform read_content cb writes) st'
                    (if b then none else some fed)))
                (sym h') h'
          | inr e ↦
              subst
                (λ b. Cancelled (
                  resume read_content cb (perform read_content cb writes) st'
                    (if b then none else some fed)))
                (sym e) (perform-Marked writes fed m)
        ]

    report_cancelled :
        (turn : TurnId) (t : Transfer) (st : WriteCtx S)
        → Cancelled st
        → report read_content cb turn t st ≡ (
          cb.on_finished
              (record {
                turn = turn;
                cancelled = true;
                error = false;
                tokens_generated = st.tokens_generated;
              })
              st.caller,
          llm_finished turn true st.tokens_generated ∷ [],
        )
    report_cancelled turn t st h =
        let g : Bool → S × List Event = λ b. (
          cb.on_finished
              (record {
                turn = turn;
                cancelled = b;
                error =
                    if b then false else if not t.curl_ok then true else not (t.http_status == 200);
                tokens_generated = st.tokens_generated;
              })
              st.caller,
          llm_finished turn b st.tokens_generated ∷ [],
        ) in
        ap g h

    -- A token that another thread cancels at some point of the transfer, where cancelling lasts: whatever
    -- curl and the server say, the caller is told at the end that the stream was cancelled and had no
    -- error, and that is published.
    pub submit_cancelled :
        (turn : TurnId) (t : Transfer) (s : S)
        → t.handle ≡ true
        → Marked t.writes ⊎ (t.late_cancel ≡ true)
        → (n : ℕ) × (x : S) × (submit read_content cb turn t s ≡ (
          cb.on_finished
              (record { turn = turn; cancelled = true; error = false; tokens_generated = n })
              x,
          llm_finished turn true n ∷ [],
        ))
    unfolding submit wind_up
    submit_cancelled turn t s handle m =
        let st₁ =
          perform read_content cb t.writes
            (record { parser = sse_parser; tokens_generated = 0; caller = s }) in
        let st₂ = cancel_if read_content cb t.late_cancel st₁ in
        let st₃ = parse_to read_content cb (finish st₂.parser) st₂ in
        let h₂ : Cancelled st₂ = elim m [
          | inl w ↦ cancel_if-Cancelled t.late_cancel st₁ (inr (perform-Marked t.writes _ w))
          | inr e ↦ cancel_if-Cancelled t.late_cancel st₁ (inl e)
        ] in
        let h₃ : Cancelled st₃ =
          on_calls-Cancelled (fresh_calls read_content cb st₂.parser (finish st₂.parser)) _ h₂ in
        (
          st₃.tokens_generated,
          st₃.caller,
          if_false (not t.handle) _ (wind_up read_content cb turn t st₂) (ap not handle)
              ∙ report_cancelled turn t st₃ h₃,
        )
