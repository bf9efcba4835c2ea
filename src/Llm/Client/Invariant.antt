-- ===== src/Llm/Client/Invariant.antt =====
-- src/llm/client.cpp: what a caller keeps, it keeps through a whole call.
use lclva.Prelude.{
  ◌≡◌, ap, List, [], ◌∷◌, Option, none, some, Bool, true, false, not, if◌then◌else◌, if_false,
}
use lclva.Event.Types.{TurnId, llm_finished}
use lclva.Llm.SseParser.{
  Text, Call, on_data, on_done, on_comment, SseParser, sse_parser, feed, finish,
}
use lclva.Llm.Client.{
  LlmFinish, LlmCallbacks, Transfer, WriteCtx, on_content, on_calls, parse_to, fresh_calls,
  curl_write, cancel_if, resume, perform, finish_of, wind_up, submit,
}

module _ {S : Type 0} (read_content : Text → Option Text) (cb : LlmCallbacks S) (P : S → Type 0)
    (on_token-P : (t : Text) (s : S) → P s → P (cb.on_token t s))
    (cancel-P : (s : S) → P s → P (cb.cancel s)) where
  on_content-P :
      (o : Option Text) (st : WriteCtx S) → P st.caller → P (on_content read_content cb o st).caller
  on_content-P none st h = h
  on_content-P (some []) st h = h
  on_content-P (some (c ∷ t)) st h = on_token-P (c ∷ t) st.caller h

  on_calls-P :
      (cs : List Call) (st : WriteCtx S) → P st.caller → P (on_calls read_content cb cs st).caller
  on_calls-P [] st h = h
  on_calls-P (on_data payload ∷ cs) st h =
      on_content-P (read_content payload) (on_calls read_content cb cs st) (on_calls-P cs st h)
  on_calls-P (on_done ∷ cs) st h = on_calls-P cs st h
  on_calls-P (on_comment line ∷ cs) st h = on_calls-P cs st h

  cancel_if-P :
      (c : Bool) (st : WriteCtx S) → P st.caller → P (cancel_if read_content cb c st).caller
  cancel_if-P true st h = cancel-P st.caller h
  cancel_if-P false st h = h

  parse_to-P :
      (new : SseParser) (st : WriteCtx S) → P st.caller → P (parse_to read_content cb new st).caller
  parse_to-P new st h =
      on_calls-P (fresh_calls read_content cb st.parser new) (record st { parser = new }) h

  resume-P :
      (writes : List (Bool × Text)) (st st' : WriteCtx S) (b : Bool)
      → P st.caller
      → P (perform read_content cb writes st').caller
      → P
          (resume read_content cb
            (perform read_content cb writes)
            st
            (if b then none else some st')).caller
  resume-P writes st st' true h h' = h
  resume-P writes st st' false h h' = h'

  perform-P :
      (writes : List (Bool × Text)) (st : WriteCtx S)
      → P st.caller
      → P (perform read_content cb writes st).caller
  unfolding perform curl_write
  perform-P [] st h = h
  perform-P ((c, bytes) ∷ writes) st h =
      let st' = cancel_if read_content cb c st in
      let h' = cancel_if-P c st h in
      let fed = parse_to read_content cb (feed bytes st'.parser) st' in
      resume-P writes st' fed (cb.is_cancelled st'.caller) h'
        (perform-P writes fed (parse_to-P (feed bytes st'.parser) st' h'))

  -- A call with a handle ends with the caller told of its end, and that end published.
  pub submit_keeps :
      (turn : TurnId) (t : Transfer) (s : S)
      → t.handle ≡ true
      → P s
      → (f : LlmFinish) × (x : S) × P x
        × (submit read_content cb turn t s
            ≡ (cb.on_finished f x, llm_finished turn f.cancelled f.tokens_generated ∷ []))
  unfolding submit wind_up
  submit_keeps turn t s handle h =
      let st₁ =
        perform read_content cb t.writes
          (record { parser = sse_parser; tokens_generated = 0; caller = s }) in
      let st₂ = cancel_if read_content cb t.late_cancel st₁ in
      let st₃ = parse_to read_content cb (finish st₂.parser) st₂ in
      (
        finish_of read_content cb turn t st₃,
        st₃.caller,
        parse_to-P (finish st₂.parser) st₂ (cancel_if-P t.late_cancel st₁ (perform-P t.writes _ h)),
        if_false (not t.handle) _ (wind_up read_content cb turn t st₂) (ap not handle),
      )
