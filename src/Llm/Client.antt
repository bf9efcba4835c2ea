-- ===== src/Llm/Client.antt =====
-- src/llm/client.cpp: one streamed completion. libcurl is a parameter: what it hands to the write
-- callback, and how it ends. So is the JSON reader, which gives the content of the first choice of a
-- chunk if there is one. The two callbacks of a request and its token are functions on a state of the
-- caller, and another thread may cancel the token between two writes.
pub mod Stream
pub mod Cancellation
pub mod Invariant
mod Tests
use lclva.Prelude.{
  ℕ, ◌+◌, ◌-◌, List, [], ◌∷◌, Option, none, some, Bool, true, false, not, if◌then◌else◌, ◌==◌,
  length, take, u64,
}
use lclva.Event.Types.{TurnId, Event, llm_finished}
use lclva.Llm.SseParser.{
  Text, Call, on_data, on_done, on_comment, SseParser, sse_parser, feed, finish,
}

pub record LlmFinish : Type 0 where
  pub turn : TurnId
  pub cancelled : Bool
  pub error : Bool
  pub tokens_generated : ℕ

-- What a request comes with.
pub record LlmCallbacks (S : Type 0) : Type 0 where
  pub on_token : Text → S → S
  pub on_finished : LlmFinish → S → S
  pub is_cancelled : S → Bool
  pub cancel : S → S

-- How a transfer goes: whether a handle is to be had, the pieces that are written, each with whether
-- another thread cancels the token just before it, the same behind the last one, and what curl and the
-- server say at the end.
pub record Transfer : Type 0 where
  pub handle : Bool
  pub writes : List (Bool × Text)
  pub late_cancel : Bool
  pub curl_ok : Bool
  pub http_status : ℕ

-- The locals of `submit`, and the state of the caller.
pub record WriteCtx (S : Type 0) : Type 0 where
  pub parser : SseParser
  pub tokens_generated : ℕ
  pub caller : S

module _ {S : Type 0} (read_content : Text → Option Text) (cb : LlmCallbacks S) where
  -- A content that is null, absent or empty is passed over.
  abbrev pub on_content : Option Text → WriteCtx S → WriteCtx S
  on_content none st = st
  on_content (some []) st = st
  on_content (some (c ∷ s)) st = record st {
    tokens_generated = u64 (st.tokens_generated + 1);
    caller = cb.on_token (c ∷ s) st.caller;
  }

  abbrev pub on_call : Call → WriteCtx S → WriteCtx S
  on_call (on_data payload) st = on_content (read_content payload) st
  on_call on_done st = st
  on_call (on_comment line) st = st

  -- The parser's calls, of which the list has the newest first.
  abbrev pub on_calls : List Call → WriteCtx S → WriteCtx S
  on_calls [] st = st
  on_calls (c ∷ cs) st = on_call c (on_calls cs st)

  -- The calls that the parser makes on its way to a new state.
  abbrev pub fresh_calls : SseParser → SseParser → List Call
  fresh_calls old new = take (length new.calls - length old.calls) new.calls

  abbrev pub parse_to : SseParser → WriteCtx S → WriteCtx S
  parse_to new st = on_calls (fresh_calls st.parser new) (record st { parser = new })

  unfoldable pub curl_write : Text → WriteCtx S → Option (WriteCtx S)
  unfolding feed
  curl_write bytes st =
      if cb.is_cancelled st.caller then none else some (parse_to (feed bytes st.parser) st)

  abbrev pub cancel_if : Bool → WriteCtx S → WriteCtx S
  cancel_if c st = if c then record st { caller = cb.cancel st.caller } else st

  abbrev pub resume : (WriteCtx S → WriteCtx S) → WriteCtx S → Option (WriteCtx S) → WriteCtx S
  resume k st none = st
  resume k st (some st') = k st'

  -- `curl_easy_perform`: a write that takes nothing ends the transfer.
  unfoldable pub perform : List (Bool × Text) → WriteCtx S → WriteCtx S
  unfolding curl_write
  perform [] st = st
  perform ((c, bytes) ∷ writes) st =
      let st' = cancel_if c st in resume (perform writes) st' (curl_write bytes st')

  abbrev pub finish_of : TurnId → Transfer → WriteCtx S → LlmFinish
  finish_of turn t st =
      let cancelled = cb.is_cancelled st.caller in
      record {
        turn = turn;
        cancelled = cancelled;
        error =
            if cancelled then false else if not t.curl_ok then true else not (t.http_status == 200);
        tokens_generated = st.tokens_generated;
      }

  abbrev pub report : TurnId → Transfer → WriteCtx S → S × List Event
  report turn t st =
      let f = finish_of turn t st in
      (cb.on_finished f st.caller, llm_finished turn f.cancelled f.tokens_generated ∷ [])

  -- Behind the transfer: what is left in the parser, then the end.
  unfoldable pub wind_up : TurnId → Transfer → WriteCtx S → S × List Event
  unfolding finish
  wind_up turn t st = report turn t (parse_to (finish st.parser) st)

  -- The caller behind the call, and what is published at its end: nothing where there is no handle.
  unfoldable pub submit : TurnId → Transfer → S → S × List Event
  unfolding perform sse_parser wind_up
  submit turn t caller =
      if not t.handle
      then (
        cb.on_finished
            (record { turn = turn; cancelled = false; error = true; tokens_generated = 0 }) caller,
        [],
      )
      else wind_up turn t (
          cancel_if t.late_cancel (
            perform t.writes
              (record { parser = sse_parser; tokens_generated = 0; caller = caller })))
