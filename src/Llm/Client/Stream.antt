-- ===== src/Llm/Client/Stream.antt =====
-- src/llm/client.cpp: which contents reach the caller.
use lclva.Prelude.{
  ℕ, ◌+◌, ◌-◌, ◌≡◌, refl, sym, ap, ap₂, ◌∙◌, List, [], ◌∷◌, ◌++◌, append-nil, append_assoc, Option,
  none, some, Bool, true, false, not, if◌then◌else◌, ◌==◌, length, length-append, take, drop, zero,
  suc, take-append, u64, All, arith, if_false,
}
use lclva.Event.Types.{TurnId, Event, llm_finished}
use lclva.Llm.SseParser.{
  Text, Call, on_data, on_done, on_comment, SseParser, sse_parser, feed, finish, Line, ignored,
  comment, data_line, k_done_sentinel, read_line, on_line, emit_lines, emit_event, lines,
  on_boundary, find_event_boundary, drain,
}
use lclva.Llm.SseParser.Chunks.{feed-append}
use lclva.Llm.SseParser.Frames.{frame, frames, IsPayload, data_calls, feed-frames}
use lclva.Llm.Client.{
  LlmFinish, LlmCallbacks, Transfer, WriteCtx, on_content, on_call, on_calls, parse_to, curl_write,
  resume, perform, report, wind_up, submit,
}

-- The parser only ever adds calls.
abbrev Adds : SseParser → SseParser → Type 0
Adds old new = (cs : List Call) × (new.calls ≡ cs ++ old.calls)

if-Adds : (b : Bool) (old x y : SseParser) → Adds old x → Adds old y → Adds old (if b then x else y)
if-Adds true old x y p q = p
if-Adds false old x y p q = q

Adds-trans : (a b c : SseParser) → Adds a b → Adds b c → Adds a c
Adds-trans a b c (x, p) (y, q) = (y ++ x, q ∙ ap (λ l. y ++ l) p ∙ sym (append_assoc y x a.calls))

on_line-Adds : (l : Line) (s : SseParser) → Adds s (on_line l s)
unfolding on_line
on_line-Adds ignored s = ([], refl)
on_line-Adds (comment line) s = (on_comment line ∷ [], refl)
on_line-Adds (data_line payload) s =
    if-Adds _ s _ _ (on_done ∷ [], refl) (on_data payload ∷ [], refl)

emit_lines-Adds : (ls : List Text) (s : SseParser) → Adds s (emit_lines ls s)
unfolding emit_lines
emit_lines-Adds [] s = ([], refl)
emit_lines-Adds (l ∷ ls) s =
    let s' = on_line (read_line l) s in
    let a = on_line-Adds (read_line l) s in
    if-Adds s'.done_seen s s' (emit_lines ls s') a
      (Adds-trans s s' (emit_lines ls s') a (emit_lines-Adds ls s'))

on_boundary-Adds :
    (o : Option ℕ) (k : SseParser → SseParser) (s : SseParser)
    → ((s' : SseParser) → Adds s' (k s'))
    → Adds s (on_boundary o k s)
unfolding on_boundary emit_event
on_boundary-Adds none k s h = ([], refl)
on_boundary-Adds (some pos) k s h =
    let s' = emit_event (take pos s.buffer) s in
    let a : Adds s s' = emit_lines-Adds (lines (take pos s.buffer)) s in
    let left : SseParser = record s' { buffer = drop (pos + 2) s.buffer } in
    if-Adds s'.done_seen s _ _ a (Adds-trans s left (k left) a (h left))

drain-Adds : (n : ℕ) (s : SseParser) → Adds s (drain n s)
unfolding drain
drain-Adds zero s = ([], refl)
drain-Adds (suc n) s = on_boundary-Adds (find_event_boundary s.buffer) (drain n) s (drain-Adds n)

feed-Adds : (bytes : Text) (s : SseParser) → Adds s (feed bytes s)
unfolding feed
feed-Adds bytes s =
    let s' : SseParser = record s { buffer = s.buffer ++ bytes } in
    if-Adds s.done_seen s s _ ([], refl) (drain-Adds (suc (length s'.buffer)) s')

finish-Adds : (s : SseParser) → Adds s (finish s)
unfolding finish emit_event
finish-Adds s =
    if-Adds s.done_seen s s _ ([], refl)
      (if-Adds _ s _ s (emit_lines-Adds (lines s.buffer) s) ([], refl))

-- The contents of the payloads that have one.
abbrev cons_content : Option Text → List Text → List Text
cons_content none ts = ts
cons_content (some []) ts = ts
cons_content (some (c ∷ s)) ts = (c ∷ s) ∷ ts

abbrev pub contents : (Text → Option Text) → List Text → List Text
contents read [] = []
contents read (p ∷ ps) = cons_content (read p) (contents read ps)

abbrev pub joined : List Text → Text
joined [] = []
joined (s ∷ ss) = s ++ joined ss

unfoldable feed_all : List Text → SseParser → SseParser
feed_all [] p = p
feed_all (b ∷ bs) p = feed_all bs (feed b p)

feed_all-joined :
    (b : Text) (bs : List Text) (p : SseParser) → feed_all bs (feed b p) ≡ feed (b ++ joined bs) p
unfolding feed_all
feed_all-joined b [] p = ap (λ (x : Text). feed x p) (sym (append-nil b))
feed_all-joined b (b' ∷ bs) p =
    ap (feed_all bs) (sym (feed-append b b' p))
    ∙ feed_all-joined (b ++ b') bs p
    ∙ ap (λ (x : Text). feed x p) (append_assoc b b' (joined bs))

-- Writes that no other thread cancels.
abbrev pub quiet : List Text → List (Bool × Text)
quiet [] = []
quiet (b ∷ bs) = (false, b) ∷ quiet bs

module _ {S : Type 0} (read_content : Text → Option Text) (cb : LlmCallbacks S) where
  -- The caller behind some tokens.
  abbrev pub tell : List Text → S → S
  tell [] s = s
  tell (t ∷ ts) s = tell ts (cb.on_token t s)

  -- The state of a call whose parser has made its calls.
  unfoldable replay : SseParser → S → WriteCtx S
  replay p s =
      on_calls read_content cb p.calls (record { parser = p; tokens_generated = 0; caller = s })

  unfoldable with_parser : SseParser → WriteCtx S → WriteCtx S
  with_parser p st = record st { parser = p }

  on_content-parser :
      (o : Option Text) (p : SseParser) (st : WriteCtx S)
      → on_content read_content cb o (with_parser p st)
        ≡ with_parser p (on_content read_content cb o st)
  unfolding with_parser
  on_content-parser none p st = refl
  on_content-parser (some []) p st = refl
  on_content-parser (some (c ∷ s)) p st = refl

  on_calls-parser :
      (cs : List Call) (p : SseParser) (st : WriteCtx S)
      → on_calls read_content cb cs (with_parser p st)
        ≡ with_parser p (on_calls read_content cb cs st)
  unfolding with_parser
  on_calls-parser [] p st = refl
  on_calls-parser (on_data payload ∷ cs) p st =
      ap (on_content read_content cb (read_content payload)) (on_calls-parser cs p st)
      ∙ on_content-parser (read_content payload) p (on_calls read_content cb cs st)
  on_calls-parser (on_done ∷ cs) p st = on_calls-parser cs p st
  on_calls-parser (on_comment line ∷ cs) p st = on_calls-parser cs p st

  on_calls-append :
      (xs ys : List Call) (st : WriteCtx S)
      → on_calls read_content cb (xs ++ ys) st
        ≡ on_calls read_content cb xs (on_calls read_content cb ys st)
  on_calls-append [] ys st = refl
  on_calls-append (c ∷ xs) ys st = ap (on_call read_content cb c) (on_calls-append xs ys st)

  replay-parser : (p : SseParser) (s : S) → (replay p s).parser ≡ p
  unfolding replay with_parser
  replay-parser p s =
      ap (λ (x : WriteCtx S). x.parser)
        (on_calls-parser p.calls p (record { parser = p; tokens_generated = 0; caller = s }))

  parse_to-replay :
      (old new : SseParser) (s : S)
      → Adds old new
      → parse_to read_content cb new (replay old s) ≡ replay new s
  unfolding replay with_parser
  parse_to-replay old new s (xs, e) =
      let st : WriteCtx S = record { parser = old; tokens_generated = 0; caller = s } in
      let st' : WriteCtx S = record { parser = new; tokens_generated = 0; caller = s } in
      let n = length new.calls - length (replay old s).parser.calls in
      let m : length xs ≡ n = omega (
        arith,
        ap (λ (x : SseParser). length x.calls) (replay-parser old s),
        ap length e,
        length-append xs old.calls,
      ) in
      let fresh : take n new.calls ≡ xs = ap (take n) e ∙ take-append xs old.calls n m in
      ap (λ l. on_calls read_content cb l (with_parser new (replay old s))) fresh
      ∙ ap (on_calls read_content cb xs) (sym (on_calls-parser old.calls new st))
      ∙ sym (on_calls-append xs old.calls st')
      ∙ ap (λ l. on_calls read_content cb l st') (sym e)

  curl_write-live :
      (s : S) (b : Text) (p : SseParser)
      → cb.is_cancelled (replay p s).caller ≡ false
      → curl_write read_content cb b (replay p s) ≡ some (replay (feed b p) s)
  unfolding curl_write
  curl_write-live s b p live =
      if_false (cb.is_cancelled (replay p s).caller) none
        (some (parse_to read_content cb (feed b (replay p s).parser) (replay p s))) live
      ∙ ap (λ (x : SseParser). some (parse_to read_content cb (feed b x) (replay p s)))
          (replay-parser p s)
      ∙ ap (λ x. some x) (parse_to-replay p (feed b p) s (feed-Adds b p))

  -- A caller that stays in states in which its token is not cancelled.
  module _ (Calm : S → Type 0) (s : S) (start : Calm s)
      (live : (x : S) → Calm x → cb.is_cancelled x ≡ false)
      (alive : (t : Text) (x : S) → Calm x → Calm (cb.on_token t x)) where
    on_content-alive :
        (o : Option Text) (st : WriteCtx S)
        → Calm st.caller
        → Calm (on_content read_content cb o st).caller
    on_content-alive none st h = h
    on_content-alive (some []) st h = h
    on_content-alive (some (c ∷ t)) st h = alive (c ∷ t) st.caller h

    on_calls-alive :
        (cs : List Call) (st : WriteCtx S)
        → Calm st.caller
        → Calm (on_calls read_content cb cs st).caller
    on_calls-alive [] st h = h
    on_calls-alive (on_data payload ∷ cs) st h =
        on_content-alive (read_content payload) (on_calls read_content cb cs st)
          (on_calls-alive cs st h)
    on_calls-alive (on_done ∷ cs) st h = on_calls-alive cs st h
    on_calls-alive (on_comment line ∷ cs) st h = on_calls-alive cs st h

    replay-alive : (p : SseParser) → cb.is_cancelled (replay p s).caller ≡ false
    unfolding replay
    replay-alive p =
        live (replay p s).caller
          (on_calls-alive p.calls (record { parser = p; tokens_generated = 0; caller = s }) start)

    perform-replay :
        (bs : List Text) (p : SseParser)
        → perform read_content cb (quiet bs) (replay p s) ≡ replay (feed_all bs p) s
    unfolding perform feed_all
    perform-replay [] p = refl
    perform-replay (b ∷ bs) p =
        ap (resume read_content cb (perform read_content cb (quiet bs)) (replay p s))
          (curl_write-live s b p (replay-alive p))
        ∙ perform-replay bs (feed b p)

  -- A caller whose token stays cancelled once it is: where it is live at the end, it was live before.
  module _ (s : S)
      (stays : (t : Text) (x : S)
        → cb.is_cancelled (cb.on_token t x) ≡ false
        → cb.is_cancelled x ≡ false) where
    on_content-live :
        (o : Option Text) (st : WriteCtx S)
        → cb.is_cancelled (on_content read_content cb o st).caller ≡ false
        → cb.is_cancelled st.caller ≡ false
    on_content-live none st h = h
    on_content-live (some []) st h = h
    on_content-live (some (c ∷ t)) st h = stays (c ∷ t) st.caller h

    on_calls-live :
        (cs : List Call) (st : WriteCtx S)
        → cb.is_cancelled (on_calls read_content cb cs st).caller ≡ false
        → cb.is_cancelled st.caller ≡ false
    on_calls-live [] st h = h
    on_calls-live (on_data payload ∷ cs) st h =
        on_calls-live cs st
          (on_content-live (read_content payload) (on_calls read_content cb cs st) h)
    on_calls-live (on_done ∷ cs) st h = on_calls-live cs st h
    on_calls-live (on_comment line ∷ cs) st h = on_calls-live cs st h

    replay-live :
        (old new : SseParser)
        → Adds old new
        → cb.is_cancelled (replay new s).caller ≡ false
        → cb.is_cancelled (replay old s).caller ≡ false
    unfolding replay with_parser
    replay-live old new (xs, e) h =
        let st : WriteCtx S = record { parser = old; tokens_generated = 0; caller = s } in
        let st' : WriteCtx S = record { parser = new; tokens_generated = 0; caller = s } in
        let split : on_calls read_content cb new.calls st'
            ≡ on_calls read_content cb xs (on_calls read_content cb old.calls st') =
          ap (λ l. on_calls read_content cb l st') e ∙ on_calls-append xs old.calls st' in
        let before =
          on_calls-live xs (on_calls read_content cb old.calls st')
            (ap (λ (x : WriteCtx S). cb.is_cancelled x.caller) (sym split) ∙ h) in
        ap (λ (x : WriteCtx S). cb.is_cancelled x.caller) (sym (on_calls-parser old.calls new st))
        ∙ before

    feed_all-live :
        (bs : List Text) (p : SseParser)
        → cb.is_cancelled (replay (feed_all bs p) s).caller ≡ false
        → cb.is_cancelled (replay p s).caller ≡ false
    unfolding feed_all
    feed_all-live [] p h = h
    feed_all-live (b ∷ bs) p h =
        replay-live p (feed b p) (feed-Adds b p) (feed_all-live bs (feed b p) h)

    perform-live :
        (bs : List Text) (p : SseParser)
        → cb.is_cancelled (replay (feed_all bs p) s).caller ≡ false
        → perform read_content cb (quiet bs) (replay p s) ≡ replay (feed_all bs p) s
    unfolding perform feed_all
    perform-live [] p h = refl
    perform-live (b ∷ bs) p h =
        ap (resume read_content cb (perform read_content cb (quiet bs)) (replay p s))
          (curl_write-live s b p (feed_all-live (b ∷ bs) p h))
        ∙ perform-live bs (feed b p) h

  -- The contents, told one by one.
  on_content-tell :
      (o : Option Text) (st : WriteCtx S) (ts : List Text)
      → tell ts (on_content read_content cb o st).caller ≡ tell (cons_content o ts) st.caller
  on_content-tell none st ts = refl
  on_content-tell (some []) st ts = refl
  on_content-tell (some (c ∷ t)) st ts = refl

  data_calls-tell :
      (ps : List Text) (cs : List Call) (st : WriteCtx S)
      → (on_calls read_content cb (data_calls ps cs) st).caller
        ≡ tell (contents read_content ps) (on_calls read_content cb cs st).caller
  data_calls-tell [] cs st = refl
  data_calls-tell (p ∷ ps) cs st =
      data_calls-tell ps (on_data p ∷ cs) st
      ∙ on_content-tell (read_content p) (on_calls read_content cb cs st) (contents read_content ps)

  count_content :
      (o : Option Text) (st : WriteCtx S) (ts : List Text) (n : ℕ)
      → st.tokens_generated ≡ u64 n
      → (m : ℕ) × ((on_content read_content cb o st).tokens_generated ≡ u64 m)
        × (m + length ts ≡ n + length (cons_content o ts))
  count_content none st ts n e = (n, e, refl)
  count_content (some []) st ts n e = (n, e, refl)
  count_content (some (c ∷ t)) st ts n e = (n + 1, omega (arith, e), omega arith)

  data_calls-count :
      (ps : List Text) (cs : List Call) (st : WriteCtx S) (n : ℕ)
      → (on_calls read_content cb cs st).tokens_generated ≡ u64 n
      → (on_calls read_content cb (data_calls ps cs) st).tokens_generated
        ≡ u64 (n + length (contents read_content ps))
  data_calls-count [] cs st n e = e ∙ ap u64 {x = n} {y = n + 0} (omega arith)
  data_calls-count (p ∷ ps) cs st n e =
      let (m, e', k) =
        count_content (read_content p) (on_calls read_content cb cs st) (contents read_content ps) n
          e in
      data_calls-count ps (on_data p ∷ cs) st m e' ∙ ap u64 k

  -- The end of a call that nobody cancels.
  report_lem :
      (turn : TurnId) (t : Transfer) (st : WriteCtx S) (n : ℕ) (x : S)
      → cb.is_cancelled st.caller ≡ false
      → st.tokens_generated ≡ n
      → st.caller ≡ x
      → report read_content cb turn t st ≡ (
        cb.on_finished
            (record {
              turn = turn;
              cancelled = false;
              error = if not t.curl_ok then true else not (t.http_status == 200);
              tokens_generated = n;
            })
            x,
        llm_finished turn false n ∷ [],
      )
  report_lem turn t st n x c e p =
      let g : Bool → ℕ → S → S × List Event = λ b k y. (
        cb.on_finished
            (record {
              turn = turn;
              cancelled = b;
              error =
                  if b then false else if not t.curl_ok then true else not (t.http_status == 200);
              tokens_generated = k;
            })
            y,
        llm_finished turn b k ∷ [],
      ) in
      ap (λ b. g b st.tokens_generated st.caller) c ∙ ap₂ (g false) e p

  wound_up :
      (turn : TurnId) (t : Transfer) (s : S) (ps : List Text)
      → let p : SseParser = record {
        buffer = [];
        done_seen = true;
        calls = on_done ∷ data_calls ps [];
      } in
        cb.is_cancelled (replay p s).caller ≡ false
        → let ts = contents read_content ps in
          let f : LlmFinish = record {
            turn = turn;
            cancelled = false;
            error = if not t.curl_ok then true else not (t.http_status == 200);
            tokens_generated = u64 (length ts);
          } in
          wind_up read_content cb turn t (
            replay (record { buffer = []; done_seen = true; calls = on_done ∷ data_calls ps [] }) s)
          ≡ (cb.on_finished f (tell ts s), llm_finished turn false (u64 (length ts)) ∷ [])
  unfolding wind_up finish replay
  wound_up turn t s ps live =
      let p : SseParser = record {
        buffer = [];
        done_seen = true;
        calls = on_done ∷ data_calls ps [];
      } in
      let st : WriteCtx S = record { parser = sse_parser; tokens_generated = 0; caller = s } in
      ap
        (λ (x : SseParser).
          report read_content cb turn t (parse_to read_content cb (finish x) (replay p s)))
        (replay-parser p s)
      ∙ ap (report read_content cb turn t) (parse_to-replay p p s ([], refl))
      ∙ report_lem turn t (replay p s) (u64 (length (contents read_content ps)))
          (tell (contents read_content ps) s) live
          (data_calls-count ps [] (record { parser = p; tokens_generated = 0; caller = s }) 0 refl
            ∙ ap u64 {x = 0 + length (contents read_content ps)} (omega arith))
          (data_calls-tell ps [] (record { parser = p; tokens_generated = 0; caller = s }))

  -- What the server frames, ended by the sentinel, and anything behind it, in whatever pieces it is
  -- written: the caller is told the contents of the payloads, once each and in order, then how the
  -- transfer ended, and the end of the stream is published as not cancelled, with the number of contents.
  -- No other thread cancels the token, and the caller stays in states in which it is not cancelled.
  pub submit_streams :
      (turn : TurnId) (Calm : S → Type 0) (s : S) (ps : List Text) (rest b : Text) (bs : List Text)
      (curl_ok : Bool) (http_status : ℕ)
      → All IsPayload ps
      → b ++ joined bs ≡ frames ps ++ (frame k_done_sentinel ++ rest)
      → Calm s
      → ((x : S) → Calm x → cb.is_cancelled x ≡ false)
      → ((t : Text) (x : S) → Calm x → Calm (cb.on_token t x))
      → let ts = contents read_content ps in
        let f : LlmFinish = record {
          turn = turn;
          cancelled = false;
          error = if not curl_ok then true else not (http_status == 200);
          tokens_generated = u64 (length ts);
        } in
        submit read_content cb turn
          (record {
            handle = true;
            writes = quiet (b ∷ bs);
            late_cancel = false;
            curl_ok = curl_ok;
            http_status = http_status;
          })
          s
        ≡ (cb.on_finished f (tell ts s), llm_finished turn false (u64 (length ts)) ∷ [])
  unfolding submit feed_all replay
  submit_streams turn Calm s ps rest b bs ok status a e start live alive =
      let t : Transfer = record {
        handle = true;
        writes = quiet (b ∷ bs);
        late_cancel = false;
        curl_ok = ok;
        http_status = status;
      } in
      let p : SseParser = record {
        buffer = [];
        done_seen = true;
        calls = on_done ∷ data_calls ps [];
      } in
      let performed : perform read_content cb (quiet (b ∷ bs)) (replay sse_parser s) ≡ replay p s =
        perform-replay Calm s start live alive (b ∷ bs) sse_parser
        ∙ ap (λ (x : SseParser). replay x s)
            (feed_all-joined b bs sse_parser
              ∙ ap (λ (x : Text). feed x sse_parser) e
              ∙ feed-frames ps rest a) in
      ap (wind_up read_content cb turn t) performed
      ∙ wound_up turn t s ps (replay-alive Calm s start live alive p)

  -- The same for a caller that may come to be cancelled by some tokens, but not by those of this stream.
  pub submit_streams_live :
      (turn : TurnId) (s : S) (ps : List Text) (rest b : Text) (bs : List Text) (curl_ok : Bool)
      (http_status : ℕ)
      → All IsPayload ps
      → b ++ joined bs ≡ frames ps ++ (frame k_done_sentinel ++ rest)
      → ((t : Text) (x : S) → cb.is_cancelled (cb.on_token t x) ≡ false → cb.is_cancelled x ≡ false)
      → cb.is_cancelled (tell (contents read_content ps) s) ≡ false
      → let ts = contents read_content ps in
        let f : LlmFinish = record {
          turn = turn;
          cancelled = false;
          error = if not curl_ok then true else not (http_status == 200);
          tokens_generated = u64 (length ts);
        } in
        submit read_content cb turn
          (record {
            handle = true;
            writes = quiet (b ∷ bs);
            late_cancel = false;
            curl_ok = curl_ok;
            http_status = http_status;
          })
          s
        ≡ (cb.on_finished f (tell ts s), llm_finished turn false (u64 (length ts)) ∷ [])
  unfolding submit feed_all replay
  submit_streams_live turn s ps rest b bs ok status a e stays live =
      let t : Transfer = record {
        handle = true;
        writes = quiet (b ∷ bs);
        late_cancel = false;
        curl_ok = ok;
        http_status = status;
      } in
      let p : SseParser = record {
        buffer = [];
        done_seen = true;
        calls = on_done ∷ data_calls ps [];
      } in
      let parsed : feed_all (b ∷ bs) sse_parser ≡ p =
        feed_all-joined b bs sse_parser
        ∙ ap (λ (x : Text). feed x sse_parser) e
        ∙ feed-frames ps rest a in
      let told : cb.is_cancelled (replay p s).caller ≡ false =
        ap cb.is_cancelled
          (data_calls-tell ps [] (record { parser = p; tokens_generated = 0; caller = s }))
        ∙ live in
      let performed : perform read_content cb (quiet (b ∷ bs)) (replay sse_parser s) ≡ replay p s =
        perform-live s stays (b ∷ bs) sse_parser
          (ap (λ (x : SseParser). cb.is_cancelled (replay x s).caller) parsed ∙ told)
        ∙ ap (λ (x : SseParser). replay x s) parsed in
      ap (wind_up read_content cb turn t) performed ∙ wound_up turn t s ps told
