-- ===== src/Dialogue/Manager/Answer.antt =====
-- src/dialogue/manager.cpp, with llm/client.cpp under it: what a whole round of the I/O thread publishes.
use lclva.Prelude.{
  ℕ, ◌+◌, ◌<◌, ◌≤◌, ◌^◌, ◌≡◌, refl, sym, ap, subst, ◌∙◌, List, [], ◌∷◌, ◌++◌, append-nil, Option,
  none, some, Bool, true, false, not, if◌then◌else◌, ◌==◌, u64, arith, length, All,
}
use lclva.Event.Types.{TurnId, llm_finished}
use lclva.Dialogue.Turn.{TurnFactory, TokenStore, mint, adopt, make_token}
use lclva.Dialogue.SentenceSplitter.{Text, sentence_splitter, flush}
use lclva.Dialogue.SentenceSplitter.Kept.{push_all}
use lclva.Dialogue.SentenceSplitter.Output.{onto}
use lclva.Llm.SseParser.{k_done_sentinel}
use lclva.Llm.SseParser.Frames.{frame, frames, IsPayload}
use lclva.Llm.Client.{LlmFinish, Transfer, submit}
use lclva.Llm.Client.Stream.{contents, joined, quiet, tell, submit_streams_live}
use lclva.Dialogue.Manager.{
  llm_started, llm_finished as finished, Config, Transcript, Manager, callbacks, context, address,
  language, opening, closing, run_one, Reply,
}
use lclva.Dialogue.Manager.Sentences.{seen, numbered, Streams, tell-Streams, on_finished-Published}
use lclva.Dialogue.Manager.Room.{
  flush_grows, on_token-stays, plain, Open, tell_room, on_finished_room,
}

-- A turn begins with a token that is not cancelled.
pub context_live :
    (provided : Option TurnId) (now : ℕ) (turns : TurnFactory) (tokens : TokenStore)
    → let (ctx, _, tokens') = context provided now turns tokens in
      tokens'.cancelled (address ctx) ≡ false
unfolding context mint adopt make_token
context_live none now turns tokens = ground arith
context_live (some id) now turns tokens = ground arith

-- The sentences that a splitter makes of some tokens, all told.
abbrev pub split_all : Config → List Text → List Text
split_all cfg ts =
    (flush (push_all ts (sentence_splitter cfg.detect_code_fences cfg.max_sentence_chars))).out

-- A server that streams contents in frames and ends them with the sentinel, however its bytes are cut.
abbrev pub streamed : Text → List Text → Bool → ℕ → Transfer
streamed b bs curl_ok http_status = record {
  handle = true;
  writes = quiet (b ∷ bs);
  late_cancel = false;
  curl_ok = curl_ok;
  http_status = http_status;
}

opening-Streams :
    (turn : TurnId) (token : ℕ) (lang : Text) (tokens : TokenStore) (m : Manager)
    → tokens.cancelled token ≡ false
    → Streams turn token lang
        (seen m.actions ++ llm_started turn ∷ [])
        (sentence_splitter m.cfg.detect_code_fences m.cfg.max_sentence_chars)
        (opening turn tokens m)
unfolding opening sentence_splitter onto
opening-Streams turn token lang tokens m live = (
  refl,
  record {
    below = refl;
    published =
        ap (λ l. l ++ llm_started turn ∷ []) (append-nil (seen m.actions))
        ∙ sym (append-nil (seen m.actions ++ llm_started turn ∷ []));
    seq_is = refl;
    token_is = live;
  },
)

reply_published :
    (read : Text → Option Text) (m : Manager) (ps : List Text) (rest b : Text) (bs : List Text)
    (curl_ok : Bool) (http_status : ℕ) (turn : TurnId) (token : ℕ) (lang : Text)
    (turns : TurnFactory) (tokens : TokenStore) (cap : ℕ)
    → tokens.cancelled token ≡ false
    → cap + 1 < 2 ^ 32
    → length (split_all m.cfg (contents read ps)) ≤ cap
    → All IsPayload ps
    → b ++ joined bs ≡ frames ps ++ (frame k_done_sentinel ++ rest)
    → let ts = contents read ps in
      seen
        (closing turns m (
          submit read
            (callbacks turn token lang cap)
            turn
            (streamed b bs curl_ok http_status)
            (opening turn tokens m))).actions
      ≡ (seen m.actions ++ llm_started turn ∷ [])
        ++ numbered turn lang 0 (split_all m.cfg ts)
        ++ finished (llm_finished turn false (u64 (length ts))) ∷ []
unfolding opening
reply_published read m ps rest b bs ok status turn token lang turns tokens cap live small fits a e =
    let cb = callbacks turn token lang cap in
    let cb₀ = callbacks turn token lang 0 in
    let ts = contents read ps in
    let start = opening turn tokens m in
    let log = seen m.actions ++ llm_started turn ∷ [] in
    let split = sentence_splitter m.cfg.detect_code_fences m.cfg.max_sentence_chars in
    let f : LlmFinish = record {
      turn = turn;
      cancelled = false;
      error = if not ok then true else not (status == 200);
      tokens_generated = u64 (length ts);
    } in
    let begun = opening-Streams turn token lang tokens m live in
    let told = tell-Streams turn token lang read log ts split start begun in
    let open_ : Open turn token lang cap start = record { live = refl; reached = λ h. cc } in
    let end = push_all ts split in
    let short : length end.out ≤ cap = omega (arith, fits, flush_grows end) in
    let (same, _) = tell_room turn token lang cap small read log ts split start begun open_ short in
    let done = tell read cb ts start in
    let done-Streams = subst (Streams turn token lang log end) (sym same) told in
    let p =
      on_finished-Published turn token lang log f end (plain turn token lang cap done)
        done-Streams in
    let last = on_finished_room turn token lang cap small log f end done done-Streams fits in
    let streams =
      submit_streams_live read cb turn start ps rest b bs ok status a e
        (on_token-stays turn token lang cap) done-Streams.1.token_is in
    let fin = finished (llm_finished turn false (u64 (length ts))) ∷ [] in
    ap (λ x. seen (closing turns m x).actions) streams
    ∙ ap (λ (x : Reply). seen x.actions ++ fin) last
    ∙ ap (λ l. l ++ fin) p.published

-- Where the splitter makes no more sentences of the contents than the cap, which is less than 2 ^ 32 - 1, and
-- no other thread cancels the turn, one round publishes the start
-- of the turn, the sentences that the splitter makes of the contents, all of them, in order and numbered
-- from 0, and the end of the stream, not cancelled and with the number of contents.
pub answer_published :
    (provided : Option TurnId) (now : ℕ) (read : Text → Option Text) (e : Transcript) (m : Manager)
    (ps : List Text) (rest b : Text) (bs : List Text) (curl_ok : Bool) (http_status : ℕ)
    → m.cfg.max_assistant_sentences + 1 < 2 ^ 32
    → length (split_all m.cfg (contents read ps)) ≤ m.cfg.max_assistant_sentences
    → All IsPayload ps
    → b ++ joined bs ≡ frames ps ++ (frame k_done_sentinel ++ rest)
    → let m' = run_one provided now read (streamed b bs curl_ok http_status) e m in
      let turn = (context provided now m.turns m.tokens).0.id in
      let ts = contents read ps in
      seen m'.actions
      ≡ (seen m.actions ++ llm_started turn ∷ [])
        ++ numbered turn (language m.cfg e.lang) 0 (split_all m.cfg ts)
        ++ finished (llm_finished turn false (u64 (length ts))) ∷ []
unfolding run_one
answer_published provided now read e m ps rest b bs ok status small fits a joined_is =
    let (ctx, turns', tokens') = context provided now m.turns m.tokens in
    reply_published read m ps rest b bs ok status ctx.id (address ctx) (language m.cfg e.lang)
      turns' tokens' m.cfg.max_assistant_sentences (context_live provided now m.turns m.tokens)
      small fits a joined_is
