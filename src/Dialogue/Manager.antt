-- ===== src/Dialogue/Manager.antt =====
-- src/dialogue/manager.cpp: from a final transcript to the sentences of the answer. Subscriber and I/O
-- thread each work on the state in critical sections, which are functions here. What the manager does to
-- others is logged in `actions`, the newest first. The gate predicate, the turn that the machine has
-- active and the transfer of the language model are arguments; the prompt is part of the transfer.
pub mod Sentences
pub mod Room
pub mod Answer
pub mod Memory
pub mod Cap
mod Tests
use lclva.Prelude.{
  ℕ, ◌+◌, ◌-◌, List, [], ◌∷◌, Option, none, some, Bool, true, false, not, ◌&&◌, ◌||◌, if◌then◌else◌,
  ◌==◌, leb, ltb, length, u32, u64,
}
use lclva.Event.Types.{TurnId, k_no_turn, Event}
use lclva.Dialogue.Turn.{
  TurnContext, no_context, valid, TurnFactory, TokenStore, mint, adopt, cancel,
}
use lclva.Dialogue.SentenceSplitter.{Text, SentenceSplitter, sentence_splitter, push, flush}
use lclva.Llm.Client.{LlmFinish, LlmCallbacks, Transfer, submit}

-- Calls of the hook and publications, with their texts.
pub data Action : Type 0 where
  turn_started_hook : TurnId → Action
  llm_started : TurnId → Action
  llm_sentence : TurnId → (seq : ℕ) (text lang : Text) → Action
  llm_token : TurnId → (token : Text) → Action
  llm_finished : Event → Action
  user_interrupted : TurnId → Action

-- The number of bytes that a first byte announces.
abbrev step_of : ℕ → ℕ
step_of b =
    if ltb b 128
    then 1
    else if ltb b 192
    then 4
    else if ltb b 224
    then 2
    else if ltb b 240
    then 3
    else 4

abbrev is_visible : ℕ → Bool
is_visible b = if ltb b 128 then ltb 32 b && not (b == 127) else true

-- The loop over the code points: `skip` bytes of the present one are left.
unfoldable pub visible_from : ℕ → Text → ℕ
visible_from skip [] = 0
visible_from skip (b ∷ s) =
    let inside = leb 1 skip in
    let rest = visible_from (if inside then skip - 1 else step_of b - 1) s in
    if not inside && is_visible b then rest + 1 else rest

unfoldable pub normalised_visible_chars : Text → ℕ
unfolding visible_from
normalised_visible_chars s = visible_from 0 s

pub record Transcript : Type 0 where
  pub turn : TurnId
  pub text : Text
  pub lang : Text

pub record Config : Type 0 where
  pub min_real_utterance_chars : ℕ
  pub fallback_language : Text
  pub max_assistant_sentences : ℕ  -- std::uint32_t
  pub detect_code_fences : Bool
  pub max_sentence_chars : ℕ

pub record Manager : Type 0 where
  pub cfg : Config
  pub pending : Option Transcript
  pub stopping : Bool
  pub active : TurnContext
  pub gated_turns : ℕ  -- std::uint64_t
  pub turns : TurnFactory
  pub tokens : TokenStore
  pub actions : List Action

-- What the gate predicate does.
pub data Gate : Type 0 where
  not_installed throws : Gate
  says : Bool → Gate

unfoldable pub gate_open : Gate → Bool
gate_open not_installed = true
gate_open throws = true
gate_open (says b) = b

unfoldable pub cancel_active : TurnId → Manager → Manager
unfolding valid cancel
cancel_active target m =
    if not (valid m.active)
    then m
    else if not (target == k_no_turn) && not (target == m.active.id)
    then m
    else elim m.active.token [ none ↦ m | some a ↦ record m { tokens = cancel a m.tokens } ]

-- A transcript that still waits is replaced.
unfoldable pub enqueue_turn : Transcript → Manager → Manager
enqueue_turn e m = record m { pending = some e }

-- The events that `on_event` looks at.
pub data Input : Type 0 where
  final_transcript : Transcript → Input
  user_interrupted cancel_generation : TurnId → Input
  other : Input

unfoldable pub too_short : Config → Text → Bool
unfolding normalised_visible_chars
too_short cfg text =
    let min_chars = cfg.min_real_utterance_chars in
    leb 1 min_chars && ltb (normalised_visible_chars text) min_chars

unfoldable pub on_event : Gate → Input → Manager → Manager
unfolding gate_open cancel_active enqueue_turn too_short
on_event gate (final_transcript e) m =
    if too_short m.cfg e.text
    then record m { actions = user_interrupted e.turn ∷ m.actions }
    else if not (gate_open gate)
    then record m {
      gated_turns = u64 (m.gated_turns + 1);
      actions = user_interrupted e.turn ∷ m.actions;
    }
    else enqueue_turn e m
on_event gate (user_interrupted turn) m = cancel_active turn m
on_event gate (cancel_generation turn) m = cancel_active turn m
on_event gate other m = m

-- The start of `stop`, and the flag that ends the I/O thread.
unfoldable pub stop : Manager → Manager
unfolding cancel_active
stop m = record (cancel_active k_no_turn m) { stopping = true }

-- `below` is the source's None.
pub data CapState : Type 0 where
  below pending cancelled : CapState

abbrev pub is_below : CapState → Bool
is_below CapState.below = true
is_below _ = false

abbrev pub is_pending : CapState → Bool
is_pending CapState.pending = true
is_pending _ = false

abbrev pub is_cancelled : CapState → Bool
is_cancelled CapState.cancelled = true
is_cancelled _ = false

-- The locals of `run_one` that its closures share, the tokens and what they publish.
pub record Reply : Type 0 where
  pub splitter : SentenceSplitter
  pub seq : ℕ  -- std::uint32_t
  pub cap_state : CapState
  pub tokens : TokenStore
  pub actions : List Action

module _ (turn : TurnId) (token : ℕ) (lang : Text) (cap : ℕ) where
  abbrev pub cap_backstop : ℕ
  cap_backstop = if leb 1 cap then u32 (cap + 1) else 0

  abbrev pub past_backstop : Reply → Bool
  past_backstop r = leb 1 cap_backstop && leb cap_backstop r.seq

  unfoldable pub request_cancel : Reply → Reply
  unfolding cancel
  request_cancel r =
      if is_cancelled r.cap_state
      then r
      else record r { cap_state = CapState.cancelled; tokens = cancel token r.tokens }

  unfoldable pub publish_sentence : Text → Reply → Reply
  publish_sentence s r = record r {
    seq = u32 (r.seq + 1);
    actions = llm_sentence turn r.seq s lang ∷ r.actions;
  }

  -- One round of the loop of `on_token`: the reply, and whether the loop goes on.
  unfoldable pub on_sentence : Text → Reply → Reply × Bool
  unfolding request_cancel publish_sentence
  on_sentence s r =
      if past_backstop r
      then (request_cancel r, false)
      else (let r' = publish_sentence s r in
          if is_below r'.cap_state && (leb 1 cap && leb cap r'.seq)
          then (record r' { cap_state = CapState.pending }, true)
          else if is_pending r'.cap_state
          then (request_cancel r', false)
          else (r', true))

  abbrev pub go_on : (Reply → Reply) → Reply × Bool → Reply
  go_on k (r, goes) = if goes then k r else r

  unfoldable pub on_sentences : List Text → Reply → Reply
  unfolding on_sentence
  on_sentences [] r = r
  on_sentences (s ∷ ss) r = go_on (on_sentences ss) (on_sentence s r)

  abbrev pub clear_out : SentenceSplitter → SentenceSplitter
  clear_out s = record s { out = [] }

  unfoldable pub on_token : Text → Reply → Reply
  unfolding on_sentences push
  on_token delta r =
      if is_cancelled r.cap_state
      then r
      else (let split = push delta (clear_out r.splitter) in
          let r' = on_sentences split.out (record r { splitter = split }) in
          if is_cancelled r'.cap_state
          then r'
          else record r' { actions = llm_token turn delta ∷ r'.actions })

  -- The loop of `on_finished`.
  unfoldable pub last_sentences : List Text → Reply → Reply
  unfolding publish_sentence
  last_sentences [] r = r
  last_sentences (s ∷ ss) r =
      let rest = last_sentences ss (publish_sentence s r) in if past_backstop r then r else rest

  unfoldable pub on_finished : LlmFinish → Reply → Reply
  unfolding last_sentences flush
  on_finished f r =
      let split = flush (clear_out r.splitter) in
      last_sentences split.out (record r { splitter = split })

  abbrev pub callbacks : LlmCallbacks Reply
  callbacks = record {
    on_token = on_token;
    on_finished = on_finished;
    is_cancelled = λ r. r.tokens.cancelled token;
    cancel = λ r. record r { tokens = cancel token r.tokens };
  }

-- The context of a turn: the one that the machine has active, or a new one.
unfoldable pub context :
    Option TurnId → ℕ → TurnFactory → TokenStore → TurnContext × TurnFactory × TokenStore
unfolding mint adopt
context none now turns tokens = mint turns tokens now
context (some id) now turns tokens =
    if id == k_no_turn
    then mint turns tokens now
    else (let (c, tokens') = adopt id tokens now in (c, turns, tokens'))

abbrev pub address : TurnContext → ℕ
address c = elim c.token [ none ↦ 0 | some a ↦ a ]

abbrev pub language : Config → Text → Text
language cfg [] = cfg.fallback_language
language cfg (c ∷ s) = c ∷ s

abbrev pub logged : List Event → List Action → List Action
logged [] log = log
logged (e ∷ es) log = logged es (llm_finished e ∷ log)

-- The locals at the call of the client: the turn has been announced.
unfoldable pub opening : TurnId → TokenStore → Manager → Reply
unfolding sentence_splitter
opening turn tokens m = record {
  splitter = sentence_splitter m.cfg.detect_code_fences m.cfg.max_sentence_chars;
  seq = 0;
  cap_state = CapState.below;
  tokens = tokens;
  actions = llm_started turn ∷ turn_started_hook turn ∷ m.actions;
}

abbrev pub closing : TurnFactory → Manager → Reply × List Event → Manager
closing turns m (r, published) = record m {
  active = no_context;
  turns = turns;
  tokens = r.tokens;
  actions = logged published r.actions;
}

-- `run_one`: what the provider says of the active turn, the time, the reader of the chunks and the
-- transfer are arguments. What the subscriber does in the meantime is its cancelling of the token, which
-- the transfer says.
unfoldable pub run_one :
    Option TurnId → ℕ → (Text → Option Text) → Transfer → Transcript → Manager → Manager
unfolding context opening submit
run_one provided now read_content transfer e m =
    let (ctx, turns', tokens') = context provided now m.turns m.tokens in
    let cb = callbacks ctx.id (address ctx) (language m.cfg e.lang) m.cfg.max_assistant_sentences in
    closing turns' m (submit read_content cb ctx.id transfer (opening ctx.id tokens' m))

-- One round of the I/O thread: none where it waits or ends.
unfoldable pub io_round :
    Option TurnId → ℕ → (Text → Option Text) → Transfer → Manager → Option Manager
unfolding run_one
io_round provided now read_content transfer m = elim m.pending [
  | none ↦ none
  | some job ↦ some (run_one provided now read_content transfer job (record m { pending = none }))
]
