-- ===== src/Dialogue/Manager/Sentences.antt =====
-- src/dialogue/manager.cpp: the answer without a cap is published sentence by sentence.
use lclva.Prelude.{
  ℕ, ◌+◌, ◌≡◌, refl, sym, ap, ap₂, subst, if_false, ◌∙◌, List, [], ◌∷◌, ◌++◌, append-nil,
  append_assoc, Option, true, false, if◌then◌else◌, u32, arith,
}
use lclva.Event.Types.{TurnId}
use lclva.Dialogue.Turn.{TokenStore}
use lclva.Dialogue.SentenceSplitter.{Text, SentenceSplitter, push, flush}
use lclva.Dialogue.SentenceSplitter.Kept.{push_all}
use lclva.Dialogue.SentenceSplitter.Output.{onto, push-onto, flush-onto}
use lclva.Dialogue.Manager.{
  Action, turn_started_hook, llm_started, llm_sentence, llm_token, llm_finished as finished,
  user_interrupted, CapState, Reply, on_sentence, on_sentences, publish_sentence, on_token,
  on_finished, last_sentences, is_cancelled, go_on, clear_out, callbacks,
}
use lclva.Llm.Client.{LlmFinish}
use lclva.Llm.Client.Stream.{tell}

-- The actions that are sentences, or the start or the end of a stream, the oldest first.
abbrev pub turn_events : Action → List Action
turn_events (turn_started_hook t) = []
turn_events (llm_started t) = llm_started t ∷ []
turn_events (llm_sentence t q s l) = llm_sentence t q s l ∷ []
turn_events (llm_token t s) = []
turn_events (finished e) = finished e ∷ []
turn_events (user_interrupted t) = []

abbrev pub seen : List Action → List Action
seen [] = []
seen (a ∷ log) = seen log ++ turn_events a

-- Sentences of a turn, numbered from a sequence number on.
abbrev pub numbered : TurnId → Text → ℕ → List Text → List Action
numbered turn lang q [] = []
numbered turn lang q (s ∷ ss) = llm_sentence turn q s lang ∷ numbered turn lang (u32 (q + 1)) ss

-- The number behind some sentences.
abbrev pub next_seq : ℕ → List Text → ℕ
next_seq q [] = q
next_seq q (s ∷ ss) = next_seq (u32 (q + 1)) ss

pub next_seq-append :
    (q : ℕ) (xs ys : List Text) → next_seq q (xs ++ ys) ≡ next_seq (next_seq q xs) ys
next_seq-append q [] ys = refl
next_seq-append q (x ∷ xs) ys = next_seq-append (u32 (q + 1)) xs ys

pub numbered-append :
    (turn : TurnId) (lang : Text) (q : ℕ) (xs ys : List Text)
    → numbered turn lang q (xs ++ ys)
      ≡ numbered turn lang q xs ++ numbered turn lang (next_seq q xs) ys
numbered-append turn lang q [] ys = refl
numbered-append turn lang q (x ∷ xs) ys =
    ap (λ l. llm_sentence turn q x lang ∷ l) (numbered-append turn lang (u32 (q + 1)) xs ys)

module _ (turn : TurnId) (token : ℕ) (lang : Text) where
  -- Sentences published one after the other.
  unfoldable pub publish_all : List Text → Reply → Reply
  publish_all [] r = r
  publish_all (s ∷ ss) r = publish_all ss (publish_sentence turn token lang 0 s r)

  publish_all-append :
      (xs ys : List Text) (r : Reply) → publish_all (xs ++ ys) r ≡ publish_all ys (publish_all xs r)
  unfolding publish_all
  publish_all-append [] ys r = refl
  publish_all-append (x ∷ xs) ys r =
      publish_all-append xs ys (publish_sentence turn token lang 0 x r)

  publish_all-seen :
      (ss : List Text) (r : Reply)
      → seen (publish_all ss r).actions ≡ seen r.actions ++ numbered turn lang r.seq ss
  unfolding publish_all publish_sentence
  publish_all-seen [] r = sym (append-nil (seen r.actions))
  publish_all-seen (s ∷ ss) r =
      publish_all-seen ss (publish_sentence turn token lang 0 s r)
      ∙ append_assoc (seen r.actions) (llm_sentence turn r.seq s lang ∷ [])
          (numbered turn lang (u32 (r.seq + 1)) ss)

  pub publish_all-below : (ss : List Text) (r : Reply) → (publish_all ss r).cap_state ≡ r.cap_state
  unfolding publish_all publish_sentence
  publish_all-below [] r = refl
  publish_all-below (s ∷ ss) r = publish_all-below ss (publish_sentence turn token lang 0 s r)

  publish_all-tokens : (ss : List Text) (r : Reply) → (publish_all ss r).tokens ≡ r.tokens
  unfolding publish_all publish_sentence
  publish_all-tokens [] r = refl
  publish_all-tokens (s ∷ ss) r = publish_all-tokens ss (publish_sentence turn token lang 0 s r)

  on_sentence_uncapped :
      (s : Text) (r : Reply)
      → r.cap_state ≡ CapState.below
      → on_sentence turn token lang 0 s r ≡ (publish_sentence turn token lang 0 s r, true)
  unfolding on_sentence publish_sentence
  on_sentence_uncapped s r b = ground arith

  pub on_sentences_uncapped :
      (ss : List Text) (r : Reply)
      → r.cap_state ≡ CapState.below
      → on_sentences turn token lang 0 ss r ≡ publish_all ss r
  unfolding on_sentences publish_all publish_sentence
  on_sentences_uncapped [] r b = refl
  on_sentences_uncapped (s ∷ ss) r b =
      ap (go_on turn token lang 0 (on_sentences turn token lang 0 ss)) (on_sentence_uncapped s r b)
      ∙ on_sentences_uncapped ss (publish_sentence turn token lang 0 s r) b

  pub last_sentences_uncapped :
      (ss : List Text) (r : Reply) → last_sentences turn token lang 0 ss r ≡ publish_all ss r
  unfolding last_sentences publish_all
  last_sentences_uncapped [] r = refl
  last_sentences_uncapped (s ∷ ss) r =
      last_sentences_uncapped ss (publish_sentence turn token lang 0 s r)

  pub publish_all-seq : (ss : List Text) (r : Reply) → (publish_all ss r).seq ≡ next_seq r.seq ss
  unfolding publish_all publish_sentence
  publish_all-seq [] r = refl
  publish_all-seq (s ∷ ss) r = publish_all-seq ss (publish_sentence turn token lang 0 s r)

  pub publish_all-splitter : (ss : List Text) (r : Reply) → (publish_all ss r).splitter ≡ r.splitter
  unfolding publish_all publish_sentence
  publish_all-splitter [] r = refl
  publish_all-splitter (s ∷ ss) r = publish_all-splitter ss (publish_sentence turn token lang 0 s r)

  -- What has been published of a reply: the sentences `out`.
  pub record Published (log : List Action) (out : List Text) (r : Reply) : Type 0 where
    pub below : r.cap_state ≡ CapState.below
    pub published : seen r.actions ≡ log ++ numbered turn lang 0 out
    pub seq_is : r.seq ≡ next_seq 0 out
    pub token_is : r.tokens.cancelled token ≡ false

  publish_all-Published :
      (log : List Action) (out ss : List Text) (r : Reply)
      → Published log out r
      → Published log (out ++ ss) (publish_all ss r)
  publish_all-Published log out ss r p = record {
    below = publish_all-below ss r ∙ p.below;
    published =
        publish_all-seen ss r
        ∙ ap₂ (λ l q. l ++ numbered turn lang q ss) p.published p.seq_is
        ∙ append_assoc log (numbered turn lang 0 out) (numbered turn lang (next_seq 0 out) ss)
        ∙ ap (λ l. log ++ l) (sym (numbered-append turn lang 0 out ss));
    seq_is =
        publish_all-seq ss r ∙ ap (λ q. next_seq q ss) p.seq_is ∙ sym (next_seq-append 0 out ss);
    token_is = ap (λ (t : TokenStore). t.cancelled token) (publish_all-tokens ss r) ∙ p.token_is;
  }

  -- The reply behind some tokens: the sentences so far, and the splitter that has given them out.
  abbrev pub Streams : List Action → SentenceSplitter → Reply → Type 0
  Streams log s r =
      (onto s.out (clear_out turn token lang 0 r.splitter) ≡ s) × Published log s.out r

  unfoldable pub with_token : Text → Reply → Reply
  with_token delta r = record r { actions = llm_token turn delta ∷ r.actions }

  with_token-Published :
      (log : List Action) (delta : Text) (out : List Text) (r : Reply)
      → Published log out r
      → Published log out (with_token delta r)
  unfolding with_token
  with_token-Published log delta out r p = record {
    below = p.below;
    published = append-nil (seen r.actions) ∙ p.published;
    seq_is = p.seq_is;
    token_is = p.token_is;
  }

  onto_again :
      (out : List Text) (s t : SentenceSplitter)
      → t ≡ s
      → onto (out ++ s.out) (clear_out turn token lang 0 t) ≡ onto out s
  unfolding onto
  onto_again out s t e =
      ap (λ x. onto (out ++ s.out) (clear_out turn token lang 0 x)) e
      ∙ ap (λ l. record s { out = l }) (append-nil (out ++ s.out))

  pub on_token_uncapped :
      (delta : Text) (r : Reply)
      → let split = push delta (clear_out turn token lang 0 r.splitter) in
        let done = publish_all split.out (record r { splitter = split }) in
        r.cap_state ≡ CapState.below
        → is_cancelled done.cap_state ≡ false
        → on_token turn token lang 0 delta r ≡ with_token delta done
  unfolding on_token with_token
  on_token_uncapped delta r b clean =
      let split = push delta (clear_out turn token lang 0 r.splitter) in
      let told = on_sentences_uncapped split.out (record r { splitter = split }) b in
      let after : Reply → Reply = λ r'.
        if is_cancelled r'.cap_state
        then r'
        else record r' { actions = llm_token turn delta ∷ r'.actions } in
      if_false (is_cancelled r.cap_state) r
        (after (on_sentences turn token lang 0 split.out (record r { splitter = split })))
        (ap is_cancelled b)
      ∙ ap after told
      ∙ if_false _ _ _ clean

  pub on_token-Streams :
      (log : List Action) (delta : Text) (s : SentenceSplitter) (r : Reply)
      → Streams log s r
      → Streams log (push delta s) (on_token turn token lang 0 delta r)
  unfolding onto with_token
  on_token-Streams log delta s r (e, p) =
      let start = clear_out turn token lang 0 r.splitter in
      let split = push delta start in
      let r₁ : Reply = record r { splitter = split } in
      let p₁ : Published log s.out r₁ = record {
        below = p.below;
        published = p.published;
        seq_is = p.seq_is;
        token_is = p.token_is;
      } in
      let told = on_sentences_uncapped split.out r₁ p.below in
      let pushed : push delta s ≡ onto s.out split =
        ap (push delta) (sym e) ∙ push-onto delta s.out start in
      let done = publish_all split.out r₁ in
      let split_is : done.splitter ≡ split = publish_all-splitter split.out r₁ in
      let clean : is_cancelled done.cap_state ≡ false =
        ap is_cancelled (publish_all-below split.out r₁ ∙ p.below) in
      subst (λ s'. Streams log s' (on_token turn token lang 0 delta r)) (sym pushed)
        (subst (Streams log (onto s.out split)) (sym (on_token_uncapped delta r p.below clean)) (
          onto_again s.out split done.splitter split_is,
          with_token-Published log delta (s.out ++ split.out) done
              (publish_all-Published log s.out split.out r₁ p₁),
        ))

  pub tell-Streams :
      (read : Text → Option Text) (log : List Action) (ts : List Text) (s : SentenceSplitter)
      (r : Reply)
      → Streams log s r
      → Streams log (push_all ts s) (tell read (callbacks turn token lang 0) ts r)
  unfolding push_all
  tell-Streams read log [] s r st = st
  tell-Streams read log (t ∷ ts) s r st =
      tell-Streams read log ts (push t s) (on_token turn token lang 0 t r)
        (on_token-Streams log t s r st)

  pub on_finished-Published :
      (log : List Action) (f : LlmFinish) (s : SentenceSplitter) (r : Reply)
      → Streams log s r
      → Published log (flush s).out (on_finished turn token lang 0 f r)
  unfolding on_finished onto
  on_finished-Published log f s r (e, p) =
      let start = clear_out turn token lang 0 r.splitter in
      let split = flush start in
      let r₁ : Reply = record r { splitter = split } in
      let p₁ : Published log s.out r₁ = record {
        below = p.below;
        published = p.published;
        seq_is = p.seq_is;
        token_is = p.token_is;
      } in
      let flushed : flush s ≡ onto s.out split = ap flush (sym e) ∙ flush-onto s.out start in
      subst (λ (x : SentenceSplitter). Published log x.out (on_finished turn token lang 0 f r))
        (sym flushed)
        (subst (Published log (s.out ++ split.out)) (sym (last_sentences_uncapped split.out r₁))
          (publish_all-Published log s.out split.out r₁ p₁))
