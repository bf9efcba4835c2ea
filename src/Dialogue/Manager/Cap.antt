-- ===== src/Dialogue/Manager/Cap.antt =====
-- src/dialogue/manager.cpp: the cap on the sentences of an answer.
use lclva.Prelude.{
  ℕ, ◌+◌, ◌<◌, ◌≤◌, ◌^◌, ◌≡◌, refl, sym, ap, ap₂, ◌∙◌, List, [], ◌∷◌, ◌++◌, append-nil,
  append_assoc, Option, Bool, true, false, ◌&&◌, if◌then◌else◌, leb, u32, arith, length,
  length-append,
}
use lclva.Event.Types.{TurnId, llm_finished as finished_event}
use lclva.Dialogue.Turn.{cancel}
use lclva.Dialogue.SentenceSplitter.{Text, push, flush}
use lclva.Llm.Client.{LlmFinish, Transfer}
use lclva.Llm.Client.Invariant.{submit_keeps}
use lclva.Dialogue.Manager.{
  Action, llm_started, llm_sentence, llm_token, llm_finished, Transcript, Manager, CapState,
  is_below, is_pending, is_cancelled, Reply, past_backstop, request_cancel, publish_sentence,
  on_sentence, on_sentences, on_token, last_sentences, on_finished, clear_out, go_on, callbacks,
  context, address, language, opening, closing, run_one,
}
use lclva.Dialogue.Manager.Sentences.{seen, numbered, numbered-append, next_seq, next_seq-append}

-- How many sentences are out in each state of the cap.
abbrev Fits : ℕ → CapState → ℕ → Type 0
Fits cap CapState.below n = n < cap
Fits cap CapState.pending n = n ≡ cap
Fits cap CapState.cancelled n = n ≤ cap + 1

cancelled-Fits : (cap n : ℕ) (c : CapState) → is_cancelled c ≡ true → n ≤ cap + 1 → Fits cap c n
cancelled-Fits cap n CapState.below e b = cc
cancelled-Fits cap n CapState.pending e b = cc
cancelled-Fits cap n CapState.cancelled e b = b

-- The test of the code that the cap is reached.
abbrev reaches : ℕ → CapState → ℕ → Bool
reaches cap c n = is_below c && (leb 1 cap && leb cap n)

Fits-pending :
    (cap n : ℕ) (c : CapState) → Fits cap c n → reaches cap c (n + 1) ≡ true → n + 1 ≡ cap
Fits-pending cap n CapState.below f e = ground (arith, f, e)
Fits-pending cap n CapState.pending f e = cc
Fits-pending cap n CapState.cancelled f e = cc

Fits-next :
    (cap n : ℕ) (c : CapState)
    → 1 ≤ cap
    → n ≤ cap
    → Fits cap c n
    → reaches cap c (n + 1) ≡ false
    → is_pending c ≡ false
    → Fits cap c (n + 1)
Fits-next cap n CapState.below h b f e p = ground (arith, f, e, h)
Fits-next cap n CapState.pending h b f e p = cc
Fits-next cap n CapState.cancelled h b f e p = omega arith

module _ (turn : TurnId) (token : ℕ) (lang : Text) (cap : ℕ) (log : List Action) where
  -- What is out after `log`: `n` sentences, numbered from 0.
  record Out (n : ℕ) (r : Reply) : Type 0 where
    texts : List Text
    published : seen r.actions ≡ log ++ numbered turn lang 0 texts
    next_is : next_seq 0 texts ≡ n
    seq_is : r.seq ≡ n
    count_is : length texts ≡ n

  abbrev Within : Reply → Type 0
  Within r = (n : ℕ) × Out n r × (n ≤ cap + 1)

  abbrev Capped : Reply → Type 0
  Capped r = (n : ℕ) × Out n r × (n ≤ cap + 1) × Fits cap r.cap_state n

  module _ (some_cap : 1 ≤ cap) (small : cap + 1 < 2 ^ 32) where
    publish_sentence-Out :
        (s : Text) (n : ℕ) (r : Reply)
        → n ≤ cap
        → Out n r
        → Out (n + 1) (publish_sentence turn token lang cap s r)
    unfolding publish_sentence
    publish_sentence-Out s n r b o =
        let m : u32 (n + 1) ≡ n + 1 = omega arith in
        record {
          texts = o.texts ++ s ∷ [];
          published =
              ap₂ (λ l q. l ++ llm_sentence turn q s lang ∷ []) o.published
                (o.seq_is ∙ sym o.next_is)
              ∙ append_assoc log (numbered turn lang 0 o.texts)
                  (llm_sentence turn (next_seq 0 o.texts) s lang ∷ [])
              ∙ ap (λ l. log ++ l) (sym (numbered-append turn lang 0 o.texts (s ∷ [])));
          next_is = next_seq-append 0 o.texts (s ∷ []) ∙ ap (λ k. u32 (k + 1)) o.next_is ∙ m;
          seq_is = ap (λ k. u32 (k + 1)) o.seq_is ∙ m;
          count_is = length-append o.texts (s ∷ []) ∙ ap (λ (k : ℕ). k + 1) o.count_is;
        }

    still_Out :
        (n : ℕ) (r r' : Reply) → r'.actions ≡ r.actions → r'.seq ≡ r.seq → Out n r → Out n r'
    still_Out n r r' a q o = record {
      texts = o.texts;
      published = ap seen a ∙ o.published;
      next_is = o.next_is;
      seq_is = q ∙ o.seq_is;
      count_is = o.count_is;
    }

    if-Capped :
        (b : Bool) (x y : Reply)
        → (b ≡ true → Capped x)
        → (b ≡ false → Capped y)
        → Capped (if b then x else y)
    if-Capped true x y p q = p refl
    if-Capped false x y p q = q refl

    request_cancel-Capped :
        (n : ℕ) (r : Reply) → Out n r → n ≤ cap + 1 → Capped (request_cancel turn token lang cap r)
    unfolding request_cancel
    request_cancel-Capped n r o b =
        if-Capped (is_cancelled r.cap_state) _ _
          (λ e. (n, o, b, cancelled-Fits cap n r.cap_state e b))
          (λ e. (n, still_Out n r _ refl refl o, b, b))

    if-first :
        (b : Bool) (x y : Reply × Bool)
        → (b ≡ true → Capped x.0)
        → (b ≡ false → Capped y.0)
        → Capped (if b then x else y).0
    if-first true x y p q = p refl
    if-first false x y p q = q refl

    on_sentence-Capped :
        (s : Text) (r : Reply) → Capped r → Capped (on_sentence turn token lang cap s r).0
    unfolding on_sentence
    on_sentence-Capped s r (n, o, b, f) =
        if-first (past_backstop turn token lang cap r) _ _ (λ e. request_cancel-Capped n r o b)
          (λ e.
            let room : n ≤ cap = ground (arith, e, o.seq_is, some_cap, small) in
            let r' = publish_sentence turn token lang cap s r in
            let o' = publish_sentence-Out s n r room o in
            let next : reaches cap r.cap_state (n + 1) ≡ reaches cap r.cap_state r'.seq =
              ap (reaches cap r.cap_state) (sym o'.seq_is) in
            if-first (reaches cap r'.cap_state r'.seq)
              (record r' { cap_state = CapState.pending }, true) _
              (λ e₁. (
                n + 1,
                still_Out (n + 1) r' _ refl refl o',
                omega arith,
                Fits-pending cap n r.cap_state f (next ∙ e₁),
              ))
              (λ e₁.
                if-first (is_pending r'.cap_state) (request_cancel turn token lang cap r', false)
                  (r', true) (λ e₂. request_cancel-Capped (n + 1) r' o' (omega arith))
                  (λ e₂. (
                    n + 1,
                    o',
                    omega arith,
                    Fits-next cap n r.cap_state some_cap room f (next ∙ e₁) e₂,
                  ))))

    token_Out :
        (n : ℕ) (delta : Text) (r : Reply)
        → Out n r
        → Out n (record r { actions = llm_token turn delta ∷ r.actions })
    token_Out n delta r o = record {
      texts = o.texts;
      published = append-nil (seen r.actions) ∙ o.published;
      next_is = o.next_is;
      seq_is = o.seq_is;
      count_is = o.count_is;
    }

    go_on-Capped :
        (ss : List Text) (x : Reply × Bool)
        → Capped x.0
        → Capped (on_sentences turn token lang cap ss x.0)
        → Capped (go_on turn token lang cap (on_sentences turn token lang cap ss) x)
    go_on-Capped ss (r, true) h h' = h'
    go_on-Capped ss (r, false) h h' = h

    on_sentences-Capped :
        (ss : List Text) (r : Reply) → Capped r → Capped (on_sentences turn token lang cap ss r)
    unfolding on_sentences
    on_sentences-Capped [] r h = h
    on_sentences-Capped (s ∷ ss) r h =
        let x = on_sentence turn token lang cap s r in
        let h' = on_sentence-Capped s r h in go_on-Capped ss x h' (on_sentences-Capped ss x.0 h')

    on_token-Capped :
        (delta : Text) (r : Reply) → Capped r → Capped (on_token turn token lang cap delta r)
    unfolding on_token
    on_token-Capped delta r (n, o, b, f) =
        let split = push delta (clear_out turn token lang cap r.splitter) in
        let r₁ : Reply = record r { splitter = split } in
        let done = on_sentences turn token lang cap split.out r₁ in
        let (n', o', b', f') =
          on_sentences-Capped split.out r₁ (n, still_Out n r r₁ refl refl o, b, f) in
        if-Capped (is_cancelled r.cap_state) _ _ (λ e. (n, o, b, f))
          (λ e.
            if-Capped (is_cancelled done.cap_state) done
              (record done { actions = llm_token turn delta ∷ done.actions })
              (λ e₁. (n', o', b', f')) (λ e₁. (n', token_Out n' delta done o', b', f')))

    cancel-Capped : (r : Reply) → Capped r → Capped (record r { tokens = cancel token r.tokens })
    cancel-Capped r (n, o, b, f) = (n, still_Out n r _ refl refl o, b, f)

    if-Within :
        (b : Bool) (x y : Reply) → Within x → (b ≡ false → Within y) → Within (if b then x else y)
    if-Within true x y p q = p
    if-Within false x y p q = q refl

    last_sentences-Within :
        (ss : List Text) (r : Reply) → Within r → Within (last_sentences turn token lang cap ss r)
    unfolding last_sentences
    last_sentences-Within [] r h = h
    last_sentences-Within (s ∷ ss) r (n, o, b) =
        let r' = publish_sentence turn token lang cap s r in
        if-Within (past_backstop turn token lang cap r) r (last_sentences turn token lang cap ss r')
          (n, o, b)
          (λ e.
            let room : n ≤ cap = ground (arith, e, o.seq_is, some_cap, small) in
            last_sentences-Within ss r' (n + 1, publish_sentence-Out s n r room o, omega arith))

    on_finished-Within :
        (f : LlmFinish) (r : Reply) → Capped r → Within (on_finished turn token lang cap f r)
    unfolding on_finished
    on_finished-Within f r (n, o, b, c) =
        let split = flush (clear_out turn token lang cap r.splitter) in
        last_sentences-Within split.out (record r { splitter = split })
          (n, still_Out n r _ refl refl o, b)

-- Whatever the language model streams and whoever cancels the turn when: one round publishes the start of
-- the turn, then sentences numbered from 0, at most one more than the cap, then the end of the stream. A
-- cap is set, one more than it fits 32 bits, and curl gives a handle.
pub answer_capped :
    (provided : Option TurnId) (now : ℕ) (read : Text → Option Text) (t : Transfer) (e : Transcript)
    (m : Manager)
    → 1 ≤ m.cfg.max_assistant_sentences
    → m.cfg.max_assistant_sentences + 1 < 2 ^ 32
    → t.handle ≡ true
    → let m' = run_one provided now read t e m in
      let turn = (context provided now m.turns m.tokens).0.id in
      (texts : List Text) × (c : Bool) × (count : ℕ) × (seen m'.actions
        ≡ (seen m.actions ++ llm_started turn ∷ [])
          ++ numbered turn (language m.cfg e.lang) 0 texts
          ++ llm_finished (finished_event turn c count) ∷ [])
      × (length texts ≤ m.cfg.max_assistant_sentences + 1)
unfolding run_one opening
answer_capped provided now read t e m some_cap small handle =
    let (ctx, turns', tokens') = context provided now m.turns m.tokens in
    let lang = language m.cfg e.lang in
    let cap = m.cfg.max_assistant_sentences in
    let cb = callbacks ctx.id (address ctx) lang cap in
    let log = seen m.actions ++ llm_started ctx.id ∷ [] in
    let start = opening ctx.id tokens' m in
    let out : Out ctx.id (address ctx) lang cap log 0 start = record {
      texts = [];
      published =
          ap (λ l. l ++ llm_started ctx.id ∷ []) (append-nil (seen m.actions))
          ∙ sym (append-nil (seen m.actions ++ llm_started ctx.id ∷ []));
      next_is = refl;
      seq_is = refl;
      count_is = refl;
    } in
    let (f, x, kept, ends) =
      submit_keeps read cb (Capped ctx.id (address ctx) lang cap log)
        (on_token-Capped ctx.id (address ctx) lang cap log some_cap small)
        (cancel-Capped ctx.id (address ctx) lang cap log some_cap small) ctx.id t start handle
        (0, out, omega arith, omega arith) in
    let (n, o, b) = on_finished-Within ctx.id (address ctx) lang cap log some_cap small f x kept in
    (
      o.texts,
      f.cancelled,
      f.tokens_generated,
      ap (λ y. seen (closing turns' m y).actions) ends
          ∙ ap (λ l. l ++ llm_finished (finished_event ctx.id f.cancelled f.tokens_generated) ∷ [])
              o.published,
      omega (arith, o.count_is, b),
    )
