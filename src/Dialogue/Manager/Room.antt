-- ===== src/Dialogue/Manager/Room.antt =====
-- src/dialogue/manager.cpp: an answer with no more sentences than the cap is published as without a cap.
use lclva.Prelude.{
  ℕ, ◌+◌, ◌<◌, ◌≤◌, ◌^◌, ◌≡◌, refl, sym, ap, subst, ◌∙◌, List, [], ◌∷◌, ◌++◌, Option, Bool, true,
  false, if◌then◌else◌, append-nil, Bool-cases, inl, inr, leb, u32, arith, if_false, length,
  length-append,
}
use lclva.Event.Types.{TurnId}
use lclva.Dialogue.Turn.{cancel}
use lclva.Dialogue.SentenceSplitter.{Text, SentenceSplitter, push, flush}
use lclva.Dialogue.SentenceSplitter.Kept.{push_all}
use lclva.Dialogue.SentenceSplitter.Output.{onto, push-onto, flush-onto}
use lclva.Llm.Client.{LlmFinish}
use lclva.Llm.Client.Stream.{tell}
use lclva.Dialogue.Manager.{
  Action, llm_token, CapState, is_pending, is_cancelled, Reply, past_backstop, request_cancel,
  publish_sentence, on_sentence, on_sentences, on_token, last_sentences, on_finished, clear_out,
  go_on, callbacks,
}
use lclva.Dialogue.Manager.Sentences.{
  next_seq, publish_all, Streams, with_token, on_token_uncapped, on_token-Streams,
  last_sentences_uncapped, publish_all-below,
}

next_seq_count : (q : ℕ) (ss : List Text) → q + length ss < 2 ^ 32 → next_seq q ss ≡ q + length ss
next_seq_count q [] h = omega arith
next_seq_count q (s ∷ ss) h =
    let m : u32 (q + 1) ≡ q + 1 = omega arith in
    next_seq_count (u32 (q + 1)) ss (omega (arith, m)) ∙ omega (arith, m)

-- What has been split stays.
push_grows : (t : Text) (s : SentenceSplitter) → length s.out ≤ length (push t s).out
unfolding onto
push_grows t s =
    let start : SentenceSplitter = record s { out = [] } in
    let again : s ≡ onto s.out start = ap (λ l. record s { out = l }) (sym (append-nil s.out)) in
    let e : length (push t s).out ≡ length (s.out ++ (push t start).out) =
      ap (λ (x : SentenceSplitter). length x.out) (ap (push t) again ∙ push-onto t s.out start) in
    omega (arith, e, length-append s.out (push t start).out)

pub flush_grows : (s : SentenceSplitter) → length s.out ≤ length (flush s).out
unfolding onto
flush_grows s =
    let start : SentenceSplitter = record s { out = [] } in
    let again : s ≡ onto s.out start = ap (λ l. record s { out = l }) (sym (append-nil s.out)) in
    let e : length (flush s).out ≡ length (s.out ++ (flush start).out) =
      ap (λ (x : SentenceSplitter). length x.out) (ap flush again ∙ flush-onto s.out start) in
    omega (arith, e, length-append s.out (flush start).out)

push_all_grows : (ts : List Text) (s : SentenceSplitter) → length s.out ≤ length (push_all ts s).out
unfolding push_all
push_all_grows [] s = omega arith
push_all_grows (t ∷ ts) s = omega (arith, push_grows t s, push_all_grows ts (push t s))

module _ (turn : TurnId) (token : ℕ) (lang : Text) (cap : ℕ) where
  -- Once cancelled, the token stays so.
  Lasts : Reply → Reply → Type 0
  Lasts r r' = r.tokens.cancelled token ≡ true → r'.tokens.cancelled token ≡ true

  on_sentence-Lasts : (s : Text) (r : Reply) → Lasts r (on_sentence turn token lang cap s r).0
  unfolding Lasts on_sentence publish_sentence request_cancel cancel
  on_sentence-Lasts s r h = ground (arith, h)

  if-Lasts : (b : Bool) (r x y : Reply) → Lasts r x → Lasts r y → Lasts r (if b then x else y)
  if-Lasts true r x y p q = p
  if-Lasts false r x y p q = q

  on_sentences-Lasts :
      (ss : List Text) (r : Reply) → Lasts r (on_sentences turn token lang cap ss r)
  unfolding on_sentences Lasts
  on_sentences-Lasts [] r h = h
  on_sentences-Lasts (s ∷ ss) r h =
      let (r', goes) = on_sentence turn token lang cap s r in
      let first = on_sentence-Lasts s r h in
      if-Lasts goes r (on_sentences turn token lang cap ss r') r'
        (λ k. on_sentences-Lasts ss r' first) (λ k. first) h

  on_token-Lasts : (t : Text) (r : Reply) → Lasts r (on_token turn token lang cap t r)
  unfolding on_token Lasts
  on_token-Lasts t r h =
      let split = push t (clear_out turn token lang cap r.splitter) in
      let r₁ : Reply = record r { splitter = split } in
      let r' = on_sentences turn token lang cap split.out r₁ in
      let done = on_sentences-Lasts split.out r₁ h in
      if-Lasts (is_cancelled r.cap_state) r r _ (λ k. k)
        (λ k.
          if-Lasts (is_cancelled r'.cap_state) r r'
            (record r' { actions = llm_token turn t ∷ r'.actions }) (λ k. done) (λ k. done) h)
        h

  pub on_token-stays :
      (t : Text) (r : Reply)
      → (on_token turn token lang cap t r).tokens.cancelled token ≡ false
      → r.tokens.cancelled token ≡ false
  unfolding Lasts
  on_token-stays t r h = elim (Bool-cases (r.tokens.cancelled token)) [
    | inl c ↦ cc (h, on_token-Lasts t r c)
    | inr c ↦ c
  ]

  -- The reply with the cap's state left out.
  abbrev pub plain : Reply → Reply
  plain r = record r { cap_state = CapState.below }

  -- The stream is not cancelled, and the cap has been reached where it waits for the next sentence.
  pub record Open (r : Reply) : Type 0 where
    pub live : is_cancelled r.cap_state ≡ false
    pub reached : is_pending r.cap_state ≡ true → r.seq ≡ cap

  module _ (small : cap + 1 < 2 ^ 32) where
    abbrev mark : Reply → Reply
    mark r = if leb cap r.seq then record r { cap_state = CapState.pending } else r

    on_sentence_room :
        (s : Text) (r : Reply)
        → Open r
        → r.seq + 1 ≤ cap
        → on_sentence turn token lang cap s r
          ≡ (mark (publish_sentence turn token lang cap s r), true)
    unfolding on_sentence publish_sentence
    on_sentence_room s r o b = room r.cap_state refl
      where
        room :
            (c : CapState)
            → r.cap_state ≡ c
            → on_sentence turn token lang cap s r
              ≡ (mark (publish_sentence turn token lang cap s r), true)
        room CapState.below e = ground (arith, e, b)
        room CapState.pending e = absurd (omega (arith, b, o.reached (ap is_pending e)))
        room CapState.cancelled e = cc (o.live, ap is_cancelled e)

    mark-plain : (r : Reply) → plain (mark r) ≡ plain r
    mark-plain r = ground arith

    mark-Open :
        (s : Text) (r : Reply)
        → Open r
        → r.seq + 1 ≤ cap
        → Open (mark (publish_sentence turn token lang cap s r))
    unfolding publish_sentence
    mark-Open s r o b =
        let m : u32 (r.seq + 1) ≡ r.seq + 1 = omega arith in
        let p : is_pending r.cap_state ≡ false = room r.cap_state refl in
        record { live = ground (arith, o.live); reached = λ h. ground (arith, h, p, m, b) }
      where
        room : (c : CapState) → r.cap_state ≡ c → is_pending r.cap_state ≡ false
        room CapState.below e = ap is_pending e
        room CapState.pending e = absurd (omega (arith, b, o.reached (ap is_pending e)))
        room CapState.cancelled e = ap is_pending e

    publish_all-mark :
        (s : Text) (ss : List Text) (r : Reply)
        → publish_all turn token lang ss (plain (mark (publish_sentence turn token lang cap s r)))
          ≡ publish_all turn token lang (s ∷ ss) (plain r)
    unfolding publish_all publish_sentence
    publish_all-mark s ss r =
        ap (publish_all turn token lang ss) (mark-plain (publish_sentence turn token lang cap s r))

    marked_seq :
        (s : Text) (ss : List Text) (r : Reply)
        → r.seq + length (s ∷ ss) ≤ cap
        → (mark (publish_sentence turn token lang cap s r)).seq + length ss ≤ cap
    unfolding publish_sentence
    marked_seq s ss r b =
        let m : u32 (r.seq + 1) ≡ r.seq + 1 = omega (arith, b) in ground (arith, m, b)

    on_sentences_room :
        (ss : List Text) (r : Reply)
        → Open r
        → r.seq + length ss ≤ cap
        → (plain (on_sentences turn token lang cap ss r) ≡ publish_all turn token lang ss (plain r))
          × Open (on_sentences turn token lang cap ss r)
    unfolding on_sentences publish_all
    on_sentences_room [] r o b = (refl, o)
    on_sentences_room (s ∷ ss) r o b =
        let r' = mark (publish_sentence turn token lang cap s r) in
        let b₁ : r.seq + 1 ≤ cap = omega (arith, b) in
        let o' = mark-Open s r o b₁ in
        let ih = on_sentences_room ss r' o' (marked_seq s ss r b) in
        let told =
          ap (go_on turn token lang cap (on_sentences turn token lang cap ss))
            (on_sentence_room s r o b₁) in
        (ap (λ x. plain x) told ∙ ih.0 ∙ publish_all-mark s ss r, subst Open (sym told) ih.1)

    plain_token :
        (delta : Text) (r : Reply) (split : SentenceSplitter) (done : Reply)
        → split ≡ push delta (clear_out turn token lang cap r.splitter)
        → plain done ≡ publish_all turn token lang split.out (plain (record r { splitter = split }))
        → plain (record done { actions = llm_token turn delta ∷ done.actions })
          ≡ on_token turn token lang 0 delta (plain r)
    unfolding with_token
    plain_token delta r split done is same =
        let start = push delta (clear_out turn token lang cap r.splitter) in
        let r₁ : Reply = record (plain r) { splitter = start } in
        ap (with_token turn token lang delta) (
          same
          ∙ ap
              (λ (x : SentenceSplitter).
                publish_all turn token lang x.out (record (plain r) { splitter = x }))
              is)
        ∙ sym (
            on_token_uncapped turn token lang delta (plain r) refl
              (ap is_cancelled (publish_all-below turn token lang start.out r₁)))

    -- The sentences that a token completes still fit.
    on_token_fits :
        (log : List Action) (t : Text) (s : SentenceSplitter) (r : Reply)
        → Streams turn token lang log s (plain r)
        → length (push t s).out ≤ cap
        → r.seq + length (push t (clear_out turn token lang cap r.splitter)).out ≤ cap
    unfolding onto
    on_token_fits log t s r (e, p) b =
        let split = push t (clear_out turn token lang cap r.splitter) in
        let grown : length (push t s).out ≡ length (s.out ++ split.out) =
          ap (λ (x : SentenceSplitter). length x.out)
            (ap (push t) (sym e) ∙ push-onto t s.out (clear_out turn token lang cap r.splitter)) in
        let seq_is =
          p.seq_is
          ∙ next_seq_count 0 s.out (omega (arith, b, grown, length-append s.out split.out)) in
        omega (arith, b, grown, length-append s.out split.out, seq_is)

    on_token_room :
        (delta : Text) (r : Reply)
        → let split = push delta (clear_out turn token lang cap r.splitter) in
          Open r
          → r.seq + length split.out ≤ cap
          → (plain (on_token turn token lang cap delta r)
              ≡ on_token turn token lang 0 delta (plain r))
            × Open (on_token turn token lang cap delta r)
    unfolding on_token
    on_token_room delta r o b =
        let split = push delta (clear_out turn token lang cap r.splitter) in
        let r₁ : Reply = record r { splitter = split } in
        let o₁ : Open r₁ = record { live = o.live; reached = o.reached } in
        let done = on_sentences turn token lang cap split.out r₁ in
        let (same, o') = on_sentences_room split.out r₁ o₁ b in
        let next : Reply = record done { actions = llm_token turn delta ∷ done.actions } in
        let told : on_token turn token lang cap delta r ≡ next =
          if_false (is_cancelled r.cap_state) r _ o.live
          ∙ if_false (is_cancelled done.cap_state) done next o'.live in
        (
          ap (λ x. plain x) told ∙ plain_token delta r split done refl same,
          subst Open (sym told) (record { live = o'.live; reached = o'.reached }),
        )

    -- The tokens of an answer with no more sentences than the cap.
    pub tell_room :
        (read : Text → Option Text) (log : List Action) (ts : List Text) (s : SentenceSplitter)
        (r : Reply)
        → Streams turn token lang log s (plain r)
        → Open r
        → length (push_all ts s).out ≤ cap
        → (plain (tell read (callbacks turn token lang cap) ts r)
            ≡ tell read (callbacks turn token lang 0) ts (plain r))
          × Open (tell read (callbacks turn token lang cap) ts r)
    unfolding push_all
    tell_room read log [] s r st o b = (refl, o)
    tell_room read log (t ∷ ts) s r st o b =
        let fits = on_token_fits log t s r st (omega (arith, b, push_all_grows ts (push t s))) in
        let (same, o') = on_token_room t r o fits in
        let st' = on_token-Streams turn token lang log t s (plain r) st in
        let (rest, o'') =
          tell_room read log ts (push t s) (on_token turn token lang cap t r)
            (subst (Streams turn token lang log (push t s)) (sym same) st') o' b in
        (rest ∙ ap (tell read (callbacks turn token lang 0) ts) same, o'')

    last_sentences_room :
        (ss : List Text) (r : Reply)
        → r.seq + length ss ≤ cap
        → plain (last_sentences turn token lang cap ss r) ≡ publish_all turn token lang ss (plain r)
    unfolding last_sentences publish_all publish_sentence
    last_sentences_room [] r b = refl
    last_sentences_room (s ∷ ss) r b =
        let m : u32 (r.seq + 1) ≡ r.seq + 1 = omega (arith, b) in
        let r' = publish_sentence turn token lang cap s r in
        ap (λ x. plain x)
          (if_false (past_backstop turn token lang cap r) r
            (last_sentences turn token lang cap ss r') (ground (arith, b)))
        ∙ last_sentences_room ss r' (omega (arith, m, b))

    pub on_finished_room :
        (log : List Action) (f : LlmFinish) (s : SentenceSplitter) (r : Reply)
        → Streams turn token lang log s (plain r)
        → length (flush s).out ≤ cap
        → plain (on_finished turn token lang cap f r) ≡ on_finished turn token lang 0 f (plain r)
    unfolding on_finished onto
    on_finished_room log f s r (e, p) b =
        let split = flush (clear_out turn token lang cap r.splitter) in
        let r₁ : Reply = record r { splitter = split } in
        let grown : length (flush s).out ≡ length (s.out ++ split.out) =
          ap (λ (x : SentenceSplitter). length x.out)
            (ap flush (sym e) ∙ flush-onto s.out (clear_out turn token lang cap r.splitter)) in
        let seq_is =
          p.seq_is
          ∙ next_seq_count 0 s.out (omega (arith, b, grown, length-append s.out split.out)) in
        last_sentences_room split.out r₁
          (omega (arith, b, grown, length-append s.out split.out, seq_is))
        ∙ sym (last_sentences_uncapped turn token lang split.out (plain r₁))
