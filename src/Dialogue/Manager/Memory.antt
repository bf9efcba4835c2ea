-- ===== src/Dialogue/Manager/Memory.antt =====
-- src/dialogue/manager.cpp and src/dialogue/turn_writer.cpp together: the published answer reaches the
-- conversation memory.
use lclva.Prelude.{
  ℕ, suc, ◌+◌, ◌<◌, ◌≤◌, ◌^◌, ◌≡◌, ◌≢◌, refl, sym, ap, ap₂, ◌∙◌, List, [], ◌∷◌, ◌++◌, Option, none,
  Bool, false, not, ◌||◌, if◌then◌else◌, u32, u64, arith, length, keep-append, All,
}
use lclva.Event.Types.{TurnId, llm_finished as finished_event}
use lclva.Dialogue.SentenceSplitter.{Text, is_whitespace}
use lclva.Dialogue.SentenceSplitter.Kept.{visible, joined as all_of, flush_keeps}
use lclva.Llm.SseParser.{k_done_sentinel}
use lclva.Llm.SseParser.Frames.{frame, frames, IsPayload}
use lclva.Llm.Client.Stream.{contents, joined}
use lclva.Dialogue.TurnWriter.{
  Input, llm_started as started, llm_sentence as sentence, llm_finished as finished, other,
  TurnWriter, is_empty, handle_started, handle_sentence, on_event, run,
}
use lclva.Dialogue.TurnWriter.Spec.{
  say, said, heard, tongue, pieces, spaced, after_blanks, InTurn, rows,
}
use lclva.Dialogue.TurnWriter.Persistence.{turn_persisted}
use lclva.Dialogue.Manager.{
  Action, llm_started, llm_sentence, llm_finished, Transcript, Manager, context, language, run_one,
}
use lclva.Dialogue.Manager.Sentences.{seen, numbered}
use lclva.Dialogue.Manager.Answer.{streamed, split_all, answer_published}

-- What the turn writer gets of an event on the bus.
abbrev pub writer_input : Action → Input
writer_input (llm_started t) = started t
writer_input (llm_sentence t q s l) = sentence t q s l
writer_input (llm_finished (finished_event t c n)) = finished t c
writer_input _ = other

abbrev pub inputs : ℕ → List Action → List (Input × ℕ)
inputs now [] = []
inputs now (a ∷ log) = (writer_input a, now) ∷ inputs now log

inputs-append :
    (now : ℕ) (xs ys : List Action) → inputs now (xs ++ ys) ≡ inputs now xs ++ inputs now ys
inputs-append now [] ys = refl
inputs-append now (x ∷ xs) ys = ap (λ l. (writer_input x, now) ∷ l) (inputs-append now xs ys)

run-append : (xs ys : List (Input × ℕ)) (w : TurnWriter) → run (xs ++ ys) w ≡ run ys (run xs w)
unfolding run
run-append [] ys w = refl
run-append ((e, now) ∷ xs) ys w = run-append xs ys (on_event e now w)

-- Blanks do not show.
after_blanks-visible : (ps : List Text) → visible (after_blanks ps) ≡ visible (all_of ps)
after_blanks-visible [] = refl
after_blanks-visible (p ∷ ps) =
    let v = keep-append (λ (c : ℕ). not (is_whitespace c)) in
    v p (after_blanks ps)
    ∙ ap (λ l. visible p ++ l) (after_blanks-visible ps)
    ∙ sym (v p (all_of ps))

spaced-visible : (ps : List Text) → visible (spaced ps) ≡ visible (all_of ps)
spaced-visible [] = refl
spaced-visible (p ∷ ps) =
    let v = keep-append (λ (c : ℕ). not (is_whitespace c)) in
    v p (after_blanks ps)
    ∙ ap (λ l. visible p ++ l) (after_blanks-visible ps)
    ∙ sym (v p (all_of ps))

all_but_empty :
    (a : Text) (ps : List Text)
    → all_of (if is_empty a || false then ps else a ∷ ps) ≡ a ++ all_of ps
all_but_empty [] ps = refl
all_but_empty (c ∷ a) ps = refl

module _ (turn now : ℕ) (lang : Text) where
  abbrev told : ℕ → List Text → List (Input × ℕ)
  told q ss = inputs now (numbered turn lang q ss)

  -- Later sentences do not touch an earlier number.
  said_before :
      (ss : List Text) (q i : ℕ) (f : ℕ → Text)
      → i < q
      → q + length ss < 2 ^ 32
      → said turn (told q ss) f i ≡ f i
  said_before [] q i f h b = refl
  said_before (s ∷ ss) q i f h b =
      let m : u32 (q + 1) ≡ q + 1 = omega arith in
      let f' : ℕ → Text = say turn (sentence turn q s lang) f in
      let kept : f' i ≡ f i = ground arith in
      said_before ss (u32 (q + 1)) i f' (omega (arith, m)) (omega (arith, m)) ∙ kept

  -- The texts that the numbers stand for, joined.
  pieces_told :
      (ss : List Text) (q : ℕ) (f s : ℕ → Text) (h : ℕ → Bool)
      → q + length ss < 2 ^ 32
      → ((i : ℕ) → s i ≡ said turn (told q ss) f (q + i))
      → all_of (pieces false (length ss) s h) ≡ all_of ss
  unfolding pieces
  pieces_told [] q f s h b e = refl
  pieces_told (x ∷ ss) q f s h b e =
      let m : u32 (q + 1) ≡ q + 1 = omega arith in
      let f' : ℕ → Text = say turn (sentence turn q x lang) f in
      let here : f' (q + 0) ≡ x = ground arith in
      let first : s 0 ≡ x =
        e 0
        ∙ said_before ss (u32 (q + 1)) (q + 0) f' (omega (arith, m)) (omega (arith, m))
        ∙ here in
      let ih =
        pieces_told ss (u32 (q + 1)) f' (λ i. s (suc i)) (λ i. h (suc i)) (omega (arith, m))
          (λ i.
            e (suc i)
            ∙ ap (said turn (told (u32 (q + 1)) ss) f') {x = q + suc i} {y = u32 (q + 1) + i}
                (omega (arith, m))) in
      all_but_empty (s 0) (pieces false (length ss) (λ i. s (suc i)) (λ i. h (suc i)))
      ∙ ap₂ (λ a b. a ++ b) first ih

  told-InTurn :
      (ss : List Text) (q n : ℕ) → q + length ss ≤ n → n < 2 ^ 32 → All (InTurn turn n) (told q ss)
  told-InTurn [] q n b k = tt
  told-InTurn (s ∷ ss) q n b k =
      let m : u32 (q + 1) ≡ q + 1 = omega arith in
      ((λ e. omega arith), told-InTurn ss (u32 (q + 1)) n (omega (arith, m)) k)

  told-posted : (ss : List Text) (q : ℕ) (w : TurnWriter) → (run (told q ss) w).posted ≡ w.posted
  unfolding run on_event handle_sentence
  told-posted [] q w = refl
  told-posted (s ∷ ss) q w = told-posted ss (u32 (q + 1)) (handle_sentence turn q s lang w)

  started-posted : (w : TurnWriter) → (on_event (started turn) now w).posted ≡ w.posted
  unfolding on_event handle_started
  started-posted w = grind arith

  -- A turn announced, told and ended is remembered as committed.
  told_remembered :
      (ss : List Text) (count : ℕ) (w : TurnWriter)
      → length ss < 2 ^ 32
      → w.session ≢ 0
      → w.in_flight turn ≡ none
      → let log =
          (llm_started turn ∷ [])
          ++ numbered turn lang 0 ss
          ++ llm_finished (finished_event turn false count) ∷ [] in
        let w' = run (inputs now log) w in
        (w'.in_flight turn ≡ none)
        × (ps : List Text) × (l : Text) × (w'.posted
            ≡ rows w.session false ps l now now ++ w.posted)
        × (all_of ps ≡ all_of ss)
  unfolding run
  told_remembered ss count w b ne fresh =
      let es = told 0 ss in
      let r =
        turn_persisted turn (length ss) now now false es w b ne fresh
          (told-InTurn ss 0 (length ss) (omega arith) b) in
      let log = llm_started turn ∷ numbered turn lang 0 ss in
      let fin = llm_finished (finished_event turn false count) ∷ [] in
      let ps = pieces false (length ss) (said turn es (λ i. [])) (heard turn es (λ i. false)) in
      let whole : run (inputs now (log ++ fin)) w
          ≡ on_event (finished turn false) now (run ((started turn, now) ∷ es) w) =
        ap (λ l. run l w) (inputs-append now log fin)
        ∙ run-append (inputs now log) (inputs now fin) w in
      (
        ap (λ (x : TurnWriter). x.in_flight turn) whole ∙ r.0,
        ps,
        tongue turn es [],
        ap (λ (x : TurnWriter). x.posted) whole
            ∙ r.1
            ∙ ap (λ l. rows w.session false ps (tongue turn es []) now now ++ l)
                (told-posted ss 0 (on_event (started turn) now w) ∙ started-posted w),
        pieces_told ss 0 (λ i. []) (said turn es (λ i. [])) (heard turn es (λ i. false))
            (omega arith) (λ i. ap (said turn es (λ j. [])) {x = i} {y = 0 + i} (omega arith)),
      )

-- From the bytes of the language model to the memory. The splitter makes no more sentences of the contents
-- than the cap, which is less than 2 ^ 32 - 1, no other thread cancels the turn, the manager has published
-- nothing before, and the writer has a session and does not know the turn. The events that one round of the manager publishes make the
-- turn writer post exactly one row, of a committed turn, whose text is that of the contents streamed,
-- but for whitespace; and the turn is in flight no longer.
pub answer_remembered :
    (provided : Option TurnId) (now : ℕ) (read : Text → Option Text) (e : Transcript) (m : Manager)
    (ps : List Text) (rest b : Text) (bs : List Text) (curl_ok : Bool) (http_status : ℕ)
    (w : TurnWriter)
    → m.cfg.max_assistant_sentences + 1 < 2 ^ 32
    → length (split_all m.cfg (contents read ps)) ≤ m.cfg.max_assistant_sentences
    → m.actions ≡ []
    → All IsPayload ps
    → b ++ joined bs ≡ frames ps ++ (frame k_done_sentinel ++ rest)
    → w.session ≢ 0
    → w.in_flight (context provided now m.turns m.tokens).0.id ≡ none
    → let m' = run_one provided now read (streamed b bs curl_ok http_status) e m in
      let w' = run (inputs now (seen m'.actions)) w in
      (w'.in_flight (context provided now m.turns m.tokens).0.id ≡ none)
      × (texts : List Text) × (l : Text) × (w'.posted
          ≡ rows w.session false texts l now now ++ w.posted)
      × (visible (spaced texts) ≡ visible (all_of (contents read ps)))
answer_remembered provided now read e m ps rest b bs ok status w small fits none_yet a joined_is ne
      fresh =
    let turn = (context provided now m.turns m.tokens).0.id in
    let ts = contents read ps in
    let ss = split_all m.cfg ts in
    let lang = language m.cfg e.lang in
    let fin = llm_finished (finished_event turn false (u64 (length ts))) ∷ [] in
    let log : seen (run_one provided now read (streamed b bs ok status) e m).actions
        ≡ (llm_started turn ∷ []) ++ numbered turn lang 0 ss ++ fin =
      answer_published provided now read e m ps rest b bs ok status small fits a joined_is
      ∙ ap (λ l. (seen l ++ llm_started turn ∷ []) ++ numbered turn lang 0 ss ++ fin) none_yet in
    let (gone, texts, l, row, same) =
      told_remembered turn now lang ss (u64 (length ts)) w (omega (arith, small, fits)) ne fresh in
    let writes = ap (λ l. run (inputs now l) w) log in
    (
      ap (λ (x : TurnWriter). x.in_flight turn) writes ∙ gone,
      texts,
      l,
      ap (λ (x : TurnWriter). x.posted) writes ∙ row,
      spaced-visible texts
          ∙ ap visible same
          ∙ (flush_keeps m.cfg.detect_code_fences m.cfg.max_sentence_chars ts).0,
    )
