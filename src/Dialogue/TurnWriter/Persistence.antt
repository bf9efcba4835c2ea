-- ===== src/Dialogue/TurnWriter/Persistence.antt =====
-- src/dialogue/turn_writer.cpp: the vectors of a turn hold what its events say, and its end writes it.
use lclva.Prelude.{
  at, ℕ, zero, suc, ◌+◌, ◌<◌, ◌≤◌, ◌^◌, ◌≡◌, ◌≢◌, refl, sym, ap, subst, ap₂, ◌∙◌, List, [], ◌∷◌,
  ◌++◌, append_assoc, append-nil, none, some, Bool, true, false, not, ◌&&◌, ◌||◌, if◌then◌else◌,
  ◌==◌, length, All, arith, Bool-cases, ==_iff, inl, inr, if_true, if_false,
}
use lclva.Dialogue.SentenceSplitter.{Text}
use lclva.Dialogue.TurnWriter.{
  Input, final_transcript, llm_started, llm_sentence, llm_finished, playback_finished, other,
  AssistantState, TurnWriter, is_empty, separated, persist_one, persisted, no_sentences, played_at,
  rest_of, add_sentence, mark_played, entry, handle_started, handle_sentence,
  handle_playback_finished, handle_finished, handle_final, on_event, run, write_turn, update,
}
use lclva.Dialogue.TurnWriter.Spec.{
  say, said, hear, heard, name_tongue, tongue, pieces, after_blanks, spaced, InTurn, rows,
}
use lclva.Dialogue.TurnWriter.Vectors.{Holds, add_sentence-Holds, mark_played-Holds}

-- A turn is in flight with what its events say.
abbrev Tracks : (turn n : ℕ) → (ℕ → Text) → (ℕ → Bool) → Text → ℕ → TurnWriter → Type 0
Tracks turn n s h l start w =
    (st : AssistantState) × (w.in_flight turn ≡ some st) × Holds n s h l start st

started-kept :
    (turn t now : ℕ) (st : AssistantState) (w : TurnWriter)
    → w.in_flight turn ≡ some st
    → (handle_started t now w).in_flight turn ≡ some st
unfolding handle_started
started-kept turn t now st w p = grind arith

sentence-Tracks :
    (turn n t seq : ℕ) (text lang : Text) (s : ℕ → Text) (h : ℕ → Bool) (l : Text) (start : ℕ)
    (w : TurnWriter)
    → n < 2 ^ 32
    → (turn ≡ t → seq < n)
    → Tracks turn n s h l start w
    → Tracks turn n
        (say turn (llm_sentence t seq text lang) s)
        h
        (name_tongue turn (llm_sentence t seq text lang) l)
        start
        (handle_sentence t seq text lang w)
unfolding handle_sentence entry
sentence-Tracks turn n t seq text lang s h l start w k b (st, p, hs) =
    elim (Bool-cases (turn == t)) [
      | inl e ↦
          let same = (==_iff turn t).0 e in
          let q : entry t w ≡ st =
            ap (λ o. elim o [ none ↦ no_sentences 0 | some st ↦ st ])
              (ap w.in_flight (sym same) ∙ p) in
          (
            add_sentence seq text lang st,
            if_true (turn == t) _ _ e ∙ ap (λ x. some (add_sentence seq text lang x)) q,
            subst
                (λ c.
                  Holds n (λ i. if c && (i == seq) then text else s i) h
                    (if c && is_empty l then lang else l) start (add_sentence seq text lang st))
                (sym e) (add_sentence-Holds n seq text lang s h l start st (b same) k hs),
          )
      | inr e ↦ (
        st,
        if_false (turn == t) _ _ e ∙ p,
        subst
            (λ c.
              Holds n (λ i. if c && (i == seq) then text else s i) h
                (if c && is_empty l then lang else l) start st)
            (sym e) hs,
      )
    ]

played-Tracks :
    (turn n t seq : ℕ) (s : ℕ → Text) (h : ℕ → Bool) (l : Text) (start : ℕ) (w : TurnWriter)
    → n < 2 ^ 32
    → (turn ≡ t → seq < n)
    → Tracks turn n s h l start w
    → Tracks turn n s
        (hear turn (playback_finished t seq) h)
        l
        start
        (handle_playback_finished t seq w)
unfolding handle_playback_finished
played-Tracks turn n t seq s h l start w k b (st, p, hs) = elim (Bool-cases (turn == t)) [
  | inl e ↦
      let same = (==_iff turn t).0 e in
      let q : w.in_flight t ≡ some st = ap w.in_flight (sym same) ∙ p in
      (
        mark_played seq st,
        grind arith,
        subst
            (λ c.
              Holds n s (λ i. if c && (i == seq) then true else h i) l start (mark_played seq st))
            (sym e) (mark_played-Holds n seq s h l start st (b same) k hs),
      )
  | inr e ↦ (
    st,
    grind arith,
    subst (λ c. Holds n s (λ i. if c && (i == seq) then true else h i) l start st) (sym e) hs,
  )
]

final-kept :
    (turn now : ℕ) (text lang : Text) (st : AssistantState) (w : TurnWriter)
    → w.in_flight turn ≡ some st
    → (handle_final text lang now w).in_flight turn ≡ some st
unfolding handle_final
final-kept turn now text lang st w p = ground arith

finished-kept :
    (turn t now : ℕ) (c : Bool) (st : AssistantState) (w : TurnWriter)
    → turn ≢ t
    → w.in_flight turn ≡ some st
    → (handle_finished t c now w).in_flight turn ≡ some st
unfolding handle_finished write_turn
finished-kept turn t now c st w ne p = grind arith

on_event-Tracks :
    (turn n now : ℕ) (e : Input) (s : ℕ → Text) (h : ℕ → Bool) (l : Text) (start : ℕ)
    (w : TurnWriter)
    → n < 2 ^ 32
    → InTurn turn n (e, now)
    → Tracks turn n s h l start w
    → Tracks turn n (say turn e s) (hear turn e h) (name_tongue turn e l) start (on_event e now w)
unfolding on_event
on_event-Tracks turn n now (final_transcript text lang) s h l start w k b (st, p, hs) =
    (st, final-kept turn now text lang st w p, hs)
on_event-Tracks turn n now (llm_started t) s h l start w k b (st, p, hs) =
    (st, started-kept turn t now st w p, hs)
on_event-Tracks turn n now (llm_sentence t seq text lang) s h l start w k b tr =
    sentence-Tracks turn n t seq text lang s h l start w k b tr
on_event-Tracks turn n now (llm_finished t c) s h l start w k b (st, p, hs) =
    (st, finished-kept turn t now c st w b p, hs)
on_event-Tracks turn n now (playback_finished t seq) s h l start w k b tr =
    played-Tracks turn n t seq s h l start w k b tr
on_event-Tracks turn n now other s h l start w k b tr = tr

run-Tracks :
    (turn n : ℕ) (es : List (Input × ℕ)) (s : ℕ → Text) (h : ℕ → Bool) (l : Text) (start : ℕ)
    (w : TurnWriter)
    → n < 2 ^ 32
    → All (InTurn turn n) es
    → Tracks turn n s h l start w
    → Tracks turn n (said turn es s) (heard turn es h) (tongue turn es l) start (run es w)
unfolding run
run-Tracks turn n [] s h l start w k b tr = tr
run-Tracks turn n ((e, now) ∷ es) s h l start w k (b, bs) tr =
    run-Tracks turn n es _ _ _ start (on_event e now w) k bs
      (on_event-Tracks turn n now e s h l start w k b tr)

on_event-session : (e : Input) (now : ℕ) (w : TurnWriter) → (on_event e now w).session ≡ w.session
unfolding on_event handle_final handle_started handle_sentence handle_finished
    handle_playback_finished write_turn
on_event-session (final_transcript text lang) now w = ground arith
on_event-session (llm_started turn) now w = grind arith
on_event-session (llm_sentence turn seq text lang) now w = refl
on_event-session (llm_finished turn cancelled) now w = grind arith
on_event-session (playback_finished turn seq) now w = grind arith
on_event-session other now w = refl

run-session : (es : List (Input × ℕ)) (w : TurnWriter) → (run es w).session ≡ w.session
unfolding run
run-session [] w = refl
run-session ((e, now) ∷ es) w = run-session es (on_event e now w) ∙ on_event-session e now w

-- The loop adds the sentences that count, one by one.
abbrev add_all : List Text → Text × ℕ → Text × ℕ
add_all [] acc = acc
add_all (p ∷ ps) (text, count) = add_all ps (separated text p, count + 1)

pieces_of :
    (c : Bool) (n : ℕ) (s : ℕ → Text) (h : ℕ → Bool) → ((i : ℕ) → s i ≡ []) → pieces c n s h ≡ []
unfolding pieces
pieces_of c zero s h e = refl
pieces_of c (suc n) s h e =
    if_true _ (pieces c n (λ i. s (suc i)) (λ i. h (suc i))) _
      (ap (λ x. is_empty x || (c && not (h 0))) (e 0))
    ∙ pieces_of c n (λ i. s (suc i)) (λ i. h (suc i)) (λ i. e (suc i))

at_front : (ps : List Bool) → played_at ps ≡ at false ps 0
at_front [] = refl
at_front (p ∷ ps) = refl

at-rest : (ps : List Bool) (i : ℕ) → at false (rest_of ps) i ≡ at false ps (suc i)
at-rest [] i = refl
at-rest (p ∷ ps) i = refl

if_add_all :
    (skip : Bool) (p : Text) (ps : List Text) (text : Text) (count : ℕ)
    → add_all ps (if skip then (text, count) else (separated text p, count + 1))
      ≡ add_all (if skip then ps else p ∷ ps) (text, count)
if_add_all true p ps text count = refl
if_add_all false p ps text count = refl

persisted_lem :
    (c : Bool) (n : ℕ) (ss : List Text) (ps : List Bool) (s : ℕ → Text) (h : ℕ → Bool)
    (acc : Text × ℕ)
    → length ss ≤ n
    → ((i : ℕ) → at [] ss i ≡ s i)
    → ((i : ℕ) → at false ps i ≡ h i)
    → persisted c ss ps acc ≡ add_all (pieces c n s h) acc
unfolding persisted persist_one pieces
persisted_lem c n [] ps s h acc b es eh =
    sym (ap (λ l. add_all l acc) (pieces_of c n s h (λ i. sym (es i))))
persisted_lem c zero (x ∷ ss) ps s h acc b es eh = absurd (omega arith)
persisted_lem c (suc n) (x ∷ ss) ps s h (text, count) b es eh =
    let s' : ℕ → Text = λ i. s (suc i) in
    let h' : ℕ → Bool = λ i. h (suc i) in
    let ih = λ (acc' : Text × ℕ).
      persisted_lem c n ss (rest_of ps) s' h' acc' (omega arith) (λ i. es (suc i))
        (λ i. at-rest ps i ∙ eh (suc i)) in
    let skip = is_empty (s 0) || (c && not (h 0)) in
    ap₂ (λ a p. persisted c ss (rest_of ps) (persist_one c a p (text, count))) (es 0)
      (at_front ps ∙ eh 0)
    ∙ ih (persist_one c (s 0) (h 0) (text, count))
    ∙ if_add_all skip (s 0) (pieces c n s' h') text count

-- Pieces are not empty, so that each is parted from the next by one blank.
abbrev Visible : Text → Type 0
Visible p = is_empty p ≡ false

if-Visible :
    (e skip : Bool) (ps : List Text) (p : Text)
    → All Visible ps
    → is_empty p ≡ e
    → All Visible (if e || skip then ps else p ∷ ps)
if-Visible true skip ps p v q = v
if-Visible false true ps p v q = v
if-Visible false false ps p v q = (q, v)

pieces-Visible : (c : Bool) (n : ℕ) (s : ℕ → Text) (h : ℕ → Bool) → All Visible (pieces c n s h)
unfolding pieces
pieces-Visible c zero s h = tt
pieces-Visible c (suc n) s h =
    let rest = pieces-Visible c n (λ i. s (suc i)) (λ i. h (suc i)) in
    if-Visible (is_empty (s 0)) (c && not (h 0)) _ (s 0) rest refl

add_all-tail :
    (ps : List Text) (a : ℕ) (t : Text) (count : ℕ)
    → add_all ps (a ∷ t, count) ≡ ((a ∷ t) ++ after_blanks ps, count + length ps)
add_all-tail [] a t count = ap₂ (λ x y. (x, y)) (sym (append-nil (a ∷ t))) (omega arith)
add_all-tail (p ∷ ps) a t count =
    add_all-tail ps a (t ++ 32 ∷ p) (count + 1)
    ∙ ap₂ (λ x y. (x, y)) (append_assoc (a ∷ t) (32 ∷ p) (after_blanks ps)) (omega arith)

add_all_lem : (ps : List Text) → All Visible ps → add_all ps ([], 0) ≡ (spaced ps, length ps)
add_all_lem [] v = refl
add_all_lem ([] ∷ ps) (v, vs) = cc
add_all_lem ((a ∷ t) ∷ ps) (v, vs) =
    add_all-tail ps a t 1
    ∙ ap (λ (k : ℕ). ((a ∷ t) ++ after_blanks ps, k)) {x = 1 + length ps} {y = suc (length ps)}
        (omega arith)

-- The end of a turn with `ps` counted.
write_turn-rows :
    (c : Bool) (now : ℕ) (st : AssistantState) (ps : List Text) (w : TurnWriter)
    → (write_turn c now st (spaced ps, length ps) w).posted
      ≡ rows w.session c ps st.lang st.started_at now ++ w.posted
unfolding write_turn
write_turn-rows true now st [] w = refl
write_turn-rows true now st (p ∷ ps) w = ground arith
write_turn-rows false now st ps w = refl

write_turn-in_flight :
    (c : Bool) (now turn : ℕ) (st : AssistantState) (acc : Text × ℕ) (w : TurnWriter)
    → (write_turn c now st acc w).in_flight turn ≡ w.in_flight turn
unfolding write_turn
write_turn-in_flight c now turn st (text, count) w = ground arith

-- The end of a turn in flight.
handle_finished-rows :
    (turn now : ℕ) (c : Bool) (st : AssistantState) (ps : List Text) (w : TurnWriter)
    → w.in_flight turn ≡ some st
    → w.session ≢ 0
    → persisted c st.sentences st.played ([], 0) ≡ (spaced ps, length ps)
    → ((handle_finished turn c now w).in_flight turn ≡ none)
      × ((handle_finished turn c now w).posted
          ≡ rows w.session c ps st.lang st.started_at now ++ w.posted)
unfolding handle_finished
handle_finished-rows turn now c st ps w p ne q =
    let w' : TurnWriter = record w { in_flight = update w.in_flight turn none } in
    let ended : handle_finished turn c now w
        ≡ write_turn c now st (persisted c st.sentences st.played ([], 0)) w' =
      grind arith in
    let ended' = ended ∙ ap (λ acc. write_turn c now st acc w') q in
    let e : (turn == turn) ≡ true = ground arith in
    (
      ap (λ (x : TurnWriter). x.in_flight turn) ended'
          ∙ write_turn-in_flight c now turn st (spaced ps, length ps) w'
          ∙ if_true (turn == turn) none _ e,
      ap (λ (x : TurnWriter). x.posted) ended' ∙ write_turn-rows c now st ps w',
    )

-- The writer has a session, and a turn starts that is not in flight yet; then come any events, of this and
-- other turns, that do not end it and whose sequence numbers for it are below `n`, which fits 32 bits; then
-- its stream ends. The turn is in flight no
-- longer, and the memory is given exactly the row that the events ask for: of a turn that was not
-- cancelled every sentence, of a cancelled one those played to the end, both by sequence number, whatever
-- the order in which sentences and playbacks came; and no row for a cancelled turn of which nothing was
-- heard.
pub turn_persisted :
    (turn n start now : ℕ) (cancelled : Bool) (es : List (Input × ℕ)) (w : TurnWriter)
    → n < 2 ^ 32
    → w.session ≢ 0
    → w.in_flight turn ≡ none
    → All (InTurn turn n) es
    → let w₁ = run ((llm_started turn, start) ∷ es) w in
      let w₂ = on_event (llm_finished turn cancelled) now w₁ in
      let ps = pieces cancelled n (said turn es (λ i. [])) (heard turn es (λ i. false)) in
      (w₂.in_flight turn ≡ none)
      × (w₂.posted ≡ rows w.session cancelled ps (tongue turn es []) start now ++ w₁.posted)
unfolding run on_event handle_started handle_finished
turn_persisted turn n start now c es w k ne fresh b =
    let w₀ = on_event (llm_started turn) start w in
    let w₁ = run es w₀ in
    let e : (turn == turn) ≡ true = ground arith in
    let holds : Holds n (λ i. []) (λ i. false) [] start (no_sentences start) = record {
      sentences_are = λ i. refl;
      played_are = λ i. refl;
      same_length = refl;
      bounded = omega arith;
      lang_is = refl;
      started_is = refl;
    } in
    let (st, p, hs) =
      run-Tracks turn n es (λ i. []) (λ i. false) [] start w₀ k b
        (no_sentences start, grind arith, holds) in
    let session : w₁.session ≡ w.session =
      run-session es w₀ ∙ on_event-session (llm_started turn) start w in
    let ps = pieces c n (said turn es (λ i. [])) (heard turn es (λ i. false)) in
    let q =
      persisted_lem c n st.sentences st.played _ _ ([], 0) hs.bounded hs.sentences_are hs.played_are
      ∙ add_all_lem ps (pieces-Visible c n _ _) in
    let r = handle_finished-rows turn now c st ps w₁ p (λ z. ne (sym session ∙ z)) q in
    (
      r.0,
      r.1
          ∙ ap (λ m. rows m c ps st.lang st.started_at now ++ w₁.posted) session
          ∙ ap₂ (λ l m. rows w.session c ps l m now ++ w₁.posted) hs.lang_is hs.started_is,
    )
