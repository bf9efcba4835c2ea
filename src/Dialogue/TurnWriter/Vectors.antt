-- ===== src/Dialogue/TurnWriter/Vectors.antt =====
-- src/dialogue/turn_writer.cpp: the two vectors of a turn, read by sequence number.
use lclva.Prelude.{
  at, at-set, ℕ, zero, suc, ◌+◌, ◌<◌, ◌≤◌, ◌^◌, ◌≡◌, refl, sym, ap, subst, ◌∙◌, List, [], ◌∷◌, Bool,
  true, false, if◌then◌else◌, ◌==◌, leb, length, length-set, arith, u32, Bool-cases, inl, inr,
  if_true, if_false, leb→le,
}
use lclva.Dialogue.SentenceSplitter.{Text}
use lclva.Dialogue.TurnWriter.{AssistantState, resize, is_empty, grow, add_sentence, mark_played}

module _ {ℓ} {A : Type ℓ} where
  at-resize :
      (d : A) (n : ℕ) (xs : List A) (i : ℕ) → length xs ≤ n → at d (resize n d xs) i ≡ at d xs i
  unfolding resize
  at-resize d zero [] i h = refl
  at-resize d zero (x ∷ xs) i h = absurd (omega arith)
  at-resize d (suc n) [] zero h = refl
  at-resize d (suc n) [] (suc i) h = at-resize d n [] i (omega arith)
  at-resize d (suc n) (x ∷ xs) zero h = refl
  at-resize d (suc n) (x ∷ xs) (suc i) h = at-resize d n xs i (omega arith)

  length-resize : (d : A) (n : ℕ) (xs : List A) → length (resize n d xs) ≡ n
  unfolding resize
  length-resize d zero xs = refl
  length-resize d (suc n) [] = ap suc (length-resize d n [])
  length-resize d (suc n) (x ∷ xs) = ap suc (length-resize d n xs)

-- The vectors agree with what the events say, below a bound.
pub record Holds (n : ℕ) (s : ℕ → Text) (h : ℕ → Bool) (l : Text) (start : ℕ) (st : AssistantState)
    : Type 0 where
  pub sentences_are : (i : ℕ) → at [] st.sentences i ≡ s i
  pub played_are : (i : ℕ) → at false st.played i ≡ h i
  pub same_length : length st.played ≡ length st.sentences
  pub bounded : length st.sentences ≤ n
  pub lang_is : st.lang ≡ l
  pub started_is : st.started_at ≡ start

name-Holds :
    (n : ℕ) (lang : Text) (s : ℕ → Text) (h : ℕ → Bool) (l : Text) (start : ℕ) (st : AssistantState)
    → Holds n s h l start st
    → Holds n s h
        (if is_empty l then lang else l)
        start
        (if is_empty st.lang then record st { lang = lang } else st)
name-Holds n lang s h l start st hs = elim (Bool-cases (is_empty st.lang)) [
  | inl e ↦
      subst
        (λ b.
          Holds n s h (if is_empty l then lang else l) start
            (if b then record st { lang = lang } else st))
        (sym e)
        (record {
          sentences_are = hs.sentences_are;
          played_are = hs.played_are;
          same_length = hs.same_length;
          bounded = hs.bounded;
          lang_is = sym (if_true (is_empty l) lang l (ap is_empty (sym hs.lang_is) ∙ e));
          started_is = hs.started_is;
        })
  | inr e ↦
      subst
        (λ b.
          Holds n s h (if is_empty l then lang else l) start
            (if b then record st { lang = lang } else st))
        (sym e)
        (record {
          sentences_are = hs.sentences_are;
          played_are = hs.played_are;
          same_length = hs.same_length;
          bounded = hs.bounded;
          lang_is =
              hs.lang_is ∙ sym (if_false (is_empty l) lang l (ap is_empty (sym hs.lang_is) ∙ e));
          started_is = hs.started_is;
        })
]

grow-Holds :
    (n seq : ℕ) (s : ℕ → Text) (h : ℕ → Bool) (l : Text) (start : ℕ) (st : AssistantState)
    → seq < n
    → n < 2 ^ 32
    → Holds n s h l start st
    → Holds n s h l start (grow (length st.sentences) seq st)
      × (seq < length (grow (length st.sentences) seq st).sentences)
unfolding grow
grow-Holds n seq s h l start st b w hs =
    let m : u32 (seq + 1) ≡ seq + 1 = omega arith in
    let len = length st.sentences in
    elim (Bool-cases (leb len seq)) [
      | inl e ↦
          let le : len ≤ seq + 1 = omega (arith, leb→le len seq e) in
          let grown : AssistantState = record st {
            sentences = resize (u32 (seq + 1)) [] st.sentences;
            played = resize (u32 (seq + 1)) false st.played;
          } in
          let holds : Holds n s h l start grown = record {
            sentences_are = λ i.
                at-resize [] (u32 (seq + 1)) st.sentences i (omega (arith, m, le))
                ∙ hs.sentences_are i;
            played_are = λ i.
                at-resize false (u32 (seq + 1)) st.played i (omega (arith, m, le, hs.same_length))
                ∙ hs.played_are i;
            same_length =
                length-resize false (u32 (seq + 1)) st.played
                ∙ sym (length-resize [] (u32 (seq + 1)) st.sentences);
            bounded = omega (arith, length-resize [] (u32 (seq + 1)) st.sentences, m, b);
            lang_is = hs.lang_is;
            started_is = hs.started_is;
          } in
          let room : seq < length grown.sentences =
            omega (arith, length-resize [] (u32 (seq + 1)) st.sentences, m) in
          subst (λ x. Holds n s h l start x × (seq < length x.sentences))
            (sym (if_true (leb len seq) grown st e)) (holds, room)
      | inr e ↦
          let room : seq < len = ground (arith, e) in
          subst (λ x. Holds n s h l start x × (seq < length x.sentences))
            (sym (if_false (leb len seq) _ st e)) (hs, room)
    ]

pub add_sentence-Holds :
    (n seq : ℕ) (text lang : Text) (s : ℕ → Text) (h : ℕ → Bool) (l : Text) (start : ℕ)
    (st : AssistantState)
    → seq < n
    → n < 2 ^ 32
    → Holds n s h l start st
    → Holds n
        (λ i. if i == seq then text else s i)
        h
        (if is_empty l then lang else l)
        start
        (add_sentence seq text lang st)
unfolding add_sentence
add_sentence-Holds n seq text lang s h l start st b w hs =
    let st₁ : AssistantState = if is_empty st.lang then record st { lang = lang } else st in
    let hs₁ : Holds n s h (if is_empty l then lang else l) start st₁ =
      name-Holds n lang s h l start st hs in
    let (g, room) = grow-Holds n seq s h (if is_empty l then lang else l) start st₁ b w hs₁ in
    let v = (grow (length st₁.sentences) seq st₁).sentences in
    record {
      sentences_are = λ i.
          at-set [] v seq text i room ∙ ap (λ x. if i == seq then text else x) (g.sentences_are i);
      played_are = g.played_are;
      same_length = g.same_length ∙ sym (length-set v seq text);
      bounded = omega (arith, g.bounded, length-set v seq text);
      lang_is = g.lang_is;
      started_is = g.started_is;
    }

pub mark_played-Holds :
    (n seq : ℕ) (s : ℕ → Text) (h : ℕ → Bool) (l : Text) (start : ℕ) (st : AssistantState)
    → seq < n
    → n < 2 ^ 32
    → Holds n s h l start st
    → Holds n s (λ i. if i == seq then true else h i) l start (mark_played seq st)
unfolding mark_played
mark_played-Holds n seq s h l start st b w hs =
    let (g, room) =
      subst (λ k. Holds n s h l start (grow k seq st) × (seq < length (grow k seq st).sentences))
        (sym hs.same_length) (grow-Holds n seq s h l start st b w hs) in
    let v = (grow (length st.played) seq st).played in
    record {
      sentences_are = g.sentences_are;
      played_are = λ i.
          at-set false v seq true i (omega (arith, room, g.same_length))
          ∙ ap (λ x. if i == seq then true else x) (g.played_are i);
      same_length = length-set v seq true ∙ g.same_length;
      bounded = g.bounded;
      lang_is = g.lang_is;
      started_is = g.started_is;
    }
