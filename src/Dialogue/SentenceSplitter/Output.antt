-- ===== src/Dialogue/SentenceSplitter/Output.antt =====
-- src/dialogue/sentence_splitter.cpp: what a call appends does not depend on what `out` holds.
use lclva.Prelude.{
  ℕ, ◌+◌, ◌≡◌, refl, ap, ◌∙◌, List, [], ◌∷◌, ◌++◌, append_assoc, Option, none, some, Bool, true,
  false, if◌then◌else◌, arith, length, leb, take,
}
use lclva.Dialogue.SentenceSplitter.{
  Text, SentenceSplitter, emit, trim_leading, flush_buffer, flush, resolve_pending, on_terminator,
  on_char, on_pending, decide, append_char, push_char, push, count_char, clear_pending, in_fence,
  defer,
}

unfoldable pub onto : List Text → SentenceSplitter → SentenceSplitter
onto o s = record s { out = o ++ s.out }

if-onto :
    (b : Bool) (o : List Text) (x y x' y' : SentenceSplitter)
    → x' ≡ onto o x
    → y' ≡ onto o y
    → (if b then x' else y') ≡ onto o (if b then x else y)
if-onto true o x y x' y' p q = p
if-onto false o x y x' y' p q = q

emit-onto : (s : Text) (o out : List Text) → emit s (o ++ out) ≡ o ++ emit s out
unfolding emit
emit-onto [] o out = refl
emit-onto (c ∷ s) o out = append_assoc o out ((c ∷ s) ∷ [])

flush_buffer-onto :
    (o : List Text) (s : SentenceSplitter) → flush_buffer (onto o s) ≡ onto o (flush_buffer s)
unfolding flush_buffer onto
flush_buffer-onto o s =
    ap (λ l. record (flush_buffer s) { out = l }) (emit-onto (trim_leading s.buf) o s.out)

resolve_pending-onto :
    (pos : ℕ) (o : List Text) (s : SentenceSplitter)
    → resolve_pending pos (onto o s) ≡ onto o (resolve_pending pos s)
unfolding resolve_pending onto
resolve_pending-onto pos o s =
    ap (λ l. record (resolve_pending pos s) { out = l })
      (emit-onto (trim_leading (take (pos + 1) s.buf)) o s.out)

on_terminator-onto :
    (c : ℕ) (o : List Text) (s : SentenceSplitter)
    → on_terminator c (onto o s) ≡ onto o (on_terminator c s)
unfolding on_terminator onto defer
on_terminator-onto c o s = ground arith

on_char-onto :
    (c : ℕ) (o : List Text) (s : SentenceSplitter) → on_char c (onto o s) ≡ onto o (on_char c s)
unfolding on_char onto
on_char-onto c o s = ground (arith, on_terminator-onto c o s, flush_buffer-onto o (count_char s))

on_pending-onto :
    (pos c : ℕ) (o : List Text) (s : SentenceSplitter)
    → on_pending pos c (onto o s) ≡ onto o (on_pending pos c s)
unfolding on_pending onto
on_pending-onto pos c o s =
    let e =
      ap (on_char c) (resolve_pending-onto pos o s) ∙ on_char-onto c o (resolve_pending pos s) in
    ground (arith, e)

decide-onto :
    (p : Option ℕ) (c : ℕ) (o : List Text) (s : SentenceSplitter)
    → decide p c (onto o s) ≡ onto o (decide p c s)
unfolding decide
decide-onto none c o s = on_char-onto c o s
decide-onto (some pos) c o s = on_pending-onto pos c o s

push_char-onto :
    (c : ℕ) (o : List Text) (s : SentenceSplitter) → push_char c (onto o s) ≡ onto o (push_char c s)
unfolding push_char onto append_char
push_char-onto c o s =
    let s' = append_char c s in
    if-onto (in_fence s'.mode) o (count_char s') (decide s'.pending_term_pos c s') _ _ refl
      (decide-onto s'.pending_term_pos c o s')

pub push-onto :
    (text : Text) (o : List Text) (s : SentenceSplitter)
    → push text (onto o s) ≡ onto o (push text s)
unfolding push
push-onto [] o s = refl
push-onto (c ∷ text) o s = ap (push text) (push_char-onto c o s) ∙ push-onto text o (push_char c s)

pub flush-onto : (o : List Text) (s : SentenceSplitter) → flush (onto o s) ≡ onto o (flush s)
unfolding flush onto
flush-onto o s =
    ap (λ (x : SentenceSplitter). record x { chars_since_terminator = 0 })
      (if-onto (leb 1 (length s.buf)) o (flush_buffer (clear_pending s)) (clear_pending s) _ _
        (flush_buffer-onto o (clear_pending s)) refl)
