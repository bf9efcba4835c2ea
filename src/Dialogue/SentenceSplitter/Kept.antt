-- ===== src/Dialogue/SentenceSplitter/Kept.antt =====
-- Nothing that can be seen is lost: sentences and buffer hold the input but for whitespace.
use lclva.Prelude.{
  ℕ, zero, suc, ◌+◌, ◌≡◌, refl, sym, ap, ap₂, ◌∙◌, List, [], ◌∷◌, ◌++◌, append-nil, append_assoc,
  Option, none, some, Bool, true, false, not, arith, if◌then◌else◌, leb, ◌==◌, ◌&&◌, ◌||◌, u64,
  get_elem?, length, take, drop, keep, keep-append,
}
use lclva.Dialogue.SentenceSplitter.{
  Text, dot, is_dot, in_fence, count_char, clear_pending, is_whitespace, is_terminator, is_digit,
  trim_leading, SentenceSplitter, sentence_splitter, emit, flush_buffer, flush, resolve_pending,
  defer, on_terminator, on_char, on_pending, decide, append_char, push_char, push,
}

abbrev pub visible : Text → Text
visible = keep (λ (c : ℕ). not (is_whitespace c))

abbrev pub joined : List Text → Text
joined [] = []
joined (s ∷ ss) = s ++ joined ss

-- What a splitter holds: the sentences given out, then the buffer.
unfoldable pub held : SentenceSplitter → Text
held s = visible (joined s.out ++ s.buf)

trim_leading-visible : (s : Text) → visible (trim_leading s) ≡ visible s
unfolding trim_leading
trim_leading-visible [] = refl
trim_leading-visible (c ∷ s) = ground (arith, trim_leading-visible s)

joined-append : (a b : List Text) → joined (a ++ b) ≡ joined a ++ joined b
joined-append [] b = refl
joined-append (s ∷ a) b =
    ap (λ l. s ++ l) (joined-append a b) ∙ sym (append_assoc s (joined a) (joined b))

emit-joined : (s : Text) (out : List Text) → joined (emit s out) ≡ joined out ++ s
unfolding emit
emit-joined [] out = sym (append-nil (joined out))
emit-joined (c ∷ s) out =
    joined-append out ((c ∷ s) ∷ []) ∙ ap (λ l. joined out ++ (c ∷ l)) (append-nil s)

-- A sentence that is given out, of a text `s` followed by the rest.
emit-visible :
    (s rest : Text) (out : List Text)
    → visible (joined (emit (trim_leading s) out) ++ rest) ≡ visible (joined out ++ (s ++ rest))
emit-visible s rest out =
    let v = keep-append (λ (c : ℕ). not (is_whitespace c)) in
    ap (λ l. visible (l ++ rest)) (emit-joined (trim_leading s) out)
    ∙ v (joined out ++ trim_leading s) rest
    ∙ ap (λ l. l ++ visible rest)
        (v (joined out) (trim_leading s)
          ∙ ap (λ l. visible (joined out) ++ l) (trim_leading-visible s)
          ∙ sym (v (joined out) s))
    ∙ sym (v (joined out ++ s) rest)
    ∙ ap visible (append_assoc (joined out) s rest)

take-drop : (n : ℕ) (s : Text) → take n s ++ drop n s ≡ s
take-drop zero s = refl
take-drop (suc n) [] = refl
take-drop (suc n) (c ∷ s) = ap (λ l. c ∷ l) (take-drop n s)

same-held : (s t : SentenceSplitter) → s.out ≡ t.out → s.buf ≡ t.buf → held s ≡ held t
unfolding held
same-held s t p q = ap₂ (λ a b. visible (joined a ++ b)) p q

-- A test whose two branches hold the same.
if-held :
    (b : Bool) (x y : SentenceSplitter) (h : Text)
    → held x ≡ h
    → held y ≡ h
    → held (if b then x else y) ≡ h
if-held true x y h p q = p
if-held false x y h p q = q

flush_buffer-held : (s : SentenceSplitter) → held (flush_buffer s) ≡ held s
unfolding held flush_buffer
flush_buffer-held s =
    emit-visible s.buf [] s.out ∙ ap (λ l. visible (joined s.out ++ l)) (append-nil s.buf)

resolve_pending-held : (pos : ℕ) (s : SentenceSplitter) → held (resolve_pending pos s) ≡ held s
unfolding held resolve_pending
resolve_pending-held pos s =
    emit-visible (take (pos + 1) s.buf) (drop (pos + 1) s.buf) s.out
    ∙ ap (λ b. visible (joined s.out ++ b)) (take-drop (pos + 1) s.buf)

on_terminator-held : (c : ℕ) (s : SentenceSplitter) → held (on_terminator c s) ≡ held s
unfolding held on_terminator defer
on_terminator-held c s = ground arith

on_char-held : (c : ℕ) (s : SentenceSplitter) → held (on_char c s) ≡ held s
unfolding on_char
on_char-held c s =
    let s' = count_char s in
    if-held (is_terminator c) (on_terminator c s) _ (held s) (on_terminator-held c s) (
      if-held (leb s.max_sentence_chars s'.chars_since_terminator && (is_whitespace c || (c == 44)))
        (flush_buffer s') s' (held s) (flush_buffer-held s' ∙ same-held s' s refl refl)
        (same-held s' s refl refl))

on_pending-held : (pos c : ℕ) (s : SentenceSplitter) → held (on_pending pos c s) ≡ held s
unfolding on_pending
on_pending-held pos c s =
    let r = on_char-held c (resolve_pending pos s) ∙ resolve_pending-held pos s in
    let s' = count_char (clear_pending s) in
    let q = same-held s' s refl refl in
    let more = record s { pending_dot_run = u64 (s.pending_dot_run + 1) } in
    let here = on_char c (resolve_pending pos s) in
    let late = if leb 2 s.pending_dot_run then s' else here in
    if-held ((c == dot) && is_dot (get_elem? s.buf pos)) more (if is_digit c then s' else late)
      (held s) (same-held more s refl refl)
      (if-held (is_digit c) s' late (held s) q
        (if-held (leb 2 s.pending_dot_run) s' here (held s) q r))

decide-held : (o : Option ℕ) (c : ℕ) (s : SentenceSplitter) → held (decide o c s) ≡ held s
unfolding decide
decide-held none c s = on_char-held c s
decide-held (some pos) c s = on_pending-held pos c s

append_char-held :
    (c : ℕ) (s : SentenceSplitter) → held (append_char c s) ≡ held s ++ visible (c ∷ [])
unfolding held append_char
append_char-held c s =
    ap visible (sym (append_assoc (joined s.out) s.buf (c ∷ [])))
    ∙ keep-append (λ (c : ℕ). not (is_whitespace c)) (joined s.out ++ s.buf) (c ∷ [])

push_char-held : (c : ℕ) (s : SentenceSplitter) → held (push_char c s) ≡ held s ++ visible (c ∷ [])
unfolding push_char
push_char-held c s =
    let a = append_char c s in
    if-held (in_fence a.mode) (count_char a) (decide a.pending_term_pos c a) (held a)
      (same-held (count_char a) a refl refl) (decide-held a.pending_term_pos c a)
    ∙ append_char-held c s

push-held : (text : Text) (s : SentenceSplitter) → held (push text s) ≡ held s ++ visible text
unfolding push
push-held [] s = sym (append-nil (held s))
push-held (c ∷ text) s =
    push-held text (push_char c s)
    ∙ ap (λ l. l ++ visible text) (push_char-held c s)
    ∙ append_assoc (held s) (visible (c ∷ [])) (visible text)
    ∙ ap (λ l. held s ++ l) (sym (keep-append (λ (c : ℕ). not (is_whitespace c)) (c ∷ []) text))

push-append : (a b : Text) (s : SentenceSplitter) → push (a ++ b) s ≡ push b (push a s)
unfolding push
push-append [] b s = refl
push-append (c ∷ a) b s = push-append a b (push_char c s)

-- The tokens of a stream, then its end.
unfoldable pub push_all : List Text → SentenceSplitter → SentenceSplitter
unfolding push
push_all [] s = s
push_all (t ∷ ts) s = push_all ts (push t s)

push_all-joined : (ts : List Text) (s : SentenceSplitter) → push_all ts s ≡ push (joined ts) s
unfolding push_all push
push_all-joined [] s = refl
push_all-joined (t ∷ ts) s = push_all-joined ts (push t s) ∙ sym (push-append t (joined ts) s)

-- A buffer that is flushed unless it is empty is empty.
no-buf :
    (t : Text) (x y : SentenceSplitter)
    → x.buf ≡ []
    → y.buf ≡ t
    → (if leb 1 (length t) then x else y).buf ≡ []
no-buf [] x y p q = q
no-buf (c ∷ t) x y p q = ground (arith, p)

flush-held : (s : SentenceSplitter) → (held (flush s) ≡ held s) × ((flush s).buf ≡ [])
unfolding held flush flush_buffer
flush-held s =
    let s' = clear_pending s in
    (
      if-held (leb 1 (length s.buf)) _ _ (held s) (flush_buffer-held s') refl,
      no-buf s.buf (flush_buffer s') s' refl refl,
    )

-- A stream of tokens and its flush, on a fresh splitter: the sentences joined are the tokens joined, but
-- for whitespace, and the buffer is empty.
pub flush_keeps :
    (detect : Bool) (max : ℕ) (tokens : List Text)
    → let s = flush (push_all tokens (sentence_splitter detect max)) in
      (visible (joined s.out) ≡ visible (joined tokens)) × (s.buf ≡ [])
unfolding held sentence_splitter
flush_keeps detect max tokens =
    let start = sentence_splitter detect max in
    let s = push_all tokens start in
    let f = flush-held s in
    (
      ap visible (sym (append-nil (joined (flush s).out)))
          ∙ ap (λ b. visible (joined (flush s).out ++ b)) (sym f.1)
          ∙ f.0
          ∙ ap held (push_all-joined tokens start)
          ∙ push-held (joined tokens) start,
      f.1,
    )

-- How a text is cut into tokens does not matter: two cuts of one text leave the same splitter.
pub push_all_chunks :
    (ts us : List Text) (s : SentenceSplitter)
    → joined ts ≡ joined us
    → push_all ts s ≡ push_all us s
push_all_chunks ts us s e = push_all-joined ts s ∙ ap (λ t. push t s) e ∙ sym (push_all-joined us s)
