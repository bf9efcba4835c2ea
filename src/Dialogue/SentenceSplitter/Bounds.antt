-- ===== src/Dialogue/SentenceSplitter/Bounds.antt =====
-- The pending terminator stays a position of the buffer, so that `buf_[pending_term_pos_]` is in bounds.
use lclva.Prelude.{
  ℕ, ◌+◌, ◌<◌, ◌≡◌, refl, subst, [], ◌∷◌, Option, none, some, Bool, true, false, arith,
  if◌then◌else◌, leb, length, length-append, length-drop,
}
use lclva.Dialogue.SentenceSplitter.{
  Text, in_fence, count_char, clear_pending, SentenceSplitter, flush_buffer, flush, resolve_pending,
  defer, on_terminator, on_char, on_pending, decide, append_char, push_char, push,
}

-- A pending position and the length of the buffer.
abbrev pub Within : Option ℕ → ℕ → Type 0
Within none n = Unit
Within (some pos) n = pos < n

-- What every call keeps.
abbrev pub IsValid : SentenceSplitter → Type 0
IsValid s = Within s.pending_term_pos (length s.buf)

Within-suc : (o : Option ℕ) (n m : ℕ) → n < m → Within o n → Within o m
Within-suc none n m l w = tt
Within-suc (some pos) n m l w = omega arith

on_terminator-IsValid :
    (c : ℕ) (s : SentenceSplitter) → 0 < length s.buf → IsValid (on_terminator c s)
unfolding on_terminator defer
on_terminator-IsValid c s l = ground arith

on_char-IsValid :
    (c : ℕ) (s : SentenceSplitter) → 0 < length s.buf → IsValid s → IsValid (on_char c s)
unfolding on_char flush_buffer
on_char-IsValid c s l v = ground (arith, on_terminator-IsValid c s l)

-- The pending terminator stands before the last character of the buffer.
abbrev Before : Option ℕ → ℕ → Type 0
Before none n = 0 < n
Before (some pos) n = pos + 1 < n

resolve_pending-buf :
    (pos : ℕ) (s : SentenceSplitter)
    → pos + 1 < length s.buf
    → 0 < length (resolve_pending pos s).buf
unfolding resolve_pending
resolve_pending-buf pos s l = omega (arith, length-drop (pos + 1) s.buf)

resolve_pending-pos : (pos : ℕ) (s : SentenceSplitter) → IsValid (resolve_pending pos s)
unfolding resolve_pending
resolve_pending-pos pos s = tt

decide-IsValid :
    (o : Option ℕ) (c : ℕ) (s : SentenceSplitter)
    → o ≡ s.pending_term_pos
    → Before o (length s.buf)
    → IsValid (decide o c s)
unfolding decide on_pending
decide-IsValid none c s e b = on_char-IsValid c s b (ground (arith, e))
decide-IsValid (some pos) c s e b =
    let w = subst (λ o. Within o (length s.buf)) e (omega arith) in
    let h =
      on_char-IsValid c (resolve_pending pos s) (resolve_pending-buf pos s b)
        (resolve_pending-pos pos s) in
    ground (arith, w, h)

Within-Before : (o : Option ℕ) (n m : ℕ) → m ≡ n + 1 → Within o n → Before o m
Within-Before none n m e w = omega arith
Within-Before (some pos) n m e w = omega arith

if-IsValid :
    (b : Bool) (x y : SentenceSplitter) → IsValid x → IsValid y → IsValid (if b then x else y)
if-IsValid true x y p q = p
if-IsValid false x y p q = q

push_char-IsValid : (c : ℕ) (s : SentenceSplitter) → IsValid s → IsValid (push_char c s)
unfolding push_char append_char
push_char-IsValid c s v =
    let a = append_char c s in
    let e : length a.buf ≡ length s.buf + 1 = length-append s.buf (c ∷ []) in
    let d =
      decide-IsValid a.pending_term_pos c a refl
        (Within-Before s.pending_term_pos (length s.buf) (length a.buf) e v) in
    let w = Within-suc s.pending_term_pos (length s.buf) (length a.buf) (omega (arith, e)) v in
    if-IsValid (in_fence a.mode) (count_char a) (decide a.pending_term_pos c a) w d

push-IsValid : (text : Text) (s : SentenceSplitter) → IsValid s → IsValid (push text s)
unfolding push
push-IsValid [] s v = v
push-IsValid (c ∷ text) s v = push-IsValid text (push_char c s) (push_char-IsValid c s v)

-- Pushing a text keeps the pending terminator a position of the buffer, and so does a flush behind it:
-- the code's reads at that position are in bounds.
pub push_bounds :
    (text : Text) (s : SentenceSplitter)
    → IsValid s
    → IsValid (push text s) × IsValid (flush (push text s))
unfolding flush flush_buffer
push_bounds text s v =
    let s' = clear_pending (push text s) in
    (
      push-IsValid text s v,
      if-IsValid (leb 1 (length (push text s).buf)) (flush_buffer s') s' tt tt,
    )
