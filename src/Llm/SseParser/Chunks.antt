-- ===== src/Llm/SseParser/Chunks.antt =====
-- How the bytes are cut into calls of `feed` does not matter, and the loop ends.
use lclva.Prelude.{
  ℕ, zero, suc, ◌+◌, ◌≤◌, ◌<◌, ◌≡◌, refl, sym, ap, ap₂, ◌∙◌, subst, List, [], ◌∷◌, ◌++◌,
  append_assoc, Option, none, some, Bool, true, false, arith, if◌then◌else◌, ◌==◌, ◌&&◌, length,
  take, drop, length-drop, length-append, drop-append, Bool-cases, ◌⊎◌, inl, inr, if_true, if_false,
}
use lclva.Llm.SseParser.{
  Text, on_data, on_done, same_text, k_done_sentinel, SseParser, starts_lf, next_pos,
  find_event_boundary, Line, ignored, comment, data_line, read_line, on_line, emit_lines, lines,
  emit_event, on_boundary, drain, feed,
}

abbrev pub more : Text → SseParser → SseParser
more text s = record s { buffer = s.buffer ++ text }

next_pos-some :
    (o : Option ℕ) (pos : ℕ) → next_pos o ≡ some pos → (k : ℕ) × (o ≡ some k) × (pos ≡ suc k)
next_pos-some none pos e = absurd (ground (arith, e))
next_pos-some (some k) pos e = (k, refl, ground (arith, e))

-- A boundary stands at the front or further on.
boundary-cases :
    (a : ℕ) (s : Text) (pos : ℕ)
    → find_event_boundary (a ∷ s) ≡ some pos
    → ((((a == 10) && starts_lf s) ≡ true) × (pos ≡ 0))
      ⊎ ((((a == 10) && starts_lf s) ≡ false)
          × ((k : ℕ) × (find_event_boundary s ≡ some k) × (pos ≡ suc k)))
unfolding find_event_boundary
boundary-cases a s pos e = elim (Bool-cases ((a == 10) && starts_lf s)) [
  | inl t ↦ inl (t, ground (arith, e, t))
  | inr f ↦ inr (f, next_pos-some (find_event_boundary s) pos (sym (if_false _ (some 0) _ f) ∙ e))
]

starts_lf-length : (s : Text) → starts_lf s ≡ true → 1 ≤ length s
starts_lf-length [] e = absurd (ground (arith, e))
starts_lf-length (b ∷ s) e = omega arith

starts_lf-append : (s t : Text) → 1 ≤ length s → starts_lf (s ++ t) ≡ starts_lf s
starts_lf-append [] t h = absurd (omega arith)
starts_lf-append (b ∷ s) t h = refl

-- A boundary lies in the text and stays the first one behind it.
find_event_boundary-length :
    (s : Text) (pos : ℕ) → find_event_boundary s ≡ some pos → pos + 2 ≤ length s
unfolding find_event_boundary
find_event_boundary-length [] pos e = absurd (ground (arith, e))
find_event_boundary-length (a ∷ s) pos e = elim (boundary-cases a s pos e) [
  | inl c ↦ omega (arith, c.1, starts_lf-length s (ground (arith, c.0)))
  | inr c ↦ omega (arith, c.1.2, find_event_boundary-length s c.1.0 c.1.1)
]

find_event_boundary-append :
    (s t : Text) (pos : ℕ)
    → find_event_boundary s ≡ some pos
    → find_event_boundary (s ++ t) ≡ some pos
unfolding find_event_boundary
find_event_boundary-append [] t pos e = absurd (ground (arith, e))
find_event_boundary-append (a ∷ s) t pos e = elim (boundary-cases a s pos e) [
  | inl c ↦
      let l = starts_lf-append s t (starts_lf-length s (ground (arith, c.0))) in
      ap (λ b. if (a == 10) && b then some 0 else next_pos (find_event_boundary (s ++ t))) l
      ∙ if_true ((a == 10) && starts_lf s) (some 0) _ c.0
      ∙ ap some (sym c.1)
  | inr c ↦
      let l = starts_lf-append s t (omega (arith, find_event_boundary-length s c.1.0 c.1.1)) in
      ap (λ b. if (a == 10) && b then some 0 else next_pos (find_event_boundary (s ++ t))) l
      ∙ if_false ((a == 10) && starts_lf s) (some 0) _ c.0
      ∙ ap next_pos (find_event_boundary-append s t c.1.0 c.1.1)
      ∙ ap some (sym c.1.2)
]

take-more : (n : ℕ) (s t : Text) → n ≤ length s → take n (s ++ t) ≡ take n s
take-more zero s t h = refl
take-more (suc n) [] t h = absurd (omega arith)
take-more (suc n) (c ∷ s) t h = ap (λ l. c ∷ l) (take-more n s t (omega arith))

if-more :
    (b : Bool) (t : Text) (x y : SseParser)
    → (if b then more t x else more t y) ≡ more t (if b then x else y)
if-more true t x y = refl
if-more false t x y = refl

on_line-more : (l : Line) (t : Text) (s : SseParser) → on_line l (more t s) ≡ more t (on_line l s)
unfolding on_line
on_line-more ignored t s = refl
on_line-more (comment line) t s = refl
on_line-more (data_line payload) t s =
    if-more (same_text payload k_done_sentinel) t
      (record s { done_seen = true; calls = on_done ∷ s.calls })
      (record s { calls = on_data payload ∷ s.calls })

-- The callbacks do not touch the buffer and do not read it.
emit_lines-more :
    (ls : List Text) (t : Text) (s : SseParser)
    → emit_lines ls (more t s) ≡ more t (emit_lines ls s)
unfolding emit_lines
emit_lines-more [] t s = refl
emit_lines-more (l ∷ ls) t s =
    let o = on_line-more (read_line l) t s in
    let s' = on_line (read_line l) s in
    ap (λ x. if x.done_seen then x else emit_lines ls x) o
    ∙ ap (λ x. if s'.done_seen then more t s' else x) (emit_lines-more ls t s')
    ∙ if-more s'.done_seen t s' (emit_lines ls s')

if-ap : (b : Bool) (x y z : SseParser) → y ≡ z → (if b then x else y) ≡ (if b then x else z)
if-ap b x y z e = ap (λ y. if b then x else y) e

-- A round depends on the rest of the loop at shorter buffers alone.
on_boundary-rest :
    (o : Option ℕ) (k k' : SseParser → SseParser) (s : SseParser)
    → find_event_boundary s.buffer ≡ o
    → ((s' : SseParser) → length s'.buffer < length s.buffer → k s' ≡ k' s')
    → on_boundary o k s ≡ on_boundary o k' s
unfolding on_boundary
on_boundary-rest none k k' s e h = refl
on_boundary-rest (some pos) k k' s e h =
    let s' = emit_event (take pos s.buffer) s in
    if-ap s'.done_seen _ _ _ (
      h (record s' { buffer = drop (pos + 2) s.buffer })
        (omega (arith, find_event_boundary-length s.buffer pos e, length-drop (pos + 2) s.buffer)))

-- The fuel does not matter beyond the length of the buffer.
drain-fuel :
    (n m : ℕ) (s : SseParser) → length s.buffer < n → length s.buffer < m → drain n s ≡ drain m s
unfolding drain
drain-fuel zero m s h k = absurd (omega arith)
drain-fuel (suc n) zero s h k = absurd (omega arith)
drain-fuel (suc n) (suc m) s h k =
    on_boundary-rest (find_event_boundary s.buffer) (drain n) (drain m) s refl
      (λ s' l. drain-fuel n m s' (omega arith) (omega arith))

-- Where the loop stops: the sentinel was seen and the buffer dropped, or no boundary is left.
abbrev pub Drained : SseParser → Type 0
Drained s =
    ((s.done_seen ≡ true) × (s.buffer ≡ []))
    ⊎ ((s.done_seen ≡ false) × (find_event_boundary s.buffer ≡ none))

if-Drained :
    (b : Bool) (x y : SseParser)
    → (b ≡ true → Drained x)
    → (b ≡ false → Drained y)
    → Drained (if b then x else y)
if-Drained true x y p q = p refl
if-Drained false x y p q = q refl

on_boundary-Drained :
    (o : Option ℕ) (k : SseParser → SseParser) (s : SseParser)
    → find_event_boundary s.buffer ≡ o
    → s.done_seen ≡ false
    → ((s' : SseParser)
        → length s'.buffer < length s.buffer
        → s'.done_seen ≡ false
        → Drained (k s'))
    → Drained (on_boundary o k s)
unfolding on_boundary
on_boundary-Drained none k s e d h = inr (d, e)
on_boundary-Drained (some pos) k s e d h =
    let s' = emit_event (take pos s.buffer) s in
    let l =
      h (record s' { buffer = drop (pos + 2) s.buffer })
        (omega
          (arith, find_event_boundary-length s.buffer pos e, length-drop (pos + 2) s.buffer)) in
    if-Drained s'.done_seen _ _ (λ c. inl (c, refl)) l

drain-Drained :
    (n : ℕ) (s : SseParser) → length s.buffer < n → s.done_seen ≡ false → Drained (drain n s)
unfolding drain
drain-Drained zero s h d = absurd (omega arith)
drain-Drained (suc n) s h d =
    on_boundary-Drained (find_event_boundary s.buffer) (drain n) s refl d
      (λ s' l. drain-Drained n s' (omega arith))

-- The whole loop.
abbrev drained : SseParser → SseParser
drained s = drain (suc (length s.buffer)) s

emit_event-more :
    (e : Text) (t : Text) (s : SseParser) → emit_event e (more t s) ≡ more t (emit_event e s)
unfolding emit_event
emit_event-more e t s = emit_lines-more (lines e) t s

-- What a round does with a boundary, told by the parser behind the callbacks and by the rest of the buffer.
abbrev pub behind : ℕ → SseParser → Text → SseParser
behind n s b = if s.done_seen then record s { buffer = [] } else drain n (record s { buffer = b })

behind-more :
    (n m : ℕ) (t b : Text) (s : SseParser)
    → length b < n
    → length (b ++ t) < m
    → (s.done_seen ≡ false
        → drained (more t (record s { buffer = b })) ≡ feed t (drain n (record s { buffer = b })))
    → behind m s (b ++ t) ≡ feed t (behind n s b)
unfolding feed
behind-more n m t b s h k ih =
    let s' = record s { buffer = b } in
    let stop = record s { buffer = [] } in
    elim (Bool-cases s.done_seen) [
      | inl c ↦
          if_true s.done_seen stop _ c
          ∙ sym (if_true s.done_seen stop _ c)
          ∙ ap (feed t) (sym (if_true s.done_seen stop (drain n s') c))
      | inr c ↦
          if_false s.done_seen stop _ c
          ∙ drain-fuel m (suc (length (b ++ t))) (more t s') k (omega arith)
          ∙ ih c
          ∙ ap (feed t) (sym (if_false s.done_seen stop (drain n s') c))
    ]

-- Bytes behind a boundary wait: the loop over more of them is the loop, then a call with them.
drain-more :
    (n : ℕ) (t : Text) (s : SseParser) (o : Option ℕ)
    → find_event_boundary s.buffer ≡ o
    → length s.buffer < n
    → s.done_seen ≡ false
    → drained (more t s) ≡ feed t (drain n s)
unfolding drain feed on_boundary
drain-more zero t s o e h d = absurd (omega arith)
drain-more (suc n) t s none e h d =
    sym (if_false s.done_seen s _ d) ∙ ap (λ o. feed t (on_boundary o (drain n) s)) (sym e)
drain-more (suc n) t s (some pos) e h d =
    let l = find_event_boundary-length s.buffer pos e in
    let m = length (s.buffer ++ t) in
    let s' = emit_event (take pos s.buffer) s in
    let b = drop (pos + 2) s.buffer in
    let lb = length-drop (pos + 2) s.buffer in
    ap (λ o. on_boundary o (drain m) (more t s)) (find_event_boundary-append s.buffer t pos e)
    ∙ ap₂ (behind m)
        (ap (λ x. emit_event x (more t s)) (take-more pos s.buffer t (omega arith))
          ∙ emit_event-more (take pos s.buffer) t s)
        (sym (drop-append (pos + 2) s.buffer t l))
    ∙ behind-more n m t b s' (omega arith)
        (omega (arith, length-append b t, length-append s.buffer t))
        (drain-more n t (record s' { buffer = b }) (find_event_boundary b) refl (omega arith))
    ∙ ap (λ o. feed t (on_boundary o (drain n) s)) (sym e)

pub feed-done : (t : Text) (s : SseParser) → s.done_seen ≡ true → feed t s ≡ s
unfolding feed
feed-done t s d = if_true s.done_seen s _ d

feed-open :
    (t : Text) (s : SseParser)
    → s.done_seen ≡ false
    → feed t s ≡ drain (suc (length (s.buffer ++ t))) (more t s)
unfolding feed
feed-open t s d = if_false s.done_seen s _ d

-- Two calls of `feed` are one call with the bytes joined: how the transport cuts the stream does not
-- matter, also when the sentinel comes in the first part.
pub feed-append : (a b : Text) (s : SseParser) → feed (a ++ b) s ≡ feed b (feed a s)
feed-append a b s = elim (Bool-cases s.done_seen) [
  | inl c ↦ feed-done (a ++ b) s c ∙ sym (feed-done b s c) ∙ ap (feed b) (sym (feed-done a s c))
  | inr c ↦
      feed-open (a ++ b) s c
      ∙ ap (λ x. drain (suc (length x)) (record s { buffer = x })) (sym (append_assoc s.buffer a b))
      ∙ drain-more (suc (length (s.buffer ++ a))) b (more a s) _ refl (omega arith) c
      ∙ ap (feed b) (sym (feed-open a s c))
]

-- The loop of `feed` ends within its fuel, at a parser that has seen the sentinel and dropped its buffer, or
-- at one that has not and whose buffer holds no blank line.
pub feed_ends : (text : Text) (s : SseParser) → s.done_seen ≡ false → Drained (feed text s)
feed_ends text s d =
    let n = suc (length (s.buffer ++ text)) in
    subst Drained (sym (feed-open text s d)) (drain-Drained n (more text s) (omega arith) d)
