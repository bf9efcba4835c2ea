-- ===== src/Llm/SseParser/Frames.antt =====
-- The callbacks see what the server framed.
use lclva.Prelude.{
  ℕ, suc, ◌+◌, ◌≡◌, refl, ap, ap₂, ◌∙◌, List, [], ◌∷◌, ◌++◌, some, Bool, true, false, arith,
  if◌then◌else◌, ◌==◌, All, length, drop, take-append, if_false,
}
use lclva.Llm.SseParser.{
  Text, on_data, on_done, Call, same_text, k_done_sentinel, SseParser, sse_parser,
  find_event_boundary, lines, data_line, read_line, trim_leading_space, on_line, emit_lines,
  emit_event, on_boundary, drain, feed,
}
use lclva.Llm.SseParser.Chunks.{behind, feed-append, feed-done}

-- A line feed does not occur.
abbrev pub OneLine : Text → Type 0
OneLine s = All (λ (c : ℕ). (c == 10) ≡ false) s

-- "data: ", the payload and a blank line.
abbrev pub field : Text → Text
field payload = 100 ∷ 97 ∷ 116 ∷ 97 ∷ 58 ∷ 32 ∷ payload

abbrev pub frame : Text → Text
frame payload = field payload ++ 10 ∷ 10 ∷ []

abbrev pub frames : List Text → Text
frames [] = []
frames (p ∷ ps) = frame p ++ frames ps

boundary_of : (s : Text) → OneLine s → find_event_boundary (s ++ 10 ∷ 10 ∷ []) ≡ some (length s)
unfolding find_event_boundary
boundary_of [] o = refl
boundary_of (c ∷ s) o = ground (arith, o.0, boundary_of s o.1)

lines_of : (c : ℕ) (s : Text) → OneLine (c ∷ s) → lines (c ∷ s) ≡ (c ∷ s) ∷ []
unfolding lines
lines_of c [] o = ground (arith, o.0)
lines_of c (d ∷ s) o = ground (arith, o.0, lines_of d s o.1)

field-OneLine : (p : Text) → OneLine p → OneLine (field p)
field-OneLine p o = (refl, (refl, (refl, (refl, (refl, (refl, o))))))

either-way : (b : Bool) (s : SseParser) → (if b then s else s) ≡ s
either-way true s = refl
either-way false s = refl

drop-append_all : (s t : Text) (n : ℕ) → drop (length s + n) (s ++ t) ≡ drop n t
drop-append_all [] t n = ap (λ (k : ℕ). drop k t) {x = 0 + n} {y = n} (omega arith)
drop-append_all (c ∷ s) t n =
    ap (λ (k : ℕ). drop k ((c ∷ s) ++ t)) {x = suc (length s) + n} {y = suc (length s + n)}
      (omega arith)
    ∙ drop-append_all s t n

-- A parser between events.
abbrev pub between : List Call → SseParser
between cs = record { buffer = []; done_seen = false; calls = cs }

-- The lines of an event with one field.
emit_event-field :
    (p : Text) (s : SseParser) → OneLine p → emit_event (field p) s ≡ on_line (data_line p) s
unfolding emit_event emit_lines read_line trim_leading_space
emit_event-field p s o =
    let s' = on_line (data_line p) s in
    ap (λ ls. emit_lines ls s) (lines_of 100 (97 ∷ 116 ∷ 97 ∷ 58 ∷ 32 ∷ p) (field-OneLine p o))
    ∙ either-way s'.done_seen s'

behind-if :
    (n : ℕ) (t : Bool) (p b : Text) (cs : List Call)
    → behind
        (suc n)
        (if t
          then record { buffer = b; done_seen = true; calls = on_done ∷ cs }
          else record { buffer = b; done_seen = false; calls = on_data p ∷ cs })
        []
      ≡ (if t
          then record { buffer = []; done_seen = true; calls = on_done ∷ cs }
          else record { buffer = []; done_seen = false; calls = on_data p ∷ cs })
unfolding drain on_boundary find_event_boundary
behind-if n true p b cs = refl
behind-if n false p b cs = refl

behind-line :
    (n : ℕ) (p b : Text) (cs : List Call)
    → behind (suc n) (on_line (data_line p) (record (between cs) { buffer = b })) []
      ≡ on_line (data_line p) (between cs)
unfolding drain on_boundary on_line
behind-line n p b cs = behind-if n (same_text p k_done_sentinel) p b cs

feed-frame :
    (p : Text) (cs : List Call)
    → OneLine p
    → feed (frame p) (between cs) ≡ on_line (data_line p) (between cs)
unfolding feed drain on_boundary
feed-frame p cs o =
    let n = length (frame p) in
    let s = record (between cs) { buffer = frame p } in
    let e = boundary_of (field p) (field-OneLine p o) in
    ap (λ o. on_boundary o (drain n) s) e
    ∙ ap₂ (behind n)
        (ap (λ x. emit_event x s) (take-append (field p) (10 ∷ 10 ∷ []) (length (field p)) refl)
          ∙ emit_event-field p s o)
        (drop-append_all (field p) (10 ∷ 10 ∷ []) 2)
    ∙ behind-line (length (97 ∷ 116 ∷ 97 ∷ 58 ∷ 32 ∷ p ++ 10 ∷ 10 ∷ [])) p (frame p) cs

-- The calls for a list of payloads, the newest first, onto earlier ones.
abbrev pub data_calls : List Text → List Call → List Call
data_calls [] cs = cs
data_calls (p ∷ ps) cs = data_calls ps (on_data p ∷ cs)

-- A payload on one line that is not the sentinel.
abbrev pub IsPayload : Text → Type 0
IsPayload p = OneLine p × (same_text p k_done_sentinel ≡ false)

feed-nil : (cs : List Call) → feed [] (between cs) ≡ between cs
unfolding feed drain on_boundary find_event_boundary
feed-nil cs = refl

feed-frames_from :
    (ps : List Text) (cs : List Call)
    → All IsPayload ps
    → feed (frames ps) (between cs) ≡ between (data_calls ps cs)
unfolding on_line
feed-frames_from [] cs a = feed-nil cs
feed-frames_from (p ∷ ps) cs a =
    feed-append (frame p) (frames ps) (between cs)
    ∙ ap (feed (frames ps)) (feed-frame p cs a.0.0 ∙ if_false _ _ _ a.0.1)
    ∙ feed-frames_from ps (on_data p ∷ cs) a.1

-- What a server framed, and the sentinel's frame with anything behind it: a fresh parser makes one
-- `on_data` call for each payload, unchanged and in order, then `on_done`, and drops the rest.
pub feed-frames :
    (ps : List Text) (rest : Text)
    → All IsPayload ps
    → feed (frames ps ++ (frame k_done_sentinel ++ rest)) sse_parser
      ≡ record { buffer = []; done_seen = true; calls = on_done ∷ data_calls ps [] }
unfolding sse_parser on_line
feed-frames ps rest a =
    let done : SseParser = record {
      buffer = [];
      done_seen = true;
      calls = on_done ∷ data_calls ps [];
    } in
    feed-append (frames ps) (frame k_done_sentinel ++ rest) (between [])
    ∙ ap (feed (frame k_done_sentinel ++ rest)) (feed-frames_from ps [] a)
    ∙ feed-append (frame k_done_sentinel) rest (between (data_calls ps []))
    ∙ ap (feed rest) (
        feed-frame k_done_sentinel (data_calls ps [])
          (refl, (refl, (refl, (refl, (refl, (refl, tt)))))))
    ∙ feed-done rest done refl
