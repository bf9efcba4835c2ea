-- ===== src/Llm/SseParser.antt =====
-- src/llm/sse_parser.cpp: the framing of server-sent events. Texts are lists of bytes. The three
-- callbacks are taken to be set; their calls are logged, the newest first.
pub mod Chunks
pub mod Frames
mod Tests
use lclva.Prelude.{
  ℕ, zero, suc, ◌+◌, List, [], ◌∷◌, ◌++◌, Option, none, some, Bool, true, false, ◌&&◌,
  if◌then◌else◌, ◌==◌, leb, length, take, drop,
}

abbrev pub Text : Type 0
Text = List ℕ

pub data Call : Type 0 where
  on_data : (payload : Text) → Call
  on_done : Call
  on_comment : (line : Text) → Call

pub record SseParser : Type 0 where
  pub buffer : Text
  pub done_seen : Bool
  pub calls : List Call

unfoldable pub sse_parser : SseParser
sse_parser = record { buffer = []; done_seen = false; calls = [] }

unfoldable pub reset : SseParser → SseParser
reset s = record s { buffer = []; done_seen = false }

-- "data:"
abbrev pub k_data_prefix : Text
k_data_prefix = 100 ∷ 97 ∷ 116 ∷ 97 ∷ 58 ∷ []

-- The sentinel of the OpenAI stream, in capitals between brackets.
abbrev pub k_done_sentinel : Text
k_done_sentinel = 91 ∷ 68 ∷ 79 ∷ 78 ∷ 69 ∷ 93 ∷ []

unfoldable pub trim_leading_space : Text → Text
trim_leading_space [] = []
trim_leading_space (c ∷ s) = if c == 32 then s else c ∷ s

abbrev pub starts_lf : Text → Bool
starts_lf [] = false
starts_lf (b ∷ _) = b == 10

abbrev pub next_pos : Option ℕ → Option ℕ
next_pos none = none
next_pos (some n) = some (suc n)

-- `buf.find("\n\n")`
unfoldable pub find_event_boundary : Text → Option ℕ
find_event_boundary [] = none
find_event_boundary (a ∷ s) =
    if (a == 10) && starts_lf s then some 0 else next_pos (find_event_boundary s)

-- The lines that the loop of `emit_event` visits; there is none behind a last line feed.
abbrev cons_first : ℕ → List Text → List Text
cons_first c [] = (c ∷ []) ∷ []
cons_first c (l ∷ ls) = (c ∷ l) ∷ ls

unfoldable pub lines : Text → List Text
lines [] = []
lines (c ∷ s) = if c == 10 then [] ∷ lines s else cons_first c (lines s)

abbrev pub same_text : Text → Text → Bool
same_text [] [] = true
same_text (a ∷ s) (b ∷ t) = (a == b) && same_text s t
same_text _ _ = false

-- What a line says: `line.compare(0, 5, "data:") == 0`, and the rest of it.
pub data Line : Type 0 where
  ignored : Line
  comment : (line : Text) → Line
  data_line : (payload : Text) → Line

abbrev comment_or : ℕ → Text → Line → Line
comment_or c s l = if c == 58 then comment s else l

unfoldable pub read_line : Text → Line
unfolding trim_leading_space
read_line [] = ignored
read_line (c ∷ s) = comment_or c s (
    if same_text (take 5 (c ∷ s)) k_data_prefix
    then data_line (trim_leading_space (drop 5 (c ∷ s)))
    else ignored)

unfoldable pub on_line : Line → SseParser → SseParser
on_line ignored s = s
on_line (comment line) s = record s { calls = on_comment line ∷ s.calls }
on_line (data_line payload) s =
    if same_text payload k_done_sentinel
    then record s { done_seen = true; calls = on_done ∷ s.calls }
    else record s { calls = on_data payload ∷ s.calls }

-- The loop of `emit_event`: its callers see to it that `done_seen_` is false before, and the sentinel
-- ends it.
unfoldable pub emit_lines : List Text → SseParser → SseParser
unfolding on_line read_line
emit_lines [] s = s
emit_lines (l ∷ ls) s =
    let s' = on_line (read_line l) s in
    let rest = emit_lines ls s' in if s'.done_seen then s' else rest

unfoldable pub emit_event : Text → SseParser → SseParser
unfolding emit_lines lines
emit_event event_text s = emit_lines (lines event_text) s

-- One round of the loop of `feed`; `k` is the rest of the loop.
unfoldable pub on_boundary : Option ℕ → (SseParser → SseParser) → SseParser → SseParser
unfolding emit_event
on_boundary none k s = s
on_boundary (some pos) k s =
    let s' = emit_event (take pos s.buffer) s in
    if s'.done_seen
    then record s' { buffer = [] }
    else k (record s' { buffer = drop (pos + 2) s.buffer })

-- The loop, on fuel: each round takes two bytes at least.
unfoldable pub drain : ℕ → SseParser → SseParser
unfolding on_boundary find_event_boundary
drain zero s = s
drain (suc n) s = on_boundary (find_event_boundary s.buffer) (drain n) s

unfoldable pub feed : Text → SseParser → SseParser
unfolding drain
feed text s =
    if s.done_seen
    then s
    else (let s' = record s { buffer = s.buffer ++ text } in drain (suc (length s'.buffer)) s')

unfoldable pub finish : SseParser → SseParser
unfolding emit_event
finish s =
    if s.done_seen
    then s
    else if leb 1 (length s.buffer)
    then record (emit_event s.buffer s) { buffer = [] }
    else s
