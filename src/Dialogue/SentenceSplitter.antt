-- ===== src/Dialogue/SentenceSplitter.antt =====
-- src/dialogue/sentence_splitter.cpp: streaming tokens in, sentences out. A text is the list of its
-- bytes; `pending_term_pos_` is none where the source has npos. The checks on the end of the buffer
-- read it backwards. Counters wrap at 2 ^ 64.
pub mod Kept
pub mod Bounds
pub mod Output
mod Tests
use Prim.Native.String.{String, [] as empty_string, ◌∷◌ as ◌then◌}
use Prim.Native.Char.{code}
use lclva.Prelude.{
  ℕ, ◌+◌, ◌-◌, List, [], ◌∷◌, ◌++◌, Option, none, some, Bool, true, false, not, ◌||◌, ◌&&◌,
  if◌then◌else◌, leb, ltb, ◌==◌, length, take, drop, get_elem?, u64,
}

abbrev pub Text : Type 0
Text = List ℕ

-- The bytes of an ASCII literal.
abbrev pub bytes : String → Text
bytes empty_string = []
bytes (c then s) = code c ∷ bytes s

unfoldable pub abbreviations : List Text
abbreviations =
    bytes "dr"
    ∷ bytes "mr"
    ∷ bytes "mrs"
    ∷ bytes "ms"
    ∷ bytes "prof"
    ∷ bytes "sr"
    ∷ bytes "jr"
    ∷ bytes "e.g"
    ∷ bytes "i.e"
    ∷ bytes "etc"
    ∷ bytes "vs"
    ∷ bytes "vol"
    ∷ bytes "no"
    ∷ bytes "fig"
    ∷ bytes "approx"
    ∷ bytes "st"
    ∷ bytes "ave"
    ∷ bytes "blvd"
    ∷ bytes "rd"
    ∷ bytes "u.s"
    ∷ bytes "u.k"
    ∷ bytes "u.s.a"
    ∷ bytes "a.m"
    ∷ bytes "p.m"
    ∷ []

abbrev pub dot : ℕ
dot = 46

abbrev pub is_lower : ℕ → Bool
is_lower c = leb 97 c && leb c 122

abbrev pub is_upper : ℕ → Bool
is_upper c = leb 65 c && leb c 90

abbrev pub is_digit : ℕ → Bool
is_digit c = leb 48 c && leb c 57

abbrev pub is_terminator : ℕ → Bool
is_terminator c = (c == dot) || ((c == 33) || (c == 63))

abbrev pub is_whitespace : ℕ → Bool
is_whitespace c = (c == 32) || ((c == 9) || ((c == 10) || (c == 13)))

abbrev to_lower : ℕ → ℕ
to_lower c = if is_upper c then c + 32 else c

unfoldable pub trim_leading : Text → Text
trim_leading [] = []
trim_leading (c ∷ s) = if is_whitespace c then trim_leading s else c ∷ s

-- A text backwards, onto another one.
unfoldable pub back_onto : Text → Text → Text
back_onto [] s = s
back_onto (c ∷ r) s = back_onto r (c ∷ s)

-- `starts_with_at(buf_, buf_.size() - 3, "```")`, on the buffer read backwards.
abbrev ends_with_fence : Text → Bool
ends_with_fence (a ∷ b ∷ c ∷ r) = (a == 96) && ((b == 96) && (c == 96))
ends_with_fence _ = false

abbrev same_text : Text → Text → Bool
same_text [] [] = true
same_text (a ∷ s) (b ∷ t) = (a == b) && same_text s t
same_text _ _ = false

abbrev contains : List Text → Text → Bool
contains [] w = false
contains (a ∷ l) w = same_text a w || contains l w

abbrev in_abbreviation : ℕ → Bool
in_abbreviation c = is_lower c || (is_upper c || ((c == dot) || is_digit c))

abbrev in_marker : ℕ → Bool
in_marker c = is_digit c || (is_lower c || is_upper c)

-- The longest run of such characters before the dot, in its order, and what stands before the run.
unfoldable word : (ℕ → Bool) → Text → Text → Text
word p [] w = w
word p (c ∷ r) w = if p c then word p r (c ∷ w) else w

unfoldable before_word : (ℕ → Bool) → Text → Text
before_word p [] = []
before_word p (c ∷ r) = if p c then before_word p r else c ∷ r

abbrev lower_all : Text → Text
lower_all [] = []
lower_all (c ∷ s) = to_lower c ∷ lower_all s

unfoldable pub last_word_is_abbreviation : Text → Bool
unfolding abbreviations word
last_word_is_abbreviation [] = false
last_word_is_abbreviation (c ∷ r) =
    let w = word in_abbreviation r [] in
    leb 1 (length r) && ((c == dot) && (leb 1 (length w) && contains abbreviations (lower_all w)))

abbrev starts_line : Text → Bool
starts_line [] = true
starts_line (prev ∷ _) = is_whitespace prev

unfoldable pub buffer_ends_with_list_marker : Text → Bool
unfolding word before_word
buffer_ends_with_list_marker [] = false
buffer_ends_with_list_marker (c ∷ r) =
    let w = word in_marker r [] in
    leb 1 (length r)
    && ((c == dot)
        && (leb 1 (length w) && (leb (length w) 3 && starts_line (before_word in_marker r))))

unfoldable pub buffer_ends_with_ellipsis : Text → Bool
buffer_ends_with_ellipsis (d ∷ b ∷ a ∷ r) =
    ((d == dot) && ((b == dot) && (a == dot))) || ((a == 226) && ((b == 128) && (d == 166)))
buffer_ends_with_ellipsis _ = false

unfoldable pub buffer_ends_with_decimal : Text → Bool
buffer_ends_with_decimal (c ∷ d ∷ r) = (c == dot) && is_digit d
buffer_ends_with_decimal _ = false

pub data Mode : Type 0 where
  normal in_code_fence : Mode

abbrev pub toggle : Mode → Mode
toggle Mode.normal = Mode.in_code_fence
toggle Mode.in_code_fence = Mode.normal

abbrev pub in_fence : Mode → Bool
in_fence Mode.normal = false
in_fence Mode.in_code_fence = true

-- The object, and the vector `out` that the calls append to.
pub record SentenceSplitter : Type 0 where
  pub detect_code_fences : Bool
  pub max_sentence_chars : ℕ
  pub buf : Text
  pub mode : Mode
  pub chars_since_terminator : ℕ
  pub pending_term_pos : Option ℕ
  pub pending_dot_run : ℕ
  pub out : List Text

unfoldable pub sentence_splitter : (detect : Bool) (max : ℕ) → SentenceSplitter
sentence_splitter detect max = record {
  detect_code_fences = detect;
  max_sentence_chars = max;
  buf = [];
  mode = Mode.normal;
  chars_since_terminator = 0;
  pending_term_pos = none;
  pending_dot_run = 0;
  out = [];
}

unfoldable pub reset : SentenceSplitter → SentenceSplitter
reset s = record s {
  buf = [];
  mode = Mode.normal;
  chars_since_terminator = 0;
  pending_term_pos = none;
  pending_dot_run = 0;
}

abbrev pub clear_pending : SentenceSplitter → SentenceSplitter
clear_pending s = record s { pending_term_pos = none; pending_dot_run = 0 }

abbrev pub count_char : SentenceSplitter → SentenceSplitter
count_char s = record s { chars_since_terminator = u64 (s.chars_since_terminator + 1) }

-- `push_back` of a sentence that is not empty.
unfoldable pub emit : Text → List Text → List Text
emit [] out = out
emit (c ∷ s) out = out ++ (c ∷ s) ∷ []

unfoldable pub flush_buffer : SentenceSplitter → SentenceSplitter
unfolding emit trim_leading
flush_buffer s = record s {
  buf = [];
  chars_since_terminator = 0;
  pending_term_pos = none;
  pending_dot_run = 0;
  out = emit (trim_leading s.buf) s.out;
}

unfoldable pub flush : SentenceSplitter → SentenceSplitter
unfolding flush_buffer
flush s =
    let s' = clear_pending s in
    record (if leb 1 (length s.buf) then flush_buffer s' else s') { chars_since_terminator = 0 }

-- `resolve_pending` at a position: the dot run is left as it is.
unfoldable pub resolve_pending : ℕ → SentenceSplitter → SentenceSplitter
unfolding emit trim_leading
resolve_pending pos s = record s {
  buf = drop (pos + 1) s.buf;
  chars_since_terminator = length (drop (pos + 1) s.buf);
  pending_term_pos = none;
  out = emit (trim_leading (take (pos + 1) s.buf)) s.out;
}

-- The terminator at the end of the buffer waits for the next character.
unfoldable pub defer : ℕ → SentenceSplitter → SentenceSplitter
defer run s = record s { pending_term_pos = some (length s.buf - 1); pending_dot_run = run }

unfoldable pub on_terminator : ℕ → SentenceSplitter → SentenceSplitter
unfolding last_word_is_abbreviation buffer_ends_with_list_marker buffer_ends_with_decimal
    buffer_ends_with_ellipsis back_onto defer
on_terminator c s =
    let r = back_onto s.buf [] in
    if last_word_is_abbreviation r || buffer_ends_with_list_marker r
    then clear_pending s
    else if buffer_ends_with_decimal r
    then defer 1 s
    else if buffer_ends_with_ellipsis r
    then clear_pending s
    else defer (if c == dot then 1 else 0) s

-- The rest of the loop body, behind the pending terminator.
unfoldable pub on_char : ℕ → SentenceSplitter → SentenceSplitter
unfolding on_terminator flush_buffer
on_char c s =
    let s' = count_char s in
    if is_terminator c
    then on_terminator c s
    else if leb s.max_sentence_chars s'.chars_since_terminator && (is_whitespace c || (c == 44))
    then flush_buffer s'
    else s'

abbrev pub is_dot : Option ℕ → Bool
is_dot none = false
is_dot (some c) = c == dot

unfoldable pub on_pending : ℕ → ℕ → SentenceSplitter → SentenceSplitter
unfolding on_char resolve_pending
on_pending pos c s =
    if (c == dot) && is_dot (get_elem? s.buf pos)
    then record s { pending_dot_run = u64 (s.pending_dot_run + 1) }
    else if is_digit c
    then count_char (clear_pending s)
    else if leb 2 s.pending_dot_run
    then count_char (clear_pending s)
    else on_char c (resolve_pending pos s)

unfoldable pub decide : Option ℕ → ℕ → SentenceSplitter → SentenceSplitter
unfolding on_pending on_char
decide none c s = on_char c s
decide (some pos) c s = on_pending pos c s

-- The character joins the buffer; three backticks in a row switch the mode.
unfoldable pub append_char : ℕ → SentenceSplitter → SentenceSplitter
unfolding back_onto
append_char c s =
    let buf' = s.buf ++ c ∷ [] in
    record s {
      buf = buf';
      mode =
          if s.detect_code_fences && ends_with_fence (back_onto buf' [])
          then toggle s.mode
          else s.mode;
    }

unfoldable pub push_char : ℕ → SentenceSplitter → SentenceSplitter
unfolding append_char decide
push_char c s =
    let s' = append_char c s in
    if in_fence s'.mode then count_char s' else decide s'.pending_term_pos c s'

unfoldable pub push : Text → SentenceSplitter → SentenceSplitter
push [] s = s
push (c ∷ text) s = push text (push_char c s)
