-- ===== src/Stt/Base64.antt =====
-- src/stt/realtime_envelope.cpp: base64. A text is the list of its bytes; the pieces of a triple do not
-- overlap, so that shifts and bitwise or are products and sums, and a mask is a remainder.
pub mod RoundTrip
mod Tests
use lclva.Prelude.{
  ℕ, ◌+◌, ◌-◌, ◌*◌, ◌/◌, ◌%◌, List, [], ◌∷◌, ◌++◌, Option, none, some, Bool, true, false, not, ◌&&◌,
  if◌then◌else◌, leb, ltb, ◌==◌, length,
}

-- The alphabet.
abbrev pub alpha : ℕ → ℕ
alpha i =
    if ltb i 26
    then i + 65
    else if ltb i 52
    then i + 71
    else if ltb i 62
    then i - 4
    else if i == 62
    then 43
    else 47

-- `kBase64Lookup`, with none for -1.
abbrev pub lookup : ℕ → Option ℕ
lookup c =
    if leb 65 c && leb c 90
    then some (c - 65)
    else if leb 97 c && leb c 122
    then some (c - 71)
    else if leb 48 c && leb c 57
    then some (c + 4)
    else if c == 43
    then some 62
    else if c == 47
    then some 63
    else none

abbrev pub padding : ℕ
padding = 61

abbrev pub triple : ℕ → ℕ → ℕ → ℕ
triple a b c = a * 65536 + b * 256 + c

-- The characters of a triple.
abbrev pub first : ℕ → ℕ
first t = alpha (t / 262144 % 64)

abbrev pub second : ℕ → ℕ
second t = alpha (t / 4096 % 64)

abbrev pub third : ℕ → ℕ
third t = alpha (t / 64 % 64)

abbrev pub fourth : ℕ → ℕ
fourth t = alpha (t % 64)

-- Three bytes in each round; a missing one counts as 0, and its character is the padding.
unfoldable pub base64_encode : List ℕ → List ℕ
base64_encode [] = []
base64_encode (a ∷ []) = let t = triple a 0 0 in first t ∷ second t ∷ padding ∷ padding ∷ []
base64_encode (a ∷ b ∷ []) = let t = triple a b 0 in first t ∷ second t ∷ third t ∷ padding ∷ []
base64_encode (a ∷ b ∷ c ∷ s) =
    let t = triple a b c in first t ∷ second t ∷ third t ∷ fourth t ∷ base64_encode s

-- A group of four: what it gives, and whether the loop goes on.
pub data Group : Type 0 where
  malformed : Group
  last_group full_group : List ℕ → Group

abbrev pub of_four : ℕ → ℕ → ℕ → Option ℕ → Group
of_four a b c none = malformed
of_four a b c (some d) =
    let t = triple (a * 4) 0 0 + b * 4096 + c * 64 + d in
    full_group (t / 65536 % 256 ∷ t / 256 % 256 ∷ t % 256 ∷ [])

abbrev pub of_three : ℕ → ℕ → Option ℕ → ℕ → Group
of_three a b none d = malformed
of_three a b (some c) d =
    if d == padding
    then (let t = triple (a * 4) 0 0 + b * 4096 + c * 64 in
        if c % 4 == 0 then last_group (t / 65536 % 256 ∷ t / 256 % 256 ∷ []) else malformed)
    else of_four a b c (lookup d)

abbrev pub of_two : Option ℕ → Option ℕ → ℕ → ℕ → Group
of_two none b c d = malformed
of_two (some a) none c d = malformed
of_two (some a) (some b) c d =
    if c == padding
    then (if not (d == padding)
        then malformed
        else if b % 16 == 0
        then last_group ((triple (a * 4) 0 0 + b * 4096) / 65536 % 256 ∷ [])
        else malformed)
    else of_three a b (lookup c) d

unfoldable pub group : ℕ → ℕ → ℕ → ℕ → Group
group a b c d = of_two (lookup a) (lookup b) c d

-- What stands behind a padded group is not looked at.
abbrev pub put : Group → Option (List ℕ) → Option (List ℕ)
put malformed rest = none
put (last_group bytes) rest = some bytes
put (full_group bytes) none = none
put (full_group bytes) (some rest) = some (bytes ++ rest)

-- The loop, for a length that is a multiple of 4.
unfoldable pub decode_groups : List ℕ → Option (List ℕ)
unfolding group
decode_groups (a ∷ b ∷ c ∷ d ∷ s) = put (group a b c d) (decode_groups s)
decode_groups _ = some []

unfoldable pub base64_decode : List ℕ → Option (List ℕ)
unfolding decode_groups
base64_decode input = if not (length input % 4 == 0) then none else decode_groups input
