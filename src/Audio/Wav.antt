-- ===== src/Audio/Wav.antt =====
-- src/audio/wav.cpp: WAV files in memory. Bytes and samples are natural numbers, a sample as its two's
-- complement; the host is little-endian, as the code takes it to be. The file itself is left out.
pub mod RoundTrip
mod Tests
use lclva.Prelude.{
  ℕ, zero, suc, ◌+◌, ◌-◌, ◌*◌, ◌/◌, ◌%◌, List, [], ◌∷◌, ◌++◌, Bool, true, false, not, ◌&&◌, ◌||◌,
  if◌then◌else◌, leb, ltb, ◌==◌, length, take, drop, u32,
}
use lclva.Dialogue.SentenceSplitter.{bytes}

abbrev pub Bytes : Type 0
Bytes = List ℕ

abbrev pub u32le : ℕ → Bytes
u32le v = v % 256 ∷ v / 256 % 256 ∷ v / 65536 % 256 ∷ v / 16777216 % 256 ∷ []

abbrev pub u16le : ℕ → Bytes
u16le v = v % 256 ∷ v / 256 % 256 ∷ []

-- The bytes at a place that has enough of them.
abbrev pub read_u32le : Bytes → ℕ
read_u32le (a ∷ b ∷ c ∷ d ∷ s) = a + b * 256 + c * 65536 + d * 16777216
read_u32le _ = 0

abbrev pub read_u16le : Bytes → ℕ
read_u16le (a ∷ b ∷ s) = a + b * 256
read_u16le _ = 0

abbrev pub sample_bytes : List ℕ → Bytes
sample_bytes [] = []
sample_bytes (x ∷ xs) = x % 256 ∷ x / 256 % 256 ∷ sample_bytes xs

unfoldable pub header : ℕ → ℕ → Bytes
header data_bytes rate =
    bytes "RIFF"
    ++ u32le (u32 (4 + 8 + 16 + 8 + data_bytes))
    ++ bytes "WAVE"
    ++ bytes "fmt "
    ++ u32le 16
    ++ u16le 1
    ++ u16le 1
    ++ u32le rate
    ++ u32le (u32 (rate * 2))
    ++ u16le 2
    ++ u16le 16
    ++ bytes "data"
    ++ u32le data_bytes

unfoldable pub make_wav : List ℕ → ℕ → Bytes
unfolding header
make_wav samples rate =
    let data_bytes = u32 (u32 (length samples) * 2) in
    header data_bytes rate ++ take data_bytes (sample_bytes samples)

abbrev pub same_bytes : Bytes → Bytes → Bool
same_bytes [] [] = true
same_bytes (a ∷ s) (b ∷ t) = (a == b) && same_bytes s t
same_bytes _ _ = false

-- `std::memcmp` with a tag of four bytes.
abbrev pub has_tag : Bytes → Bytes → Bool
has_tag tag at_tag = same_bytes (take 4 at_tag) tag

-- What the format chunk says.
pub record Format : Type 0 where
  pub channels : ℕ
  pub bits : ℕ
  pub rate : ℕ

abbrev pub no_format : Format
no_format = record { channels = 0; bits = 0; rate = 0 }

abbrev pub read_format : Bytes → Format
read_format chunk = record {
  channels = read_u16le (drop 10 chunk);
  rate = read_u32le (drop 12 chunk);
  bits = read_u16le (drop 22 chunk);
}

abbrev pub to_samples : Bytes → List ℕ
to_samples (a ∷ b ∷ s) = (a + b * 256) ∷ to_samples s
to_samples _ = []

-- How the reading ends: with the rate and the samples, with the empty vector of a file that is not
-- accepted, or not within the rounds given.
pub data Reading : Type 0 where
  accepted : ℕ → List ℕ → Reading
  rejected unfinished : Reading

-- Behind the walk, with a data chunk whose bytes are the given ones and the rest of the file.
abbrev pub read_data : Format → ℕ → Bytes → Reading
read_data f data_bytes rest =
    if not (f.channels == 1)
      || (not (f.bits == 16) || ((f.rate == 0) || ltb (length rest) data_bytes))
    then rejected
    else accepted f.rate (to_samples (take data_bytes rest))

-- The walk over the chunks, on what is left of the file. The step is added up in 32 bits and wraps: a round
-- may stand still, and then the loop never ends. Where there is no data chunk, `data_off` stays 0.
unfoldable pub walk : ℕ → Format → Bytes → Reading
walk zero f buf = unfinished
walk (suc n) f buf =
    let size = read_u32le (drop 4 buf) in
    let is_format = has_tag (bytes "fmt ") buf in
    let broken = is_format && (ltb (length buf) 24 || not (read_u16le (drop 8 buf) == 1)) in
    let f' = if is_format then read_format buf else f in
    let rest = walk n f' (drop (u32 (8 + size + size % 2)) buf) in
    if ltb (length buf) 8
    then rejected
    else if broken
    then rejected
    else if not is_format && has_tag (bytes "data") buf
    then read_data f size (drop 8 buf)
    else rest

-- A file that is not accepted gives the empty vector. A walk whose steps are not 0 has as many rounds as
-- the file has bytes, at most.
unfoldable pub read_wav : Bytes → Reading
unfolding walk
read_wav buf =
    if ltb (length buf) 44
    then rejected
    else if not (has_tag (bytes "RIFF") buf)
    then rejected
    else if not (has_tag (bytes "WAVE") (drop 8 buf))
    then rejected
    else walk (length buf) no_format (drop 12 buf)
