-- ===== src/Audio/Wav/RoundTrip.antt =====
-- src/audio/wav.cpp: reading what was written.
use lclva.Prelude.{
  ℕ, zero, suc, ◌+◌, ◌*◌, ◌<◌, ◌≤◌, ◌^◌, ◌≡◌, ◌≢◌, refl, ap, ap₂, ◌∙◌, List, [], ◌∷◌, ◌++◌, false,
  ◌||◌, ltb, ◌==◌, length, take, take_all, u32, All, arith, if_false,
}
use lclva.Audio.Wav.{
  Bytes, u32le, read_u32le, sample_bytes, header, make_wav, Format, no_format, to_samples,
  read_data, walk, read_wav, accepted, rejected,
}

abbrev pub IsSample : ℕ → Type 0
IsSample x = x < 65536

length-sample_bytes : (xs : List ℕ) → length (sample_bytes xs) ≡ length xs * 2
length-sample_bytes [] = refl
length-sample_bytes (x ∷ xs) = omega (arith, length-sample_bytes xs)

to_samples-sample_bytes : (xs : List ℕ) → All IsSample xs → to_samples (sample_bytes xs) ≡ xs
to_samples-sample_bytes [] h = refl
to_samples-sample_bytes (x ∷ xs) (b, h) =
    ap₂ (λ (y : ℕ) ys. y ∷ ys) (omega arith) (to_samples-sample_bytes xs h)

read_u32le-u32le : (v : ℕ) (s : Bytes) → v < 2 ^ 32 → read_u32le (u32le v ++ s) ≡ v
read_u32le-u32le v s h = omega arith

-- The data chunk that the header announces.
read_data_whole :
    (rate : ℕ) (xs : List ℕ)
    → rate ≢ 0
    → All IsSample xs
    → read_data (record { channels = 1; bits = 16; rate = rate }) (length xs * 2) (sample_bytes xs)
      ≡ accepted rate xs
read_data_whole rate xs ne h =
    let n = length-sample_bytes xs in
    let open_ : ((rate == 0) || ltb (length (sample_bytes xs)) (length xs * 2)) ≡ false =
      ground (arith, ne, n) in
    if_false ((rate == 0) || ltb (length (sample_bytes xs)) (length xs * 2)) rejected _ open_
    ∙ ap (λ (l : List ℕ). accepted rate l)
        (ap to_samples (take_all (sample_bytes xs) (length xs * 2) (omega (arith, n)))
          ∙ to_samples-sample_bytes xs h)

-- From the data chunk on.
walk-data :
    (n rate size : ℕ) (s : Bytes)
    → size < 2 ^ 32
    → walk
        (suc n)
        (record { channels = 1; bits = 16; rate = rate })
        (100 ∷ 97 ∷ 116 ∷ 97 ∷ u32le size ++ s)
      ≡ read_data (record { channels = 1; bits = 16; rate = rate }) size s
unfolding walk
walk-data n rate size s h =
    let f : Format = record { channels = 1; bits = 16; rate = rate } in
    let buf = 100 ∷ 97 ∷ 116 ∷ 97 ∷ u32le size ++ s in
    if_false (ltb (length buf) 8) rejected _ (ground arith)
    ∙ ap (λ (k : ℕ). read_data f k s) (read_u32le-u32le size s h)

-- From the format chunk on.
walk-format :
    (n rate size r : ℕ) (s : Bytes)
    → 2 ≤ n
    → rate < 2 ^ 32
    → size < 2 ^ 32
    → walk n no_format (
        102 ∷ 109 ∷ 116 ∷ 32 ∷ 16 ∷ 0 ∷ 0 ∷ 0 ∷ 1 ∷ 0 ∷ 1 ∷ 0 ∷ u32le rate
        ++ u32le r
        ++ 2 ∷ 0 ∷ 16 ∷ 0 ∷ 100 ∷ 97 ∷ 116 ∷ 97 ∷ u32le size
        ++ s)
      ≡ read_data (record { channels = 1; bits = 16; rate = rate }) size s
unfolding walk
walk-format zero rate size r s m h k = absurd (omega arith)
walk-format (suc zero) rate size r s m h k = absurd (omega arith)
walk-format (suc (suc n)) rate size r s m h k =
    let tail = 100 ∷ 97 ∷ 116 ∷ 97 ∷ u32le size ++ s in
    let buf =
      102 ∷ 109 ∷ 116 ∷ 32 ∷ 16 ∷ 0 ∷ 0 ∷ 0 ∷ 1 ∷ 0 ∷ 1 ∷ 0 ∷ u32le rate
      ++ u32le r
      ++ 2 ∷ 0 ∷ 16 ∷ 0 ∷ tail in
    if_false (ltb (length buf) 8) rejected _ (ground arith)
    ∙ if_false (ltb (length buf) 24 || false) rejected _ (ground arith)
    ∙ if_false (ltb (length tail) 8) rejected _ (ground arith)
    ∙ ap₂ (λ (r : ℕ) (z : ℕ). read_data (record { channels = 1; bits = 16; rate = r }) z s)
        (read_u32le-u32le rate [] h) (read_u32le-u32le size s k)

-- Samples of 16 bits at a rate that is not 0, where the size of the file fits its 32 bits: a file that is
-- written is read with the same rate and the same samples.
pub read-make :
    (xs : List ℕ) (rate : ℕ)
    → rate ≢ 0
    → rate < 2 ^ 32
    → length xs * 2 + 36 < 2 ^ 32
    → All IsSample xs
    → read_wav (make_wav xs rate) ≡ accepted rate xs
unfolding read_wav make_wav header
read-make xs rate ne h k a =
    let n = length xs * 2 in
    let size : u32 (u32 (length xs) * 2) ≡ n = omega arith in
    let body : take n (sample_bytes xs) ≡ sample_bytes xs =
      take_all (sample_bytes xs) n (omega (arith, length-sample_bytes xs)) in
    let file = header n rate ++ sample_bytes xs in
    ap (λ (z : ℕ). read_wav (header z rate ++ take z (sample_bytes xs))) size
    ∙ ap (λ (b : Bytes). read_wav (header n rate ++ b)) body
    ∙ if_false (ltb (length file) 44) rejected _ (ground arith)
    ∙ walk-format (length file) rate n (u32 (rate * 2)) (sample_bytes xs) (ground arith) h
        (omega (arith, k))
    ∙ read_data_whole rate xs ne a
