-- ===== src/Audio/Wav/Tests.antt =====
-- Two samples at 16 kHz, and a chunk on which the walk stands still.
use lclva.Prelude.{◌≡◌, [], ◌∷◌, ℕ, zero, suc, refl, arith}
use lclva.Audio.Wav.{Bytes, accepted, unfinished, no_format, make_wav, walk, read_wav}
use lclva.Audio.Wav.RoundTrip.{read-make}

read-make_example : read_wav (make_wav (258 ∷ 65535 ∷ []) 16000) ≡ accepted 16000 (258 ∷ 65535 ∷ [])
read-make_example =
    read-make (258 ∷ 65535 ∷ []) 16000 (omega arith) (omega arith) (omega arith)
      (omega arith, (omega arith, tt))

-- A chunk of another kind whose size is 2 ^ 32 - 8: each round finds it again.
abbrev stuck : Bytes
stuck = 76 ∷ 73 ∷ 83 ∷ 84 ∷ 248 ∷ 255 ∷ 255 ∷ 255 ∷ []

stands_still : (n : ℕ) → walk n no_format stuck ≡ unfinished
unfolding walk
stands_still zero = refl
stands_still (suc n) = stands_still n
