-- ===== src/Dialogue/TtsBridge/Chunks.antt =====
-- src/dialogue/tts_bridge.cpp: the chunks that a sentence becomes.
use lclva.Prelude.{ℕ, List, [], ◌∷◌, ◌++◌, Option, none, some, true, false}
use lclva.Playback.Queue.{AudioChunk}
use lclva.Dialogue.TtsBridge.{Job, Resampling}

-- The chunks that a sentence becomes: what the resampler gives for each piece of audio, if anything, and
-- the last chunk with the rest, which ends the sentence.
module _ {R : Type 0} (resampling : Resampling R) (job : Job) where
  abbrev pub data_chunk : List ℕ → List AudioChunk
  data_chunk [] = []
  data_chunk (x ∷ xs) =
      record { turn = job.turn; seq = job.seq; samples = x ∷ xs; end_of_sentence = false } ∷ []

  abbrev pub rest_of : Option R → List ℕ
  rest_of none = []
  rest_of (some r) = resampling.flush r

  abbrev pub speech : Option R → List (List ℕ) → List AudioChunk
  speech o [] =
      record { turn = job.turn; seq = job.seq; samples = rest_of o; end_of_sentence = true } ∷ []
  speech none (c ∷ cs) = data_chunk c ++ speech none cs
  speech (some r) (c ∷ cs) =
      let (r', out) = resampling.process r c in data_chunk out ++ speech (some r') cs
