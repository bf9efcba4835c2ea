-- ===== src/Audio/UtteranceBuffer/Tests.antt =====
-- A buffer with room for two samples of pre-padding and four of speech.
use lclva.Prelude.{ℕ, ◌≡◌, refl, List, [], ◌∷◌, arith}
use lclva.Audio.UtteranceBuffer.{UtteranceBuffer, utterance_buffer, cap_samples, on_speech_started}
use lclva.Audio.UtteranceBuffer.Padding.{append_all, utterance_holds}

abbrev buffer : UtteranceBuffer
buffer = utterance_buffer 1000 2 1 3 4

abbrev quiet : List (List ℕ)
quiet = (1 ∷ 2 ∷ []) ∷ (3 ∷ []) ∷ []

abbrev speech : List (List ℕ)
speech = (4 ∷ []) ∷ (5 ∷ 6 ∷ []) ∷ []

utterance_holds_example :
    (append_all speech (on_speech_started 7 9 (append_all quiet buffer))).active_samples
    ≡ 3 ∷ 4 ∷ 5 ∷ 6 ∷ []
unfolding utterance_buffer cap_samples
utterance_holds_example =
    utterance_holds quiet speech 7 9 buffer refl (omega arith) (omega arith) (omega arith)
