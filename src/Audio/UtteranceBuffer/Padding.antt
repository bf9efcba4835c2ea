-- ===== src/Audio/UtteranceBuffer/Padding.antt =====
-- src/audio/utterance.cpp: which samples an utterance holds.
use lclva.Prelude.{
  ℕ, suc, ◌+◌, ◌-◌, ◌≤◌, ◌<◌, ◌≡◌, refl, sym, ap, ap₂, ◌∙◌, List, [], ◌∷◌, ◌++◌, append-nil,
  append_assoc, true, false, arith, ltb, length, drop, length-append, length-drop, drop-append,
  drop-drop, if_true, if_false, Bool-cases, inl, inr,
}
use lclva.Audio.UtteranceBuffer.{
  UtteranceBuffer, trim_pre_buffer, cap_samples, append_active, append, on_speech_started,
}

-- The last samples of a list.
abbrev pub last : ℕ → List ℕ → List ℕ
last n s = drop (length s - n) s

abbrev pub joined : List (List ℕ) → List ℕ
joined [] = []
joined (s ∷ ss) = s ++ joined ss

unfoldable pub append_all : List (List ℕ) → UtteranceBuffer → UtteranceBuffer
unfolding append
append_all [] b = b
append_all (s ∷ ss) b = append_all ss (append s b)

last_all : (n : ℕ) (s : List ℕ) → length s ≤ n → last n s ≡ s
last_all n s h = ap (λ (k : ℕ). drop k s) {x = length s - n} {y = 0} (omega arith)

trim_pre_buffer_lem : (cap : ℕ) (s : List ℕ) → trim_pre_buffer cap s ≡ last cap s
unfolding trim_pre_buffer
trim_pre_buffer_lem cap [] = ground arith
trim_pre_buffer_lem cap (c ∷ s) =
    let n = length (c ∷ s) in
    elim (Bool-cases (ltb cap n)) [
      | inl e ↦
          let m : suc (length s - cap) ≡ n - cap = ground (arith, e) in
          if_true (ltb cap n) (trim_pre_buffer cap s) (c ∷ s) e
          ∙ trim_pre_buffer_lem cap s
          ∙ ap (λ (k : ℕ). drop k (c ∷ s)) m
      | inr e ↦
          if_false (ltb cap n) (trim_pre_buffer cap s) (c ∷ s) e
          ∙ sym (last_all cap (c ∷ s) (ground (arith, e)))
    ]

-- What is cut off in front does not come back.
last_again : (n : ℕ) (s t : List ℕ) → last n (last n s ++ t) ≡ last n (s ++ t)
last_again n s t =
    let a = length s - n in
    let e = drop-append a s t (omega arith) in
    let l = length-append (drop a s) t in
    let d = length-drop a s in
    let m = length-append s t in
    ap (λ x. drop (length (drop a s ++ t) - n) x) e
    ∙ drop-drop (length (drop a s ++ t) - n) a (s ++ t)
    ∙ ap (λ (k : ℕ). drop k (s ++ t)) {x = a + (length (drop a s ++ t) - n)}
        {y = length (s ++ t) - n} (omega (arith, l, d, m))

append_quiet :
    (s : List ℕ) (b : UtteranceBuffer)
    → b.recording ≡ false
    → length b.pre_buffer ≤ b.pre_pad_capacity
    → let b' = append s b in
      (b'.recording ≡ false)
      × (b'.pre_buffer ≡ last b.pre_pad_capacity (b.pre_buffer ++ s))
      × (b'.pre_pad_capacity ≡ b.pre_pad_capacity)
      × (cap_samples b' ≡ cap_samples b)
unfolding append cap_samples
append_quiet [] b r h = (
  r,
  sym (
      ap (last b.pre_pad_capacity) (append-nil b.pre_buffer)
      ∙ last_all b.pre_pad_capacity b.pre_buffer h),
  refl,
  refl,
)
append_quiet (s ∷ ss) b r h = (
  ground arith,
  ground (arith, trim_pre_buffer_lem b.pre_pad_capacity (b.pre_buffer ++ s ∷ ss)),
  ground arith,
  ground arith,
)

append_active_lem :
    (s : List ℕ) (b : UtteranceBuffer)
    → 0 < cap_samples b
    → (append_active s b).active_samples ≡ last (cap_samples b) (b.active_samples ++ s)
unfolding append_active
append_active_lem s b z =
    let l = last_all (cap_samples b) (b.active_samples ++ s) in ground (arith, l)

append_recording :
    (s : List ℕ) (b : UtteranceBuffer)
    → b.recording ≡ true
    → 0 < cap_samples b
    → length b.active_samples ≤ cap_samples b
    → let b' = append s b in
      (b'.recording ≡ true)
      × (b'.active_samples ≡ last (cap_samples b) (b.active_samples ++ s))
      × (cap_samples b' ≡ cap_samples b)
unfolding append append_active cap_samples
append_recording [] b r z h = (
  r,
  sym (
      ap (last (cap_samples b)) (append-nil b.active_samples)
      ∙ last_all (cap_samples b) b.active_samples h),
  refl,
)
append_recording (s ∷ ss) b r z h = (
  ground arith,
  ap (λ (x : UtteranceBuffer). x.active_samples)
        (if_true b.recording (append_active (s ∷ ss) b) _ r)
      ∙ append_active_lem (s ∷ ss) b z,
  ground arith,
)

append_all-quiet :
    (ss : List (List ℕ)) (b : UtteranceBuffer)
    → b.recording ≡ false
    → length b.pre_buffer ≤ b.pre_pad_capacity
    → let b' = append_all ss b in
      (b'.pre_buffer ≡ last b.pre_pad_capacity (b.pre_buffer ++ joined ss))
      × (cap_samples b' ≡ cap_samples b)
unfolding append_all
append_all-quiet [] b r h = (
  sym (
      ap (last b.pre_pad_capacity) (append-nil b.pre_buffer)
      ∙ last_all b.pre_pad_capacity b.pre_buffer h),
  refl,
)
append_all-quiet (s ∷ ss) b r h =
    let (r', p, c, m) = append_quiet s b r h in
    let n = b.pre_pad_capacity in
    let d = length-drop (length (b.pre_buffer ++ s) - n) (b.pre_buffer ++ s) in
    let ih = append_all-quiet ss (append s b) r' (omega (arith, ap length p, c, d)) in
    (
      ih.0
          ∙ ap₂ (λ k x. last k (x ++ joined ss)) c p
          ∙ last_again n (b.pre_buffer ++ s) (joined ss)
          ∙ ap (last n) (append_assoc b.pre_buffer s (joined ss)),
      ih.1 ∙ m,
    )

append_all-recording :
    (ss : List (List ℕ)) (b : UtteranceBuffer)
    → b.recording ≡ true
    → 0 < cap_samples b
    → length b.active_samples ≤ cap_samples b
    → (append_all ss b).active_samples ≡ last (cap_samples b) (b.active_samples ++ joined ss)
unfolding append_all
append_all-recording [] b r z h = sym (
    ap (last (cap_samples b)) (append-nil b.active_samples)
    ∙ last_all (cap_samples b) b.active_samples h)
append_all-recording (s ∷ ss) b r z h =
    let (r', p, m) = append_recording s b r z h in
    let n = cap_samples b in
    let d = length-drop (length (b.active_samples ++ s) - n) (b.active_samples ++ s) in
    append_all-recording ss (append s b) r' (omega (arith, m)) (omega (arith, ap length p, m, d))
    ∙ ap₂ (λ k x. last k (x ++ joined ss)) m p
    ∙ last_again n (b.active_samples ++ s) (joined ss)
    ∙ ap (last n) (append_assoc b.active_samples s (joined ss))

on_speech_started-cap :
    (t u : ℕ) (b : UtteranceBuffer) → cap_samples (on_speech_started t u b) ≡ cap_samples b
unfolding on_speech_started cap_samples
on_speech_started-cap t u b = refl

-- A buffer that does not record gets samples, then the start of speech, then more samples, all cut into
-- calls of `append` in any way. With a cap on the duration that the pre-padding fits in, it then holds the
-- last samples that the pre-padding has room for and every sample behind them, but no more than the last
-- ones that the cap allows.
pub utterance_holds :
    (quiet speech : List (List ℕ)) (t u : ℕ) (b : UtteranceBuffer)
    → b.recording ≡ false
    → length b.pre_buffer ≤ b.pre_pad_capacity
    → 0 < cap_samples b
    → b.pre_pad_capacity ≤ cap_samples b
    → (append_all speech (on_speech_started t u (append_all quiet b))).active_samples
      ≡ last
          (cap_samples b)
          (last b.pre_pad_capacity (b.pre_buffer ++ joined quiet) ++ joined speech)
unfolding on_speech_started
utterance_holds quiet speech t u b r h z k =
    let q = append_all-quiet quiet b r h in
    let b' = on_speech_started t u (append_all quiet b) in
    let m : cap_samples b' ≡ cap_samples b = on_speech_started-cap t u (append_all quiet b) ∙ q.1 in
    let d =
      length-drop (length (b.pre_buffer ++ joined quiet) - b.pre_pad_capacity)
        (b.pre_buffer ++ joined quiet) in
    append_all-recording speech b' refl (omega (arith, m)) (omega (arith, ap length q.0, m, d))
    ∙ ap₂ (λ k x. last k (x ++ joined speech)) m q.0
