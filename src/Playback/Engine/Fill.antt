-- ===== src/Playback/Engine/Fill.antt =====
-- The callback always fills the device's buffer, and no more.
use lclva.Prelude.{
  ℕ, zero, suc, ◌+◌, ◌-◌, ◌≤◌, ◌<◌, ◌≡◌, ◌⊎◌, inl, inr, refl, sym, ap, subst, List, [], ◌∷◌, Option,
  none, some, Bool, true, false, arith, min, if◌then◌else◌, u64, leb, ltb, length, take, drop,
  length-append, length-take, length-drop, if_true, if_false, Bool-cases,
}
use lclva.Event.Types.{TurnId}
use lclva.Playback.Queue.{AudioChunk, PlaybackQueue, dequeue_active, pending_samples_for}
use lclva.Playback.Queue.Order.{dequeue_active_lem, Dequeued}
use lclva.Playback.Engine.{
  PlaybackEngine, maybe_close_barge_in_timer, finish_chunk, zeros, Round, goes_on, returns, copy,
  silence, waits, on_dequeued, next_chunk, round, render_loop, render_into,
}

-- The rounds that copying the current chunk and draining the queue can take.
abbrev pub budget : PlaybackEngine → ℕ
budget e = length e.queue.q + (if ltb e.pos (length e.current.samples) then 1 else 0)

-- A round returns with a full buffer, or it fills the buffer, or it uses some of the budget up.
abbrev Good : (frames budget : ℕ) → Round → Type 0
Good frames b (returns e) = length e.out ≡ frames
Good frames b (goes_on e) = (length e.out ≤ frames) × ((length e.out ≡ frames) ⊎ (budget e < b))

length-zeros : (n : ℕ) → length (zeros n) ≡ n
length-zeros zero = refl
length-zeros (suc n) = ap suc (length-zeros n)

silence-out :
    (frames now : ℕ) (active : TurnId) (e : PlaybackEngine)
    → length e.out ≤ frames
    → length (maybe_close_barge_in_timer now active (silence frames e)).out ≡ frames
unfolding maybe_close_barge_in_timer silence
silence-out frames now active e h =
    let l = length-append e.out (zeros (frames - length e.out)) in
    let z = length-zeros (frames - length e.out) in ground (arith, l, z)

copy-Good :
    (frames b : ℕ) (e : PlaybackEngine)
    → length e.out ≤ frames
    → e.pos ≤ length e.current.samples
    → length e.queue.q < b
    → Good frames b (goes_on (copy frames e))
unfolding copy
copy-Good frames b e h p q =
    let n = min (frames - length e.out) (length e.current.samples - e.pos) in
    let l = length-append e.out (take n (drop e.pos e.current.samples)) in
    let t = length-take n (drop e.pos e.current.samples) in
    let d = length-drop e.pos e.current.samples in
    let k : length (copy frames e).out ≡ length e.out + n = omega (arith, l, t, d) in
    (
      omega (arith, k),
      elim (Bool-cases (leb (length e.current.samples - e.pos) (frames - length e.out))) [
        | inl c ↦
            let m : n ≡ length e.current.samples - e.pos = ground (arith, c) in
            inr (ground (arith, m))
        | inr c ↦ inl (ground (arith, k, c))
      ],
    )

-- A chunk that comes out makes the queue shorter.
Dequeued-shorter :
    (p : PlaybackQueue) (active : TurnId) (stale : List AudioChunk) (p' : PlaybackQueue)
    (c : AudioChunk)
    → Dequeued p active stale (p', some c)
    → length p'.q < length p.q
Dequeued-shorter p active stale p' c d =
    omega (arith, ap length d.0, length-append stale (c ∷ p'.q))

dequeue_active-shorter :
    (p : PlaybackQueue) (active : TurnId) (p' : PlaybackQueue) (c : AudioChunk)
    → dequeue_active p active ≡ (p', some c)
    → length p'.q < length p.q
dequeue_active-shorter p active p' c e =
    let (stale, all, n, d) = dequeue_active_lem p active in
    Dequeued-shorter p active stale p' c (subst (Dequeued p active stale) e d)

if-Good :
    (frames b : ℕ) (t : Bool) (x y : Round)
    → (t ≡ true → Good frames b x)
    → Good frames b y
    → Good frames b (if t then x else y)
if-Good frames b true x y p q = p refl
if-Good frames b false x y p q = q

on_dequeued-Good :
    (now frames b : ℕ) (active : TurnId) (e : PlaybackEngine)
    (r : PlaybackQueue × Option AudioChunk)
    → length e.out ≤ frames
    → ((p' : PlaybackQueue) (c : AudioChunk) → r ≡ (p', some c) → length p'.q < b)
    → Good frames b (on_dequeued now frames active e r)
unfolding on_dequeued
on_dequeued-Good now frames b active e (q, none) h s = silence-out frames now active _ h
on_dequeued-Good now frames b active e (q, some c) h s =
    let l = s q c refl in
    let e' = record e { queue = q; current = c; pos = 0 } in
    if-Good frames b (leb (length c.samples) 0) (goes_on e') (goes_on (copy frames e'))
      (λ z. (h, inr (ground (arith, z)))) (copy-Good frames b e' h (omega arith) l)

next_chunk-Good :
    (now frames : ℕ) (active : TurnId) (e : PlaybackEngine)
    → length e.out ≤ frames
    → Good frames (length e.queue.q) (next_chunk now frames active e)
unfolding next_chunk
next_chunk-Good now frames active e h =
    let b = length e.queue.q in
    let r = dequeue_active e.queue active in
    let short = dequeue_active-shorter e.queue active in
    let go = on_dequeued-Good now frames b active e r h short in
    let e' = record e { primed_turn = active } in
    let go' = on_dequeued-Good now frames b active e' r h short in
    let stalled = record e {
      prefill_silence_frames = u64 (e.prefill_silence_frames + (frames - length e.out));
    } in
    if-Good frames b (waits active e) _ _
      (λ w.
        if-Good frames b (leb e.prefill_target_samples (pending_samples_for e.queue active)) _
          (returns (maybe_close_barge_in_timer now active (silence frames stalled))) (λ g. go')
          (silence-out frames now active stalled h))
      go

finish_chunk-budget :
    (e : PlaybackEngine) → ((finish_chunk e).out ≡ e.out) × ((finish_chunk e).queue ≡ e.queue)
unfolding finish_chunk
finish_chunk-budget e = (ground arith, ground arith)

more-Good : (frames b b' : ℕ) (r : Round) → b ≤ b' → Good frames b r → Good frames b' r
more-Good frames b b' (returns e) l g = g
more-Good frames b b' (goes_on e) l (h, inl f) = (h, inl f)
more-Good frames b b' (goes_on e) l (h, inr k) = (h, inr (omega arith))

round-Good :
    (now frames : ℕ) (active : TurnId) (e : PlaybackEngine)
    → length e.out ≤ frames
    → Good frames (budget e) (round now frames active e)
unfolding round
round-Good now frames active e h =
    let f = finish_chunk-budget e in
    elim (Bool-cases (leb (length e.current.samples) e.pos)) [
      | inl c ↦
          let g = next_chunk-Good now frames active (finish_chunk e) (ground (arith, f)) in
          subst (Good frames (budget e))
            (sym (if_true (leb (length e.current.samples) e.pos) _ (goes_on (copy frames e)) c))
            (more-Good frames _ (budget e) _ (ground (arith, f)) g)
      | inr c ↦
          subst (Good frames (budget e))
            (sym (if_false (leb (length e.current.samples) e.pos) _ (goes_on (copy frames e)) c))
            (copy-Good frames (budget e) e h (ground (arith, c)) (ground (arith, c)))
    ]

-- A result with a full buffer.
abbrev pub Filled : ℕ → Option PlaybackEngine → Type 0
Filled frames none = ⊥
Filled frames (some e) = length e.out ≡ frames

behind-round :
    (n now frames : ℕ) (active : ℕ → TurnId) (b : ℕ) (r : Round)
    → Good frames b r
    → b < n
    → ((e : PlaybackEngine)
        → length e.out ≤ frames
        → (length e.out ≡ frames) ⊎ (budget e + 1 < n)
        → 0 < n
        → Filled frames (render_loop n now frames active e))
    → Filled frames
        (elim r [ goes_on e' ↦ render_loop n now frames active e' | returns e' ↦ some e' ])
behind-round n now frames active b (returns e) g l ih = g
behind-round n now frames active b (goes_on e) (h, inl f) l ih = ih e h (inl f) (omega arith)
behind-round n now frames active b (goes_on e) (h, inr k) l ih =
    ih e h (inr (omega arith)) (omega arith)

render_loop-Filled :
    (n now frames : ℕ) (active : ℕ → TurnId) (e : PlaybackEngine)
    → length e.out ≤ frames
    → (length e.out ≡ frames) ⊎ (budget e + 1 < n)
    → 0 < n
    → Filled frames (render_loop n now frames active e)
unfolding render_loop
render_loop-Filled zero now frames active e h m z = absurd (omega arith)
render_loop-Filled (suc n) now frames active e h m z =
    elim (Bool-cases (leb frames (length e.out))) [
      | inl c ↦
          subst (Filled frames) (sym (if_true (leb frames (length e.out)) _ _ c))
            (ground (arith, c))
      | inr c ↦
          subst (Filled frames)
            (sym (
              if_false (leb frames (length e.out))
                (some (record e { frames_played = u64 (e.frames_played + frames) })) _ c))
            (behind-round n now frames active (budget e) (round now frames (active n) e)
              (round-Good now frames (active n) e h) (ground (arith, c, m))
              (render_loop-Filled n now frames active))
    ]

-- With fuel for more than two rounds beyond the queued chunks, a call of the callback ends and has written
-- exactly the frames that the device asked for, whatever turns are active in its rounds.
pub render_into_fills :
    (n now frames : ℕ) (active : ℕ → TurnId) (e : PlaybackEngine)
    → length e.queue.q + 2 < n
    → Filled frames (render_into n now frames active e)
unfolding render_into
render_into_fills n now frames active e h =
    render_loop-Filled n now frames active (record e { out = [] }) (omega arith)
      (inr (ground arith)) (omega arith)
