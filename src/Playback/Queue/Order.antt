-- ===== src/Playback/Queue/Order.antt =====
-- Which chunks come out of the queue, and in which order.
use native.Mathlib.Decide.{ℕ_discrete}
use lclva.Prelude.{
  ℕ, zero, suc, ◌+◌, ◌≤◌, ◌<◌, ◌≡◌, ◌≢◌, refl, sym, ap, ◌∙◌, List, [], ◌∷◌, ◌++◌, Option, none,
  some, Bool, not, arith, u64, ltb, ◌==◌, length, keep, All, append-nil, append_assoc, subst,
  length-append, if_true, ==_iff,
}
use lclva.Event.Types.{TurnId}
use lclva.Playback.Queue.{
  AudioChunk, PlaybackQueue, skip_stale, take_head, dequeue_active, rebuild, invalidate_before,
}

-- The chunks of other turns in front of the first one of the active turn.
skip_stale_lem :
    (active : TurnId) (cs : List AudioChunk) (drops : ℕ)
    → (stale : List AudioChunk) × (cs ≡ stale ++ (skip_stale active cs drops).0)
      × All (λ c. c.turn ≢ active) stale
      × (u64 (skip_stale active cs drops).1 ≡ u64 (drops + length stale))
unfolding skip_stale
skip_stale_lem active [] drops = ([], refl, tt, ground arith)
skip_stale_lem active (c ∷ cs) drops = elim (ℕ_discrete c.turn active) [
  | yes e ↦ ([], ground arith, tt, ground arith)
  | no ne ↦
      let (stale, split, all, n) = skip_stale_lem active cs (u64 (drops + 1)) in
      (c ∷ stale, ground arith, (ne, all), ground arith)
]

skip_stale_head :
    (active : TurnId) (cs : List AudioChunk) (drops : ℕ) {c : AudioChunk} {rest : List AudioChunk}
    → (skip_stale active cs drops).0 ≡ c ∷ rest
    → c.turn ≡ active
unfolding skip_stale
skip_stale_head active [] drops e = cc
skip_stale_head active (x ∷ cs) drops {c} {rest} e = elim (ℕ_discrete x.turn active) [
  | yes h ↦ ground arith
  | no ne ↦ skip_stale_head active cs (u64 (drops + 1)) {c = c} {rest = rest} (ground arith)
]

-- A chunk of the active turn comes out, or none does and nothing is left.
abbrev pub Dequeued :
    PlaybackQueue → TurnId → List AudioChunk → PlaybackQueue × Option AudioChunk → Type 0
Dequeued p active stale (p', none) = (p.q ≡ stale) × (p'.q ≡ []) × (p'.dequeued ≡ p.dequeued)
Dequeued p active stale (p', some c) =
    (p.q ≡ stale ++ c ∷ p'.q) × (c.turn ≡ active) × (p'.dequeued ≡ u64 (p.dequeued + 1))

take_head-Dequeued :
    (p : PlaybackQueue) (active : TurnId) (stale : List AudioChunk) (r : List AudioChunk × ℕ)
    → p.q ≡ stale ++ r.0
    → ((c : AudioChunk) (rest : List AudioChunk) → r.0 ≡ c ∷ rest → c.turn ≡ active)
    → Dequeued p active stale (take_head p r) × ((take_head p r).0.drops ≡ r.1)
unfolding take_head
take_head-Dequeued p active stale ([], n) e h = ((e ∙ append-nil stale, refl, refl), refl)
take_head-Dequeued p active stale (c ∷ cs, n) e h = ((e, h c cs refl, refl), refl)

pub dequeue_keeps :
    (p : PlaybackQueue) (active : TurnId)
    → ((dequeue_active p active).0.cap ≡ p.cap)
      × ((dequeue_active p active).0.enqueued ≡ p.enqueued)
unfolding dequeue_active
dequeue_keeps p active = go (skip_stale active p.q p.drops)
  where
    go :
        (r : List AudioChunk × ℕ)
        → ((take_head p r).0.cap ≡ p.cap) × ((take_head p r).0.enqueued ≡ p.enqueued)
    go ([], n) = (refl, refl)
    go (c ∷ cs, n) = (refl, refl)

-- What a call of `dequeue_active` does: the chunks in front are of other turns and are dropped, each
-- counted; then either the queue is empty and nothing is returned, or the first chunk of the active
-- turn is returned and the chunks behind it stay in their order.
pub dequeue_active_lem :
    (p : PlaybackQueue) (active : TurnId)
    → (stale : List AudioChunk) × All (λ c. c.turn ≢ active) stale
      × (u64 (dequeue_active p active).0.drops ≡ u64 (p.drops + length stale))
      × Dequeued p active stale (dequeue_active p active)
unfolding dequeue_active
dequeue_active_lem p active =
    let (stale, split, all, n) = skip_stale_lem active p.q p.drops in
    let t =
      take_head-Dequeued p active stale (skip_stale active p.q p.drops) split
        (λ c rest e. skip_stale_head active p.q p.drops e) in
    (stale, all, ap u64 t.1 ∙ n, t.0)

rebuild_lem :
    (next_turn : TurnId) (cs : List AudioChunk)
    → ((rebuild next_turn cs).0 ≡ keep (λ c. not (ltb c.turn next_turn)) cs)
      × ((rebuild next_turn cs).1 + length (rebuild next_turn cs).0 ≡ length cs)
unfolding rebuild
rebuild_lem next_turn [] = (refl, refl)
rebuild_lem next_turn (c ∷ cs) = ground (arith, rebuild_lem next_turn cs)

All-keep :
    (next_turn : TurnId) (cs : List AudioChunk)
    → All (λ (c : AudioChunk). next_turn ≤ c.turn) (keep (λ c. not (ltb c.turn next_turn)) cs)
All-keep next_turn [] = tt
All-keep next_turn (c ∷ cs) = ground (arith, All-keep next_turn cs)

-- `invalidate_before` keeps the chunks whose turn is not before the given one, in their order, and
-- returns and counts the others: afterwards no chunk of an earlier turn is queued.
pub invalidate_before_lem :
    (p : PlaybackQueue) (next_turn : TurnId)
    → let (p', n) = invalidate_before p next_turn in
      (p'.q ≡ keep (λ c. not (ltb c.turn next_turn)) p.q)
      × All (λ c. next_turn ≤ c.turn) p'.q
      × (n + length p'.q ≡ length p.q)
      × (u64 p'.drops ≡ u64 (p.drops + n))
unfolding invalidate_before
invalidate_before_lem p next_turn =
    let kept : (invalidate_before p next_turn).0.q ≡ keep (λ c. not (ltb c.turn next_turn)) p.q =
      ground (arith, rebuild_lem next_turn p.q) in
    (
      kept,
      subst (All (λ (c : AudioChunk). next_turn ≤ c.turn)) (sym kept) (All-keep next_turn p.q),
      ground (arith, rebuild_lem next_turn p.q),
      ground (arith, rebuild_lem next_turn p.q),
    )

pub invalidate_keeps :
    (p : PlaybackQueue) (next_turn : TurnId)
    → let p' = (invalidate_before p next_turn).0 in
      (p'.cap ≡ p.cap) × (p'.enqueued ≡ p.enqueued) × (p'.dequeued ≡ p.dequeued)
unfolding invalidate_before
invalidate_keeps p next_turn = (ground arith, ground arith, ground arith)

-- Calls of `dequeue_active` until one returns nothing, at most `n` of them.
unfoldable pub drain : ℕ → PlaybackQueue → TurnId → List AudioChunk
drain zero p active = []
drain (suc n) p active =
    let (p', out) = dequeue_active p active in
    elim out [ none ↦ [] | some c ↦ c ∷ drain n p' active ]

abbrev pub of_turn : TurnId → AudioChunk → Bool
of_turn active c = c.turn == active

keep-stale :
    (active : TurnId) (stale rest : List AudioChunk)
    → All (λ (c : AudioChunk). c.turn ≢ active) stale
    → keep (of_turn active) (stale ++ rest) ≡ keep (of_turn active) rest
keep-stale active [] rest a = refl
keep-stale active (c ∷ stale) rest a = ground (arith, keep-stale active stale rest a.1)

drain_step :
    (n : ℕ) (p : PlaybackQueue) (active : TurnId) (stale : List AudioChunk)
    (r : PlaybackQueue × Option AudioChunk)
    → All (λ (c : AudioChunk). c.turn ≢ active) stale
    → Dequeued p active stale r
    → ((p' : PlaybackQueue)
        → length p'.q < length p.q
        → drain n p' active ≡ keep (of_turn active) p'.q)
    → elim r.1 [ none ↦ [] | some c ↦ c ∷ drain n r.0 active ] ≡ keep (of_turn active) p.q
drain_step n p active stale (p', none) a d ih =
    sym (ap (keep (of_turn active)) (d.0 ∙ sym (append-nil stale)) ∙ keep-stale active stale [] a)
drain_step n p active stale (p', some c) a d ih =
    let shorter = ap length d.0 ∙ length-append stale (c ∷ p'.q) in
    ap (λ l. c ∷ l) (ih p' (omega (arith, shorter)))
    ∙ sym (
        ap (keep (of_turn active)) d.0
        ∙ keep-stale active stale (c ∷ p'.q) a
        ∙ if_true (of_turn active c) _ _ ((==_iff _ _).1 d.1))

-- Taking chunks of one turn until none is left returns exactly the chunks of that turn that were
-- queued, in the order in which they were enqueued, and no chunk of any other turn.
pub drain_in_order :
    (n : ℕ) (p : PlaybackQueue) (active : TurnId)
    → length p.q < n
    → drain n p active ≡ keep (of_turn active) p.q
unfolding drain
drain_in_order zero p active h = absurd (omega arith)
drain_in_order (suc n) p active h =
    let (stale, all, k, d) = dequeue_active_lem p active in
    drain_step n p active stale (dequeue_active p active) all d
      (λ p' lt. drain_in_order n p' active (omega arith))

-- A dequeuing takes chunks off the front, and nothing else.
prefix_cases :
    (p : PlaybackQueue) (active : TurnId) (stale : List AudioChunk)
    (r : PlaybackQueue × Option AudioChunk)
    → Dequeued p active stale r
    → (gone : List AudioChunk) × (gone ++ r.0.q ≡ p.q)
prefix_cases p active stale (p', none) d =
    (stale, ap (λ l. stale ++ l) d.1 ∙ append-nil stale ∙ sym d.0)
prefix_cases p active stale (p', some c) d =
    (stale ++ c ∷ [], append_assoc stale (c ∷ []) p'.q ∙ sym d.0)

pub dequeue_active-prefix :
    (p : PlaybackQueue) (active : TurnId)
    → (gone : List AudioChunk) × (gone ++ (dequeue_active p active).0.q ≡ p.q)
dequeue_active-prefix p active =
    let (stale, all, n, d) = dequeue_active_lem p active in
    prefix_cases p active stale (dequeue_active p active) d
