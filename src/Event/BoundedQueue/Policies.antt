-- ===== src/Event/BoundedQueue/Policies.antt =====
-- What each overflow policy keeps, and what close leaves to the consumers.
use native.Mathlib.Decide.{dec_lt}
use lclva.Prelude.{
  ℕ, ◌+◌, ◌-◌, ◌≤◌, ◌<◌, ◌≡◌, ◌↔◌, refl, sym, subst, ap, ◌∙◌, List, [], ◌∷◌, ◌++◌, append_assoc,
  append-nil, none, some, false, arith, u64, length, take, drop, length-append, length-take,
  length-drop, take-append, take_all, take_again, drop-append, drop-drop,
}
use lclva.Event.BoundedQueue.{
  OverflowPolicy, drop_oldest, drop_newest, block, BoundedQueue, Section, returns, waits, push,
  push_woken, pop, close, tail,
}

module _ {T : Type 0} where
  -- The queue behind a call that has returned.
  abbrev pub after : {R : Type 0} → BoundedQueue T → Section T R → BoundedQueue T
  after b (returns b' r) = b'
  after b waits = b

  -- Pushes with no consumer in between.
  unfoldable pub push_all : BoundedQueue T → List T → BoundedQueue T
  push_all b [] = b
  push_all b (x ∷ xs) = push_all (after b (push b x)) xs

  -- What a policy keeps of all the items that were ever offered, `cap` at most.
  abbrev pub kept : OverflowPolicy → ℕ → List T → List T
  kept drop_oldest cap xs = drop (length xs - cap) xs
  kept drop_newest cap xs = take cap xs
  kept block cap xs = take cap xs

  drop_last :
      (q : List T) (x : T) (cap : ℕ)
      → 0 < cap
      → length q ≡ cap
      → tail q ++ x ∷ [] ≡ kept drop_oldest cap (q ++ x ∷ [])
  drop_last [] x cap z e = absurd (omega arith)
  drop_last (y ∷ q) x cap z e =
      ap (λ (n : ℕ). drop n ((y ∷ q) ++ x ∷ [])) {x = 1} {y = length ((y ∷ q) ++ x ∷ []) - cap}
        (omega (arith, length-append q (x ∷ [])))

  kept_all : (p : OverflowPolicy) (cap : ℕ) (q : List T) → length q ≤ cap → kept p cap q ≡ q
  kept_all drop_oldest cap q h = ap (λ (n : ℕ). drop n q) {x = length q - cap} {y = 0} (omega arith)
  kept_all drop_newest cap q h = take_all q cap h
  kept_all block cap q h = take_all q cap h

  kept_again :
      (p : OverflowPolicy) (cap : ℕ) (q xs : List T)
      → kept p cap (kept p cap q ++ xs) ≡ kept p cap (q ++ xs)
  kept_again drop_oldest cap q xs =
      let k = length q - cap in
      let m = length (drop k (q ++ xs)) - cap in
      let l = length-append q xs in
      ap (kept drop_oldest cap) (drop-append k q xs (omega arith))
      ∙ drop-drop m k (q ++ xs)
      ∙ ap (λ (n : ℕ). drop n (q ++ xs)) {x = k + m} {y = length (q ++ xs) - cap}
          (omega (arith, l, length-drop k (q ++ xs)))
  kept_again drop_newest cap q xs = take_again cap q xs
  kept_again block cap q xs = take_again cap q xs

  push_room :
      (b : BoundedQueue T) (x : T)
      → b.closed ≡ false
      → length b.q < b.capacity
      → (after b (push b x)).q ≡ b.q ++ x ∷ []
  unfolding push
  push_room b x o h = ground arith

  push_full :
      (p : OverflowPolicy) (b : BoundedQueue T) (x : T)
      → b.policy ≡ p
      → b.closed ≡ false
      → length b.q ≡ b.capacity
      → (after b (push b x)).q
        ≡ elim p [ drop_oldest ↦ tail b.q ++ x ∷ [] | drop_newest ↦ b.q | block ↦ b.q ]
  unfolding push
  push_full drop_oldest b x e o h = ground arith
  push_full drop_newest b x e o h = ground arith
  push_full block b x e o h = ground arith

  push-kept_full :
      (p : OverflowPolicy) (b : BoundedQueue T) (x : T)
      → b.policy ≡ p
      → b.closed ≡ false
      → 0 < b.capacity
      → length b.q ≡ b.capacity
      → (after b (push b x)).q ≡ kept p b.capacity (b.q ++ x ∷ [])
  push-kept_full drop_oldest b x e o z h =
      push_full drop_oldest b x e o h ∙ drop_last b.q x b.capacity z h
  push-kept_full drop_newest b x e o z h =
      push_full drop_newest b x e o h ∙ sym (take-append b.q (x ∷ []) b.capacity h)
  push-kept_full block b x e o z h =
      push_full block b x e o h ∙ sym (take-append b.q (x ∷ []) b.capacity h)

  pub push-kept :
      (p : OverflowPolicy) (b : BoundedQueue T) (x : T)
      → b.policy ≡ p
      → b.closed ≡ false
      → 0 < b.capacity
      → length b.q ≤ b.capacity
      → (after b (push b x)).q ≡ kept p b.capacity (b.q ++ x ∷ [])
  push-kept p b x e o z h = elim (dec_lt (length b.q) b.capacity) [
    | yes lt ↦
        push_room b x o lt
        ∙ sym (kept_all p b.capacity (b.q ++ x ∷ []) (omega (arith, length-append b.q (x ∷ []))))
    | no ge ↦ push-kept_full p b x e o z (omega arith)
  ]

  push_fields :
      (b : BoundedQueue T) (x : T)
      → let b' = after b (push b x) in
        (b'.closed ≡ b.closed) × (b'.capacity ≡ b.capacity) × (b'.policy ≡ b.policy)
  unfolding push
  push_fields b x = (ground arith, ground arith, ground arith)

  length-kept : (p : OverflowPolicy) (cap : ℕ) (q : List T) → length (kept p cap q) ≤ cap
  length-kept drop_oldest cap q = omega (arith, length-drop (length q - cap) q)
  length-kept drop_newest cap q = omega (arith, length-take cap q)
  length-kept block cap q = omega (arith, length-take cap q)

  push_all_from :
      (p : OverflowPolicy) (cap : ℕ) (b : BoundedQueue T) (xs : List T)
      → b.policy ≡ p
      → b.capacity ≡ cap
      → b.closed ≡ false
      → 0 < cap
      → length b.q ≤ cap
      → (push_all b xs).q ≡ kept p cap (b.q ++ xs)
  unfolding push_all
  push_all_from p cap b [] e c o z h = sym (ap (kept p cap) (append-nil b.q) ∙ kept_all p cap b.q h)
  push_all_from p cap b (x ∷ xs) e c o z h =
      let b' = after b (push b x) in
      let f = push_fields b x in
      let q : b'.q ≡ kept p cap (b.q ++ x ∷ []) =
        push-kept p b x e o (omega arith) (omega arith)
        ∙ ap (λ (n : ℕ). kept p n (b.q ++ x ∷ [])) c in
      push_all_from p cap b' xs (f.2 ∙ e) (f.1 ∙ c) (f.0 ∙ o) z
        (omega (arith, ap length q, length-kept p cap (b.q ++ x ∷ [])))
      ∙ ap (λ l. kept p cap (l ++ xs)) q
      ∙ kept_again p cap (b.q ++ x ∷ []) xs
      ∙ ap (kept p cap) (append_assoc b.q (x ∷ []) xs)

  -- With no consumer in between, an open queue of positive capacity ends up with the first items that
  -- fit if it rejects new ones (or makes producers wait), and with the last ones if it drops old ones,
  -- in the order of the pushes and never more than its capacity.
  pub push_all-kept :
      (b : BoundedQueue T) (xs : List T)
      → b.closed ≡ false
      → 0 < b.capacity
      → length b.q ≤ b.capacity
      → ((push_all b xs).q ≡ kept b.policy b.capacity (b.q ++ xs))
        × (length (push_all b xs).q ≤ b.capacity)
  unfolding push_all
  push_all-kept b xs o z h =
      let e = push_all_from b.policy b.capacity b xs refl refl o z h in
      (
        e,
        subst (λ (l : List T). length l ≤ b.capacity) (sym e)
            (length-kept b.policy b.capacity (b.q ++ xs)),
      )

  -- Closing lets the consumers drain what is queued, and turns new items away.
  pub close_drains :
      (b : BoundedQueue T) (x : T)
      → let c = close b in
        (push c x ≡ returns c false)
        × (push_woken c x ≡ returns c false)
        × ((b.q ≡ []) → pop c ≡ returns c none)
        × ((y : T) (ys : List T)
            → b.q ≡ y ∷ ys
            → pop c ≡ returns (record c { q = ys; pops = u64 (b.pops + 1) }) (some y))
  unfolding close push push_woken pop
  close_drains b x = (ground arith, ground arith, λ e. ground arith, λ y ys e. ground arith)

  -- Nobody waits for nothing: `push` waits only under the blocking policy on an open full queue, a
  -- waiting `push` goes on exactly when there is room or the queue is closed, and `pop` waits only on
  -- an open empty queue.
  pub waits_lem :
      (b : BoundedQueue T) (x : T)
      → ((push b x ≡ waits) ↔ ((b.closed ≡ false) × (b.capacity ≤ length b.q) × (b.policy ≡ block)))
        × ((push_woken b x ≡ waits) ↔ ((b.closed ≡ false) × (b.capacity ≤ length b.q)))
        × ((pop b ≡ waits) ↔ ((b.closed ≡ false) × (b.q ≡ [])))
  unfolding push push_woken pop
  waits_lem b x = (
    (λ e. ground arith, λ h. ground arith),
    (λ e. ground arith, λ h. ground arith),
    (λ e. ground arith, λ h. ground arith),
  )
