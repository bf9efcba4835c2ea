-- ===== src/Audio/SpscRing/Sequential.antt =====
-- Calls of the ring one after the other: it is a bounded first-in, first-out queue.
use mathlib.Core.List.{map, map-append}
use native.Mathlib.Decide.{ℕ_discrete, dec_lt}
use native.Mathlib.Nat.{mul-add-mod_self_right, mod-eq_of_lt}
use lclva.Prelude.{
  ℕ, zero, suc, ◌+◌, ◌-◌, ◌*◌, ◌%◌, ◌^◌, ◌≤◌, ◌<◌, ◌≡◌, refl, sym, ap, ap₂, ◌∙◌, List, [], ◌∷◌,
  ◌++◌, Option, none, some, arith, Bool, true, false, if◌then◌else◌, ltb, ◌==◌, length, length-set,
  u64, bit_and_mask,
}
use lclva.Audio.SpscRing.{Ring, next, push, pop, size, empty, capacity}
use lclva.Audio.SpscRing.Window.{
  IsValid, next_wrap, count, contents, length-window, count_full, count_room, contents-put,
  contents-take, next_in,
}

-- The abstract queue: at most `cap` items, oldest first.
module _ {A : Type 0} (cap : ℕ) where
  unfoldable pub enqueue : List A → A → List A × Bool
  enqueue q v = if ltb (length q) cap then (q ++ v ∷ [], true) else (q, false)

  unfoldable pub dequeue : List A → List A × Option A
  dequeue [] = ([], none)
  dequeue (x ∷ q) = (q, some x)

module _ {A : Type 0} (k : ℕ) where
  -- A valid ring that holds the items of a queue.
  pub record Holds (r : Ring A) (q : List A) : Type 0 where
    pub valid : IsValid k r
    pub items : contents k r ≡ map some q

  pub count-lt : (r : Ring A) → IsValid k r → count (2 ^ k) r < 2 ^ k
  count-lt r v = ground arith

  length-map-some : (q : List A) → length (map some q) ≡ length q
  length-map-some [] = refl
  length-map-some (x ∷ q) = ap suc (length-map-some q)

  pub length-Holds : (r : Ring A) (q : List A) → Holds r q → count (2 ^ k) r ≡ length q
  length-Holds r q h =
      sym (length-window (2 ^ k) r.slots r.head (count (2 ^ k) r))
      ∙ ap length h.items
      ∙ length-map-some q

  -- On a valid ring, `push` accepts and refuses as a queue of capacity `Capacity - 1` does, and the
  -- ring then holds what that queue holds.
  pub push_refines :
      (r : Ring A) (q : List A) (v : A)
      → Holds r q
      → Holds (push k r v).0 (enqueue (capacity k) q v).0
        × ((push k r v).1 ≡ (enqueue (capacity k) q v).1)
  unfolding push enqueue
  push_refines r q v h = elim (ℕ_discrete (next k r.tail) r.head) [
    | yes e ↦
        let full = count_full k r h.valid (sym (next_wrap k r.tail h.valid.tail_in) ∙ e) in
        ground (arith, full, length-Holds r q h)
    | no ne ↦
        let room = count_room k r h.valid ne in
        let put = contents-put k r h.valid v ne in
        ground (
          arith,
          room,
          length-Holds r q h,
          put,
          map-append some q (v ∷ []),
          length-set r.slots r.tail v,
          next_in k r h.valid r.tail h.valid.tail_in,
        )
  ]

  -- On a valid ring, `pop` returns the oldest item of the queue, or nothing if it is empty, and the
  -- ring then holds the rest.
  pub pop_refines :
      (r : Ring A) (q : List A)
      → Holds r q
      → Holds (pop k r).0 (dequeue (capacity k) q).0 × ((pop k r).1 ≡ (dequeue (capacity k) q).1)
  unfolding pop dequeue
  pop_refines r [] h = ground (arith, length-Holds r [] h)
  pop_refines r (x ∷ q) h = elim (ℕ_discrete r.head r.tail) [
    | yes e ↦ ground (arith, length-Holds r (x ∷ q) h)
    | no ne ↦
        ground (arith, contents-take k r h.valid ne, next_in k r h.valid r.head h.valid.head_in)
  ]

-- What a client asks of a ring, and what it sees.
pub data RingOp (A : Type 0) : Type 0 where
  put : A → RingOp A
  take : RingOp A

pub data Reply (A : Type 0) : Type 0 where
  accepted : Bool → Reply A
  taken : Option A → Reply A

module _ {A : Type 0} (k : ℕ) where
  unfoldable pub run : Ring A → List (RingOp A) → List (Reply A)
  run r [] = []
  run r (put v ∷ ops) = let (r', b) = push k r v in accepted b ∷ run r' ops
  run r (take ∷ ops) = let (r', o) = pop k r in taken o ∷ run r' ops

  unfoldable pub run_queue : List A → List (RingOp A) → List (Reply A)
  run_queue q [] = []
  run_queue q (put v ∷ ops) =
      let (q', b) = enqueue (capacity k) q v in accepted b ∷ run_queue q' ops
  run_queue q (take ∷ ops) = let (q', o) = dequeue (capacity k) q in taken o ∷ run_queue q' ops

  -- No sequence of calls tells a valid ring from the bounded queue of the items that it holds.
  pub run_refines :
      (ops : List (RingOp A)) (r : Ring A) (q : List A) → Holds k r q → run r ops ≡ run_queue q ops
  unfolding run run_queue
  run_refines [] r q h = refl
  run_refines (put v ∷ ops) r q h =
      let p = push_refines k r q v h in
      ap₂ ◌∷◌ (ap accepted p.1) (run_refines ops (push k r v).0 (enqueue (capacity k) q v).0 p.0)
  run_refines (take ∷ ops) r q h =
      let p = pop_refines k r q h in
      ap₂ ◌∷◌ (ap taken p.1) (run_refines ops (pop k r).0 (dequeue (capacity k) q).0 p.0)

-- `2 ^ 64` is a multiple of a capacity of at most `2 ^ 64`, so the wrapped difference is right.
size_mod :
    (k j a b : ℕ)
    → a < b
    → b < 2 ^ k
    → j * 2 ^ k ≡ 2 ^ 64
    → (2 ^ 64 + a - b) % 2 ^ k ≡ a + 2 ^ k - b
size_mod k zero a b h l e = absurd (omega arith)
size_mod k (suc j) a b h l e =
    ap (λ (t : ℕ). t % 2 ^ k) (omega (arith, e))
    ∙ mul-add-mod_self_right j (2 ^ k) (a + 2 ^ k - b)
    ∙ mod-eq_of_lt (omega arith)

capacity_le : (k j : ℕ) → j * 2 ^ k ≡ 2 ^ 64 → 2 ^ k ≤ 2 ^ 64
capacity_le k zero e = absurd (omega (arith, e))
capacity_le k (suc j) e = omega (arith, e)

module _ {A : Type 0} (k : ℕ) where
  -- For a capacity that divides `2 ^ 64`, as every power of two in `std::size_t` does, `size` is the
  -- number of items held and `empty` tells whether it is 0.
  pub size_lem :
      (r : Ring A) (q : List A) (j : ℕ)
      → j * 2 ^ k ≡ 2 ^ 64
      → Holds k r q
      → (size k r ≡ length q) × (empty k r ≡ (length q == 0))
  unfolding size empty
  size_lem r q j e h =
      let n = length-Holds k r q h in
      let m = bit_and_mask k (u64 (2 ^ 64 + r.tail - r.head)) in
      elim (dec_lt r.tail r.head) [
        | yes lt ↦ (
          let u : u64 (2 ^ 64 + r.tail - r.head) ≡ 2 ^ 64 + r.tail - r.head = omega arith in
              m
              ∙ ap (λ (t : ℕ). t % 2 ^ k) u
              ∙ size_mod k j r.tail r.head lt h.valid.head_in e
              ∙ ground (arith, n),
          ground (arith, n),
        )
        | no ge ↦ (
          let u : u64 (2 ^ 64 + r.tail - r.head) ≡ r.tail - r.head =
                omega (arith, capacity_le k j e, h.valid.tail_in) in
              m
              ∙ ap (λ (t : ℕ). t % 2 ^ k) u
              ∙ mod-eq_of_lt (omega (arith, h.valid.tail_in))
              ∙ ground (arith, n),
          ground (arith, n),
        )
      ]
