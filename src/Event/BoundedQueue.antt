-- ===== src/Event/BoundedQueue.antt =====
-- src/event/queue.hpp: the bounded queue of the bus. Each call is one critical section of the mutex,
-- except where it waits on a condition variable: there it ends in `waits`, and is entered again, with
-- the queue as it is by then, when the wait is over. The oldest item is the head of the list.
pub mod Policies
mod Tests
use lclva.Prelude.{
  ℕ, ◌+◌, List, [], ◌∷◌, ◌++◌, Option, none, some, Bool, true, false, not, ◌||◌, if◌then◌else◌, leb,
  ltb, u64, length,
}

pub data OverflowPolicy : Type 0 where
  drop_oldest drop_newest block : OverflowPolicy

pub record BoundedQueue (T : Type 0) : Type 0 where
  pub capacity : ℕ
  pub policy : OverflowPolicy
  pub q : List T
  pub closed : Bool
  pub pushes : ℕ  -- std::uint64_t
  pub pops : ℕ  -- std::uint64_t
  pub drops : ℕ  -- std::uint64_t

-- How a section of a call ends: it returns, with the queue behind it, or it waits.
pub data Section (T R : Type 0) : Type 0 where
  returns : BoundedQueue T → R → Section T R
  waits : Section T R

-- `pop_front` on an empty deque is undefined behaviour; it changes nothing here.
abbrev tail {ℓ} : {A : Type ℓ} → List A → List A
tail [] = []
tail (x ∷ xs) = xs

module _ {T : Type 0} where
  unfoldable pub bounded_queue : ℕ → OverflowPolicy → BoundedQueue T
  bounded_queue capacity policy = record {
    capacity = capacity;
    policy = policy;
    q = [];
    closed = false;
    pushes = 0;
    pops = 0;
    drops = 0;
  }

  -- The end of `push`: the item goes in at the back.
  accept : BoundedQueue T → T → Section T Bool
  accept b value = returns (record b { q = b.q ++ value ∷ []; pushes = u64 (b.pushes + 1) }) true

  -- The `switch` over the policy when the queue is full.
  overflow : OverflowPolicy → BoundedQueue T → T → Section T Bool
  unfolding accept
  overflow drop_oldest b value = accept (record b { q = tail b.q; drops = u64 (b.drops + 1) }) value
  overflow drop_newest b value = returns (record b { drops = u64 (b.drops + 1) }) false
  overflow block b value = waits

  unfoldable pub push : BoundedQueue T → T → Section T Bool
  unfolding accept overflow
  push b value =
      if b.closed
      then returns b false
      else if leb b.capacity (length b.q)
      then overflow b.policy b value
      else accept b value

  -- A blocked `push` when it looks at its condition again.
  unfoldable pub push_woken : BoundedQueue T → T → Section T Bool
  unfolding accept
  push_woken b value =
      if not (ltb (length b.q) b.capacity || b.closed)
      then waits
      else if b.closed
      then returns b false
      else accept b value

  -- The end of each `pop`.
  take_front : List T → BoundedQueue T → Section T (Option T)
  take_front [] b = returns b none
  take_front (x ∷ xs) b = returns (record b { q = xs; pops = u64 (b.pops + 1) }) (some x)

  unfoldable pub is_empty : List T → Bool
  is_empty [] = true
  is_empty (x ∷ xs) = false

  unfoldable pub pop : BoundedQueue T → Section T (Option T)
  unfolding take_front is_empty
  pop b = if not (not (is_empty b.q) || b.closed) then waits else take_front b.q b

  -- `pop_until`; the flag says whether the deadline has passed.
  unfoldable pub pop_until : BoundedQueue T → Bool → Section T (Option T)
  unfolding take_front is_empty
  pop_until b expired =
      if not (not (is_empty b.q) || b.closed)
      then if expired then returns b none else waits
      else take_front b.q b

  unfoldable pub try_pop : BoundedQueue T → Section T (Option T)
  unfolding take_front
  try_pop b = take_front b.q b

  unfoldable pub close : BoundedQueue T → BoundedQueue T
  close b = record b { closed = true }
