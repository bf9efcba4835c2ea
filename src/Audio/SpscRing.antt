-- ===== src/Audio/SpscRing.antt =====
-- src/audio/spsc_ring.hpp: the single-producer, single-consumer ring of the capture path.
-- `Capacity` is 2 ^ k, as its static assertion demands; `slots` is the std::array, of that length.
-- `push` and `pop` run alone here; `Concurrent` cuts them at their atomic accesses.
pub mod Window
pub mod Sequential
pub mod Concurrent
mod Tests
use Prim.Native.Nat.{bit_and}
use lclva.Prelude.{
  ℕ, ◌+◌, ◌-◌, ◌^◌, Option, none, List, Bool, true, false, if◌then◌else◌, ◌==◌, u64, get_elem?, set,
}

pub record Ring (A : Type 0) : Type 0 where
  pub tail : ℕ
  pub head : ℕ
  pub slots : List A

abbrev pub k_mask : ℕ → ℕ
k_mask k = 2 ^ k - 1

-- `(i + 1) & kMask`
unfoldable pub next : ℕ → ℕ → ℕ
next k i = bit_and (i + 1) (k_mask k)

module _ (k : ℕ) {A : Type 0} where
  unfoldable pub push : Ring A → A → Ring A × Bool
  push r value =
      let next_tail = next k r.tail in
      if next_tail == r.head
      then (r, false)
      else (record r { slots = set r.slots r.tail value; tail = next_tail }, true)

  -- A read of the array outside its bounds would be `none`; a valid ring makes none.
  unfoldable pub pop : Ring A → Ring A × Option A
  pop r =
      if r.head == r.tail
      then (r, none)
      else (record r { head = next k r.head }, get_elem? r.slots r.head)

  -- The difference wraps in `std::size_t` before it is masked.
  unfoldable pub size : Ring A → ℕ
  size r = bit_and (u64 (2 ^ 64 + r.tail - r.head)) (k_mask k)

  unfoldable pub empty : Ring A → Bool
  empty r = r.head == r.tail

abbrev pub capacity : ℕ → ℕ
capacity k = 2 ^ k - 1
