-- ===== src/Prelude/Words.antt =====
-- The fixed-width counters of the code: a store wraps around.
use Prim.Native.Nat.{ℕ, ◌%◌, ◌^◌}

-- std::uint32_t
abbrev pub u32 : ℕ → ℕ
u32 n = n % 2 ^ 32

-- std::uint64_t, and std::size_t on the 64-bit targets of the build
abbrev pub u64 : ℕ → ℕ
u64 n = n % 2 ^ 64
