-- ===== src/Prelude/Bits.antt =====
-- A mask of k ones is the remainder by 2 ^ k.
use Prim.Native.Nat.{
  ℕ, zero, suc, ◌+◌, ◌-◌, ◌*◌, ◌/◌, ◌%◌, ◌^◌, ◌<◌, ◌≤◌, min, bit_and, digits, bit_and-bitwise,
}
use mathlib.Core.Path.{◌≡◌, sym, ◌∙◌, ap}
use native.Mathlib.Nat.{pow-suc, mod-lt, div-add-mod, mul-add-mod_self_left, mod-eq_of_lt}
use native.Mathlib.Omega.{arith}

pub pow-pos : (k : ℕ) → 0 < 2 ^ k
pow-pos zero = omega arith
pow-pos (suc k) = omega (arith, pow-pos k, pow-suc 2 k)

-- The lowest digit of a remainder, and the rest.
mod_double : (a m : ℕ) → 0 < m → a / 2 % m * 2 + a % 2 ≡ a % (2 * m)
mod_double a m h = sym rest
  where
    q : ℕ
    q = a / 2

    split : a ≡ 2 * m * (q / m) + (q % m * 2 + a % 2)
    split = omega (arith, ap (λ (t : ℕ). 2 * t) (div-add-mod q m))

    rest : a % (2 * m) ≡ q % m * 2 + a % 2
    rest =
        ap (λ (t : ℕ). t % (2 * m)) split
        ∙ mul-add-mod_self_left (2 * m) (q / m) (q % m * 2 + a % 2)
        ∙ mod-eq_of_lt (omega (arith, mod-lt q h))

mask_digits : (n k a : ℕ) → a ≤ n → digits (λ b. zero) min n a (2 ^ k - 1) ≡ a % 2 ^ k
mask_digits zero k zero h = omega (arith, pow-pos k)
mask_digits zero k (suc a) h = absurd (omega arith)
mask_digits (suc n) k zero h = omega (arith, pow-pos k)
mask_digits (suc n) zero (suc a) h = omega (arith, mask_digits n zero (suc a / 2) (omega arith))
mask_digits (suc n) (suc k) (suc a) h =
    let e : (2 ^ suc k - 1) / 2 ≡ 2 ^ k - 1 = omega (arith, pow-pos k, pow-suc 2 k) in
    let o : (2 ^ suc k - 1) % 2 ≡ 1 = omega (arith, pow-pos k, pow-suc 2 k) in
    let ih = mask_digits n k (suc a / 2) (omega arith) in
    let high = ap (λ (t : ℕ). digits (λ b. zero) min n (suc a / 2) t) e ∙ ih in
    let twice : 2 ^ suc k ≡ 2 * 2 ^ k = omega (arith, pow-suc 2 k) in
    let whole = mod_double (suc a) (2 ^ k) (pow-pos k) ∙ ap (λ (t : ℕ). suc a % t) (sym twice) in
    omega (arith, high, o, whole)

pub bit_and_mask : (k a : ℕ) → bit_and a (2 ^ k - 1) ≡ a % 2 ^ k
bit_and_mask k a = omega (arith, bit_and-bitwise a (2 ^ k - 1), mask_digits a k a (omega arith))
