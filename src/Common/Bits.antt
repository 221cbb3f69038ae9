-- ===== src/Common/Bits.antt =====
-- `&` with a mask of low ones is a remainder. The libraries have only the digit recursion that the
-- native operation stands for.
use Prim.Native.Nat.{
  ℕ, zero, suc, ◌+◌, ◌-◌, ◌*◌, ◌/◌, ◌%◌, ◌^◌, ◌≤◌, ◌<◌, min, bit_and, digits, bit_and-bitwise,
}
use mathlib.Core.Path.{◌≡◌, sym, ap, ◌∙◌}
use native.Mathlib.Omega.{arith}
use native.Mathlib.Nat.{
  pow-suc, one-le-pow, mod-lt, mod-eq_of_lt, mul-add-mod_self_left, div-add-mod,
}

-- A doubled modulus keeps the lowest digit.
mod-double : (a m : ℕ) → 0 < m → a / 2 % m * 2 + a % 2 ≡ a % (m * 2)
mod-double a m h =
    sym (ap (λ x. x % (m * 2)) split ∙ mul-add-mod_self_left (m * 2) q c ∙ mod-eq_of_lt small)
  where
    q : ℕ
    q = a / 2 / m

    c : ℕ
    c = a / 2 % m * 2 + a % 2

    half : a / 2 ≡ m * (a / 2 / m) + a / 2 % m
    half = sym (div-add-mod (a / 2) m)

    split : a ≡ m * 2 * q + c
    split = omega (arith, half)

    small : c < m * 2
    small = omega (arith, mod-lt (a / 2) h)

-- The mask of `k + 1` ones, one digit at a time.
mask-suc :
    (k : ℕ)
    → (2 ^ suc k ≡ 2 ^ k * 2)
      × (0 < 2 ^ k)
      × ((2 ^ suc k - 1) / 2 ≡ 2 ^ k - 1)
      × ((2 ^ suc k - 1) % 2 ≡ 1)
mask-suc k =
    let twice = pow-suc 2 k in
    let some_ones : 0 < 2 ^ k = one-le-pow k 2 (omega arith) in
    (twice, some_ones, omega arith, omega arith)

-- The digits that the native operation stands for, under a mask: any fuel from the number on does.
low_digits : (k fuel a : ℕ) → a ≤ fuel → digits (λ b. zero) min fuel a (2 ^ k - 1) ≡ a % 2 ^ k
low_digits k zero zero le = omega (arith, one-le-pow k 2)
low_digits k zero (suc a) le = absurd (omega arith)
low_digits k (suc fuel) zero le = omega (arith, one-le-pow k 2)
low_digits zero (suc fuel) (suc a) le = omega (arith, low_digits zero fuel (suc a / 2))
low_digits (suc k) (suc fuel) (suc a) le =
    let (twice, some_ones, upper, lowest) = mask-suc k in
    let rest = low_digits k fuel (suc a / 2) (omega arith) in
    rw (upper, lowest, rest, twice) (omega (arith, mod-double (suc a) (2 ^ k) some_ones))

-- `&` with the mask of the `k` low ones is the remainder modulo `2 ^ k`.
pub bit_and_mask : (k a : ℕ) → bit_and a (2 ^ k - 1) ≡ a % 2 ^ k
bit_and_mask k a = bit_and-bitwise a (2 ^ k - 1) ∙ low_digits k a a (omega arith)
