-- ===== src/Ring/Arith.antt =====
-- Arithmetic of the ring's counters, which wrap modulo 2 ^ 32, and of its indices, which wrap
-- modulo a power of two.
use Prim.Native.Nat.{◌∣◌}
use native.Mathlib.Nat.{
  add-zero, add-suc, pow-suc, dvd_refl, dvd-mul_right_of_dvd, mod-mod_of_dvd, pow-le-pow_right,
  one-le-pow, mod-lt, mod-eq_of_lt, mod-add-mod, mod-eq-sub-mod,
}
use kuberne_tsn.Common.{
  ℕ, zero, suc, ◌+◌, ◌-◌, ◌%◌, ◌^◌, ◌≤◌, ◌<◌, ◌≡◌, ◌≢◌, sym, ap, ◌∙◌, arith, dec_lt,
}

pub pow2-pos : (k : ℕ) → 0 < 2 ^ k
pow2-pos k = one-le-pow k 2 (omega arith)

pub pow2-le : (k : ℕ) → k ≤ 31 → 2 ^ k ≤ 2 ^ 31
pow2-le k h = pow-le-pow_right (omega arith) h

pow2-dvd : (k d : ℕ) → (2 ^ k) ∣ (2 ^ (k + d))
pow2-dvd k zero = rw add-zero (dvd_refl (2 ^ k))
pow2-dvd k (suc d) = rw (add-suc, pow-suc) (dvd-mul_right_of_dvd (2 ^ k) (pow2-dvd k d) 2)

-- A counter that wraps modulo 2 ^ 32 leads to the same index.
pub wrap-index : (k a : ℕ) → k ≤ 31 → a % 2 ^ 32 % 2 ^ k ≡ a % 2 ^ k
wrap-index k a h = mod-mod_of_dvd (2 ^ k) a whole
  where
    total : k + (32 - k) ≡ 32
    total = omega arith

    whole : (2 ^ k) ∣ (2 ^ 32)
    whole = rw total at (pow2-dvd k (32 - k))

pub wrap-index_add : (k a t : ℕ) → k ≤ 31 → (a % 2 ^ 32 + t) % 2 ^ k ≡ (a + t) % 2 ^ k
wrap-index_add k a t h =
    sym (mod-add-mod (a % 2 ^ 32) (2 ^ k) t)
    ∙ ap (λ r. (r + t) % 2 ^ k) (wrap-index k a h)
    ∙ mod-add-mod a (2 ^ k) t

-- Fewer than `m` steps round a ring of `m` cells do not come back to the start.
pub add-mod-ne : (m a d : ℕ) → 0 < d → d < m → (a + d) % m ≢ a % m
add-mod-ne m a d pos small = elim (dec_lt (a % m + d) m) [
  | yes p ↦ omega (arith, mod-add-mod a m d, mod-eq_of_lt p)
  | no p ↦ omega (
    arith,
    mod-add-mod a m d,
    mod-lt a {m = m} (omega arith),
    mod-eq-sub-mod {n = a % m + d} {m = m} (omega arith),
    mod-eq_of_lt {n = a % m + d - m} {m = m} (omega (arith, mod-lt a {m = m} (omega arith))),
  )
]

pub add-mod_straight : (m a d : ℕ) → a % m + d < m → (a + d) % m ≡ a % m + d
add-mod_straight m a d h = sym (mod-add-mod a m d) ∙ mod-eq_of_lt h
