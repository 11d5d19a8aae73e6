-- ===== src/Prelude/Bits.antt =====
-- A mask of ones takes a remainder: the law for `&` with one less than a power of two.
use Prim.Native.Nat.{
  ℕ, zero, suc, ◌+◌, ◌-◌, ◌*◌, ◌/◌, ◌%◌, ◌≤◌, min, bit_and, digits, bit_and-bitwise,
}
use mathlib.Core.Path.{◌≡◌, refl, sym, ap, ◌∙◌}
use mathlib.Core.Logic.{inl, inr}
use timely_mirror.Prelude.Tests.{Bool-cases, ◌==◌}
use native.Mathlib.Omega.{arith}

no_digits : (n b : ℕ) → digits (λ y. zero) min n zero b ≡ zero
no_digits zero b = refl
no_digits (suc n) b = refl

-- With at least as many steps as the number needs, the digits come out the same.
steps_enough :
    (n k a b : ℕ) → a ≤ n → a ≤ k → digits (λ y. zero) min n a b ≡ digits (λ y. zero) min k a b
steps_enough n k zero b h l = no_digits n b ∙ sym (no_digits k b)
steps_enough zero k (suc a) b h l = absurd (omega arith)
steps_enough (suc n) zero (suc a) b h l = absurd (omega arith)
steps_enough (suc n) (suc k) (suc a) b h l =
    omega (arith, steps_enough n k (suc a / 2) (b / 2) (omega arith) (omega arith))

bit_and-halves : (a b : ℕ) → bit_and a b ≡ 2 * bit_and (a / 2) (b / 2) + min (a % 2) (b % 2)
bit_and-halves zero b = omega (arith, bit_and-bitwise 0 b, bit_and-bitwise 0 (b / 2))
bit_and-halves (suc a) b = omega (
  arith,
  bit_and-bitwise (suc a) b,
  bit_and-bitwise (suc a / 2) (b / 2),
  steps_enough a (suc a / 2) (suc a / 2) (b / 2) (omega arith) (omega arith),
)

bit_and_self : (n a : ℕ) → a ≤ n → bit_and a a ≡ a
bit_and_self n zero h = bit_and-bitwise 0 0
bit_and_self zero (suc a) h = absurd (omega arith)
bit_and_self (suc n) (suc a) h =
    omega (arith, bit_and-halves (suc a) (suc a), bit_and_self n (suc a / 2) (omega arith))

bit_and_zero : (n a : ℕ) → a ≤ n → bit_and a 0 ≡ 0
bit_and_zero n zero h = bit_and-bitwise 0 0
bit_and_zero zero (suc a) h = absurd (omega arith)
bit_and_zero (suc n) (suc a) h =
    omega (arith, bit_and-halves (suc a) 0, bit_and_zero n (suc a / 2) (omega arith))

remainder_double : (h m : ℕ) → 1 ≤ m → h % (2 * m) ≡ 2 * ((h / 2) % m) + h % 2
remainder_double h m p = grind arith

-- Where `n & (n - 1)` is zero, `n` is a power of two, and `& (n - 1)` is the remainder by `n`.
bit_and_mask : (fuel n h : ℕ) → n ≤ fuel → 1 ≤ n → bit_and n (n - 1) ≡ 0 → bit_and h (n - 1) ≡ h % n
bit_and_mask zero n h fits some_left power = absurd (omega arith)
bit_and_mask (suc fuel) zero h fits some_left power = absurd (omega arith)
bit_and_mask (suc fuel) (suc zero) h fits some_left power =
    omega (arith, bit_and_zero h h (omega arith))
bit_and_mask (suc fuel) (suc (suc k)) h fits some_left power =
    let n = suc (suc k) in
    let m = n / 2 in
    elim (Bool-cases (n % 2 == 0)) [
      | inl even ↦
          let twice : n ≡ 2 * m = ground (arith, even) in
          let less : (n - 1) / 2 ≡ m - 1 = omega (arith, twice) in
          let odd : (n - 1) % 2 ≡ 1 = omega (arith, twice) in
          let halved : bit_and m (m - 1) ≡ 0 =
            omega (arith, power, bit_and-halves n (n - 1), ap (bit_and m) less, odd) in
          let inner = bit_and_mask fuel m (h / 2) (omega (arith, fits)) (omega arith) halved in
          bit_and-halves h (n - 1)
          ∙ (let sides : 2 * bit_and (h / 2) ((n - 1) / 2) + min (h % 2) ((n - 1) % 2)
                  ≡ 2 * ((h / 2) % m) + h % 2 =
                omega (arith, ap (bit_and (h / 2)) less, inner, odd) in
              sides)
          ∙ sym (remainder_double h m (omega arith))
          ∙ ap (λ d. h % d) (sym twice)
      | inr odd ↦
          let half : (n - 1) / 2 ≡ m = ground (arith, odd) in
          absurd (
            omega (
              arith,
              power,
              bit_and-halves n (n - 1),
              ap (bit_and m) half,
              bit_and_self m m (omega arith),
            ))
    ]

pub bit_and-mask : (n h : ℕ) → 1 ≤ n → bit_and n (n - 1) ≡ 0 → bit_and h (n - 1) ≡ h % n
bit_and-mask n h = bit_and_mask n n h (omega arith)
