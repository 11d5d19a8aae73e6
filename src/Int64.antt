-- ===== src/Int64.antt =====
-- The values of type `i64`, by their bit patterns: a number below 2^64 that stands for itself below
-- 2^63, and for itself less 2^64 from there. Sums wrap around.
use timely_mirror.Prelude.{
  ℕ, ◌+◌, ◌-◌, ◌%◌, ◌^◌, ◌<◌, ◌≤◌, ◌≡◌, ◌≢◌, true, Bool, leb, ltb, ◌&&◌, arith,
}

abbrev pub modulus : ℕ
modulus = 2 ^ 64

-- The first bit pattern with the sign bit.
abbrev pub sign_bit : ℕ
sign_bit = 2 ^ 63

unfoldable pub wrapping_add : ℕ → ℕ → ℕ
wrapping_add a b = (a + b) % modulus

abbrev pub minus_one : ℕ
minus_one = modulus - 1

-- `v > 0` and `v < 0`.
unfoldable pub is_positive : ℕ → Bool
is_positive v = ltb 0 v && ltb v sign_bit

unfoldable pub is_negative : ℕ → Bool
is_negative v = leb sign_bit v

pub wrapping_add-lt : (a b : ℕ) → wrapping_add a b < modulus
unfolding wrapping_add
wrapping_add-lt a b = omega arith

pub wrapping_add_assoc :
    (a b c : ℕ) → wrapping_add (wrapping_add a b) c ≡ wrapping_add a (wrapping_add b c)
unfolding wrapping_add
wrapping_add_assoc a b c = omega arith

pub wrapping_add_comm : (a b : ℕ) → wrapping_add a b ≡ wrapping_add b a
unfolding wrapping_add
wrapping_add_comm a b = omega arith

pub wrapping_add_left_comm :
    (a b c : ℕ) → wrapping_add a (wrapping_add b c) ≡ wrapping_add b (wrapping_add a c)
unfolding wrapping_add
wrapping_add_left_comm a b c = omega arith

pub zero-wrapping_add : (a : ℕ) → a < modulus → wrapping_add 0 a ≡ a
unfolding wrapping_add
zero-wrapping_add a h = omega arith

pub wrapping_add-minus_one : wrapping_add minus_one 1 ≡ 0
unfolding wrapping_add
wrapping_add-minus_one = omega arith

pub wrapping_add_cancel :
    (a b c : ℕ) → b < modulus → c < modulus → wrapping_add a b ≡ wrapping_add a c → b ≡ c
unfolding wrapping_add
wrapping_add_cancel a b c hb hc h = omega arith

pub eq_zero_of_wrapping_add : (v c : ℕ) → v < modulus → c ≡ 0 → wrapping_add v c ≡ 0 → v ≡ 0
unfolding wrapping_add
eq_zero_of_wrapping_add v c h z s = omega arith

pub ne_zero_of_is_positive : (v : ℕ) → is_positive v ≡ true → v ≢ 0
unfolding is_positive
ne_zero_of_is_positive v h z = ground arith

-- The sum of the two values is an `i64`: signed addition does not overflow.
abbrev pub NoOverflow : ℕ → ℕ → Type 0
NoOverflow a b =
    (a < sign_bit → b < sign_bit → a + b < sign_bit)
    × (sign_bit ≤ a → sign_bit ≤ b → modulus + sign_bit ≤ a + b)

-- Lowering a value that is not positive leaves one that is not positive.
pub not_positive_of_lowered :
    (a b : ℕ)
    → a < modulus
    → b < modulus
    → NoOverflow a b
    → is_negative b ≡ true
    → is_positive (wrapping_add a b) ≡ true
    → is_positive a ≡ true
unfolding wrapping_add is_positive is_negative
not_positive_of_lowered a b ha hb n low pos = ground arith
