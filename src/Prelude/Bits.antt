-- ===== src/Prelude/Bits.antt =====
-- Masks as arithmetic: tables over one byte, and the mask that drops the low bits of a word.
use Prim.Native.Nat.{
  ℕ, zero, suc, ◌+◌, ◌-◌, ◌*◌, ◌/◌, ◌%◌, ◌^◌, ◌≤◌, ◌<◌, min, bit_and, bit_or, digits,
  bit_and-bitwise,
}
use mathlib.Core.Path.{◌≡◌, refl}
use mathlib.Core.Bool.{Bool, true, false}
use native.Mathlib.Omega.{arith}
use native.Mathlib.Nat.{le_refl}
use ledger_app_eos.Prelude.Tests.{◌==◌, if◌then◌else◌}

module _ (f g : ℕ → ℕ) where
  agree : ℕ → Bool
  agree zero = true
  agree (suc n) = let rest = agree n in if f n == g n then rest else false

  agree_sound : (n i : ℕ) → agree n ≡ true → i < n → f i ≡ g i
  unfolding agree
  agree_sound zero i e h = absurd (omega arith)
  agree_sound (suc n) i e h = ground (arith, agree_sound n i)

pub byte_low_bits : (b : ℕ) → b < 256 → bit_and b 0x7f ≡ b % 128
unfolding agree
byte_low_bits b = agree_sound (λ x. bit_and x 0x7f) (λ x. x % 128) 256 b refl

pub byte_top_bit : (b : ℕ) → b < 256 → bit_and b 0x80 ≡ b / 128 * 128
unfolding agree
byte_top_bit b = agree_sound (λ x. bit_and x 0x80) (λ x. x / 128 * 128) 256 b refl

pub byte_set_top_bit : (b : ℕ) → b < 256 → bit_or b 0x80 ≡ b % 128 + 128
unfolding agree
byte_set_top_bit b = agree_sound (λ x. bit_or x 0x80) (λ x. x % 128 + 128) 256 b refl

-- The native operation by its lowest binary digit, whatever fuel its definition is read with.
and_digits : ℕ → ℕ → ℕ → ℕ
and_digits fuel a b = digits (λ _. 0) min fuel a b

and_digits_settled : (k l a b : ℕ) → a ≤ k → a ≤ l → and_digits k a b ≡ and_digits l a b
unfolding and_digits
and_digits_settled zero zero a b hk hl = refl
and_digits_settled zero (suc l) zero b hk hl = refl
and_digits_settled zero (suc l) (suc a) b hk hl = absurd (omega arith)
and_digits_settled (suc k) zero zero b hk hl = refl
and_digits_settled (suc k) zero (suc a) b hk hl = absurd (omega arith)
and_digits_settled (suc k) (suc l) zero b hk hl = refl
and_digits_settled (suc k) (suc l) (suc a) b hk hl =
    rw (and_digits_settled k l (suc a / 2) (b / 2) (omega arith) (omega arith))

bit_and-halves : (a b : ℕ) → bit_and a b ≡ bit_and (a / 2) (b / 2) * 2 + min (a % 2) (b % 2)
unfolding and_digits
bit_and-halves zero b = omega (arith, bit_and-bitwise 0 b, bit_and-bitwise 0 (b / 2))
bit_and-halves (suc a) b = omega (
  arith,
  bit_and-bitwise (suc a) b,
  bit_and-bitwise (suc a / 2) (b / 2),
  and_digits_settled a (suc a / 2) (suc a / 2) (b / 2) (omega arith) (omega arith),
)

-- The number with `k` binary ones.
abbrev ones : ℕ → ℕ
ones zero = 0
ones (suc k) = 2 * ones k + 1

bit_and-ones : (k a : ℕ) → a ≤ ones k → bit_and a (ones k) ≡ a
bit_and-ones zero a h = let e : a ≡ 0 = omega arith in rw e
bit_and-ones (suc k) a h =
    let half : (2 * ones k + 1) / 2 ≡ ones k = omega arith in
    let odd : (2 * ones k + 1) % 2 ≡ 1 = omega arith in
    rw (bit_and-halves a (2 * ones k + 1), half, odd, bit_and-ones k (a / 2) (omega arith))
      (omega arith)

-- `n & ~0x7F` over 64 bits, the mask of a signed char, clears the low group of seven bits.
pub word_high_bits : (n : ℕ) → n < 2 ^ 64 → bit_and n (2 ^ 64 - 128) ≡ n / 128 * 128
word_high_bits n h = omega (
  arith,
  bit_and-halves n (2 ^ 64 - 128),
  bit_and-halves (n / 2) (2 ^ 63 - 64),
  bit_and-halves (n / 2 / 2) (2 ^ 62 - 32),
  bit_and-halves (n / 2 / 2 / 2) (2 ^ 61 - 16),
  bit_and-halves (n / 2 / 2 / 2 / 2) (2 ^ 60 - 8),
  bit_and-halves (n / 2 / 2 / 2 / 2 / 2) (2 ^ 59 - 4),
  bit_and-halves (n / 2 / 2 / 2 / 2 / 2 / 2) (2 ^ 58 - 2),
  bit_and-ones 57 (n / 2 / 2 / 2 / 2 / 2 / 2 / 2) (omega arith),
)

no_bits : (bound a : ℕ) → a ≤ bound → bit_and a 0 ≡ 0
no_bits bound zero h = refl
no_bits zero (suc a) h = absurd (omega arith)
no_bits (suc bound) (suc a) h =
    omega (arith, bit_and-halves (suc a) 0, no_bits bound (suc a / 2) (omega arith))

bit_and-even : (a b : ℕ) → bit_and a (2 * b) ≡ bit_and (a / 2) b * 2
bit_and-even a b =
    let half : 2 * b / 2 ≡ b = omega arith in
    let even : 2 * b % 2 ≡ 0 = omega arith in
    rw (bit_and-halves a (2 * b), half, even) (omega arith)

bit_and-one : (a : ℕ) → bit_and a 1 ≡ a % 2
bit_and-one a = omega (arith, bit_and-halves a 1, no_bits _ (a / 2) (le_refl _))

-- `n & 0x80` at every width.
pub word_bit_seven : (n : ℕ) → bit_and n 128 ≡ n / 128 % 2 * 128
word_bit_seven n = omega (
  arith,
  bit_and-even n 64,
  bit_and-even (n / 2) 32,
  bit_and-even (n / 2 / 2) 16,
  bit_and-even (n / 2 / 2 / 2) 8,
  bit_and-even (n / 2 / 2 / 2 / 2) 4,
  bit_and-even (n / 2 / 2 / 2 / 2 / 2) 2,
  bit_and-even (n / 2 / 2 / 2 / 2 / 2 / 2) 1,
  bit_and-one (n / 2 / 2 / 2 / 2 / 2 / 2 / 2),
)

-- `n & 0x1f` at every width.
pub word_low_five : (n : ℕ) → bit_and n 31 ≡ n % 32
word_low_five n = omega (
  arith,
  bit_and-halves n 31,
  bit_and-halves (n / 2) 15,
  bit_and-halves (n / 2 / 2) 7,
  bit_and-halves (n / 2 / 2 / 2) 3,
  bit_and-one (n / 2 / 2 / 2 / 2),
)

-- `n & 0xFF` at every width.
pub word_low_eight : (n : ℕ) → bit_and n 255 ≡ n % 256
word_low_eight n = omega (
  arith,
  bit_and-halves n 255,
  bit_and-halves (n / 2) 127,
  bit_and-halves (n / 2 / 2) 63,
  bit_and-halves (n / 2 / 2 / 2) 31,
  word_low_five (n / 2 / 2 / 2),
)

zero_bits : (bound b : ℕ) → b ≤ bound → bit_and 0 b ≡ 0
zero_bits bound zero h = refl
zero_bits zero (suc b) h = absurd (omega arith)
zero_bits (suc bound) (suc b) h =
    omega (arith, bit_and-halves 0 (suc b), zero_bits bound (suc b / 2) (omega arith))

-- A mask of five bits, from the left.
pub five_bits : (n : ℕ) → bit_and 31 n < 32
five_bits n = omega (
  arith,
  bit_and-halves 31 n,
  bit_and-halves 15 (n / 2),
  bit_and-halves 7 (n / 2 / 2),
  bit_and-halves 3 (n / 2 / 2 / 2),
  bit_and-halves 1 (n / 2 / 2 / 2 / 2),
  zero_bits _ (n / 2 / 2 / 2 / 2 / 2) (le_refl _),
)

-- `0x1f & n` at every width.
pub low_five_left : (n : ℕ) → bit_and 31 n ≡ n % 32
low_five_left n = omega (
  arith,
  bit_and-halves 31 n,
  bit_and-halves 15 (n / 2),
  bit_and-halves 7 (n / 2 / 2),
  bit_and-halves 3 (n / 2 / 2 / 2),
  bit_and-halves 1 (n / 2 / 2 / 2 / 2),
  zero_bits _ (n / 2 / 2 / 2 / 2 / 2) (le_refl _),
)
