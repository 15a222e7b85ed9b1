-- ===== src/Prelude/Digits.antt =====
-- A byte put behind the bits of a word (no file of the app).
use Prim.Native.Nat.{
  ℕ, zero, suc, ◌+◌, ◌*◌, ◌/◌, ◌%◌, ◌≤◌, ◌<◌, max, bit_or, digits, bit_or-bitwise,
}
use mathlib.Core.Path.{◌≡◌, refl, ◌∙◌, ap}
use native.Mathlib.Omega.{arith}

-- The native operation by its lowest binary digit, whatever fuel its definition is read with.
or_digits : ℕ → ℕ → ℕ → ℕ
or_digits fuel a b = digits (λ b. b) max fuel a b

or_digits_settled : (k l a b : ℕ) → a ≤ k → a ≤ l → or_digits k a b ≡ or_digits l a b
unfolding or_digits
or_digits_settled zero zero a b hk hl = refl
or_digits_settled zero (suc l) zero b hk hl = refl
or_digits_settled zero (suc l) (suc a) b hk hl = absurd (omega arith)
or_digits_settled (suc k) zero zero b hk hl = refl
or_digits_settled (suc k) zero (suc a) b hk hl = absurd (omega arith)
or_digits_settled (suc k) (suc l) zero b hk hl = refl
or_digits_settled (suc k) (suc l) (suc a) b hk hl =
    rw (or_digits_settled k l (suc a / 2) (b / 2) (omega arith) (omega arith))

bit_or-halves : (a b : ℕ) → bit_or a b ≡ bit_or (a / 2) (b / 2) * 2 + max (a % 2) (b % 2)
unfolding or_digits
bit_or-halves zero b = omega (arith, bit_or-bitwise 0 b, bit_or-bitwise 0 (b / 2))
bit_or-halves (suc a) b = omega (
  arith,
  bit_or-bitwise (suc a) b,
  bit_or-bitwise (suc a / 2) (b / 2),
  or_digits_settled a (suc a / 2) (suc a / 2) (b / 2) (omega arith) (omega arith),
)

bit_or_zero : (k a : ℕ) → a ≤ k → bit_or a 0 ≡ a
bit_or_zero k zero h = refl
bit_or_zero zero (suc a) h = absurd (omega arith)
bit_or_zero (suc k) (suc a) h =
    omega (arith, bit_or-halves (suc a) 0, bit_or_zero k (suc a / 2) (omega arith))

-- One step: a number with its lowest bit free takes a bit.
bit_or-double : (a b c : ℕ) → bit_or a (b / 2) ≡ c → bit_or (a * 2) b ≡ c * 2 + b % 2
bit_or-double a b c e =
    let half : a * 2 / 2 ≡ a = omega arith in
    let even : a * 2 % 2 ≡ 0 = omega arith in
    bit_or-halves (a * 2) b ∙ rw (half, even, e) (omega arith)

pub bit_or_byte : (a b : ℕ) → b < 256 → bit_or (a * 256) b ≡ a * 256 + b
bit_or_byte a b h =
    let z : b / 2 / 2 / 2 / 2 / 2 / 2 / 2 / 2 ≡ 0 = omega arith in
    let e₀ : bit_or a (b / 2 / 2 / 2 / 2 / 2 / 2 / 2 / 2) ≡ a =
      ap (bit_or a) z ∙ bit_or_zero a a (omega arith) in
    let e₁ = bit_or-double a (b / 2 / 2 / 2 / 2 / 2 / 2 / 2) a e₀ in
    let e₂ = bit_or-double (a * 2) (b / 2 / 2 / 2 / 2 / 2 / 2) _ e₁ in
    let e₃ = bit_or-double (a * 2 * 2) (b / 2 / 2 / 2 / 2 / 2) _ e₂ in
    let e₄ = bit_or-double (a * 2 * 2 * 2) (b / 2 / 2 / 2 / 2) _ e₃ in
    let e₅ = bit_or-double (a * 2 * 2 * 2 * 2) (b / 2 / 2 / 2) _ e₄ in
    let e₆ = bit_or-double (a * 2 * 2 * 2 * 2 * 2) (b / 2 / 2) _ e₅ in
    let e₇ = bit_or-double (a * 2 * 2 * 2 * 2 * 2 * 2) (b / 2) _ e₆ in
    let e₈ = bit_or-double (a * 2 * 2 * 2 * 2 * 2 * 2 * 2) b _ e₇ in
    let same : a * 256 ≡ a * 2 * 2 * 2 * 2 * 2 * 2 * 2 * 2 = omega arith in
    rw same (e₈ ∙ omega arith)
