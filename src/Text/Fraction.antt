-- ===== src/Text/Fraction.antt =====
-- The numbers that print_int writes, with a fixed count of digits where a fraction needs it.
use ledger_app_eos.Prelude.{
  ℕ, zero, suc, ◌+◌, ◌-◌, ◌*◌, ◌/◌, ◌%◌, ◌^◌, ◌≤◌, ◌<◌, ◌≡◌, refl, ap, ◌∙◌, Option, some, Bool,
  true, false, List, [], ◌∷◌, ◌++◌, length, take, All, length-append, arith, ltb, ◌==◌,
  if◌then◌else◌,
}
use mathlib.Core.List.{reverse, reverse-cons, reverse-append}
use native.Mathlib.Nat.{pow-suc}
use ledger_app_eos.Memory.{◌>>=◌}
use ledger_app_eos.Text.{digits_loop, print_int}
use ledger_app_eos.Text.Buffer.{codes, write}
use ledger_app_eos.Text.Digits.{
  IsDigit, decimal, decimal-append, decimal-reverse, All-reverse, take-all, digits_loop_lem,
  length-reverse,
}

second_branch :
    {A : Type 0} (b c : Bool) (x y z : A)
    → b ≡ false
    → c ≡ true
    → (if b then x else if c then y else z) ≡ y
second_branch b c x y z e e' = rw (e, e') refl

-- print_int of a positive number whose digits the loop finds.
pub print_int-digits :
    (l : ℕ) (out ds : List ℕ)
    → 0 < l
    → l < 2 ^ 63
    → digits_loop 21 l ≡ some ds
    → length ds ≤ 20
    → print_int l out ≡ write out 0 (reverse ds ++ (0 ∷ []))
unfolding print_int
print_int-digits l out ds pos small e len =
    let some_digit : (l == 0) ≡ false = ground (arith, pos) in
    let below : ltb l (2 ^ 63) ≡ true = ground (arith, small) in
    let whole : take 20 (reverse ds) ≡ reverse ds =
      take-all 20 (reverse ds) (omega (arith, length-reverse ds, len)) in
    second_branch (l == 0) (ltb l (2 ^ 63)) _
      (digits_loop 21 l >>= λ buffer. write out 0 (take 20 (reverse buffer) ++ (0 ∷ []))) _
      some_digit below
    ∙ ap
        (λ (buffer : Option (List ℕ)).
          buffer >>= λ buffer. write out 0 (take 20 (reverse buffer) ++ (0 ∷ [])))
        e
    ∙ ap (λ (text : List ℕ). write out 0 (text ++ (0 ∷ []))) whole

-- What print_int writes for a number of at most `k` digits.
pub print_int-decimal :
    (k l : ℕ) (out : List ℕ)
    → 0 < k
    → k ≤ 20
    → l < 10 ^ k
    → l < 2 ^ 63
    → (ds : List ℕ) × (print_int l out ≡ write out 0 (ds ++ (0 ∷ [])))
      × All IsDigit ds
      × (decimal 0 ds ≡ l)
      × (length ds ≤ k)
unfolding print_int decimal
print_int-decimal k zero out pos room fits small =
    (codes "0", refl, ((omega arith, omega arith), tt), refl, (omega (arith, pos)))
print_int-decimal k (suc l) out pos room fits small =
    let (ds, e, digits, value, len) = digits_loop_lem 21 k (suc l) (omega (arith, room)) fits in
    (
      reverse ds,
      print_int-digits (suc l) out ds (omega arith) small e (omega (arith, len, room)),
      All-reverse IsDigit ds digits,
      (decimal-reverse ds ∙ value),
      (omega (arith, length-reverse ds, len)),
    )

-- The last `p` digits of a number, the lowest first.
low_digits : ℕ → ℕ → List ℕ
low_digits zero f = []
low_digits (suc p) f = (f % 10 + 48) ∷ low_digits p (f / 10)

length-low_digits : (p f : ℕ) → length (low_digits p f) ≡ p
unfolding low_digits
length-low_digits zero f = refl
length-low_digits (suc p) f = ap suc (length-low_digits p (f / 10))

low_digits-IsDigit : (p f : ℕ) → All IsDigit (low_digits p f)
unfolding low_digits
low_digits-IsDigit zero f = tt
low_digits-IsDigit (suc p) f = ((omega arith, omega arith), low_digits-IsDigit p (f / 10))

power_positive : (p : ℕ) → 0 < 10 ^ p
power_positive zero = omega arith
power_positive (suc p) = omega (arith, pow-suc 10 p, power_positive p)

positive_sum : (n f : ℕ) → 0 < n → (n + f == 0) ≡ false
positive_sum n f h = ground (arith, h)

-- The digits of a number above a power of ten.
digits_loop-low_digits :
    (p f room : ℕ)
    → f < 10 ^ p
    → p + 1 < room
    → digits_loop room (10 ^ p + f) ≡ some (low_digits p f ++ (b'1' ∷ []))
unfolding digits_loop low_digits
digits_loop-low_digits p f zero h enough = absurd (omega (arith, enough))
digits_loop-low_digits zero f (suc zero) h enough = absurd (omega (arith, enough))
digits_loop-low_digits zero f (suc (suc room)) h enough =
    let one : 10 ^ 0 + f ≡ 1 = omega (arith, h) in
    ap (λ (n : ℕ). digits_loop (suc (suc room)) n) one
digits_loop-low_digits (suc p) f (suc room) h enough =
    let power : 10 ^ suc p ≡ 10 * 10 ^ p = omega (arith, pow-suc 10 p) in
    let some_digit : (10 ^ suc p + f == 0) ≡ false =
      positive_sum (10 ^ suc p) f (power_positive (suc p)) in
    let low : (10 ^ suc p + f) % 10 ≡ f % 10 = omega (arith, power) in
    let high : (10 ^ suc p + f) / 10 ≡ 10 ^ p + f / 10 = omega (arith, power) in
    rw
      (
        some_digit,
        low,
        high,
        digits_loop-low_digits p (f / 10) room (omega (arith, power, h)) (omega (arith, enough)),
      )
      refl

-- A number before a fraction, read as one.
decimal-low_digits :
    (acc p f : ℕ) → f < 10 ^ p → decimal acc (reverse (low_digits p f)) ≡ acc * 10 ^ p + f
unfolding decimal low_digits
decimal-low_digits acc zero f h = omega (arith, h)
decimal-low_digits acc (suc p) f h =
    let power : 10 ^ suc p ≡ 10 * 10 ^ p = omega (arith, pow-suc 10 p) in
    let rest = decimal-low_digits acc p (f / 10) (omega (arith, power, h)) in
    rw
      (
        reverse-cons (f % 10 + 48) (low_digits p (f / 10)),
        decimal-append acc (reverse (low_digits p (f / 10))) (f % 10 + 48),
        rest,
      )
      (omega (arith, power, ap (λ (n : ℕ). acc * n) power))

-- The last `p` digits of a number, as they are written.
unfoldable pub fraction : ℕ → ℕ → List ℕ
unfolding low_digits
fraction p f = reverse (low_digits p f)

pub length-fraction : (p f : ℕ) → length (fraction p f) ≡ p
unfolding fraction
length-fraction p f = length-reverse (low_digits p f) ∙ length-low_digits p f

pub fraction-IsDigit : (p f : ℕ) → All IsDigit (fraction p f)
unfolding fraction
fraction-IsDigit p f = All-reverse IsDigit (low_digits p f) (low_digits-IsDigit p f)

decimal-behind : (acc : ℕ) (xs ys : List ℕ) → decimal acc (xs ++ ys) ≡ decimal (decimal acc xs) ys
unfolding decimal
decimal-behind acc [] ys = refl
decimal-behind acc (x ∷ xs) ys = decimal-behind (acc * 10 + (x - 48)) xs ys

pub decimal-fraction :
    (ds : List ℕ) (p f : ℕ)
    → f < 10 ^ p
    → decimal 0 (ds ++ fraction p f) ≡ decimal 0 ds * 10 ^ p + f
unfolding fraction
decimal-fraction ds p f h =
    decimal-behind 0 ds (reverse (low_digits p f)) ∙ decimal-low_digits (decimal 0 ds) p f h

-- A number above a power of ten is written as a 1 and its last digits.
pub print_int-fraction :
    (p f : ℕ) (out : List ℕ)
    → p < 19
    → f < 10 ^ p
    → 10 ^ p + f < 2 ^ 63
    → print_int (10 ^ p + f) out ≡ write out 0 (b'1' ∷ (fraction p f ++ (0 ∷ [])))
unfolding fraction
print_int-fraction p f out room h small =
    let ds = low_digits p f ++ (b'1' ∷ []) in
    print_int-digits (10 ^ p + f) out ds (omega (arith, power_positive p)) small
      (digits_loop-low_digits p f 21 h (omega (arith, room)))
      (omega (arith, room, length-append (low_digits p f) (b'1' ∷ []), length-low_digits p f))
    ∙ ap (λ (text : List ℕ). write out 0 (text ++ (0 ∷ [])))
        (reverse-append (low_digits p f) (b'1' ∷ []))
