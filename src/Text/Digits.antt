-- ===== src/Text/Digits.antt =====
-- The numbers that print_uint writes.
use ledger_app_eos.Prelude.{
  ℕ, zero, suc, ◌+◌, ◌-◌, ◌*◌, ◌/◌, ◌%◌, ◌^◌, ◌≤◌, ◌<◌, ◌≡◌, refl, ap, false, some, List, [], ◌∷◌,
  ◌++◌, length, take, All, length-append, arith, ◌==◌, ◌∙◌,
}
use mathlib.Core.List.{reverse, reverse-cons}
use native.Mathlib.Nat.{pow-suc}
use ledger_app_eos.Text.{digits_loop, print_uint}
use ledger_app_eos.Text.Buffer.{codes, write}

-- A decimal digit in ASCII.
abbrev pub IsDigit : ℕ → Type 0
IsDigit c = (48 ≤ c) × (c < 58)

-- The number that a text reads as, behind `acc`.
unfoldable pub decimal : ℕ → List ℕ → ℕ
decimal acc [] = acc
decimal acc (c ∷ text) = decimal (acc * 10 + (c - 48)) text

-- The same with the lowest digit first.
unfoldable pub from_lowest : List ℕ → ℕ
from_lowest [] = 0
from_lowest (c ∷ text) = (c - 48) + 10 * from_lowest text

pub decimal-append :
    (acc : ℕ) (xs : List ℕ) (c : ℕ) → decimal acc (xs ++ (c ∷ [])) ≡ decimal acc xs * 10 + (c - 48)
unfolding decimal
decimal-append acc [] c = refl
decimal-append acc (x ∷ xs) c = decimal-append (acc * 10 + (x - 48)) xs c

pub decimal-reverse : (xs : List ℕ) → decimal 0 (reverse xs) ≡ from_lowest xs
unfolding decimal from_lowest
decimal-reverse [] = refl
decimal-reverse (x ∷ xs) =
    rw (reverse-cons x xs, decimal-append 0 (reverse xs) x, decimal-reverse xs) (omega arith)

pub length-reverse : (xs : List ℕ) → length (reverse xs) ≡ length xs
length-reverse [] = refl
length-reverse (x ∷ xs) =
    rw (reverse-cons x xs, length-append (reverse xs) (x ∷ []), length-reverse xs) (omega arith)

pub All-append : (P : ℕ → Type 0) (xs ys : List ℕ) → All P xs → All P ys → All P (xs ++ ys)
All-append P [] ys h k = k
All-append P (x ∷ xs) ys (p, h) k = (p, All-append P xs ys h k)

pub All-reverse : (P : ℕ → Type 0) (xs : List ℕ) → All P xs → All P (reverse xs)
All-reverse P [] h = tt
All-reverse P (x ∷ xs) (p, h) =
    rw (reverse-cons x xs) (All-append P (reverse xs) (x ∷ []) (All-reverse P xs h) (p, tt))

pub take-all : (n : ℕ) (xs : List ℕ) → length xs ≤ n → take n xs ≡ xs
take-all zero [] h = refl
take-all zero (x ∷ xs) h = ground arith
take-all (suc n) [] h = refl
take-all (suc n) (x ∷ xs) h = ap (λ r. x ∷ r) (take-all n xs (omega arith))

pub nonzero : (n : ℕ) → (suc n == 0) ≡ false
nonzero n = ground arith

-- With room for its digits, a number's digits are taken.
pub digits_loop_lem :
    (room k n : ℕ)
    → k ≤ room
    → n < 10 ^ k
    → (ds : List ℕ) × (digits_loop room n ≡ some ds)
      × All IsDigit ds
      × (from_lowest ds ≡ n)
      × (length ds ≤ k)
unfolding digits_loop from_lowest
digits_loop_lem zero zero n h fits = ([], (ground arith), tt, (omega arith), (omega arith))
digits_loop_lem zero (suc k) n h fits = elim h [ ]
digits_loop_lem (suc room) zero n h fits = ([], (ground arith), tt, (omega arith), (omega arith))
digits_loop_lem (suc room) (suc k) zero h fits = ([], refl, tt, refl, (omega arith))
digits_loop_lem (suc room) (suc k) (suc n) h fits =
    let small : suc n / 10 < 10 ^ k = omega (arith, pow-suc 10 k) in
    let (ds, e, digits, value, len) = digits_loop_lem room k (suc n / 10) (omega arith) small in
    (
      (suc n % 10 + 48) ∷ ds,
      (rw (e, nonzero n) refl),
      ((omega arith, omega arith), digits),
      (omega (arith, value)),
      (omega (arith, len)),
    )

-- What print_uint writes for a uint64_t reads as that number: at most twenty decimal digits and a 0.
pub print_uint-decimal :
    (l : ℕ) (out : List ℕ) (p : ℕ)
    → l < 2 ^ 64
    → (ds : List ℕ) × (print_uint l out p ≡ write out p (ds ++ (0 ∷ [])))
      × All IsDigit ds
      × (decimal 0 ds ≡ l)
      × (length ds ≤ 20)
unfolding print_uint decimal
print_uint-decimal zero out p h =
    (codes "0", refl, ((omega arith, omega arith), tt), refl, (omega arith))
print_uint-decimal (suc l) out p h =
    let (ds, e, digits, value, len) = digits_loop_lem 21 20 (suc l) (omega arith) (omega arith) in
    let whole : take 20 (reverse ds) ≡ reverse ds =
      take-all 20 (reverse ds) (omega (arith, length-reverse ds, len)) in
    (
      reverse ds,
      (rw (e, nonzero l, whole) refl),
      All-reverse IsDigit ds digits,
      (decimal-reverse ds ∙ value),
      (omega (arith, length-reverse ds, len)),
    )
