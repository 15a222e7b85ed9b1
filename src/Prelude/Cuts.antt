-- ===== src/Prelude/Cuts.antt =====
-- More on prefixes and suffixes of lists: cuts beyond the end, and cuts put together again.
use Prim.Native.Nat.{ℕ, zero, suc, ◌+◌, ◌-◌, ◌≤◌, min}
use mathlib.Core.Path.{◌≡◌, refl, ap, ◌∙◌}
use mathlib.Core.List.{List, [], ◌∷◌, ◌++◌}
use native.Mathlib.Omega.{arith}
use ledger_app_eos.Prelude.Lists.{length, drop, take, replicate, All}

pub drop-zeros :
    (n m : ℕ) (r : List ℕ)
    → n ≤ m
    → drop n (replicate (suc m) 0 ++ r) ≡ 0 ∷ (replicate (m - n) 0 ++ r)
drop-zeros zero m r h = ap (λ (k : ℕ). 0 ∷ (replicate k 0 ++ r)) (omega arith)
drop-zeros (suc n) zero r h = absurd (omega (arith, h))
drop-zeros (suc n) (suc m) r h =
    drop-zeros n m r (omega (arith, h)) ∙ ap (λ (k : ℕ). 0 ∷ (replicate k 0 ++ r)) (omega arith)

pub drop-append_more :
    (n : ℕ) (xs ys : List ℕ) → n ≤ length xs → drop n (xs ++ ys) ≡ drop n xs ++ ys
drop-append_more zero xs ys h = refl
drop-append_more (suc n) [] ys h = absurd (omega (arith, h))
drop-append_more (suc n) (x ∷ xs) ys h = drop-append_more n xs ys (omega (arith, h))

pub take_beyond : (n : ℕ) (xs : List ℕ) → length xs ≤ n → take n xs ≡ xs
take_beyond zero [] h = refl
take_beyond zero (x ∷ xs) h = absurd (omega (arith, h))
take_beyond (suc n) [] h = refl
take_beyond (suc n) (x ∷ xs) h = ap (λ r. x ∷ r) (take_beyond n xs (omega (arith, h)))

pub drop_beyond : (n : ℕ) (xs : List ℕ) → length xs ≤ n → drop n xs ≡ []
drop_beyond zero [] h = refl
drop_beyond zero (x ∷ xs) h = absurd (omega (arith, h))
drop_beyond (suc n) [] h = refl
drop_beyond (suc n) (x ∷ xs) h = drop_beyond n xs (omega (arith, h))

pub length-take : (n : ℕ) (xs : List ℕ) → length (take n xs) ≡ min n (length xs)
length-take zero xs = omega arith
length-take (suc n) [] = omega arith
length-take (suc n) (x ∷ xs) = omega (arith, length-take n xs)

pub All-take : (P : ℕ → Type 0) (n : ℕ) (xs : List ℕ) → All P xs → All P (take n xs)
All-take P zero xs h = tt
All-take P (suc n) [] h = tt
All-take P (suc n) (x ∷ xs) (p, h) = (p, All-take P n xs h)

pub take-drop-append : (n : ℕ) (xs : List ℕ) → take n xs ++ drop n xs ≡ xs
take-drop-append zero xs = refl
take-drop-append (suc n) [] = refl
take-drop-append (suc n) (x ∷ xs) = ap (λ r. x ∷ r) (take-drop-append n xs)

pub drop-drop : (n m k : ℕ) (xs : List ℕ) → k ≡ m + n → drop n (drop m xs) ≡ drop k xs
drop-drop n zero k xs e = ap (λ (k : ℕ). drop k xs) (omega (arith, e))
drop-drop n (suc m) zero xs e = absurd (omega (arith, e))
drop-drop n (suc m) (suc k) [] e = drop_beyond n [] (omega arith)
drop-drop n (suc m) (suc k) (x ∷ xs) e = drop-drop n m k xs (omega (arith, e))
