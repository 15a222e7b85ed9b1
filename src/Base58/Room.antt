-- ===== src/Base58/Room.antt =====
-- The room that b58enc takes: 138 digits for a hundred bytes.
use ledger_app_eos.Prelude.{
  ℕ, zero, both_true, suc, ◌+◌, ◌*◌, ◌/◌, ◌≤◌, ◌<◌, ◌≡◌, refl, Bool, true, ◌&&◌, List, [], ◌∷◌,
  length, arith, leb, All, ◌==◌, Bool-cases, inl, inr,
}
use ledger_app_eos.Base58.Conversion.{value256, power58}

-- m * 256 ^ n
abbrev scale256 : ℕ → ℕ → ℕ
scale256 zero m = m
scale256 (suc n) m = scale256 n (256 * m)

value256-below :
    (acc m : ℕ) (bin : List ℕ)
    → acc < m
    → All (λ b. b < 256) bin
    → value256 acc bin < scale256 (length bin) m
value256-below acc m [] h v = h
value256-below acc m (b ∷ bin) h (byte, v) =
    value256-below (256 * acc + b) (256 * m) bin (omega (arith, h, byte)) v

fits : ℕ → Bool
fits n = leb (scale256 n 1) (power58 (n * 138 / 100 + 1))

all_fit : ℕ → Bool
all_fit zero = fits zero
all_fit (suc n) = fits (suc n) && all_fit n

hundred_fit : all_fit 100 ≡ true
unfolding all_fit fits
hundred_fit = refl

all_fit-fits : (m n : ℕ) → all_fit m ≡ true → n ≤ m → fits n ≡ true
unfolding all_fit
all_fit-fits zero zero h k = h
all_fit-fits zero (suc n) h k = absurd (omega (arith, k))
all_fit-fits (suc m) n h k =
    let (last, others) = both_true (fits (suc m)) (all_fit m) h in
    elim (Bool-cases (n == suc m)) [
      | inl e ↦ let same : n ≡ suc m = ground (arith, e) in rw same last
      | inr e ↦ all_fit-fits m n others (ground (arith, e, k))
    ]

fits-bound : (n : ℕ) → fits n ≡ true → scale256 n 1 ≤ power58 (n * 138 / 100 + 1)
unfolding fits
fits-bound n h = ground (arith, h)

-- A hundred bytes at most have a value for which b58enc has room.
pub value256-room :
    (n : ℕ) (bin : List ℕ)
    → length bin ≡ n
    → All (λ b. b < 256) bin
    → n ≤ 100
    → value256 0 bin < power58 (n * 138 / 100 + 1)
value256-room n bin e v few =
    let below : value256 0 bin < scale256 n 1 = rw e at (value256-below 0 1 bin (omega arith) v) in
    omega (arith, below, fits-bound n (all_fit-fits 100 n hundred_fit few))
