-- ===== src/Base58/Conversion.antt =====
-- The digits that the loops of b58enc leave.
use ledger_app_eos.Prelude.{
  ℕ, zero, suc, ◌+◌, ◌-◌, ◌*◌, ◌/◌, ◌%◌, ◌≤◌, ◌<◌, ◌≡◌, refl, ap, ◌∙◌, Bool, true, false, ◌&&◌,
  List, [], ◌∷◌, length, arith, ◌==◌, if◌then◌else◌, All,
}
use ledger_app_eos.Base58.{carry_loop, convert_loop}

-- The number of digits to the base 58, the lowest first.
abbrev pub value58 : List ℕ → ℕ
value58 [] = 0
value58 (d ∷ ds) = d + 58 * value58 ds

-- The number of digits to a base, the highest first, behind those of `acc`.
abbrev pub number : ℕ → ℕ → List ℕ → ℕ
number base acc [] = acc
number base acc (d ∷ ds) = number base (base * acc + d) ds

abbrev pub value256 : ℕ → List ℕ → ℕ
value256 = number 256

-- What a number of digits stays below.
abbrev pub power58 : ℕ → ℕ
power58 zero = 1
power58 (suc n) = 58 * power58 n

-- The digits from `filled` on are zeros; of the very last one nothing is said.
abbrev pub Zeros : ℕ → List ℕ → Type 0
Zeros filled [] = Unit {0}
Zeros (suc filled) (d ∷ ds) = Zeros filled ds
Zeros zero (d ∷ []) = Unit {0}
Zeros zero (d ∷ (d' ∷ ds)) = (d ≡ 0) × Zeros zero (d' ∷ ds)

abbrev pub AreDigits : List ℕ → Type 0
AreDigits ds = All (λ d. d < 58) ds

Zeros-value58 : (ds : List ℕ) → Zeros 0 ds → 256 * value58 ds < power58 (length ds) → value58 ds ≡ 0
Zeros-value58 [] h few = refl
Zeros-value58 (d ∷ []) h few = omega (arith, few)
Zeros-value58 (d ∷ (d' ∷ ds)) (e, h) few =
    let later = Zeros-value58 (d' ∷ ds) h (omega (arith, few, e)) in omega (arith, e, later)

Zeros-tail :
    (filled d d' : ℕ) (ds : List ℕ) → Zeros filled (d ∷ (d' ∷ ds)) → Zeros (filled - 1) (d' ∷ ds)
Zeros-tail zero d d' ds (e, h) = h
Zeros-tail (suc filled) d d' ds h = let e : suc filled - 1 ≡ filled = omega arith in rw e h

-- What a round leaves: 256 times the number plus the carry, in as many digits.
pub record Converts (filled carry : ℕ) (ds : List ℕ) (out : List ℕ × ℕ) : Type 0 where
  pub value : value58 (out.0) ≡ 256 * value58 ds + carry
  pub size : length (out.0) ≡ length ds
  pub zeros : Zeros (out.1) (out.0)
  pub digits : AreDigits (out.0)

Converts-if :
    (filled carry : ℕ) (ds : List ℕ) (b : Bool) (out out' : List ℕ × ℕ)
    → (b ≡ true → Converts filled carry ds out)
    → (b ≡ false → Converts filled carry ds out')
    → Converts filled carry ds (if b then out else out')
Converts-if filled carry ds true out out' f g = f refl
Converts-if filled carry ds false out out' f g = g refl

nothing_left :
    (filled carry : ℕ) → ((filled == 0) && (carry == 0)) ≡ true → (filled ≡ 0) × (carry ≡ 0)
nothing_left filled carry h = ground (arith, h)

-- A round that ends at once: the digits that are left are zeros.
Converts-stop :
    (filled carry : ℕ) (ds : List ℕ)
    → Zeros filled ds
    → AreDigits ds
    → 256 * value58 ds + carry < power58 (length ds)
    → ((filled == 0) && (carry == 0)) ≡ true
    → Converts filled carry ds (ds, 0)
Converts-stop filled carry ds h v few e =
    let (f0, c0) = nothing_left filled carry e in
    let zeros : Zeros 0 ds = rw (← f0) h in
    record {
      value = omega (arith, c0, Zeros-value58 ds zeros (omega (arith, few)));
      size = refl;
      zeros = zeros;
      digits = v;
    }

-- A round that changes a digit: `out` is what it leaves of the digits above.
Converts-digit :
    (filled carry d : ℕ) (ds : List ℕ) (out : List ℕ × ℕ)
    → Converts (filled - 1) ((carry + 256 * d) / 58) ds out
    → Converts filled carry (d ∷ ds) ((carry + 256 * d) % 58 ∷ out.0, suc (out.1))
Converts-digit filled carry d ds out c = record {
  value = omega (arith, c.value);
  size = ap suc c.size;
  zeros = c.zeros;
  digits = (omega arith, c.digits);
}

pub carry_loop-Converts :
    (filled carry : ℕ) (ds : List ℕ)
    → Zeros filled ds
    → AreDigits ds
    → 256 * value58 ds + carry < power58 (length ds)
    → Converts filled carry ds (carry_loop filled carry ds)
unfolding carry_loop
carry_loop-Converts filled carry [] h v few = record {
  value = omega (arith, few);
  size = refl;
  zeros = tt;
  digits = tt;
}
carry_loop-Converts filled carry (d ∷ []) h v few =
    Converts-if filled carry (d ∷ []) ((filled == 0) && (carry == 0)) (d ∷ [], 0)
      ((carry + 256 * d) % 58 ∷ [], 0) (Converts-stop filled carry (d ∷ []) h v few)
      λ e. record {
        value = omega (arith, few);
        size = refl;
        zeros = tt;
        digits = (omega arith, tt);
      }
carry_loop-Converts filled carry (d ∷ (d' ∷ ds)) h v few =
    let rest = carry_loop (filled - 1) ((carry + 256 * d) / 58) (d' ∷ ds) in
    let converts =
      carry_loop-Converts (filled - 1) ((carry + 256 * d) / 58) (d' ∷ ds)
        (Zeros-tail filled d d' ds h) (v.1) (omega (arith, few)) in
    Converts-if filled carry (d ∷ (d' ∷ ds)) ((filled == 0) && (carry == 0)) (d ∷ (d' ∷ ds), 0)
      ((carry + 256 * d) % 58 ∷ rest.0, suc (rest.1))
      (Converts-stop filled carry (d ∷ (d' ∷ ds)) h v few)
      λ e. Converts-digit filled carry d (d' ∷ ds) rest converts

value256-grows : (acc : ℕ) (bin : List ℕ) → acc ≤ value256 acc bin
value256-grows acc [] = omega arith
value256-grows acc (b ∷ bin) = omega (arith, value256-grows (256 * acc + b) bin)

-- The digits that the loops leave have the value of all bytes, as long as there is room for it.
pub convert_loop-value :
    (bin : List ℕ) (filled : ℕ) (ds : List ℕ)
    → Zeros filled ds
    → AreDigits ds
    → value256 (value58 ds) bin < power58 (length ds)
    → (value58 (convert_loop bin filled ds) ≡ value256 (value58 ds) bin)
      × AreDigits (convert_loop bin filled ds)
      × (length (convert_loop bin filled ds) ≡ length ds)
unfolding convert_loop
convert_loop-value [] filled ds h v few = (refl, v, refl)
convert_loop-value (b ∷ bin) filled ds h v few =
    let c =
      carry_loop-Converts filled b ds h v
        (omega (arith, few, value256-grows (256 * value58 ds + b) bin)) in
    let out = carry_loop filled b ds in
    let (value, digits, size) =
      convert_loop-value bin (out.1) (out.0) c.zeros c.digits (rw (c.value, c.size) few) in
    (value ∙ ap (λ (acc : ℕ). value256 acc bin) c.value, digits, size ∙ c.size)
