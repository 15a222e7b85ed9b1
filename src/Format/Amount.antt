-- ===== src/Format/Amount.antt =====
-- The whole text of an asset: its amount as a decimal, and the name of its symbol.
use ledger_app_eos.Prelude.{
  ℕ, zero, suc, ◌+◌, ◌-◌, ◌*◌, ◌/◌, ◌%◌, ◌^◌, ◌≤◌, ◌<◌, ◌≡◌, refl, sym, ap, ◌∙◌, Option, none, some,
  false, List, [], ◌∷◌, ◌++◌, length, All, append-nil, arith, ◌==◌, if◌then◌else◌,
}
use ledger_app_eos.Prelude.Bits.{word_low_eight}
use ledger_app_eos.Memory.{◌>>=◌, little_endian}
use ledger_app_eos.Text.{Frame, local_array, fill_from, print_int}
use ledger_app_eos.Text.Buffer.{text}
use ledger_app_eos.Text.Account.{text-eq}
use ledger_app_eos.Text.Append.{strcpy-eq, strcat-eq}
use ledger_app_eos.Text.Digits.{IsDigit, decimal, All-append}
use ledger_app_eos.Text.Fraction.{
  print_int-decimal, fraction, length-fraction, fraction-IsDigit, decimal-fraction,
}
use ledger_app_eos.Format.Values.{
  precision_loop, precision, llabs, decimals, format_fraction, format_symbol, format_asset,
  asset_text,
}
use ledger_app_eos.Format.Asset.{
  IsChar, positive_chars, positive_digits, format_symbol-chars, format_fraction-digits,
}

-- A point before the digits of a fraction, where there are any.
abbrev pub pointed : List ℕ → List ℕ
pointed [] = []
pointed (d ∷ ds) = b'.' ∷ d ∷ ds

pointed-digits : (ds : List ℕ) → 0 < length ds → pointed ds ≡ b'.' ∷ ds
pointed-digits [] h = absurd (omega (arith, h))
pointed-digits (d ∷ ds) h = refl

pointed-positive : (ds : List ℕ) → All (λ c. 0 < c) ds → All (λ c. 0 < c) (pointed ds)
pointed-positive [] h = tt
pointed-positive (d ∷ ds) h = (omega arith, h)

length-fill_from : (byte : ℕ → ℕ) (i n : ℕ) → length (fill_from byte i n) ≡ n
length-fill_from byte i zero = refl
length-fill_from byte i (suc n) = ap suc (length-fill_from byte (i + 1) n)

precision_loop-power : (p : ℕ) → p ≤ 4 → precision_loop p 1 ≡ 10 ^ p
unfolding precision_loop
precision_loop-power zero h = refl
precision_loop-power (suc zero) h = refl
precision_loop-power (suc (suc zero)) h = refl
precision_loop-power (suc (suc (suc zero))) h = refl
precision_loop-power (suc (suc (suc (suc zero)))) h = refl
precision_loop-power (suc (suc (suc (suc (suc p))))) h = absurd (omega (arith, h))

-- The digits before the point, and the room that a fraction needs.
whole_digits :
    (p n : ℕ)
    → p ≤ 4
    → n < 2 ^ 63
    → (n / 10 ^ p < 10 ^ (19 - p))
      × (n % 10 ^ p < 10 ^ p)
      × (10 ^ p + n % 10 ^ p < 2 ^ 63)
      × (n / 10 ^ p * 10 ^ p + n % 10 ^ p ≡ n)
      × (n / 10 ^ p < 2 ^ 63)
whole_digits zero n few small =
    (omega (arith, small), omega arith, omega arith, omega arith, omega (arith, small))
whole_digits (suc zero) n few small =
    (omega (arith, small), omega arith, omega arith, omega arith, omega (arith, small))
whole_digits (suc (suc zero)) n few small =
    (omega (arith, small), omega arith, omega arith, omega arith, omega (arith, small))
whole_digits (suc (suc (suc zero))) n few small =
    (omega (arith, small), omega arith, omega arith, omega arith, omega (arith, small))
whole_digits (suc (suc (suc (suc zero)))) n few small =
    (omega (arith, small), omega arith, omega arith, omega arith, omega (arith, small))
whole_digits (suc (suc (suc (suc (suc p))))) n few small = absurd (omega (arith, few))

llabs-small : (amount n : ℕ) → llabs amount ≡ some n → n < 2 ^ 63
unfolding llabs
llabs-small amount n e = ground (arith, e)

module _ (frame : Frame) where
  -- The fraction of a number behind the text that the buffer holds.
  Fractioned : ℕ → ℕ → List ℕ → List ℕ → Type 0
  Fractioned p f s rest =
      (rest' : List ℕ) × ((if p == 0
          then some (s ++ (0 ∷ rest))
          else format_fraction frame (10 ^ p) f (s ++ (0 ∷ rest)))
        ≡ some ((s ++ pointed (fraction p f)) ++ (0 ∷ rest')))
      × (length rest ≤ length rest' + p + 1)

  some_fraction :
      (p f : ℕ) (s rest : List ℕ)
      → 0 < p
      → p ≤ 4
      → f < 10 ^ p
      → 10 ^ p + f < 2 ^ 63
      → All (λ c. 0 < c) s
      → p < length rest
      → Fractioned p f s rest
  unfolding Fractioned
  some_fraction p f s rest some_digit few small fits h room =
      let size = length-fraction p f in
      let nonzero : (p == 0) ≡ false = ground (arith, some_digit) in
      let (rest', e, left) = strcat-eq s rest (b'.' ∷ fraction p f) h (omega (arith, room, size)) in
      (
        rest',
        rw nonzero (
            format_fraction-digits frame p f (s ++ (0 ∷ rest)) some_digit few small fits
            ∙ e
            ∙ ap (λ (fs : List ℕ). some ((s ++ fs) ++ (0 ∷ rest')))
                (sym (pointed-digits (fraction p f) (omega (arith, size, some_digit))))),
        omega (arith, left, size),
      )

  no_fraction : (f : ℕ) (s rest : List ℕ) → Fractioned 0 f s rest
  unfolding Fractioned fraction
  no_fraction f s rest =
      (rest, ap (λ (s : List ℕ). some (s ++ (0 ∷ rest))) (sym (append-nil s)), omega arith)

  fraction_step :
      (p f : ℕ) (s rest : List ℕ)
      → p ≤ 4
      → f < 10 ^ p
      → 10 ^ p + f < 2 ^ 63
      → All (λ c. 0 < c) s
      → p < length rest
      → Fractioned p f s rest
  fraction_step zero f s rest few small fits h room = no_fraction f s rest
  fraction_step (suc p) f s rest few small fits h room =
      some_fraction (suc p) f s rest (omega arith) few small fits h room

  -- The steps of format_asset behind llabs.
  behind_llabs : ℕ → ℕ → ℕ → ℕ → List ℕ → Option (List ℕ)
  behind_llabs symbol d prec n out = if prec == 0 then none else (do
    out ← print_int (n / prec) out
    out ← (if d == 0 then some out else format_fraction frame prec (n % prec) out)
    format_symbol frame symbol out)

  -- The steps of format_asset behind the first print_int, and behind the fraction.
  behind_whole : ℕ → ℕ → ℕ → Option (List ℕ) → Option (List ℕ)
  behind_whole symbol p f out = do
    out ← out
    out ← (if p == 0 then some out else format_fraction frame (10 ^ p) f out)
    format_symbol frame symbol out

  behind_fraction : ℕ → Option (List ℕ) → Option (List ℕ)
  behind_fraction symbol out = do out ← out; format_symbol frame symbol out

  positive_power : (k : ℕ) → 0 < k → (k == 0) ≡ false
  positive_power k h = ground (arith, h)

  -- With the decimals and the power of ten known, the division is defined.
  behind_llabs-power :
      (symbol p n : ℕ) (out : List ℕ)
      → 0 < 10 ^ p
      → behind_llabs symbol p (10 ^ p) n out
        ≡ behind_whole symbol p (n % 10 ^ p) (print_int (n / 10 ^ p) out)
  unfolding behind_llabs behind_whole
  behind_llabs-power symbol p n out h =
      let nonzero : (10 ^ p == 0) ≡ false = positive_power (10 ^ p) h in rw nonzero refl

  write_steps :
      (symbol p n : ℕ) (out whole pointed_text named : List ℕ)
      → 0 < 10 ^ p
      → print_int (n / 10 ^ p) out ≡ some whole
      → (if p == 0 then some whole else format_fraction frame (10 ^ p) (n % 10 ^ p) whole)
        ≡ some pointed_text
      → format_symbol frame symbol pointed_text ≡ some named
      → behind_llabs symbol p (10 ^ p) n out ≡ some named
  unfolding behind_whole behind_fraction
  write_steps symbol p n out whole pointed_text named h e e' e'' =
      behind_llabs-power symbol p n out h
      ∙ ap (behind_whole symbol p (n % 10 ^ p)) e
      ∙ ap (behind_fraction symbol) e'
      ∙ e''

  -- The text of an amount and a symbol, built step by step.
  Written : ℕ → ℕ → List ℕ → ℕ → Type 0
  Written p n cs size =
      (whole rest : List ℕ) × (behind_llabs (p + 256 * little_endian cs) p (10 ^ p) n
          (local_array frame size)
        ≡ some ((((whole ++ pointed (fraction p (n % 10 ^ p))) ++ (b' ' ∷ cs)) ++ (0 ∷ rest))))
      × All IsDigit whole
      × (decimal 0 whole ≡ n / 10 ^ p)

  write_asset :
      (p n size : ℕ) (cs : List ℕ)
      → p ≤ 4
      → n < 2 ^ 63
      → All IsChar cs
      → length cs ≤ 7
      → 32 ≤ size
      → Written p n cs size
  unfolding Written Fractioned
  write_asset p n size cs few small h fits room =
      let f = n % 10 ^ p in
      let symbol = p + 256 * little_endian cs in
      let out = local_array frame size in
      let room' : length out ≡ size = length-fill_from frame.stale 0 size in
      let (whole_small, f_small, sum, _, quotient_small) = whole_digits p n few small in
      let (ds, printed, digits, value, len) =
        print_int-decimal (19 - p) (n / 10 ^ p) out (omega (arith, few)) (omega (arith, few))
          whole_small quotient_small in
      let (rest, stored, left) = strcpy-eq out ds (omega (arith, room', room, len)) in
      let (rest', pointed_text, left') =
        fraction_step p f ds rest few f_small sum (positive_digits frame ds digits)
          (omega (arith, left, room', room, len, few)) in
      let (rest'', named) =
        format_symbol-chars frame p cs (ds ++ pointed (fraction p f)) rest' (omega (arith, few)) h
          fits
          (All-append (λ c. 0 < c) ds (pointed (fraction p f)) (positive_digits frame ds digits)
            (pointed-positive (fraction p f)
              (positive_digits frame (fraction p f) (fraction-IsDigit p f))))
          (omega (arith, left, left', room', room, len, few, fits)) in
      (
        ds,
        rest'',
        write_steps symbol p n out (ds ++ (0 ∷ rest))
            ((ds ++ pointed (fraction p f)) ++ (0 ∷ rest'))
            (((ds ++ pointed (fraction p f)) ++ (b' ' ∷ cs)) ++ (0 ∷ rest''))
            (omega (arith, f_small)) (printed ∙ stored) pointed_text named,
        digits,
        value,
      )

  -- The text of an asset with at most four decimals and a symbol of at most seven chars, none of them
  -- 0, in a buffer of at least 32 chars: format_asset fits its arrays and leaves the whole part of the
  -- amount without its sign, a point where there are decimals, as many digits as there are decimals, a
  -- space and the symbol. The digits before and behind the point read together as that amount. The
  -- least value of an int64_t, whose absolute value C does not define, is left out.
  pub asset_text-decimal :
      (amount p n size : ℕ) (cs : List ℕ)
      → llabs amount ≡ some n
      → p ≤ 4
      → All IsChar cs
      → length cs ≤ 7
      → 32 ≤ size
      → (whole fraction buffer : List ℕ) × (asset_text frame
            (record { amount = amount; symbol = p + 256 * little_endian cs })
            size
          ≡ some buffer)
        × (text buffer ≡ (whole ++ pointed fraction) ++ (b' ' ∷ cs))
        × All IsDigit (whole ++ fraction)
        × (length fraction ≡ p)
        × (decimal 0 (whole ++ fraction) ≡ n)
  unfolding asset_text format_asset precision decimals behind_llabs Written
  asset_text-decimal amount p n size cs e few h fits room =
      let small = llabs-small amount n e in
      let symbol = p + 256 * little_endian cs in
      let out = local_array frame size in
      let d : decimals symbol ≡ p = omega (arith, word_low_eight symbol, few) in
      let prec : precision symbol ≡ 10 ^ p =
        ap (λ (d : ℕ). precision_loop d 1) d ∙ precision_loop-power p few in
      let (_, f_small, _, sum, _) = whole_digits p n few small in
      let fs = fraction p (n % 10 ^ p) in
      let (whole, rest, written, digits, value) = write_asset p n size cs few small h fits room in
      (
        whole,
        fs,
        ((whole ++ pointed fs) ++ (b' ' ∷ cs)) ++ (0 ∷ rest),
        ap
              (λ (n : Option ℕ).
                n >>= λ n. behind_llabs symbol (decimals symbol) (precision symbol) n out)
              e
            ∙ ap (λ (d : ℕ). behind_llabs symbol d (precision symbol) n out) d
            ∙ ap (λ (prec : ℕ). behind_llabs symbol p prec n out) prec
            ∙ written,
        text-eq ((whole ++ pointed fs) ++ (b' ' ∷ cs)) rest (
            All-append (λ c. 0 < c) (whole ++ pointed fs) (b' ' ∷ cs)
              (All-append (λ c. 0 < c) whole (pointed fs) (positive_digits frame whole digits)
                (pointed-positive fs (positive_digits frame fs (fraction-IsDigit p (n % 10 ^ p)))))
              (omega arith, positive_chars cs h)),
        All-append IsDigit whole fs digits (fraction-IsDigit p (n % 10 ^ p)),
        length-fraction p (n % 10 ^ p),
        decimal-fraction whole p (n % 10 ^ p) f_small
            ∙ ap (λ (q : ℕ). q * 10 ^ p + n % 10 ^ p) value
            ∙ sum,
      )
