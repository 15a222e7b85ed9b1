-- ===== src/Base58/Encoded.antt =====
-- The text that b58enc writes, against conversion between the bases 256 and 58.
use ledger_app_eos.Prelude.{
  ℕ, zero, suc, ◌+◌, ◌-◌, ◌*◌, ◌/◌, ◌≤◌, ◌<◌, ◌≡◌, ◌≢◌, refl, ap, ◌∙◌, true, false, some, List, [],
  ◌∷◌, ◌++◌, length, drop, replicate, arith, leb, ◌==◌, All, All-drop, Bool-cases, inl, inr,
  length-append, length-drop, length-replicate, length-map,
}
use mathlib.Core.List.{reverse, reverse_aux, map}
use ledger_app_eos.Text.Buffer.{get_or, write}
use ledger_app_eos.Text.Summary.{write-over}
use ledger_app_eos.Base58.{leading_zeros, convert_loop, b58enc, digits_ordered}
use ledger_app_eos.Base58.Conversion.{
  value58, number, value256, power58, Zeros, AreDigits, convert_loop-value,
}
use ledger_app_eos.Base58.Room.{value256-room}

-- Digits that do not start with a zero.
abbrev pub Leads : List ℕ → Type 0
Leads [] = Unit {0}
Leads (d ∷ ds) = d ≢ 0

number-reverse_aux : (ds r : List ℕ) → number 58 0 (reverse_aux ds r) ≡ number 58 (value58 ds) r
number-reverse_aux [] r = refl
number-reverse_aux (d ∷ ds) r =
    number-reverse_aux ds (d ∷ r) ∙ ap (λ (n : ℕ). number 58 n r) (omega arith)

AreDigits-reverse_aux : (ds r : List ℕ) → AreDigits ds → AreDigits r → AreDigits (reverse_aux ds r)
AreDigits-reverse_aux [] r h k = k
AreDigits-reverse_aux (d ∷ ds) r (small, h) k = AreDigits-reverse_aux ds (d ∷ r) h (small, k)

length-reverse_aux : (ds r : List ℕ) → length (reverse_aux ds r) ≡ length ds + length r
length-reverse_aux [] r = omega arith
length-reverse_aux (d ∷ ds) r = omega (arith, length-reverse_aux ds (d ∷ r))

leading_zeros-zero :
    (b : ℕ) (bin : List ℕ) → (b == 0) ≡ true → leading_zeros (b ∷ bin) ≡ suc (leading_zeros bin)
unfolding leading_zeros
leading_zeros-zero b bin e = rw e refl

leading_zeros-other : (b : ℕ) (bin : List ℕ) → (b == 0) ≡ false → leading_zeros (b ∷ bin) ≡ 0
unfolding leading_zeros
leading_zeros-other b bin e = rw e refl

-- The digits behind the leading zeros.
abbrev pub trimmed : List ℕ → List ℕ
trimmed ds = drop (leading_zeros ds) ds

-- The zeros in front do not change a number, and no zero is left in front.
trimmed-number :
    (base : ℕ) (ds : List ℕ) → (number base 0 (trimmed ds) ≡ number base 0 ds) × Leads (trimmed ds)
unfolding leading_zeros
trimmed-number base [] = (refl, tt)
trimmed-number base (d ∷ ds) = elim (Bool-cases (d == 0)) [
  | inl e ↦
      let d0 : d ≡ 0 = ground (arith, e) in
      let (same, leads) = trimmed-number base ds in
      rw (leading_zeros-zero d ds e, d0)
        (same ∙ ap (λ (n : ℕ). number base n ds) (omega arith), leads)
  | inr e ↦ rw (leading_zeros-other d ds e) (refl, λ z. absurd (ground (arith, e, z)))
]

leading_zeros-size : (ds : List ℕ) → leading_zeros ds ≤ length ds
unfolding leading_zeros
leading_zeros-size [] = omega arith
leading_zeros-size (d ∷ ds) = elim (Bool-cases (d == 0)) [
  | inl e ↦ omega (arith, leading_zeros-zero d ds e, leading_zeros-size ds)
  | inr e ↦ omega (arith, leading_zeros-other d ds e)
]

replicate-Zeros :
    (n : ℕ) → Zeros 0 (replicate n 0) × AreDigits (replicate n 0) × (value58 (replicate n 0) ≡ 0)
replicate-Zeros zero = (tt, tt, refl)
replicate-Zeros (suc zero) = (tt, (omega arith, tt), refl)
replicate-Zeros (suc (suc n)) =
    let (z, v, e) = replicate-Zeros (suc n) in ((refl, z), (omega arith, v), omega (arith, e))

-- The digits that b58enc takes room for, and these with the ones in front.
abbrev pub digit_room : List ℕ → ℕ
digit_room bin = (length bin - leading_zeros bin) * 138 / 100 + 1

abbrev pub encoded_size : List ℕ → ℕ
encoded_size bin = leading_zeros bin + digit_room bin

-- The text of digits behind `zcount` ones, with the 0 at its end.
abbrev pub encoded_text : ℕ → List ℕ → List ℕ
encoded_text zcount ds =
    replicate zcount b'1' ++ map (λ d. get_or digits_ordered d 0) ds ++ (0 ∷ [])

-- The digits of the buffer.
abbrev buffer_of : List ℕ → List ℕ
buffer_of bin = reverse (convert_loop (trimmed bin) 0 (replicate (digit_room bin) 0))

buffer_of-number :
    (bin : List ℕ)
    → All (λ b. b < 256) bin
    → length bin ≤ 100
    → (number 58 0 (buffer_of bin) ≡ number 256 0 bin)
      × AreDigits (buffer_of bin)
      × (length (buffer_of bin) ≡ digit_room bin)
buffer_of-number bin v few =
    let size = digit_room bin in
    let zeros : List ℕ = replicate size 0 in
    let (z, d, e) = replicate-Zeros size in
    let below : value256 0 (trimmed bin) < power58 size =
      value256-room (length bin - leading_zeros bin) (trimmed bin)
        (length-drop (leading_zeros bin) bin) (All-drop (λ b. b < 256) (leading_zeros bin) bin v)
        (omega (arith, few)) in
    let (value, digits, same) =
      convert_loop-value (trimmed bin) 0 zeros z d (rw (e, length-replicate size 0) below) in
    let out = convert_loop (trimmed bin) 0 zeros in
    (
      number-reverse_aux out []
          ∙ value
          ∙ ap (λ (n : ℕ). value256 n (trimmed bin)) e
          ∙ (trimmed-number 256 bin).0,
      AreDigits-reverse_aux out [] digits tt,
      length-reverse_aux out [] ∙ omega (arith, same, length-replicate size 0),
    )

length-encoded_text :
    (zcount : ℕ) (ds : List ℕ) → length (encoded_text zcount ds) ≡ zcount + length ds + 1
length-encoded_text zcount ds =
    let ones : List ℕ = replicate zcount b'1' in
    let characters : List ℕ = map (λ d. get_or digits_ordered d 0) ds in
    omega (
      arith,
      length-append (ones ++ characters) (0 ∷ []),
      length-append ones characters,
      length-replicate zcount b'1',
      length-map (λ d. get_or digits_ordered d 0) ds,
    )

b58enc-run :
    (bin b58 : List ℕ) (b58sz : ℕ) (text : List ℕ)
    → leb b58sz (encoded_size bin - leading_zeros (buffer_of bin)) ≡ false
    → write b58 0 (encoded_text (leading_zeros bin) (trimmed (buffer_of bin))) ≡ some text
    → b58enc b58 b58sz bin
      ≡ some (text, leading_zeros bin + length (trimmed (buffer_of bin)) + 1, true)
unfolding b58enc
b58enc-run bin b58 b58sz text room wrote =
    rw
      (
        room,
        wrote,
        length-replicate (leading_zeros bin) b'1',
        length-map (λ d. get_or digits_ordered d 0) (trimmed (buffer_of bin)),
      )
      refl

-- For at most a hundred bytes, and with room for the result, b58enc writes a 1 for each leading zero
-- byte, then characters of its alphabet for the digits to the base 58 of the number that the
-- bytes are to the base 256, without a zero digit in front, then a 0; the size that it returns counts
-- that 0.
pub b58enc-number :
    (bin b58 : List ℕ) (b58sz : ℕ)
    → All (λ b. b < 256) bin
    → length bin ≤ 100
    → encoded_size bin < b58sz
    → encoded_size bin < length b58
    → (ds : List ℕ) × (b58enc b58 b58sz bin
        ≡ some (
          encoded_text (leading_zeros bin) ds
              ++ drop (length (encoded_text (leading_zeros bin) ds)) b58,
          leading_zeros bin + length ds + 1,
          true,
        ))
      × AreDigits ds
      × Leads ds
      × (number 58 0 ds ≡ number 256 0 bin)
b58enc-number bin b58 b58sz v few room room' =
    let (value, digits, size) = buffer_of-number bin v few in
    let ds = trimmed (buffer_of bin) in
    let (same, leads) = trimmed-number 58 (buffer_of bin) in
    let text = encoded_text (leading_zeros bin) ds in
    let text_size = length-encoded_text (leading_zeros bin) ds in
    let digits_size = length-drop (leading_zeros (buffer_of bin)) (buffer_of bin) in
    let allowed : leb b58sz (encoded_size bin - leading_zeros (buffer_of bin)) ≡ false =
      ground (arith, room) in
    (
      ds,
      b58enc-run bin b58 b58sz (text ++ drop (length text) b58) allowed
          (write-over [] b58 text (omega (arith, text_size, digits_size, size, room'))),
      All-drop (λ d. d < 58) (leading_zeros (buffer_of bin)) (buffer_of bin) digits,
      leads,
      same ∙ value,
    )
