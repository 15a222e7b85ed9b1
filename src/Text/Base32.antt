-- ===== src/Text/Base32.antt =====
-- The text of a key in base 32, as encode_key and base32_encode of src/eos_utils.c write it.
use mathlib.Core.List.{map}
use ledger_app_eos.Prelude.Digits.{bit_or_byte}
use ledger_app_eos.Base58.Conversion.{number}
use ledger_app_eos.Prelude.{
  Bool-cases, inl, inr, bit_and, bit_or, ℕ, zero, suc, ◌+◌, ◌-◌, ◌*◌, ◌/◌, ◌%◌, ◌^◌, ◌≤◌, ◌<◌, ◌≡◌,
  refl, sym, ap, ◌∙◌, true, false, ◌&&◌, Option, none, some, List, [], ◌∷◌, ◌++◌, length, drop, All,
  append-nil, length-append, length-drop, arith, ltb, ◌==◌, if◌then◌else◌,
}
use ledger_app_eos.Prelude.Bits.{five_bits, low_five_left}
use ledger_app_eos.Memory.{◌>>=◌, memcpy}
use ledger_app_eos.Text.Address.{
  base32_alphabet, refill, is_empty, base32_loop, base32_padding, base32_encode, encode_key, crc16,
}
use ledger_app_eos.Memory.Words.{memcpy-eq}
use ledger_app_eos.Text.Buffer.{get_or, write, text}
use ledger_app_eos.Text.Summary.{write-over}
use ledger_app_eos.Text.Account.{text-eq, all_below, all_below_sound}

-- A char of the alphabet.
abbrev pub IsBase32 : ℕ → Type 0
IsBase32 c = (i : ℕ) × (i < 32) × (c ≡ get_or base32_alphabet i 0)

-- Enough bits for a char: refill finds five of them, and takes no bit away.
refill-bits :
    (buffer bits : ℕ) (rest : List ℕ)
    → 5 ≤ bits + 8 * length rest
    → (5 ≤ (refill buffer bits rest).1)
      × ((refill buffer bits rest).1 + 8 * length ((refill buffer bits rest).2)
          ≡ bits + 8 * length rest)
unfolding refill
refill-bits buffer bits [] h = ground (arith, h)
refill-bits buffer bits (b ∷ rest) h = ground (arith, h)

some_left :
    (bits : ℕ) (rest : List ℕ) → 5 ≤ bits + 8 * length rest → ((bits == 0) && is_empty rest) ≡ false
some_left bits [] h = ground (arith, h)
some_left bits (b ∷ rest) h = ground (arith, h)

-- With the bits for `room` chars, the loop writes as many.
base32_loop-full :
    (room buffer bits : ℕ) (rest : List ℕ)
    → 5 * room ≤ bits + 8 * length rest
    → (length (base32_loop room buffer bits rest) ≡ room)
      × All IsBase32 (base32_loop room buffer bits rest)
unfolding base32_loop
base32_loop-full zero buffer bits rest h = (refl, tt)
base32_loop-full (suc room) buffer bits rest h =
    let (five, kept) = refill-bits buffer bits rest (omega (arith, h)) in
    let (size, chars) =
      base32_loop-full room ((refill buffer bits rest).0) ((refill buffer bits rest).1 - 5)
        ((refill buffer bits rest).2) (omega (arith, five, kept, h)) in
    rw (some_left bits rest (omega (arith, h))) (
      ap suc size,
      (
        (_, five_bits ((refill buffer bits rest).0 / 2 ^ ((refill buffer bits rest).1 - 5)), refl),
        chars,
      ),
    )

-- Places of the alphabet, and their chars.
abbrev pub AreSymbols : List ℕ → Type 0
AreSymbols ds = All (λ d. d < 32) ds

abbrev pub chars_of : List ℕ → List ℕ
chars_of ds = map (λ d. get_or base32_alphabet d 0) ds

-- Five bits leave the front of a number's lowest bits.
emit_bits :
    (k acc b : ℕ)
    → k < 8
    → 2 ^ (k + 5) * acc + b % 2 ^ (k + 5) ≡ 2 ^ k * (32 * acc + b / 2 ^ k % 32) + b % 2 ^ k
emit_bits zero acc b h = omega arith
emit_bits (suc zero) acc b h = omega arith
emit_bits (suc (suc zero)) acc b h = omega arith
emit_bits (suc (suc (suc zero))) acc b h = omega arith
emit_bits (suc (suc (suc (suc zero)))) acc b h = omega arith
emit_bits (suc (suc (suc (suc (suc zero))))) acc b h = omega arith
emit_bits (suc (suc (suc (suc (suc (suc zero)))))) acc b h = omega arith
emit_bits (suc (suc (suc (suc (suc (suc (suc zero))))))) acc b h = omega arith
emit_bits (suc (suc (suc (suc (suc (suc (suc (suc k)))))))) acc b h = absurd (omega arith)

byte_bits :
    (k acc buffer b : ℕ)
    → k < 5
    → b < 256
    → 256 * (2 ^ k * acc + buffer % 2 ^ k) + b
      ≡ 2 ^ (k + 8) * acc + (buffer * 2 ^ 8 % 2 ^ 32 + b) % 2 ^ (k + 8)
byte_bits zero acc buffer b h small = omega arith
byte_bits (suc zero) acc buffer b h small = omega arith
byte_bits (suc (suc zero)) acc buffer b h small = omega arith
byte_bits (suc (suc (suc zero))) acc buffer b h small = omega arith
byte_bits (suc (suc (suc (suc zero)))) acc buffer b h small = omega arith
byte_bits (suc (suc (suc (suc (suc k))))) acc buffer b h small = absurd (omega arith)

-- A byte comes behind a number's lowest bits.
take_byte :
    (k acc buffer b : ℕ)
    → k < 5
    → b < 256
    → 256 * (2 ^ k * acc + buffer % 2 ^ k) + b
      ≡ 2 ^ (k + 8) * acc + bit_or (buffer * 2 ^ 8 % 2 ^ 32) b % 2 ^ (k + 8)
take_byte k acc buffer b h small =
    let joined : bit_or (buffer * 2 ^ 8 % 2 ^ 32) b ≡ buffer * 2 ^ 8 % 2 ^ 32 + b =
      ap (λ (x : ℕ). bit_or x b) (omega arith)
      ∙ bit_or_byte (buffer % 2 ^ 24) b small
      ∙ omega arith in
    byte_bits k acc buffer b h small
    ∙ ap (λ (x : ℕ). 2 ^ (k + 8) * acc + x % 2 ^ (k + 8)) (sym joined)

-- What refill does to the number of the bits that are left.
refill-number :
    (buffer bits acc : ℕ) (rest : List ℕ)
    → bits < 13
    → 5 ≤ bits + 8 * length rest
    → All (λ b. b < 256) rest
    → ((refill buffer bits rest).1 < 13)
      × All (λ b. b < 256) ((refill buffer bits rest).2)
      × (number 256 (2 ^ bits * acc + buffer % 2 ^ bits) rest
          ≡ number 256
              (2 ^ (refill buffer bits rest).1 * acc
                + (refill buffer bits rest).0 % 2 ^ (refill buffer bits rest).1)
              ((refill buffer bits rest).2))
unfolding refill
refill-number buffer bits acc [] few enough h =
    let full : ltb bits 5 ≡ false = ground (arith, enough) in rw full (few, tt, refl)
refill-number buffer bits acc (b ∷ rest) few enough (small, h) = elim (Bool-cases (ltb bits 5)) [
  | inl short ↦
      let k : bits < 5 = ground (arith, short) in
      rw short (
        omega (arith, k),
        h,
        ap (λ (n : ℕ). number 256 n rest) (take_byte bits acc buffer b k small),
      )
  | inr full ↦ rw full (few, (small, h), refl)
]

-- With the bits for exactly `room` chars, the loop writes the number of those bits to the base 32.
base32_loop-number :
    (room buffer bits acc : ℕ) (rest : List ℕ)
    → bits < 13
    → 5 * room ≡ bits + 8 * length rest
    → All (λ b. b < 256) rest
    → (ds : List ℕ) × (base32_loop room buffer bits rest ≡ chars_of ds)
      × AreSymbols ds
      × (length ds ≡ room)
      × (number 32 acc ds ≡ number 256 (2 ^ bits * acc + buffer % 2 ^ bits) rest)
unfolding base32_loop
base32_loop-number zero buffer bits acc [] few size h =
    let none_left : bits ≡ 0 = omega (arith, size) in
    ([], refl, tt, refl, rw none_left (omega arith))
base32_loop-number zero buffer bits acc (b ∷ rest) few size h = absurd (omega (arith, size))
base32_loop-number (suc room) buffer bits acc rest few size h =
    let enough : 5 ≤ bits + 8 * length rest = omega (arith, size) in
    let (five, kept) = refill-bits buffer bits rest enough in
    let (few', h', same) = refill-number buffer bits acc rest few enough h in
    let buffer' = (refill buffer bits rest).0 in
    let bits' = (refill buffer bits rest).1 in
    let rest' = (refill buffer bits rest).2 in
    let d = bit_and 0x1f (buffer' / 2 ^ (bits' - 5)) in
    let value : d ≡ buffer' / 2 ^ (bits' - 5) % 32 = low_five_left (buffer' / 2 ^ (bits' - 5)) in
    let back : bits' - 5 + 5 ≡ bits' = omega (arith, five) in
    let emitted = emit_bits (bits' - 5) acc buffer' (omega (arith, five, few')) in
    let (ds, chars, symbols, count, same') =
      base32_loop-number room buffer' (bits' - 5) (32 * acc + d) rest' (omega (arith, few'))
        (omega (arith, five, kept, size)) h' in
    (
      d ∷ ds,
      rw (some_left bits rest enough) (ap (λ cs. get_or base32_alphabet d 0 ∷ cs) chars),
      (five_bits (buffer' / 2 ^ (bits' - 5)), symbols),
      ap suc count,
      same'
          ∙ ap
              (λ (v : ℕ).
                number 256 (2 ^ (bits' - 5) * (32 * acc + v) + buffer' % 2 ^ (bits' - 5)) rest')
              value
          ∙ ap (λ (n : ℕ). number 256 n rest') (sym emitted)
          ∙ ap (λ (k : ℕ). number 256 (2 ^ k * acc + buffer' % 2 ^ k) rest') back
          ∙ sym same,
    )

positive_chars : (cs : List ℕ) → All IsBase32 cs → All (λ c. 0 < c) cs
unfolding all_below
positive_chars [] h = tt
positive_chars (c ∷ cs) ((i, small, e), h) =
    let positive : ltb 0 (get_or base32_alphabet i 0) ≡ true =
      all_below_sound (λ i. ltb 0 (get_or base32_alphabet i 0)) 32 i refl small in
    let letter : 0 < get_or base32_alphabet i 0 = ground (arith, positive) in
    (omega (arith, e, letter), positive_chars cs h)

padded : (cs : List ℕ) → length cs ≡ 56 → cs ++ base32_padding (length cs) 56 ≡ cs
unfolding base32_padding
padded cs h = ap (λ (n : ℕ). cs ++ base32_padding n 56) h ∙ append-nil cs

-- The end of base32_encode.
abbrev ended : ℕ → List ℕ → List ℕ × Option ℕ
ended n result =
    if ltb (2 ^ 28) n
    then ([], none)
    else if ltb (length result) 56
    then (result ++ (0 ∷ []), some (length result))
    else (result, none)

ended-full :
    (n : ℕ) (result : List ℕ) → n ≤ 2 ^ 28 → length result ≡ 56 → (ended n result).0 ≡ result
ended-full n result few size =
    let small : ltb (2 ^ 28) n ≡ false = ground (arith, few) in
    let full : ltb (length result) 56 ≡ false = ground (arith, size) in rw (small, full) refl

-- The thirty-five bytes of a version, a key and a checksum take 56 chars and no padding.
base32_encode-full :
    (b : ℕ) (bytes : List ℕ)
    → length bytes ≡ 34
    → (base32_encode (b ∷ bytes) 56).0 ≡ base32_loop 56 b 8 bytes
unfolding base32_encode
base32_encode-full b bytes h =
    let (size, chars) = base32_loop-full 56 b 8 bytes (omega (arith, h)) in
    ap (λ (result : List ℕ). (ended (length (b ∷ bytes)) result).0)
      (padded (base32_loop 56 b 8 bytes) size)
    ∙ ended-full (length (b ∷ bytes)) (base32_loop 56 b 8 bytes) (omega (arith, h)) size

-- What the text of a key stands for: the version, the key's 32 bytes and the app's checksum of these,
-- its low byte first.
abbrev pub key_content : List ℕ → ℕ → List ℕ
key_content key version_byte =
    let crc = crc16 (version_byte ∷ key) in
    version_byte ∷ (key ++ (crc % 256 ∷ crc / 256 % 256 ∷ []))

All-append :
    (xs ys : List ℕ) → All (λ b. b < 256) xs → All (λ b. b < 256) ys → All (λ b. b < 256) (xs ++ ys)
All-append [] ys h k = k
All-append (x ∷ xs) ys (small, h) k = (small, All-append xs ys h k)

-- A text that fills an array up to a 0.
text-chars :
    (chars tail ds : List ℕ)
    → All IsBase32 chars
    → chars ≡ chars_of ds
    → text (chars ++ (0 ∷ tail)) ≡ chars_of ds
text-chars chars tail ds valid e = text-eq chars tail (positive_chars chars valid) ∙ e

-- Thirty-five bytes in 56 chars.
base32_loop-bytes :
    (b : ℕ) (bytes : List ℕ)
    → b < 256
    → All (λ b. b < 256) bytes
    → length bytes ≡ 34
    → (ds : List ℕ) × (base32_loop 56 b 8 bytes ≡ chars_of ds)
      × AreSymbols ds
      × (length ds ≡ 56)
      × (number 32 0 ds ≡ number 256 0 (b ∷ bytes))
base32_loop-bytes b bytes byte small size =
    let (ds, written, symbols, count, value) =
      base32_loop-number 56 b 8 0 bytes (omega arith) (omega (arith, size)) small in
    (ds, written, symbols, count, value ∙ ap (λ (n : ℕ). number 256 n bytes) (omega (arith, byte)))

-- The text of a key of at least 32 bytes, in an array of 57 chars whatever it held before: 56 chars of
-- the alphabet A to Z and 2 to 7 which, as digits to the base 32, are the number of 35 bytes: the
-- version, the first 32 bytes and the checksum that crc16 makes of these, its low byte first.
pub encode_key-text :
    (bytes key rest out : List ℕ) (version_byte : ℕ)
    → bytes ≡ key ++ rest
    → length key ≡ 32
    → All (λ b. b < 256) key
    → version_byte < 256
    → length out ≡ 57
    → (buffer : List ℕ) × (ds : List ℕ) × (encode_key bytes out version_byte ≡ some buffer)
      × (text buffer ≡ chars_of ds)
      × AreSymbols ds
      × (length ds ≡ 56)
      × (number 32 0 ds ≡ number 256 0 (key_content key version_byte))
unfolding encode_key
encode_key-text bytes key rest out version_byte e size small byte room =
    let crc = crc16 (version_byte ∷ key) in
    let data' = key ++ (crc % 256 ∷ crc / 256 % 256 ∷ []) in
    let size' : length data' ≡ 34 =
      omega (arith, size, length-append key (crc % 256 ∷ crc / 256 % 256 ∷ [])) in
    let chars = base32_loop 56 version_byte 8 data' in
    let (full, valid) = base32_loop-full 56 version_byte 8 data' (omega (arith, size')) in
    let (ds, written, symbols, count, value) =
      base32_loop-bytes version_byte data' byte (All-append key _ small (omega arith)) size' in
    let taken : memcpy bytes 0 32 ≡ some key =
      ap (memcpy bytes 0) (sym size) ∙ memcpy-eq 0 bytes key rest e in
    let mid = drop (length chars) out in
    let tail' = drop 1 mid in
    let left : length mid ≡ 1 = omega (arith, length-drop (length chars) out, full, room) in
    let shown = text-chars chars tail' ds valid written in
    (
      chars ++ (0 ∷ tail'),
      ds,
      ap (λ (key : Option (List ℕ)). key >>= λ key. store (encoded_of key)) taken
          ∙ ap store (base32_encode-full version_byte data' size')
          ∙ ap (λ (out : Option (List ℕ)). out >>= λ out. write out 56 (0 ∷ []))
              (write-over [] out chars (omega (arith, full, room)))
          ∙ ap (λ (p : ℕ). write (chars ++ mid) p (0 ∷ [])) (sym full)
          ∙ write-over chars mid (0 ∷ []) (omega (arith, left)),
      shown,
      symbols,
      count,
      value,
    )
  where
    encoded_of : List ℕ → List ℕ
    encoded_of key =
        let crc = crc16 (version_byte ∷ key) in
        (base32_encode ((version_byte ∷ key) ++ (crc % 256 ∷ crc / 256 % 256 ∷ [])) 56).0

    store : List ℕ → Option (List ℕ)
    store chars = write out 0 chars >>= λ out. write out 56 (0 ∷ [])
