-- ===== src/Varint/Encode.antt =====
-- varint_encode: what it writes for either signedness of char, and the way back through
-- varint_decode.
use native.Mathlib.Decide.{dec_lt}
use native.Mathlib.Nat.{pow-suc}
use ledger_app_eos.Prelude.{
  ℕ, zero, suc, ◌+◌, ◌/◌, ◌%◌, ◌^◌, ◌≤◌, ◌<◌, ◌≡◌, ◌∙◌, ap, some, List, [], ◌∷◌, ◌++◌, length, true,
  drop-append, bit_or, arith,
}
use ledger_app_eos.Prelude.Bits.{word_high_bits, byte_set_top_bit}
use ledger_app_eos.Varint.{encode_loop, varint_encode, varint_encoding_length, varint_decode}
use ledger_app_eos.Varint.Decode.{Encodes, last, more, varint_decode-Encodes}

-- The ladder climbs one rung for each group of seven bits.
encoding_length_small : (n : ℕ) → n < 128 → varint_encoding_length n ≡ 1
unfolding varint_encoding_length
encoding_length_small n h = ground arith

encoding_length_more :
    (n : ℕ)
    → 128 ≤ n
    → n < 2 ^ 64
    → varint_encoding_length n ≡ suc (varint_encoding_length (n / 128))
unfolding varint_encoding_length
encoding_length_more n lo hi = ground arith

-- One round of the loop where char is signed.
encode_loop_last : (fuel n : ℕ) → n < 128 → encode_loop (suc fuel) true n ≡ some (n ∷ [])
unfolding encode_loop
encode_loop_last fuel n h =
    let small : n % 256 ≡ n = omega arith in
    rw small (ground (arith, word_high_bits n (omega arith)))

encode_loop_more :
    (fuel n : ℕ) {bs : List ℕ}
    → 128 ≤ n
    → n < 2 ^ 64
    → encode_loop fuel true (n / 128) ≡ some bs
    → encode_loop (suc fuel) true n ≡ some ((n % 128 + 128) ∷ bs)
unfolding encode_loop
encode_loop_more fuel n lo hi e =
    let group : bit_or (n % 256) 0x80 ≡ n % 128 + 128 = omega (arith, byte_set_top_bit (n % 256)) in
    ground (arith, word_high_bits n, ap (λ (t : ℕ). t ∷ []) group)

-- What the loop wrote for `n`.
abbrev Written : ℕ → ℕ → Type 0
Written fuel n =
    (bs : List ℕ) × (encode_loop fuel true n ≡ some bs)
    × Encodes bs n
    × (length bs ≡ varint_encoding_length n)

Written-last : (fuel n : ℕ) → n < 128 → Written (suc fuel) n
Written-last fuel n h =
    (n ∷ [], encode_loop_last fuel n h, last n h, omega (arith, encoding_length_small n h))

Written-more : (fuel n : ℕ) → 128 ≤ n → n < 2 ^ 64 → Written fuel (n / 128) → Written (suc fuel) n
Written-more fuel n lo hi (bs, e, enc, len) = (
  (n % 128 + 128) ∷ bs,
  encode_loop_more fuel n lo hi e,
  more (n % 128 + 128) n (n / 128) bs (omega arith) (omega arith) enc (omega arith),
  omega (arith, len, encoding_length_more n lo hi),
)

encode_loop-Written : (fuel n : ℕ) → n < 128 ^ suc fuel → n < 2 ^ 64 → Written (suc fuel) n
encode_loop-Written zero n h fits = Written-last zero n (omega arith)
encode_loop-Written (suc fuel) n h fits = elim (dec_lt n 128) [
  | yes small ↦ Written-last (suc fuel) n small
  | no large ↦
      Written-more (suc fuel) n (omega arith) fits
        (encode_loop-Written fuel (n / 128) (omega (arith, pow-suc 128 (suc fuel))) (omega arith))
]

encoding_length_bounds : (n : ℕ) → varint_encoding_length n ≤ 10
unfolding varint_encoding_length
encoding_length_bounds n = ground arith

-- Where char is signed, varint_encode terminates on every 64-bit number, writes as many bytes as
-- varint_encoding_length says, and varint_decode reads the number back from them, wherever they
-- stand and whatever follows.
pub varint_decode-encode :
    (n len : ℕ)
    → n < 2 ^ 64
    → (bs : List ℕ) × (varint_encode true n len ≡ some (bs, varint_encoding_length n))
      × (length bs ≡ varint_encoding_length n)
      × ((front rest : List ℕ) (len' : ℕ)
          → varint_decode (front ++ (bs ++ rest)) (length front) len'
            ≡ some (n, varint_encoding_length n))
unfolding varint_encode
varint_decode-encode n len fits =
    let (bs, e, enc, count) = encode_loop-Written 9 n (omega arith) fits in
    let short = encoding_length_bounds n in
    (
      bs,
      rw e (ground arith),
      count,
      λ front rest len'.
          varint_decode-Encodes _ (length front) len' rest (drop-append front (bs ++ rest)) enc
            (omega arith) fits
          ∙ ap (λ (k : ℕ). some (n, k)) count,
    )
