-- ===== src/Varint/Decode.antt =====
-- varint_decode against a description of the format.
use native.Mathlib.Decide.{dec_lt}
use native.Mathlib.Numerals.{towards_suc}
use ledger_app_eos.Prelude.{
  ℕ, ◌+◌, ◌*◌, ◌%◌, ◌^◌, ◌≤◌, ◌<◌, ◌≡◌, refl, ap, some, List, [], ◌∷◌, ◌++◌, length, All, sym, ◌∙◌,
  none, All-drop, bit_and, drop, arith,
}
use ledger_app_eos.Prelude.Bits.{byte_low_bits, byte_top_bit}
use ledger_app_eos.Varint.{decode_loop, varint_decode, parse_varint32}

-- `Encodes bs n`: the bytes `bs` stand for the number `n`, lowest group of seven bits first, each
-- byte but the last with its top bit set. Groups of zero may pad a number.
pub data Encodes : List ℕ → ℕ → Type 0 where
  last : (b : ℕ) → b < 128 → Encodes (b ∷ []) b
  more :
      (c m n : ℕ) (bs : List ℕ)
      → 128 ≤ c
      → c < 256
      → Encodes bs n
      → m ≡ c % 128 + 128 * n
      → Encodes (c ∷ bs) m

shift_by_seven : (s : ℕ) → 2 ^ (s + 7) ≡ 128 * 2 ^ s
shift_by_seven s = simp towards_suc (omega arith)

shift_group : (b n s : ℕ) → (b + 128 * n) * 2 ^ s ≡ b * 2 ^ s + n * 2 ^ (s + 7)
shift_group b n s = omega (arith, ap (λ (t : ℕ). n * t) (shift_by_seven s))

decode_loop-Encodes :
    {bs : List ℕ} {n : ℕ} (enc : Encodes bs n) (rest : List ℕ) (acc bits k : ℕ)
    → bits ≡ 7 * k
    → k + length bs ≤ 10
    → acc + n * 2 ^ bits < 2 ^ 64
    → decode_loop (bs ++ rest) acc bits k ≡ some (acc + n * 2 ^ bits, k + length bs)
unfolding decode_loop
decode_loop-Encodes (last b h) rest acc bits k hb hk fits =
    ground (arith, byte_low_bits b, byte_top_bit b)
decode_loop-Encodes (more c m n bs lo hi enc e) rest acc bits k hb hk fits = ground (
  arith,
  byte_low_bits c,
  byte_top_bit c,
  shift_group (c % 128) n bits,
  ap (λ (t : ℕ). t * 2 ^ bits) e,
  decode_loop-Encodes enc rest (acc + c % 128 * 2 ^ bits) (bits + 7) (k + 1),
)

-- A byte.
abbrev pub IsByte : ℕ → Type 0
IsByte b = b < 256

-- The value and the byte count that varint_decode returns for well-formed bytes, whatever follows.
pub varint_decode-Encodes :
    (mem : List ℕ) (buf len : ℕ) {bs : List ℕ} (rest : List ℕ) {n : ℕ}
    → drop buf mem ≡ bs ++ rest
    → Encodes bs n
    → length bs ≤ 10
    → n < 2 ^ 64
    → varint_decode mem buf len ≡ some (n, length bs)
unfolding varint_decode
varint_decode-Encodes mem buf len rest at enc short fits =
    rw at (ground (arith, decode_loop-Encodes enc rest 0 0 0))

pub parse_varint32-Encodes :
    (mem : List ℕ) (buf : ℕ) {bs : List ℕ} (rest : List ℕ) {n : ℕ}
    → drop buf mem ≡ bs ++ rest
    → Encodes bs n
    → length bs ≤ 10
    → n < 2 ^ 32
    → parse_varint32 mem buf ≡ some (n, length bs)
unfolding parse_varint32
parse_varint32-Encodes mem buf rest at enc short fits =
    rw (varint_decode-Encodes mem buf 4 rest at enc short (omega arith)) (ground arith)

-- What decode_loop read, when it returned `v` after `count` bytes.
abbrev pub Decoded : List ℕ → ℕ → ℕ → ℕ → ℕ → ℕ → Type 0
Decoded mem acc bits k v count =
    (bs : List ℕ) × (n : ℕ) × (rest : List ℕ) × (mem ≡ bs ++ rest)
    × Encodes bs n
    × (count ≡ k + length bs)
    × (count ≤ 10)
    × (v ≡ (acc + n * 2 ^ bits) % 2 ^ 64)

Decoded-last :
    (b : ℕ) (mem : List ℕ) (acc bits k : ℕ) {v count : ℕ}
    → b < 128
    → bits ≡ 7 * k
    → bits < 64
    → v ≡ (acc + b * 2 ^ bits % 2 ^ 64) % 2 ^ 64
    → count ≡ (k + 1) % 256
    → Decoded (b ∷ mem) acc bits k v count
Decoded-last b mem acc bits k h hb fits value read =
    (b ∷ [], b, mem, refl, last b h, omega arith, omega arith, omega arith)

Decoded-more :
    (c : ℕ) {mem : List ℕ} (acc bits k : ℕ) {v count : ℕ}
    → 128 ≤ c
    → c < 256
    → Decoded mem ((acc + c % 128 * 2 ^ bits % 2 ^ 64) % 2 ^ 64) (bits + 7) (k + 1) v count
    → Decoded (c ∷ mem) acc bits k v count
Decoded-more c acc bits k lo hi (bs, n, rest, e, enc, read, short, value) = (
  c ∷ bs,
  c % 128 + 128 * n,
  rest,
  ap (λ (t : List ℕ). c ∷ t) e,
  more c _ n bs lo hi enc refl,
  omega arith,
  short,
  omega (arith, shift_group (c % 128) n bits),
)

-- The loop's three ways to go on.
decode_loop_last :
    (b : ℕ) (mem : List ℕ) (acc bits k : ℕ)
    → b < 128
    → bits < 64
    → decode_loop (b ∷ mem) acc bits k
      ≡ some ((acc + b * 2 ^ bits % 2 ^ 64) % 2 ^ 64, (k + 1) % 256)
unfolding decode_loop
decode_loop_last b mem acc bits k h narrow =
    let low : bit_and b 0x7f ≡ b = omega (arith, byte_low_bits b) in
    ground (arith, byte_top_bit b, ap (λ (t : ℕ). t * 2 ^ bits) low)

decode_loop_more :
    (c : ℕ) (mem : List ℕ) (acc bits k : ℕ)
    → 128 ≤ c
    → c < 256
    → bits < 64
    → decode_loop (c ∷ mem) acc bits k
      ≡ decode_loop mem ((acc + c % 128 * 2 ^ bits % 2 ^ 64) % 2 ^ 64) (bits + 7) (k + 1)
unfolding decode_loop
decode_loop_more c mem acc bits k lo hi narrow =
    rw (← byte_low_bits c hi) (ground (arith, byte_top_bit c))

decode_loop_wide :
    (b : ℕ) (mem : List ℕ) (acc bits k : ℕ) → 64 ≤ bits → decode_loop (b ∷ mem) acc bits k ≡ none
unfolding decode_loop
decode_loop_wide b mem acc bits k wide = ground arith

decode_loop_sound :
    (mem : List ℕ) (acc bits k v count : ℕ)
    → All IsByte mem
    → bits ≡ 7 * k
    → decode_loop mem acc bits k ≡ some (v, count)
    → Decoded mem acc bits k v count
decode_loop_sound [] acc bits k v count bytes hb e = unfold decode_loop in cc
decode_loop_sound (b ∷ mem) acc bits k v count (byte, bytes) hb e = elim (dec_lt bits 64) [
  | no wide ↦ cc (decode_loop_wide b mem acc bits k (omega arith))
  | yes narrow ↦ elim (dec_lt b 128) [
    | yes small ↦ ground (
      arith,
      decode_loop_last b mem acc bits k,
      Decoded-last b mem acc bits k {v = v} {count = count},
    )
    | no large ↦ Decoded-more b acc bits k (omega arith) byte (
        decode_loop_sound mem _ (bits + 7) (k + 1) v count bytes (omega arith)
          (sym (decode_loop_more b mem acc bits k (omega arith) byte narrow) ∙ e))
  ]
]

-- What varint_decode returns is the number that the first bytes stand for, modulo 2 ^ 64, and how
-- many bytes that took: ten at most.
pub varint_decode_sound :
    (mem : List ℕ) (buf len v count : ℕ)
    → All IsByte mem
    → varint_decode mem buf len ≡ some (v, count)
    → Decoded (drop buf mem) 0 0 0 v count
unfolding varint_decode
varint_decode_sound mem buf len v count bytes e =
    decode_loop_sound (drop buf mem) 0 0 0 v count (All-drop IsByte buf mem bytes) refl e
