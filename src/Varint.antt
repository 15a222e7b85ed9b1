-- ===== src/Varint.antt =====
-- eos_varint.c, and parse_varint32 of eos_utils.c: variable-length integers, seven bits to a byte.
-- An unsigned long long is a number below 2 ^ 64, with its wrap-around written out.
pub mod Decode
pub mod Encode
use ledger_app_eos.Prelude.{
  ℕ, zero, suc, ◌+◌, ◌-◌, ◌*◌, ◌/◌, ◌%◌, ◌^◌, bit_and, bit_or, Bool, true, false, Option, none,
  some, List, [], ◌∷◌, length, drop, ltb, ◌==◌, if◌then◌else◌,
}
use ledger_app_eos.Memory.{◌>>=◌}

-- varint_encoding_length: the ladder of N1 to N9.
pub varint_encoding_length : ℕ → ℕ
varint_encoding_length n =
    if ltb n 128
    then 1
    else if ltb n 16384
    then 2
    else if ltb n 2097152
    then 3
    else if ltb n 268435456
    then 4
    else if ltb n 34359738368
    then 5
    else if ltb n 4398046511104
    then 6
    else if ltb n 562949953421312
    then 7
    else if ltb n 72057594037927936
    then 8
    else if ltb n 9223372036854775808
    then 9
    else 10

-- MSBALL, a char with the value ~0x7F, as the 64-bit operand of `n & MSBALL`: -128 where char is
-- signed, 128 where it is unsigned. C leaves the choice to the compiler.
abbrev pub msball : Bool → ℕ
msball true = 2 ^ 64 - 128
msball false = 128

-- The loop of varint_encode: the bytes written from `buf` on. `none` is fuel that ran out.
encode_loop : ℕ → Bool → ℕ → Option (List ℕ)
encode_loop zero char_signed n = none
encode_loop (suc fuel) char_signed n =
    let again = (do
      rest ← encode_loop fuel char_signed (n / 2 ^ 7)
      some (bit_or (n % 256) 0x80 ∷ rest)) in
    if bit_and n (msball char_signed) == 0 then some ((n % 256) ∷ []) else again

-- varint_encode: the bytes written, and their count, an unsigned char, in `*bytes`. `len` is only
-- compared, in a test whose body is commented out. A number below 2 ^ 64 takes ten rounds at most.
pub varint_encode : Bool → ℕ → ℕ → Option (List ℕ × ℕ)
unfolding encode_loop
varint_encode char_signed n len = do
  bytes ← encode_loop 10 char_signed n
  some (bytes, length bytes % 256)

-- The loop of varint_decode over the bytes from `ptr` on; `read` of them are read. `none` is
-- behaviour that C leaves undefined: a read past the array, or a shift by 64 bits or more.
decode_loop : List ℕ → ℕ → ℕ → ℕ → Option (ℕ × ℕ)
decode_loop [] result bits read = none
decode_loop (b ∷ mem) result bits read =
    let result' = (result + bit_and b 0x7f * 2 ^ bits % 2 ^ 64) % 2 ^ 64 in
    let more = decode_loop mem result' (bits + 7) (read + 1) in
    let go = if bit_and b 0x80 == 0 then some (result', (read + 1) % 256) else more in
    if ltb bits 64 then go else none

-- varint_decode: the value, and the bytes read, an unsigned char, in `*bytes`. Its `len` too is
-- only compared.
unfoldable pub varint_decode : List ℕ → ℕ → ℕ → Option (ℕ × ℕ)
unfolding decode_loop
varint_decode mem buf len = decode_loop (drop buf mem) 0 0 0

-- parse_varint32 returns the value as a uint32_t.
unfoldable pub parse_varint32 : List ℕ → ℕ → Option (ℕ × ℕ)
unfolding varint_decode
parse_varint32 mem buf = do (value, bytes) ← varint_decode mem buf 4; some (value % 2 ^ 32, bytes)
