-- ===== src/Text/Address.antt =====
-- Keys in base 32 with a checksum (eos_utils.c), as the address screen of the Nano S shows them.
-- The ints that are shifted to the left keep 32 bits; only their lowest bits are read.
use ledger_app_eos.Prelude.{
  ℕ, zero, suc, ◌+◌, ◌-◌, ◌*◌, ◌/◌, ◌%◌, ◌^◌, bit_and, bit_or, bit_xor, Bool, true, false, ◌&&◌,
  Option, none, some, List, [], ◌∷◌, ◌++◌, length, replicate, ltb, ◌==◌, if◌then◌else◌,
}
use ledger_app_eos.Memory.{◌>>=◌, memcpy}
use ledger_app_eos.Text.{Frame, local_array, print_summary}
use ledger_app_eos.Text.Buffer.{codes, get_or, write}

abbrev pub base32_alphabet : List ℕ
base32_alphabet = codes "ABCDEFGHIJKLMNOPQRSTUVWXYZ234567"

-- The inner loop of crc16.
unfoldable pub crc16_bits : ℕ → ℕ → ℕ
crc16_bits zero crc = crc
crc16_bits (suc i) crc =
    crc16_bits i
      (if bit_and crc 0x8000 == 0 then crc * 2 % 2 ^ 32 else bit_xor (crc * 2 % 2 ^ 32) 0x1021)

unfoldable pub crc16_loop : List ℕ → ℕ → ℕ
unfolding crc16_bits
crc16_loop [] crc = crc
crc16_loop (c ∷ bytes) crc = crc16_loop bytes (crc16_bits 8 (bit_xor crc (c * 2 ^ 8)))

unfoldable pub crc16 : List ℕ → ℕ
unfolding crc16_loop
crc16 bytes = crc16_loop bytes 0 % 2 ^ 16

-- The next byte of the data, or zeros behind it, where less than five bits are left.
unfoldable pub refill : ℕ → ℕ → List ℕ → ℕ × ℕ × List ℕ
refill buffer bits_left [] =
    if ltb bits_left 5
    then (buffer * 2 ^ (5 - bits_left) % 2 ^ 32, 5, [])
    else (buffer, bits_left, [])
refill buffer bits_left (b ∷ rest) =
    if ltb bits_left 5
    then (bit_or (buffer * 2 ^ 8 % 2 ^ 32) b, bits_left + 8, rest)
    else (buffer, bits_left, b ∷ rest)

abbrev pub is_empty : List ℕ → Bool
is_empty [] = true
is_empty (x ∷ xs) = false

-- The loop of base32_encode with room for `room` characters more.
unfoldable pub base32_loop : ℕ → ℕ → ℕ → List ℕ → List ℕ
unfolding refill
base32_loop zero buffer bits_left rest = []
base32_loop (suc room) buffer bits_left rest =
    let (buffer', bits_left', rest') = refill buffer bits_left rest in
    let more = base32_loop room buffer' (bits_left' - 5) rest' in
    let index = bit_and 0x1f (buffer' / 2 ^ (bits_left' - 5)) in
    if (bits_left == 0) && is_empty rest then [] else (get_or base32_alphabet index 0 ∷ more)

-- The padding behind `count` characters.
unfoldable pub base32_padding : ℕ → ℕ → List ℕ
base32_padding count buf_size =
    let quantum = 8 - count % 8 in
    if quantum == 8
    then []
    else replicate (if ltb quantum (buf_size - count) then quantum else buf_size - count) b'='

abbrev pub base32_characters : List ℕ → ℕ → List ℕ
base32_characters [] buf_size = []
base32_characters (b ∷ bytes) buf_size =
    let characters = base32_loop buf_size b 8 bytes in
    characters ++ base32_padding (length characters) buf_size

-- base32_encode: the chars that it writes and its result, where `none` is -1.
unfoldable pub base32_encode : List ℕ → ℕ → List ℕ × Option ℕ
unfolding base32_loop base32_padding
base32_encode bytes buf_size =
    let result = base32_characters bytes buf_size in
    if ltb (2 ^ 28) (length bytes)
    then ([], none)
    else if ltb (length result) buf_size
    then (result ++ (0 ∷ []), some (length result))
    else (result, none)

unfoldable pub encode_key : List ℕ → List ℕ → ℕ → Option (List ℕ)
unfolding crc16 base32_encode
encode_key bytes out version_byte = do
  key ← memcpy bytes 0 32
  let crc = crc16 (version_byte ∷ key)
  let buffer = (version_byte ∷ key) ++ (crc % 256 ∷ crc / 256 % 256 ∷ [])
  let encoded = base32_encode buffer 56
  out ← write out 0 (encoded.0)
  write out 56 (0 ∷ [])

unfoldable pub encode_public_key : List ℕ → List ℕ → Option (List ℕ)
unfolding encode_key
encode_public_key bytes out = encode_key bytes out (6 * 2 ^ 3)

unfoldable pub encode_pre_auth_key : List ℕ → List ℕ → Option (List ℕ)
unfolding encode_key
encode_pre_auth_key bytes out = encode_key bytes out (19 * 2 ^ 3)

unfoldable pub encode_hash_x_key : List ℕ → List ℕ → Option (List ℕ)
unfolding encode_key
encode_hash_x_key bytes out = encode_key bytes out (23 * 2 ^ 3)

unfoldable pub print_public_key : Frame → List ℕ → List ℕ → ℕ → ℕ → Option (List ℕ)
unfolding encode_public_key
print_public_key frame bytes out num_chars_l num_chars_r =
    if ltb 0 num_chars_l
    then (do
      buffer ← encode_public_key bytes (local_array frame 57)
      print_summary buffer out num_chars_l num_chars_r)
    else encode_public_key bytes out
