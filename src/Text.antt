-- ===== src/Text.antt =====
-- The text functions of eos_utils.c that the Nano S screens use. A char buffer is a list of bytes;
-- a text in it ends at the first 0. A write past a buffer's end, and a text without an end, are
-- undefined in C and `none` here.
pub mod Buffer
pub mod Digits
pub mod Name
pub mod Account
pub mod Summary
pub mod Address
pub mod Base32
pub mod Coins
pub mod Fraction
pub mod Append
use ledger_app_eos.Prelude.{
  ℕ, zero, suc, ◌+◌, ◌-◌, ◌*◌, ◌/◌, ◌%◌, ◌^◌, bit_and, Bool, true, false, ◌&&◌, Option, none, some,
  List, [], ◌∷◌, ◌++◌, length, take, drop, ltb, ◌==◌, if◌then◌else◌,
}
use mathlib.Core.List.{reverse, tail}
use ledger_app_eos.Memory.{◌>>=◌, memcpy}
use Buffer.{codes, get_or, write, set, strlen}

-- The bytes beside a local array, and the bytes that one holds before it is written. The compiler
-- chooses them.
pub record Frame : Type 0 where
  -- the byte below `str` of parse_name, and the one above it
  pub below : ℕ
  pub above : ℕ
  pub stale : ℕ → ℕ

abbrev pub fill_from : (ℕ → ℕ) → ℕ → ℕ → List ℕ
fill_from byte i zero = []
fill_from byte i (suc n) = byte i ∷ fill_from byte (i + 1) n

-- A local array of `n` chars, not yet written.
abbrev pub local_array : Frame → ℕ → List ℕ
local_array frame n = fill_from frame.stale 0 n

abbrev pub charmap : List ℕ
charmap = codes ".12345abcdefghijklmnopqrstuvwxyz"

-- The loop of rtrim over the chars below `original`, nearest first. It returns where the 0 goes.
-- Below the array's first char stands `below`; to go on from there is undefined.
rtrim_loop : ℕ → ℕ → List ℕ → Option ℕ
rtrim_loop below junk [] = if below == junk then none else some 0
rtrim_loop below junk (c ∷ lower) =
    let more = rtrim_loop below junk lower in if c == junk then more else some (length lower + 1)

-- rtrim on an array without an end of text: strlen counts it whole if the byte above is 0. The last
-- char is not looked at, since `original` is decremented before the first test.
unfoldable pub rtrim : Frame → List ℕ → ℕ → Option (List ℕ)
unfolding rtrim_loop
rtrim frame str junk = do
  end ← rtrim_loop frame.below junk (tail (reverse str))
  if frame.above == 0 then some (set str end 0) else none

-- The loop of parse_name at index `i`; `str` holds the chars from `str[13 - i]` on.
pub name_loop : ℕ → ℕ → ℕ → List ℕ → List ℕ
name_loop zero i tmp str = str
name_loop (suc left) i tmp str =
    let c = get_or charmap (bit_and tmp (if i == 0 then 0x0f else 0x1f)) 0 in
    name_loop left (i + 1) (tmp / 2 ^ (if i == 0 then 4 else 5)) (c ∷ str)

-- parse_name: the thirteen bytes that it copies to `out`, and the length of the text there.
unfoldable pub parse_name : Frame → ℕ → Option (List ℕ × ℕ)
unfolding name_loop rtrim
parse_name frame value = do
  out ← rtrim frame (name_loop 13 0 value []) b'.'
  n ← strlen out
  some (out, n)

-- print_summary from the text at `in` to the buffer `out`. The lengths are a uint16_t and a
-- uint8_t. The short form writes no 0 behind the text.
unfoldable pub print_summary : List ℕ → List ℕ → ℕ → ℕ → Option (List ℕ)
print_summary text out num_chars_l num_chars_r = do
  n ← strlen text
  let out_length = (num_chars_l + num_chars_r + 2) % 2 ^ 8
  let in_length = n % 2 ^ 16
  if ltb out_length in_length
      then (do
        left ← memcpy text 0 num_chars_l
        out ← write out 0 left
        out ← write out num_chars_l (b'.' ∷ b'.' ∷ [])
        right ← memcpy text (in_length - num_chars_r) num_chars_r
        out ← write out (num_chars_l + 2) right
        write out out_length (0 ∷ []))
      else (do whole ← memcpy text 0 in_length; write out 0 whole)

abbrev pub hex_alphabet : List ℕ
hex_alphabet = codes "0123456789ABCDEF"

-- The two digits of each byte, as the loops of print_binary and print_binary_summary write them.
unfoldable pub hex_digits : List ℕ → List ℕ
hex_digits [] = []
hex_digits (b ∷ bytes) =
    get_or hex_alphabet (b / 16) 0 ∷ get_or hex_alphabet (b % 16) 0 ∷ hex_digits bytes

-- print_binary; an index is a uint8_t, so a text of more than 255 bytes would wrap.
unfoldable pub print_binary : List ℕ → List ℕ → ℕ → Option (List ℕ)
unfolding hex_digits
print_binary bytes out len =
    if ltb 126 len
    then none
    else (do all ← memcpy bytes 0 len; write out 0 (codes "0x" ++ hex_digits all ++ (0 ∷ [])))

-- print_binary_summary: the first and the last four bytes of more than eight.
unfoldable pub print_binary_summary : List ℕ → List ℕ → ℕ → Option (List ℕ)
unfolding print_binary
print_binary_summary bytes out len =
    if ltb 18 (2 + len * 2)
    then (do
      front ← memcpy bytes 0 4
      back ← memcpy bytes (len - 4) 4
      write out 0 (codes "0x" ++ hex_digits front ++ codes ".." ++ hex_digits back ++ (0 ∷ [])))
    else print_binary bytes out len

-- The loop that takes a number's digits, lowest first, into `buffer`, which has `room` places left.
pub digits_loop : ℕ → ℕ → Option (List ℕ)
digits_loop zero n = if n == 0 then some [] else none
digits_loop (suc room) n =
    let more = (do rest ← digits_loop room (n / 10); some ((n % 10 + b'0') ∷ rest)) in
    if n == 0 then some [] else more

-- AMOUNT_MAX_SIZE
abbrev pub amount_max_size : ℕ
amount_max_size = 21

-- print_uint: the text written to `out + p`.
unfoldable pub print_uint : ℕ → List ℕ → ℕ → Option (List ℕ)
unfolding digits_loop
print_uint l out p = if l == 0 then write out p (codes "0" ++ (0 ∷ [])) else (do
  buffer ← digits_loop amount_max_size l
  write out p (take (amount_max_size - 1) (reverse buffer) ++ (0 ∷ [])))

-- print_int on the bit pattern of an int64_t, whose least value has no negation.
unfoldable pub print_int : ℕ → List ℕ → Option (List ℕ)
unfolding digits_loop
print_int l out =
    if l == 0
    then write out 0 (codes "0" ++ (0 ∷ []))
    else if ltb l (2 ^ 63)
    then (do
      buffer ← digits_loop amount_max_size l
      write out 0 (take (amount_max_size - 1) (reverse buffer) ++ (0 ∷ [])))
    else if l == 2 ^ 63
    then none
    else (do
      buffer ← digits_loop amount_max_size (2 ^ 64 - l)
      write out 0 (b'-' ∷ (take (amount_max_size - 2) (reverse buffer) ++ (0 ∷ []))))
