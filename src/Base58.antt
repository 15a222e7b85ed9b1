-- ===== src/Base58.antt =====
-- Base 58 (eos_base58.c). The digits of `buf` are a list from `buf[size - 1]` down, lowest first;
-- `filled` is size - 1 - high, and `j` counts as size - 1 - j.
pub mod Conversion
pub mod Room
pub mod Encoded
use ledger_app_eos.Prelude.{
  ℕ, suc, ◌+◌, ◌-◌, ◌*◌, ◌/◌, ◌%◌, Bool, true, false, ◌&&◌, Option, some, List, [], ◌∷◌, ◌++◌,
  length, drop, replicate, leb, ◌==◌, if◌then◌else◌,
}
use mathlib.Core.List.{reverse, map}
use ledger_app_eos.Memory.{◌>>=◌}
use ledger_app_eos.Text.Buffer.{codes, get_or, write}

abbrev pub digits_ordered : List ℕ
digits_ordered = codes "123456789ABCDEFGHJKLMNPQRSTUVWXYZabcdefghijkmnopqrstuvwxyz"

-- zcount: the zeros that data starts with.
unfoldable pub leading_zeros : List ℕ → ℕ
leading_zeros [] = 0
leading_zeros (b ∷ bin) = let n = leading_zeros bin in if b == 0 then suc n else 0

-- The inner loop: 256 times the number plus the carry. With the digits it returns where `j` ends:
-- at the last digit the loop leaves before `j` moves.
unfoldable pub carry_loop : ℕ → ℕ → List ℕ → List ℕ × ℕ
carry_loop filled carry [] = ([], 0)
carry_loop filled carry (d ∷ []) =
    if (filled == 0) && (carry == 0) then (d ∷ [], 0) else ((carry + 256 * d) % 58 ∷ [], 0)
carry_loop filled carry (d ∷ (d' ∷ digits)) =
    let (rest, j) = carry_loop (filled - 1) ((carry + 256 * d) / 58) (d' ∷ digits) in
    if (filled == 0) && (carry == 0)
    then (d ∷ (d' ∷ digits), 0)
    else ((carry + 256 * d) % 58 ∷ rest, suc j)

-- The outer loop, over the bytes behind the zeros.
unfoldable pub convert_loop : List ℕ → ℕ → List ℕ → List ℕ
unfolding carry_loop
convert_loop [] filled digits = digits
convert_loop (b ∷ bin) filled digits =
    let (digits', filled') = carry_loop filled b digits in convert_loop bin filled' digits'

-- b58enc: the buffer, the size and the result; `*b58sz` is the size on entry.
unfoldable pub b58enc : List ℕ → ℕ → List ℕ → Option (List ℕ × ℕ × Bool)
unfolding leading_zeros convert_loop
b58enc b58 b58sz bin =
    let zcount = leading_zeros bin in
    let size = (length bin - zcount) * 138 / 100 + 1 in
    let buf = reverse (convert_loop (drop zcount bin) 0 (replicate size 0)) in
    let j = leading_zeros buf in
    if leb b58sz (zcount + size - j) then some (b58, zcount + size - j + 1, false) else (do
      let ones = replicate zcount b'1'
      let rest = map (λ d. get_or digits_ordered d 0) (drop j buf)
      b58 ← write b58 0 (ones ++ rest ++ (0 ∷ []))
      some (b58, length ones + length rest + 1, true))
