-- ===== src/Text/Coins.antt =====
-- print_amount of eos_utils.c, which writes an amount of ten-millionths as a decimal.
use ledger_app_eos.Prelude.{
  ℕ, zero, suc, ◌+◌, ◌-◌, ◌/◌, ◌%◌, ◌||◌, Option, none, some, List, [], ◌∷◌, length, take,
  replicate, ltb, leb, ◌==◌, if◌then◌else◌,
}
use mathlib.Core.List.{reverse}
use ledger_app_eos.Memory
use ledger_app_eos.Outcome.{undefined, Command, ◌>>=◌, ◌>>◌, pure, throw_if, reads}
use ledger_app_eos.Text.{amount_max_size}
use ledger_app_eos.Text.Buffer.{write, strcpy}

-- The loop that takes the digits into `buffer`, lowest first, from place `i` on: the chars, and the
-- place behind them. Every round fills a place, so that one more round than places is enough.
unfoldable pub amount_loop : ℕ → ℕ → ℕ → List ℕ → Command (Unit {0}) (List ℕ × ℕ)
amount_loop zero i d buffer = λ s. undefined
amount_loop (suc rounds) i d buffer =
    if ltb 0 d || ltb i 9
    then (do
      buffer ← reads (write buffer i ((if ltb 0 d then d % 10 + b'0' else b'0') ∷ []))
      buffer ← (if i == 6 then reads (write buffer 7 (b'.' ∷ [])) else pure buffer)
      let place = if i == 6 then 7 else i
      throw_if (leb amount_max_size place) 0x6700
      amount_loop rounds (place + 1) (d / 10) buffer)
    else pure (buffer, i)

-- The loop that strips zeros from the end, over the chars from the last one on; the first char stays.
unfoldable pub strip_zeros : List ℕ → List ℕ
strip_zeros [] = []
strip_zeros (c ∷ []) = c ∷ []
strip_zeros (c ∷ d ∷ cs) = let rest = strip_zeros (d ∷ cs) in if c == b'0' then rest else c ∷ d ∷ cs

strip_point : List ℕ → List ℕ
strip_point [] = []
strip_point (c ∷ cs) = if c == b'.' then cs else c ∷ cs

-- `asset` is `none` for NULL.
unfoldable pub print_amount : ℕ → Option (List ℕ) → List ℕ → Command (Unit {0}) (List ℕ)
unfolding amount_loop strip_zeros strip_point
print_amount amount asset out = do
  (buffer, i) ← amount_loop (amount_max_size + 1) 0 amount (replicate amount_max_size 0)
  let chars = take (amount_max_size - 1) (reverse (take i buffer))
  out ← reads (write out 0 chars)
  let j = length (strip_point (strip_zeros (reverse chars)))
  reads (elim asset [
    | some name ↦ Memory.◌>>=◌ (write out j (b' ' ∷ [])) λ out. strcpy out (j + 1) name
    | none ↦ write out j (0 ∷ [])
  ])
