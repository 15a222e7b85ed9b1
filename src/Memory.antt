-- ===== src/Memory.antt =====
-- Byte arrays read through pointers, as the memcpy calls of eos_parser.c read the raw transaction.
-- A pointer into an array is an index; a read past the array's end, which C leaves undefined, is
-- `none`.
pub mod Words
use ledger_app_eos.Prelude.{
  ℕ, zero, suc, ◌+◌, ◌*◌, ◌≡◌, refl, Option, none, some, List, [], ◌∷◌, ◌++◌, length, drop, arith,
  drop-append, append_assoc, length-append,
}

-- Failure as `none`; `do` blocks over reads.
infixl 5 ◌>>=◌
abbrev pub ◌>>=◌ {ℓ κ} : {A : Type ℓ} {B : Type κ} → Option A → (A → Option B) → Option B
none >>= f = none
some a >>= f = f a

-- Exactly the first `n` bytes.
unfoldable pub take_exact : ℕ → List ℕ → Option (List ℕ)
take_exact zero mem = some []
take_exact (suc n) [] = none
take_exact (suc n) (b ∷ mem) = do rest ← take_exact n mem; some (b ∷ rest)

-- memcpy of `n` bytes from the pointer `p`.
unfoldable pub memcpy : List ℕ → ℕ → ℕ → Option (List ℕ)
unfolding take_exact
memcpy mem p n = take_exact n (drop p mem)

-- The number that bytes hold, lowest first: how the device's ARM core stores integers.
unfoldable pub little_endian : List ℕ → ℕ
little_endian [] = 0
little_endian (b ∷ bs) = b + 256 * little_endian bs

-- memcpy into an integer of `n` bytes.
unfoldable pub read_uint : List ℕ → ℕ → ℕ → Option ℕ
unfolding memcpy little_endian
read_uint mem p n = do bytes ← memcpy mem p n; some (little_endian bytes)
