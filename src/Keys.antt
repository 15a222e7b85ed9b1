-- ===== src/Keys.antt =====
-- The keys and signatures of eos_helpers.c. The hash of the device's SDK is a parameter, and so is
-- the size that an uninitialised variable holds.
pub mod Canonical
use ledger_app_eos.Prelude.{
  ℕ, ◌+◌, ◌%◌, ◌^◌, bit_and, Bool, ◌&&◌, not, Option, none, some, List, ◌∷◌, ◌++◌, replicate, ltb,
  ◌==◌, if◌then◌else◌,
}
use ledger_app_eos.Memory.{◌>>=◌, memcpy}
use ledger_app_eos.Text.Buffer.{get_or, write}
use ledger_app_eos.Base58.{b58enc}

-- CX_ECCINFO_PARITY_ODD
abbrev pub parity_odd : ℕ
parity_odd = 1

-- eos_hash_and_encode_base58. `olen` is not initialised in C: `stale_olen` is what it holds.
unfoldable pub hash_and_encode_base58 :
    (ripemd160 : List ℕ → List ℕ) (stale_olen : ℕ) → List ℕ → ℕ → List ℕ → Option (List ℕ × ℕ)
unfolding b58enc
hash_and_encode_base58 ripemd160 stale_olen bytes inlen out = do
  content ← memcpy bytes 0 inlen
  checksum ← memcpy (ripemd160 content) 0 4
  (out, olen, _) ← b58enc out stale_olen (content ++ checksum)
  some (out, olen % 2 ^ 16)

-- A byte of an array.
byte : List ℕ → ℕ → Option ℕ
byte mem p = do bytes ← memcpy mem p 1; some (get_or bytes 0 0)

-- The tests of eos_is_canonical on the first two bytes of r or s.
unfoldable pub canonical_half : ℕ → ℕ → Bool
canonical_half b0 b1 = (bit_and b0 0x80 == 0) && not ((b0 == 0) && (bit_and b1 0x80 == 0))

-- Where r and s start in a DER signature, as eos_is_canonical and
-- eos_signature_to_encoded_base58 find them, and their lengths.
unfoldable pub halves : List ℕ → Option ((ℕ × ℕ) × (ℕ × ℕ))
unfolding byte
halves sig = do
  r_length ← byte sig 3
  s_length ← byte sig (4 + r_length + 1)
  let r_offset = if r_length == 33 then 1 else 0
  let s_offset = if s_length == 33 then 1 else 0
  some ((4 + r_offset, r_length), (4 + r_length + 2 + s_offset, s_length))

-- eos_is_canonical. A length over 33 overruns the local arrays; one below 2 leaves r[1] unset.
unfoldable pub is_canonical : List ℕ → Option Bool
unfolding halves canonical_half
is_canonical sig = do
  ((r_at, r_length), (s_at, s_length)) ← halves sig
  if ltb 33 r_length then none else if ltb 33 s_length then none else (do
    r ← memcpy sig r_at r_length
    s ← memcpy sig s_at s_length
    r0 ← byte r 0
    r1 ← byte r 1
    s0 ← byte s 0
    s1 ← byte s 1
    some (canonical_half r0 r1 && canonical_half s0 s1))

-- eos_signature_to_encoded_base58: the bytes of `out` and the length.
unfoldable pub signature_to_encoded_base58 : List ℕ → ℕ → ℕ → Option (List ℕ × ℕ)
unfolding halves
signature_to_encoded_base58 sig outlen info = do
  ((r_at, _), (s_at, _)) ← halves sig
  r ← memcpy sig r_at 32
  s ← memcpy sig s_at 32
  let recovery = if bit_and info parity_odd == 0 then 27 else 28
  out ← write (replicate outlen 0) 0 (recovery ∷ (r ++ s))
  some (out, 65)

-- eos_compress_public_key on the 65 bytes of `W`; with less than 33 bytes of room it throws, which
-- is `none`.
unfoldable pub compress_public_key : List ℕ → List ℕ → ℕ → Option (List ℕ)
unfolding byte
compress_public_key w out outlen = if ltb outlen 33 then none else (do
  last ← byte w 64
  x ← memcpy w 1 32
  write out 0 ((if bit_and last 1 == 0 then 0x02 else 0x03) ∷ x))
