-- ===== src/Signing/Loop.antt =====
-- The signature that the host gets is the first canonical one.
use ledger_app_eos.Prelude.{
  ℕ, zero, suc, ◌+◌, ◌≤◌, ◌<◌, ◌≡◌, refl, sym, ap, ◌∙◌, true, false, Option, some, List, [], ◌∷◌,
  ◌++◌, length, drop, take, replicate, arith, ltb, length-append, length-drop, take-append,
}
use ledger_app_eos.Outcome.{done}
use ledger_app_eos.Types.{max_bip32_len}
use ledger_app_eos.Text.Buffer.{write}
use ledger_app_eos.Text.Summary.{write-over}
use ledger_app_eos.Keys.Canonical.{
  Half, half_bytes, IsHalf, IsFull, der, is_canonical_pair, compact, is_canonical-der,
  compact_signature, length-compact,
}
use ledger_app_eos.Device.{Device}
use ledger_app_eos.Context.{App}
use ledger_app_eos.Signing.{sign_loop, set_result_sign_tx}

-- The n-th signature with a key of a hash is DER of two numbers, of any length above one byte.
pub record Signs (device : Device) (key hash : List ℕ) (r s : ℕ → Half) (info : ℕ → ℕ)
    : Type 0 where
  pub r_half : (n : ℕ) → IsHalf (r n)
  pub s_half : (n : ℕ) → IsHalf (s n)
  pub signature : (n : ℕ) → device.ecdsa_sign key hash n ≡ (der (r n) (s n), info n)

-- The first canonical signature is the k-th, and its numbers have 32 bytes.
pub record IsFirst (r s : ℕ → Half) (k : ℕ) : Type 0 where
  pub refused : (n : ℕ) → n < k → is_canonical_pair (r n) (s n) ≡ false
  pub accepted : is_canonical_pair (r k) (s k) ≡ true
  pub r_full : IsFull (r k)
  pub s_full : IsFull (s k)

length-der : (r s : Half) → IsHalf r → IsHalf s → length (der r s) ≤ 72
length-der r s hr hs = omega (
  arith,
  hr.size,
  hs.size,
  hr.leading,
  hs.leading,
  length-append r.lead (r.first ∷ r.second ∷ r.others),
  length-append s.lead (s.first ∷ s.second ∷ s.others),
  length-append (half_bytes r) (0x02 ∷ length (half_bytes s) ∷ half_bytes s),
)

short_path : (n : ℕ) → n ≤ max_bip32_len → ltb max_bip32_len n ≡ false
short_path n h = ground arith

module _ (device : Device) (key hash : List ℕ) (r s : ℕ → Half) (info : ℕ → ℕ) (k : ℕ)
    (h : Signs device key hash r s info) (f : IsFirst r s k) where
  -- The buffer after the n-th signature.
  abbrev with_signature : List ℕ → ℕ → List ℕ
  with_signature signature n = der (r n) (s n) ++ drop (length (der (r n) (s n))) signature

  abbrev Room : List ℕ → ℕ → Type 0
  Room signature n = 1 ≤ length (drop (length (der (r n) (s n))) signature)

  has-Room : (signature : List ℕ) (n : ℕ) → length signature ≡ 164 → Room signature n
  has-Room signature n size = omega (
    arith,
    length-der (r n) (s n) (h.r_half n) (h.s_half n),
    size,
    length-drop (length (der (r n) (s n))) signature,
  )

  attempt :
      (rounds n : ℕ) (signature : List ℕ)
      → length signature ≡ 164
      → sign_loop device key hash (suc rounds) n signature
        ≡ (elim (is_canonical_pair (r n) (s n)) as (λ _. Option (List ℕ × ℕ)) [
          | true ↦ some (with_signature signature n, (device.ecdsa_sign key hash n).1)
          | false ↦ sign_loop device key hash rounds (n + 1) (with_signature signature n)
        ])
  unfolding sign_loop
  attempt rounds n signature size =
      rw
        (
          ap (λ (p : List ℕ × ℕ). p.0) (h.signature n),
          write-over [] signature (der (r n) (s n))
              (omega (arith, length-der (r n) (s n) (h.r_half n) (h.s_half n), size)),
          is_canonical-der (r n) (s n) (h.r_half n) (h.s_half n)
              (drop (length (der (r n) (s n))) signature) (has-Room signature n size),
        )
        refl

  sign_loop-first :
      (d rounds n : ℕ) (signature : List ℕ)
      → length signature ≡ 164
      → d < rounds
      → n + d ≡ k
      → (junk : List ℕ) × (1 ≤ length junk)
        × (sign_loop device key hash rounds n signature ≡ some (der (r k) (s k) ++ junk, info k))
  sign_loop-first d zero n signature size enough e = absurd (omega (arith, enough))
  sign_loop-first zero (suc rounds) n signature size enough e =
      let n_is_k : n ≡ k = omega (arith, e) in
      (
        drop (length (der (r k) (s k))) signature,
        has-Room signature k size,
        rw n_is_k (
            rw
              (
                attempt rounds k signature size,
                f.accepted,
                ap (λ (p : List ℕ × ℕ). p.1) (h.signature k),
              )
              refl),
      )
  sign_loop-first (suc d) (suc rounds) n signature size enough e =
      let size' : length (with_signature signature n) ≡ 164 = omega (
        arith,
        size,
        length-der (r n) (s n) (h.r_half n) (h.s_half n),
        length-append (der (r n) (s n)) (drop (length (der (r n) (s n))) signature),
        length-drop (length (der (r n) (s n))) signature,
      ) in
      let (junk, room, found) =
        sign_loop-first d rounds (n + 1) (with_signature signature n) size' (omega (arith, enough))
          (omega (arith, e)) in
      (junk, room, rw (attempt rounds n signature size, f.refused n (omega (arith, e))) found)

module _ (device : Device) (r sh : ℕ → Half) (info : ℕ → ℕ) (k : ℕ) where
  -- Once the user agrees, with a path that fits its array and a k-th signature that is the first
  -- canonical one, more than k rounds of the loop end with that signature: its compact form
  -- stands at the start of the APDU buffer, nothing else changes, and the length is 65. The SDK's
  -- signatures are DER of two numbers, each of more than one byte, and those of the k-th take 32 bytes:
  -- where that signature has a shorter number, which the canonical test passes, the app returns
  -- something else, and nothing is said here.
  pub set_result_sign_tx-first :
      (rounds : ℕ) (s : App)
      → s.tx.bip32_len ≤ max_bip32_len
      → Signs device (device.derive_node (take s.tx.bip32_len s.tx.bip32)) s.tx.hash r sh info
      → IsFirst r sh k
      → k < rounds
      → 65 ≤ length s.apdu
      → set_result_sign_tx device rounds s
        ≡ done 65 (record s { apdu = compact (r k) (sh k) (info k) ++ drop 65 s.apdu })
  unfolding set_result_sign_tx
  set_result_sign_tx-first rounds s path h f enough fits =
      let key = device.derive_node (take s.tx.bip32_len s.tx.bip32) in
      let (junk, room, found) =
        sign_loop-first device key s.tx.hash r sh info k h f k rounds 0 (replicate 164 0) refl
          enough (omega arith) in
      let signed = compact (r k) (sh k) (info k) in
      let size : length signed ≡ 65 =
        length-compact (r k) (sh k) (h.r_half k) (h.s_half k) junk (info k) f.r_full f.s_full
          f.accepted in
      let cut : take 65 (signed ++ drop 65 (replicate 164 0)) ≡ signed =
        ap (λ (n : ℕ). take n (signed ++ drop 65 (replicate 164 0))) (sym size)
        ∙ take-append signed (drop 65 (replicate 164 0)) in
      let wrote : write s.apdu 0 signed ≡ some (signed ++ drop 65 s.apdu) =
        write-over [] s.apdu signed (omega (arith, size, fits))
        ∙ ap (λ (n : ℕ). some (signed ++ drop n s.apdu)) size in
      let short : ltb max_bip32_len s.tx.bip32_len ≡ false = short_path s.tx.bip32_len path in
      let packed =
        compact_signature (r k) (sh k) (h.r_half k) (h.s_half k) junk (info k) f.r_full f.s_full
          f.accepted in
      rw (short, found, packed, cut, wrote) refl
