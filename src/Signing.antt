-- ===== src/Signing.antt =====
-- The signature of an approved transaction (set_result_sign_tx of eos.c). The wiping of local keys is
-- left out: nothing reads them afterwards.
pub mod Loop
use ledger_app_eos.Prelude.{
  ℕ, zero, suc, ◌+◌, Bool, true, false, Option, none, some, List, replicate, take, ltb,
  if◌then◌else◌,
}
use ledger_app_eos.Memory
use ledger_app_eos.Outcome.{Command, ◌>>=◌, ◌>>◌, pure, modify, gets, reads}
use ledger_app_eos.Types.{TxContext, max_bip32_len}
use ledger_app_eos.Text.Buffer.{write}
use ledger_app_eos.Keys.{is_canonical, signature_to_encoded_base58}
use ledger_app_eos.Device.{Device}
use ledger_app_eos.Context.{App}

module _ (device : Device) where
  -- The loop of set_result_sign_tx, for `rounds` signatures from the n-th on: the buffer `signature`
  -- with the first canonical one, and its info.
  unfoldable pub sign_loop : List ℕ → List ℕ → ℕ → ℕ → List ℕ → Option (List ℕ × ℕ)
  sign_loop key hash zero n signature = none
  sign_loop key hash (suc rounds) n signature =
      let (der, info) = device.ecdsa_sign key hash n in
      Memory.◌>>=◌ (write signature 0 der) λ signature'.
        Memory.◌>>=◌ (is_canonical signature') λ canonical. elim canonical [
          | true ↦ some (signature', info)
          | false ↦ sign_loop key hash rounds (n + 1) signature'
        ]

  -- A path longer than its array is read past the array's end.
  unfoldable pub set_result_sign_tx : ℕ → Command App ℕ
  set_result_sign_tx rounds = do
    tx ← gets (λ s. s.tx)
    path ←
        reads (if ltb max_bip32_len tx.bip32_len then none else some (take tx.bip32_len tx.bip32))
    let key = device.derive_node path
    (signature, info) ← reads (sign_loop key tx.hash rounds 0 (replicate 164 0))
    (eos_signature, n) ← reads (signature_to_encoded_base58 signature 164 info)
    apdu ← gets (λ s. s.apdu)
    apdu ← reads (write apdu 0 (take n eos_signature))
    modify (λ (s : App). record s { apdu = apdu })
    pure n
