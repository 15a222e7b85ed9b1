-- ===== src/Runs/Keys.antt =====
-- Base 58 and base 32 at concrete inputs.
use ledger_app_eos.Prelude.{
  ℕ, ◌+◌, ◌≡◌, refl, arith, some, List, [], ◌∷◌, ◌++◌, length, drop, replicate, true,
}
use ledger_app_eos.Text.Base32.{chars_of, AreSymbols, key_content, encode_key-text}
use ledger_app_eos.Text.Address.{encode_key}
use ledger_app_eos.Text.Buffer.{text}
use ledger_app_eos.Base58.{b58enc, leading_zeros}
use ledger_app_eos.Base58.Conversion.{AreDigits, number}
use ledger_app_eos.Base58.Encoded.{Leads, encoded_text, b58enc-number}

abbrev bin : List ℕ
bin = 0 ∷ 1 ∷ 2 ∷ []

abbrev b58 : List ℕ
b58 = replicate 12 7

b58enc-number_example :
    (ds : List ℕ) × (b58enc b58 10 bin
      ≡ some (
        encoded_text (leading_zeros bin) ds
            ++ drop (length (encoded_text (leading_zeros bin) ds)) b58,
        leading_zeros bin + length ds + 1,
        true,
      ))
    × AreDigits ds
    × Leads ds
    × (number 58 0 ds ≡ number 256 0 bin)
unfolding leading_zeros
b58enc-number_example =
    b58enc-number bin b58 10 (omega arith, (omega arith, (omega arith, tt))) (omega arith)
      (omega arith) (omega arith)

encode_key-text_example :
    (buffer : List ℕ) × (ds : List ℕ) × (encode_key (replicate 33 7) (replicate 57 1) 48
      ≡ some buffer)
    × (text buffer ≡ chars_of ds)
    × AreSymbols ds
    × (length ds ≡ 56)
    × (number 32 0 ds ≡ number 256 0 (key_content (replicate 32 7) 48))
encode_key-text_example =
    encode_key-text (replicate 33 7) (replicate 32 7) (7 ∷ []) (replicate 57 1) 48 refl refl
      (omega arith) (omega arith) refl
