-- ===== src/Runs/Screens.antt =====
-- Tests of the screens' texts, and the theorems on them at concrete inputs.
use ledger_app_eos.Prelude.{
  ℕ, ◌+◌, ◌*◌, ◌≤◌, ◌-◌, ◌≡◌, refl, true, Option, none, some, List, [], ◌∷◌, ◌++◌, replicate,
  length, arith, All,
}
use ledger_app_eos.Memory.{◌>>=◌, memcpy}
use ledger_app_eos.Types.{Asset, Operation, TxContext}
use ledger_app_eos.Text.{Frame, print_summary, print_uint, print_binary_summary}
use ledger_app_eos.Text.Buffer.{codes, text, write, strlen}
use ledger_app_eos.Text.Digits.{IsDigit, decimal, print_uint-decimal}
use ledger_app_eos.Text.Name.{name_shown, parse_name-thirteenth}
use ledger_app_eos.Text.Account.{name_value, char_of, parse_name-letters}
use mathlib.Core.List.{reverse, map}
use ledger_app_eos.Text.Summary.{print_summary-whole, print_summary-ends}
use ledger_app_eos.Text.Address.{encode_public_key}
use ledger_app_eos.Base58.{b58enc}
use ledger_app_eos.Format.{run_formatter}
use ledger_app_eos.Format.State.{Formatter, Display}
use ledger_app_eos.Format.Values.{asset_text, name_text}
use ledger_app_eos.Format.Screens.{IfSome, Fewer, screens_left, producer_count}
use ledger_app_eos.Format.Order.{run_formatter-Fewer}

abbrev pub frame : Frame
frame = record { below = 1; above = 0; stale = λ i. b'x' }

-- 4,EOS and 5,EOS
abbrev pub four_eos : ℕ
four_eos = 4 + 256 * (b'E' + 256 * (b'O' + 256 * b'S'))

abbrev pub price : Asset
price = record { amount = 12345; symbol = four_eos }

abbrev fine_price : Asset
fine_price = record { amount = 12345678; symbol = four_eos + 1 }

abbrev pub shown_text : Option (List ℕ) → Option (List ℕ)
shown_text buffer = do out ← buffer; some (text out)

asset_test : shown_text (asset_text frame price 64) ≡ some (codes "1.2345 EOS")
unfolding asset_text text write memcpy strlen
asset_test = refl

-- Five decimals lose the end of their text: five bytes are moved, and the 0 is the sixth.
five_decimals_test : asset_text frame fine_price 64 ≡ none
unfolding asset_text write memcpy strlen
five_decimals_test = refl

name_test : shown_text (name_text frame 6138663577826885632) ≡ some (codes "eosio")
unfolding name_text text strlen
name_test = refl

base58_test :
    b58enc (replicate 12 0) 12 (codes "hello") ≡ some (codes "Cn8eVZg" ++ replicate 5 0, 8, true)
unfolding b58enc write
base58_test = refl

hash_test :
    shown_text (
      print_binary_summary
        (0 ∷ 1 ∷ 2 ∷ 3 ∷ replicate 24 7 ++ (252 ∷ 253 ∷ 254 ∷ 255 ∷ []))
        (replicate 89 0)
        32)
    ≡ some (codes "0x00010203..FCFDFEFF")
unfolding print_binary_summary text write memcpy
hash_test = refl

address_test :
    shown_text (encode_public_key (replicate 32 0) (replicate 57 1))
    ≡ some (codes "GAAAAAAAAAAAAAAAAAAAAAAAAAAAAAAAAAAAAAAAAAAAAAAAAAAAAWHF")
unfolding encode_public_key text write memcpy
address_test = refl

abbrev pub context : TxContext
context = record {
  bip32_len = 0;
  bip32 = [];
  raw = [];
  raw_length = 0;
  hash = [];
  offset = 0;
  op_details = record {
    account = 0;
    name = 0;
    type = 0;
    op =
        Operation.transfer
          (record { from = 6138663577826885632; to = 6138663577826885632; quantity = price });
  };
  tx_details = record {
    expiration = 0;
    ref_block_num = 0;
    ref_block_prefix = 0;
    net_usage_words = 0;
    max_cpu_usage_ms = 0;
    delay_sec = 0;
    sequence_number = 0;
  };
  op_count = 1;
  op_idx = 1;
}

abbrev pub blank_display : Display
blank_display = record {
  op_caption = replicate 20 0;
  detail_caption = replicate 20 0;
  detail_value = replicate 89 0;
  current_producer_index = 0;
  formatter = none;
}

run_formatter-Fewer_example :
    IfSome
      (Fewer context (screens_left (producer_count context) 0 (some Formatter.transfer_from)))
      (run_formatter (λ bytes. bytes) 50 [] frame context Formatter.transfer_from blank_display)
run_formatter-Fewer_example =
    run_formatter-Fewer (λ bytes. bytes) 50 [] frame context Formatter.transfer_from blank_display
      refl (omega arith)

parse_name-thirteenth_example :
    name_shown frame 6138663577826885632 ≡ name_shown frame 6138663577826885635
parse_name-thirteenth_example =
    parse_name-thirteenth frame 6138663577826885632 6138663577826885635 refl

print_uint-decimal_example :
    (ds : List ℕ) × (print_uint 1540 (replicate 20 0) 3 ≡ write (replicate 20 0) 3 (ds ++ (0 ∷ [])))
    × All IsDigit ds
    × (decimal 0 ds ≡ 1540)
    × (length ds ≤ 20)
print_uint-decimal_example = print_uint-decimal 1540 (replicate 20 0) 3 (omega arith)

print_summary-whole_example :
    print_summary (codes "eosio" ++ (0 ∷ 7 ∷ [])) (replicate 89 0) 6 6
    ≡ some (codes "eosio" ++ replicate (89 - 5) 0)
print_summary-whole_example =
    print_summary-whole (codes "eosio") (7 ∷ []) (omega arith) (omega arith)

print_summary-ends_example :
    print_summary (codes "abcdef---uvwxyz" ++ (0 ∷ [])) (replicate 89 0) 6 6
    ≡ some (codes "abcdef" ++ (codes ".." ++ (codes "uvwxyz" ++ replicate 75 0)))
print_summary-ends_example =
    print_summary-ends b'a' b'b' b'c' b'd' b'e' b'f' b'u' b'v' b'w' b'x' b'y' b'z' (codes "---") []
      (omega arith) (omega arith) (omega arith)

-- bob
parse_name-letters_example :
    name_shown frame (name_value 9 (7 ∷ 20 ∷ 7 ∷ []) 0)
    ≡ some (reverse (map char_of (7 ∷ 20 ∷ 7 ∷ [])), 3)
parse_name-letters_example =
    parse_name-letters frame 9 7 0 (20 ∷ 7 ∷ []) refl
      (omega arith, (omega arith, (omega arith, tt))) (λ e. absurd (omega (arith, e))) refl
      (omega arith)
