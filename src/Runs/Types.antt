-- ===== src/Runs/Types.antt =====
-- The theorems on the types of parsed values at a concrete input, and tests of print_amount.
use ledger_app_eos.Prelude.{◌≡◌, refl, arith, none, some, [], ◌∷◌, ◌++◌, replicate}
use ledger_app_eos.Outcome.{Leaves, done}
use ledger_app_eos.Text.Buffer.{codes, write}
use ledger_app_eos.Text.Coins.{print_amount}
use ledger_app_eos.Parser.{parse_tx}
use ledger_app_eos.Parser.Typed.{IsTyped, Any, parse_tx-IsTyped}
use ledger_app_eos.Memory.{◌>>=◌}
use ledger_app_eos.Parser.Typed.{IsDetails}
use ledger_app_eos.Format.{format_confirm_operation, run_formatter}
use ledger_app_eos.Format.Chosen.{formatter_of, format_confirm_operation-formatter_of}
use ledger_app_eos.Runs.Screens.{frame, blank_display}
use ledger_app_eos.Runs.BlueScreens.{parsed_file}
use ledger_app_eos.Runs.{file_bytes, fresh_context}

fresh-IsTyped : IsTyped fresh_context
fresh-IsTyped = record {
  op_count = omega arith;
  op_idx = omega arith;
  offset = omega arith;
  details = record { account = omega arith; name = omega arith; op = tt; tagged = tt };
}

parse_tx-IsTyped_example : Leaves IsTyped Any (parse_tx file_bytes fresh_context)
parse_tx-IsTyped_example = parse_tx-IsTyped file_bytes (omega arith) fresh_context fresh-IsTyped

-- An amount of ten-millionths, with and without the name of an asset.
amount_test :
    (print_amount 12345000 none (replicate 30 7) tt
      ≡ done (codes "1.2345" ++ (0 ∷ codes "0" ++ (b'0' ∷ []) ++ replicate 21 7)) tt)
    × (print_amount 30000000 (some (codes "EOS")) (replicate 30 7) tt
        ≡ done (codes "3 EOS" ++ (0 ∷ codes "000" ++ replicate 21 7)) tt)
unfolding print_amount write
amount_test = (refl, refl)

-- The file's transfer, as it is parsed.
parsed-IsDetails : IsDetails parsed_file.op_details
parsed-IsDetails = record {
  account = omega arith;
  name = omega arith;
  op = omega arith;
  tagged = refl;
}

format_confirm_operation-formatter_of_example :
    format_confirm_operation (λ bytes. bytes) 50 [] frame parsed_file blank_display ≡ (
      formatter_of parsed_file.op_details.op >>= λ f.
      run_formatter (λ bytes. bytes) 50 [] frame parsed_file f blank_display)
format_confirm_operation-formatter_of_example =
    format_confirm_operation-formatter_of (λ bytes. bytes) 50 [] frame parsed_file blank_display
      (omega arith) parsed-IsDetails tt
