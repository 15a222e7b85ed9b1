-- ===== src/Runs/Table.antt =====
-- The theorems on the whole of an action's screens and on an asset's text at concrete inputs.
use ledger_app_eos.Prelude.{
  ℕ, ◌+◌, ◌*◌, ◌-◌, ◌^◌, length, All, ◌≡◌, refl, some, List, [], ◌∷◌, ◌++◌, replicate, arith,
}
use ledger_app_eos.Text.Digits.{IsDigit, decimal}
use ledger_app_eos.Format.Amount.{pointed, asset_text-decimal}
use ledger_app_eos.Memory.{little_endian, ◌>>=◌, memcpy, read_uint}
use ledger_app_eos.Text.{print_summary}
use ledger_app_eos.Format.{run_formatter}
use ledger_app_eos.Types.{TxContext, Operation, VoteproducerAction}
use ledger_app_eos.Text.Buffer.{codes, text, write, strlen}
use ledger_app_eos.Format.State.{Formatter}
use ledger_app_eos.Format.Values.{llabs, asset_text, name_text}
use ledger_app_eos.Format.Walk.{all_fields, walk}
use ledger_app_eos.Format.Table.{fields_of}
use ledger_app_eos.Format.Table.Whole.{walk-fields_of}
use ledger_app_eos.Format.Table.Votes.{choice_fields, walk-producers}
use ledger_app_eos.Runs.Screens.{shown_text, four_eos, frame, context}

abbrev eosio : ℕ
eosio = 6138663577826885632

walk-fields_of_example : walk (λ bytes. bytes) 50 [] frame context 8 0 (some Formatter.transfer) ≡ (
    all_fields (fields_of (λ bytes. bytes) 50 [] frame context context.op_details.op) >>= λ rest.
    some (([], []) ∷ rest))
walk-fields_of_example =
    walk-fields_of (λ bytes. bytes) 50 [] frame context context.op_details.op refl tt

-- Two producers.
abbrev producers : List ℕ
producers =
    let eosio_bytes = 0 ∷ 0 ∷ 0 ∷ 0 ∷ 0 ∷ 0xEA ∷ 0x30 ∷ 0x55 ∷ [] in eosio_bytes ++ eosio_bytes

abbrev vote : VoteproducerAction
vote = record { voter = eosio; proxy = 0; num_producers = 2; producers = 0 }

abbrev vote_context : TxContext
vote_context = record context {
  op_details = record context.op_details { op = Operation.voteproducer vote };
}

vote_test :
    walk (λ bytes. bytes) 50 producers frame vote_context 6 0 (some Formatter.voteproducer)
    ≡ some (
        ([], [])
        ∷ (codes "Vote Producer", codes "eosio")
        ∷ (codes " Producers ", codes "eosio")
        ∷ (codes " Producers ", codes "eosio")
        ∷ [])
unfolding walk text run_formatter strlen write print_summary memcpy read_uint
vote_test = refl

no_proxy : name_text frame 0 ≡ some (0 ∷ replicate 12 b'.')
unfolding name_text strlen
no_proxy = refl

walk-producers_example :
    walk (λ bytes. bytes) 50 producers frame vote_context 6 0 (some Formatter.voteproducer) ≡ (
      all_fields (
        (codes "Vote Producer", name_text frame eosio)
        ∷ choice_fields
            (λ bytes. bytes)
            50
            producers
            frame
            vote_context
            vote
            (0 ∷ replicate 12 b'.'))
      >>= λ rest. some (([], []) ∷ rest))
walk-producers_example =
    walk-producers (λ bytes. bytes) 50 producers frame vote_context vote (0 ∷ replicate 12 b'.') 6
      refl no_proxy (omega arith) (omega arith)

-- 12345 with the symbol 4,EOS
asset_text-decimal_example :
    (whole fraction buffer : List ℕ) × (asset_text frame
        (record { amount = 12345; symbol = 4 + 256 * little_endian (codes "EOS") })
        32
      ≡ some buffer)
    × (text buffer ≡ (whole ++ pointed fraction) ++ (b' ' ∷ codes "EOS"))
    × All IsDigit (whole ++ fraction)
    × (length fraction ≡ 4)
    × (decimal 0 (whole ++ fraction) ≡ 12345)
unfolding llabs
asset_text-decimal_example =
    asset_text-decimal frame 12345 4 12345 32 (codes "EOS") refl (omega arith)
      ((omega arith, omega arith), ((omega arith, omega arith), ((omega arith, omega arith), tt)))
      (omega arith) (omega arith)

-- The sign of an amount is not shown.
negative_test :
    shown_text (asset_text frame (record { amount = 2 ^ 64 - 12345; symbol = four_eos }) 64)
    ≡ some (codes "1.2345 EOS")
unfolding asset_text text write memcpy strlen
negative_test = refl
