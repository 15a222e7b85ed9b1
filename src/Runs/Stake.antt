-- ===== src/Runs/Stake.antt =====
-- The transaction of test/tx_delegatebw.hex, in the wire format and parsed.
use ledger_app_eos.Prelude.{ℕ, ◌≡◌, refl, List, [], ◌∷◌, arith}
use ledger_app_eos.Outcome.{done}
use ledger_app_eos.Types.{DelegatebwAction, TxContext, delegatebw}
use ledger_app_eos.Memory.{little_endian}
use ledger_app_eos.Memory.Words.{le_bytes}
use ledger_app_eos.Parser.{action_delegatebw}
use ledger_app_eos.Parser.Wire.{
  Body, Action, IsAction, Transaction, IsTransaction, transaction_bytes, all_details, header_size,
}
use ledger_app_eos.Parser.Tx.{parse_calls, parse_tx-transaction_bytes}
use ledger_app_eos.Runs.{one_byte, one_byte-IsCount, fresh_context}

abbrev stake : DelegatebwAction
stake = record {
  from = 0x5baf8cd7478b9010;
  receiver = 0x347386b9794ab610;
  stake_net_quantity = record { amount = 1; symbol = 0x53595304 };
  stake_cpu_quantity = record { amount = 1; symbol = 0x53595304 };
  transfer = 0;
}

abbrev delegatebw_action : Action
delegatebw_action = record {
  head = record {
    name = action_delegatebw;
    account = 0x5530ea0000000000;
    authorizations = one_byte 1;
    authorization_bytes =
        16 ∷ 144 ∷ 139 ∷ 71 ∷ 215 ∷ 140 ∷ 175 ∷ 91 ∷ 0 ∷ 0 ∷ 0 ∷ 0 ∷ 168 ∷ 237 ∷ 50 ∷ 50 ∷ [];
    size = one_byte 49;
  };
  body = Body.delegatebw stake;
  extra = [];
}

abbrev delegatebw_tx : Transaction
delegatebw_tx = record {
  header = record {
    head =
        3 ∷ 143 ∷ 75 ∷ 15 ∷ 200 ∷ 255 ∷ 24 ∷ 164 ∷ 240 ∷ 132 ∷ 42 ∷ 143 ∷ 5 ∷ 100 ∷ 97 ∷ 31 ∷ 110
        ∷ 150 ∷ 232 ∷ 83 ∷ 89 ∷ 1 ∷ 221 ∷ 69 ∷ 228 ∷ 58 ∷ 200 ∷ 105 ∷ 26 ∷ 28 ∷ 77 ∷ 202 ∷ 142 ∷ 76
        ∷ 129 ∷ 91 ∷ 133 ∷ 243 ∷ 148 ∷ 64 ∷ 252 ∷ 152 ∷ [];
    net_usage_words = one_byte 0;
    max_cpu_usage_ms = one_byte 0;
    delay_sec = one_byte 0;
    context_free = one_byte 0;
    count = one_byte 1;
  };
  actions = delegatebw_action ∷ [];
}

-- The bytes of the file.
abbrev delegatebw_file : List ℕ
delegatebw_file =
    3 ∷ 143 ∷ 75 ∷ 15 ∷ 200 ∷ 255 ∷ 24 ∷ 164 ∷ 240 ∷ 132 ∷ 42 ∷ 143 ∷ 5 ∷ 100 ∷ 97 ∷ 31 ∷ 110 ∷ 150
    ∷ 232 ∷ 83 ∷ 89 ∷ 1 ∷ 221 ∷ 69 ∷ 228 ∷ 58 ∷ 200 ∷ 105 ∷ 26 ∷ 28 ∷ 77 ∷ 202 ∷ 142 ∷ 76 ∷ 129 ∷ 91
    ∷ 133 ∷ 243 ∷ 148 ∷ 64 ∷ 252 ∷ 152 ∷ 0 ∷ 0 ∷ 0 ∷ 0 ∷ 1 ∷ 0 ∷ 0 ∷ 0 ∷ 0 ∷ 0 ∷ 234 ∷ 48 ∷ 85 ∷ 0
    ∷ 0 ∷ 63 ∷ 42 ∷ 27 ∷ 166 ∷ 162 ∷ 74 ∷ 1 ∷ 16 ∷ 144 ∷ 139 ∷ 71 ∷ 215 ∷ 140 ∷ 175 ∷ 91 ∷ 0 ∷ 0 ∷ 0
    ∷ 0 ∷ 168 ∷ 237 ∷ 50 ∷ 50 ∷ 49 ∷ 16 ∷ 144 ∷ 139 ∷ 71 ∷ 215 ∷ 140 ∷ 175 ∷ 91 ∷ 16 ∷ 182 ∷ 74
    ∷ 121 ∷ 185 ∷ 134 ∷ 115 ∷ 52 ∷ 1 ∷ 0 ∷ 0 ∷ 0 ∷ 0 ∷ 0 ∷ 0 ∷ 0 ∷ 4 ∷ 83 ∷ 89 ∷ 83 ∷ 0 ∷ 0 ∷ 0 ∷ 0
    ∷ 1 ∷ 0 ∷ 0 ∷ 0 ∷ 0 ∷ 0 ∷ 0 ∷ 0 ∷ 4 ∷ 83 ∷ 89 ∷ 83 ∷ 0 ∷ 0 ∷ 0 ∷ 0 ∷ 0 ∷ 0 ∷ 0 ∷ 0 ∷ 0 ∷ 0 ∷ 0
    ∷ 0 ∷ 0 ∷ 0 ∷ 0 ∷ 0 ∷ 0 ∷ 0 ∷ 0 ∷ 0 ∷ 0 ∷ 0 ∷ 0 ∷ 0 ∷ 0 ∷ 0 ∷ 0 ∷ 0 ∷ 0 ∷ 0 ∷ 0 ∷ 0 ∷ 0 ∷ 0 ∷ 0
    ∷ 0 ∷ 0 ∷ 0 ∷ []

-- The zeros behind the transaction.
abbrev delegatebw_tail : List ℕ
delegatebw_tail =
    0 ∷ 0 ∷ 0 ∷ 0 ∷ 0 ∷ 0 ∷ 0 ∷ 0 ∷ 0 ∷ 0 ∷ 0 ∷ 0 ∷ 0 ∷ 0 ∷ 0 ∷ 0 ∷ 0 ∷ 0 ∷ 0 ∷ 0 ∷ 0 ∷ 0 ∷ 0 ∷ 0
    ∷ 0 ∷ 0 ∷ 0 ∷ 0 ∷ 0 ∷ 0 ∷ 0 ∷ 0 ∷ 0 ∷ []

-- The wire format describes the file: the action's data has 49 bytes, of which the bool is the last.
delegatebw_tx-file : transaction_bytes delegatebw_tx delegatebw_tail ≡ delegatebw_file
unfolding le_bytes
delegatebw_tx-file = refl

-- With zeros behind it the bool is read as it is; with the byte 1 behind it, the number is 256.
transfer-zeros :
    all_details (header_size delegatebw_tx.header) delegatebw_tx.actions delegatebw_tail
    ≡ record {
      account = 0x5530ea0000000000;
      name = action_delegatebw;
      type = 4;
      op = delegatebw stake;
    }
      ∷ []
unfolding little_endian
transfer-zeros = refl

transfer-behind :
    all_details (header_size delegatebw_tx.header) delegatebw_tx.actions (1 ∷ 0 ∷ 0 ∷ [])
    ≡ record {
      account = 0x5530ea0000000000;
      name = action_delegatebw;
      type = 4;
      op = delegatebw (record stake { transfer = 256 });
    }
      ∷ []
unfolding little_endian
transfer-behind = refl

delegatebw_action-IsAction : IsAction delegatebw_action
delegatebw_action-IsAction = record {
  head = record {
    name = omega arith;
    account = omega arith;
    authorizations = one_byte-IsCount 1 (omega arith);
    authorization_bytes = refl;
    size = one_byte-IsCount 49 (omega arith);
    fits = omega arith;
  };
  name = refl;
  exact = unfold le_bytes in refl;
  body = omega arith;
  fits = omega arith;
}

delegatebw_tx-IsTransaction : IsTransaction delegatebw_tx
delegatebw_tx-IsTransaction = record {
  header = record {
    head = refl;
    net_usage_words = one_byte-IsCount 0 (omega arith);
    max_cpu_usage_ms = one_byte-IsCount 0 (omega arith);
    delay_sec = one_byte-IsCount 0 (omega arith);
    context_free = one_byte-IsCount 0 (omega arith);
    count = one_byte-IsCount 1 (omega arith);
  };
  counted = refl;
  some_action = omega arith;
  few_actions = omega arith;
  actions = (delegatebw_action-IsAction, tt);
  fits = omega arith;
}

parse_tx-transaction_bytes_example :
    (end : TxContext) × (parse_calls 1
        (transaction_bytes delegatebw_tx delegatebw_tail)
        fresh_context
      ≡ done
          (all_details (header_size delegatebw_tx.header) (delegatebw_action ∷ []) delegatebw_tail)
          end)
    × (end.offset ≡ 0)
    × (end.op_idx ≡ end.op_count)
    × (end.op_count ≡ 1)
parse_tx-transaction_bytes_example =
    parse_tx-transaction_bytes delegatebw_tx delegatebw_tail fresh_context
      delegatebw_tx-IsTransaction (omega arith) refl
