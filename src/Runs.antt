-- ===== src/Runs.antt =====
-- The transaction of test/tx_transfer.hex, concrete runs of the parser, and its theorems at
-- concrete inputs.
pub mod Screens
pub mod Host
pub mod Upload
pub mod Session
pub mod Approval
pub mod Keys
pub mod Table
pub mod BlueScreens
pub mod Types
pub mod Unplugged
pub mod Stake
use ledger_app_eos.Prelude.{
  ℕ, ◌+◌, ◌<◌, ◌≡◌, refl, some, List, [], ◌∷◌, ◌++◌, length, drop, arith, true,
}
use ledger_app_eos.Outcome.{done, thrown, Leaves}
use ledger_app_eos.Types.{TransferAction, TxContext, blank, transfer}
use ledger_app_eos.Memory.{read_uint}
use ledger_app_eos.Memory.Words.{le_bytes}
use ledger_app_eos.Varint.{varint_encode, varint_encoding_length, varint_decode, parse_varint32}
use ledger_app_eos.Varint.Decode.{last, more, Decoded, varint_decode_sound}
use ledger_app_eos.Varint.Encode.{varint_decode-encode}
use ledger_app_eos.Parser.{parse_tx, parse_op, parse_header, cleared_tx_details, action_transfer}
use ledger_app_eos.Parser.Actions.{parse_transfer, parse_asset}
use ledger_app_eos.Parser.Wire.{
  Count, IsCount, Body, ActionHead, IsActionHead, action_head_bytes, Action, IsAction, action_bytes,
  action_size, details, Header, IsHeader, header_bytes, Transaction, transaction_bytes, header_size,
  all_details,
}
use ledger_app_eos.Parser.Op.{parse_op-action_bytes}
use ledger_app_eos.Parser.Head.{behind_header, refused_header, parse_header-header_bytes}
use ledger_app_eos.Parser.Tx.{parse_calls, parse_tx-transaction_bytes}
use ledger_app_eos.Parser.Frame.{SameInput, IsParserError, parse_tx-Leaves}
use ledger_app_eos.Parser.Errors.{
  refused_action, parse_tx-unknown_action, parse_tx-too_many_actions,
}

abbrev pub one_byte : ℕ → Count
one_byte n = record { value = n; bytes = n ∷ [] }

abbrev memo_transfer : TransferAction
memo_transfer = record {
  from = 0x5baf8cd7478b9010;
  to = 0x347386b9794ab610;
  quantity = record { amount = 50000; symbol = 0x534f4504 };
}

-- A transfer with the memo "Jungle Dude".
abbrev transfer_action : Action
transfer_action = record {
  head = record {
    name = action_transfer;
    account = 0x5530ea033482a600;
    authorizations = one_byte 1;
    authorization_bytes =
        16 ∷ 144 ∷ 139 ∷ 71 ∷ 215 ∷ 140 ∷ 175 ∷ 91 ∷ 0 ∷ 0 ∷ 0 ∷ 0 ∷ 168 ∷ 237 ∷ 50 ∷ 50 ∷ [];
    size = one_byte 44;
  };
  body = Body.transfer memo_transfer;
  extra = 11 ∷ 74 ∷ 117 ∷ 110 ∷ 103 ∷ 108 ∷ 101 ∷ 32 ∷ 68 ∷ 117 ∷ 100 ∷ 101 ∷ [];
}

abbrev transfer_tx : Transaction
transfer_tx = record {
  header = record {
    head =
        3 ∷ 143 ∷ 75 ∷ 15 ∷ 200 ∷ 255 ∷ 24 ∷ 164 ∷ 240 ∷ 132 ∷ 42 ∷ 143 ∷ 5 ∷ 100 ∷ 97 ∷ 31 ∷ 110
        ∷ 150 ∷ 232 ∷ 83 ∷ 89 ∷ 1 ∷ 221 ∷ 69 ∷ 228 ∷ 58 ∷ 200 ∷ 105 ∷ 26 ∷ 28 ∷ 77 ∷ 202 ∷ 193 ∷ 195
        ∷ 126 ∷ 91 ∷ 175 ∷ 67 ∷ 223 ∷ 204 ∷ 248 ∷ 88 ∷ [];
    net_usage_words = one_byte 0;
    max_cpu_usage_ms = one_byte 0;
    delay_sec = one_byte 0;
    context_free = one_byte 0;
    count = one_byte 1;
  };
  actions = transfer_action ∷ [];
}

-- The bytes of the file.
abbrev file_bytes : List ℕ
file_bytes =
    3 ∷ 143 ∷ 75 ∷ 15 ∷ 200 ∷ 255 ∷ 24 ∷ 164 ∷ 240 ∷ 132 ∷ 42 ∷ 143 ∷ 5 ∷ 100 ∷ 97 ∷ 31 ∷ 110 ∷ 150
    ∷ 232 ∷ 83 ∷ 89 ∷ 1 ∷ 221 ∷ 69 ∷ 228 ∷ 58 ∷ 200 ∷ 105 ∷ 26 ∷ 28 ∷ 77 ∷ 202 ∷ 193 ∷ 195 ∷ 126
    ∷ 91 ∷ 175 ∷ 67 ∷ 223 ∷ 204 ∷ 248 ∷ 88 ∷ 0 ∷ 0 ∷ 0 ∷ 0 ∷ 1 ∷ 0 ∷ 166 ∷ 130 ∷ 52 ∷ 3 ∷ 234 ∷ 48
    ∷ 85 ∷ 0 ∷ 0 ∷ 0 ∷ 87 ∷ 45 ∷ 60 ∷ 205 ∷ 205 ∷ 1 ∷ 16 ∷ 144 ∷ 139 ∷ 71 ∷ 215 ∷ 140 ∷ 175 ∷ 91 ∷ 0
    ∷ 0 ∷ 0 ∷ 0 ∷ 168 ∷ 237 ∷ 50 ∷ 50 ∷ 44 ∷ 16 ∷ 144 ∷ 139 ∷ 71 ∷ 215 ∷ 140 ∷ 175 ∷ 91 ∷ 16 ∷ 182
    ∷ 74 ∷ 121 ∷ 185 ∷ 134 ∷ 115 ∷ 52 ∷ 80 ∷ 195 ∷ 0 ∷ 0 ∷ 0 ∷ 0 ∷ 0 ∷ 0 ∷ 4 ∷ 69 ∷ 79 ∷ 83 ∷ 0 ∷ 0
    ∷ 0 ∷ 0 ∷ 11 ∷ 74 ∷ 117 ∷ 110 ∷ 103 ∷ 108 ∷ 101 ∷ 32 ∷ 68 ∷ 117 ∷ 100 ∷ 101 ∷ 0 ∷ 0 ∷ 0 ∷ 0 ∷ 0
    ∷ 0 ∷ 0 ∷ 0 ∷ 0 ∷ 0 ∷ 0 ∷ 0 ∷ 0 ∷ 0 ∷ 0 ∷ 0 ∷ 0 ∷ 0 ∷ 0 ∷ 0 ∷ 0 ∷ 0 ∷ 0 ∷ 0 ∷ 0 ∷ 0 ∷ 0 ∷ 0 ∷ 0
    ∷ 0 ∷ 0 ∷ 0 ∷ 0 ∷ []

abbrev file_tail : List ℕ
file_tail =
    0 ∷ 0 ∷ 0 ∷ 0 ∷ 0 ∷ 0 ∷ 0 ∷ 0 ∷ 0 ∷ 0 ∷ 0 ∷ 0 ∷ 0 ∷ 0 ∷ 0 ∷ 0 ∷ 0 ∷ 0 ∷ 0 ∷ 0 ∷ 0 ∷ 0 ∷ 0 ∷ 0
    ∷ 0 ∷ 0 ∷ 0 ∷ 0 ∷ 0 ∷ 0 ∷ 0 ∷ 0 ∷ 0 ∷ []

-- The wire format describes the file.
transfer_tx-file : transaction_bytes transfer_tx file_tail ≡ file_bytes
unfolding le_bytes
transfer_tx-file = refl

abbrev pub fresh_context : TxContext
fresh_context = record {
  bip32_len = 0;
  bip32 = [];
  raw = file_bytes;
  raw_length = length file_bytes;
  hash = [];
  offset = 0;
  op_details = record { account = 0; name = 0; type = 0; op = blank };
  tx_details = cleared_tx_details;
  op_count = 0;
  op_idx = 0;
}

-- The file, parsed.
parse_file :
    parse_calls 1 file_bytes fresh_context
    ≡ done
        (record {
          account = 0x5530ea033482a600;
          name = action_transfer;
          type = 0;
          op = transfer memo_transfer;
        }
          ∷ [])
        (record fresh_context {
          op_details = record {
            account = 0x5530ea033482a600;
            name = action_transfer;
            type = 0;
            op = transfer memo_transfer;
          };
          op_count = 1;
          op_idx = 1;
        })
unfolding parse_tx parse_transfer parse_asset read_uint parse_varint32
parse_file = refl

pub one_byte-IsCount : (n : ℕ) → n < 128 → IsCount (one_byte n)
one_byte-IsCount n h = (last n h, omega arith, omega arith)

transfer_action-IsAction : IsAction transfer_action
transfer_action-IsAction = record {
  head = record {
    name = omega arith;
    account = omega arith;
    authorizations = one_byte-IsCount 1 (omega arith);
    authorization_bytes = refl;
    size = one_byte-IsCount 44 (omega arith);
    fits = omega arith;
  };
  name = refl;
  exact = unfold le_bytes in refl;
  body = omega arith;
  fits = omega arith;
}

-- An action of the name "refund", which the app does not know.
abbrev refund_head : ActionHead
refund_head = record {
  account = 0x5530ea033482a600;
  name = 0xba97a9a400000000;
  authorizations = one_byte 0;
  authorization_bytes = [];
  size = one_byte 0;
}

refund_head-IsActionHead : IsActionHead refund_head
refund_head-IsActionHead = record {
  account = omega arith;
  name = omega arith;
  authorizations = one_byte-IsCount 0 (omega arith);
  authorization_bytes = refl;
  size = one_byte-IsCount 0 (omega arith);
  fits = omega arith;
}

-- A header that announces 300 actions, in two bytes.
abbrev pub large_header : Header
large_header = record transfer_tx.header { count = record { value = 300; bytes = 172 ∷ 2 ∷ [] } }

pub large_header-IsHeader : IsHeader large_header
large_header-IsHeader = record {
  head = refl;
  net_usage_words = one_byte-IsCount 0 (omega arith);
  max_cpu_usage_ms = one_byte-IsCount 0 (omega arith);
  delay_sec = one_byte-IsCount 0 (omega arith);
  context_free = one_byte-IsCount 0 (omega arith);
  count = (
    more 172 300 2 (2 ∷ []) (omega arith) (omega arith) (last 2 (omega arith)) refl,
    omega arith,
    omega arith,
  );
}

parse_op-action_bytes_example :
    (parse_op (action_bytes transfer_action file_tail) 0 fresh_context.op_details
      ≡ done (action_size transfer_action) (details 0 transfer_action file_tail))
    × (drop (0 + action_size transfer_action) (action_bytes transfer_action file_tail) ≡ file_tail)
parse_op-action_bytes_example =
    parse_op-action_bytes (action_bytes transfer_action file_tail) 0 transfer_action file_tail
      fresh_context.op_details transfer_action-IsAction (omega arith) refl

parse_header-header_bytes_example :
    (parse_header (header_bytes large_header []) fresh_context
      ≡ thrown 0x6e10 (refused_header fresh_context 44))
    × (drop (header_size large_header) (header_bytes large_header []) ≡ [])
parse_header-header_bytes_example =
    parse_header-header_bytes (header_bytes large_header []) large_header [] fresh_context
      large_header-IsHeader refl

parse_tx-too_many_actions_example :
    (parse_tx (header_bytes large_header []) fresh_context
      ≡ thrown 0x6e10 (refused_header fresh_context 44))
    × ((refused_header fresh_context 44).offset ≡ 0)
parse_tx-too_many_actions_example =
    parse_tx-too_many_actions (header_bytes large_header []) large_header [] fresh_context refl
      large_header-IsHeader refl (omega arith)

abbrev second_call : TxContext
second_call = record fresh_context { offset = 1; op_idx = 1; op_count = 2 }

parse_tx-unknown_action_example :
    (parse_tx (0 ∷ action_head_bytes refund_head []) second_call
      ≡ thrown 0x6900 (refused_action second_call refund_head))
    × (parse_tx (0 ∷ action_head_bytes refund_head []) (refused_action second_call refund_head)
        ≡ thrown 0x6900 (refused_action second_call refund_head))
parse_tx-unknown_action_example =
    parse_tx-unknown_action (0 ∷ action_head_bytes refund_head []) refund_head [] second_call
      (omega arith) refund_head-IsActionHead
      (record {
        transfer = omega arith;
        buyram = omega arith;
        buyrambytes = omega arith;
        sellram = omega arith;
        delegatebw = omega arith;
        undelegatebw = omega arith;
        voteproducer = omega arith;
        newaccount = omega arith;
      })
      refl

parse_tx-Leaves_example :
    Leaves
      (SameInput second_call)
      IsParserError
      (parse_tx (0 ∷ action_head_bytes refund_head []) second_call)
parse_tx-Leaves_example = parse_tx-Leaves (0 ∷ action_head_bytes refund_head []) second_call

varint_decode-encode_example :
    (bs : List ℕ) × (varint_encode true 300 4 ≡ some (bs, varint_encoding_length 300))
    × (length bs ≡ varint_encoding_length 300)
    × ((front rest : List ℕ) (len' : ℕ)
        → varint_decode (front ++ (bs ++ rest)) (length front) len'
          ≡ some (300, varint_encoding_length 300))
varint_decode-encode_example = varint_decode-encode 300 4 (omega arith)

padded : varint_decode (0x80 ∷ 0x80 ∷ 0x00 ∷ 7 ∷ []) 0 4 ≡ some (0, 3)
unfolding varint_decode
padded = refl

varint_decode_sound_example : Decoded (0x80 ∷ 0x80 ∷ 0x00 ∷ 7 ∷ []) 0 0 0 0 3
varint_decode_sound_example =
    varint_decode_sound (0x80 ∷ 0x80 ∷ 0x00 ∷ 7 ∷ []) 0 4 0 3 (omega arith) padded
