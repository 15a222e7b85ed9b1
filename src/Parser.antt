-- ===== src/Parser.antt =====
-- eos_parser.c: the transaction parser. `parse_tx` reads one action at each call. The functions
-- for single actions are in `Actions`; the children besides hold the theorems.
pub mod Yields
pub mod Typed
pub mod Behind
pub mod Actions
pub mod Wire
pub mod ReadBack
pub mod Op
pub mod Head
pub mod Tx
pub mod Frame
pub mod Errors
use ledger_app_eos.Prelude.{
  ℕ, zero, suc, ◌+◌, ◌*◌, ◌%◌, ◌^◌, Option, List, ltb, ◌==◌, if◌then◌else◌,
}
use ledger_app_eos.Outcome.{
  Command, ◌>>=◌, ◌>>◌, pure, throw, throw_if, modify, gets, reads, zoom, done, thrown, undefined,
}
use ledger_app_eos.Types.{
  Operation, OperationDetails, TxDetails, TxContext, max_ops, transfer, buyram, buyrambytes,
  sellram, delegatebw, undelegatebw, voteproducer, newaccount,
}
use ledger_app_eos.Memory.{read_uint}
use ledger_app_eos.Varint.{parse_varint32}
use Actions.{
  u16, parse_authorization, parse_transfer, parse_buyram, parse_buyrambytes, parse_sellram,
  parse_delegatebw, parse_undelegatebw, parse_voteproducer, parse_newaccount,
}

-- ACTION_TRANSFER and the other names of actions.
abbrev pub action_transfer : ℕ
action_transfer = 0xcdcd3c2d57000000

abbrev pub action_buyram : ℕ
action_buyram = 0x3ebd734800000000

abbrev pub action_buyrambytes : ℕ
action_buyrambytes = 0x3ebd7348fecab000

abbrev pub action_sellram : ℕ
action_sellram = 0xc2a31b9a40000000

abbrev pub action_delegatebw : ℕ
action_delegatebw = 0x4aa2a61b2a3f0000

abbrev pub action_undelegatebw : ℕ
action_undelegatebw = 0xd4d2a8a986ca8fc0

abbrev pub action_voteproducer : ℕ
action_voteproducer = 0xdd32aade89d21570

abbrev pub action_newaccount : ℕ
action_newaccount = 0x9ab864229a9e4000

-- The loop over the authorizations, each of which adds to the uint16_t `offset`.
skip_authorizations : ℕ → ℕ → ℕ
skip_authorizations zero offset = offset
skip_authorizations (suc n) offset = skip_authorizations n (u16 (offset + parse_authorization))

-- One branch of the ladder in parse_op: set the type, parse the action's data into the union, and
-- return the offset behind it.
store_action : {A : Type 0} → ℕ → (A → Operation) → ℕ → Option (A × ℕ) → Command OperationDetails ℕ
store_action type member offset parsed = do
  modify (λ d. record d { type = type })
  (action, n) ← reads parsed
  modify (λ d. record d { op = member action })
  pure (u16 (offset + n))

-- The ladder on the action's name.
pub parse_action : List ℕ → ℕ → ℕ → ℕ → ℕ → Command OperationDetails ℕ
unfolding store_action
parse_action mem buffer offset data_size name =
    let action_data = buffer + offset in
    if name == action_transfer
    then store_action 0 transfer offset (parse_transfer mem action_data data_size)
    else if name == action_buyram
    then store_action 1 buyram offset (parse_buyram mem action_data data_size)
    else if name == action_buyrambytes
    then store_action 2 buyrambytes offset (parse_buyrambytes mem action_data data_size)
    else if name == action_sellram
    then store_action 3 sellram offset (parse_sellram mem action_data data_size)
    else if name == action_delegatebw
    then store_action 4 delegatebw offset (parse_delegatebw mem action_data data_size)
    else if name == action_undelegatebw
    then store_action 5 undelegatebw offset (parse_undelegatebw mem action_data data_size)
    else if name == action_voteproducer
    then store_action 6 voteproducer offset (parse_voteproducer mem action_data data_size)
    else if name == action_newaccount
    then store_action 7 newaccount offset (parse_newaccount mem action_data data_size)
    else throw 0x6900

pub parse_op : List ℕ → ℕ → Command OperationDetails ℕ
unfolding skip_authorizations parse_action
parse_op mem buffer = do
  account ← reads (read_uint mem buffer 8)
  modify (λ d. record d { account = account })
  name ← reads (read_uint mem (buffer + 8) 8)
  modify (λ d. record d { name = name })
  (num_authorization, bts) ← reads (parse_varint32 mem (buffer + 16))
  let offset = skip_authorizations num_authorization (u16 (16 + bts))
  (data_size, bts') ← reads (parse_varint32 mem (buffer + offset))
  parse_action mem buffer (u16 (offset + bts')) data_size name

abbrev pub cleared_tx_details : TxDetails
cleared_tx_details = record {
  expiration = 0;
  ref_block_num = 0;
  ref_block_prefix = 0;
  net_usage_words = 0;
  max_cpu_usage_ms = 0;
  delay_sec = 0;
  sequence_number = 0;
}

-- The header, read at the first call: up to and with the number of actions, a uint8_t.
pub parse_header : List ℕ → Command TxContext ℕ
parse_header mem = do
  modify (λ t. record t { tx_details = cleared_tx_details })
  (_, net_usage_words) ← reads (parse_varint32 mem 42)
  let offset = u16 (42 + net_usage_words)
  (_, max_cpu_usage_ms) ← reads (parse_varint32 mem offset)
  let offset' = u16 (offset + max_cpu_usage_ms)
  (_, delay_sec) ← reads (parse_varint32 mem offset')
  let offset'' = u16 (offset' + delay_sec)
  (_, context_free) ← reads (parse_varint32 mem offset'')
  let offset''' = u16 (offset'' + context_free)
  (op_count, bts) ← reads (parse_varint32 mem offset''')
  modify (λ t. record t { op_count = op_count % 2 ^ 8 })
  throw_if (ltb max_ops (op_count % 2 ^ 8)) 0x6e10
  modify (λ t. record t { op_idx = 0 })
  pure (u16 (offset''' + bts))

-- `&txCtx->opDetails`, handed to parse_op.
abbrev pub on_op_details : {A : Type 0} → Command OperationDetails A → Command TxContext A
on_op_details = zoom (λ t. t.op_details) (λ d t. record t { op_details = d })

-- The last lines of parse_tx: count the action, and start from the beginning behind the last one.
abbrev pub count_op : ℕ → ℕ → Command TxContext (Unit {0})
count_op offset n = do
  modify (λ t. record t { op_idx = (t.op_idx + 1) % 2 ^ 8 })
  modify (λ t. record t { offset = if t.op_count == t.op_idx then 0 else u16 (offset + n) })

-- parse_tx behind the choice of the offset.
pub parse_tx_op : List ℕ → ℕ → Command TxContext (Unit {0})
unfolding parse_op
parse_tx_op mem offset = do n ← on_op_details (parse_op mem offset); count_op offset n

unfoldable pub parse_tx : List ℕ → Command TxContext (Unit {0})
unfolding parse_header parse_tx_op
parse_tx mem = do
  start ← gets (λ t. t.offset)
  offset ← (if start == 0 then parse_header mem else pure start)
  parse_tx_op mem offset
