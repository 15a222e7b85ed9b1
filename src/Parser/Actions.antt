-- ===== src/Parser/Actions.antt =====
-- The functions of eos_parser.c that parse one action's data. `buffer` is an index into the raw
-- transaction; a local `offset` is a uint16_t. Each returns what it stored and its offset, which
-- for an action is the data size that the transaction states.
use ledger_app_eos.Prelude.{ℕ, ◌+◌, ◌*◌, ◌%◌, ◌^◌, Option, some, List}
use ledger_app_eos.Types.{
  Asset, TransferAction, BuyramAction, BuyrambytesAction, SellramAction, DelegatebwAction,
  UndelegatebwAction, VoteproducerAction, Authority, NewaccountAction,
}
use ledger_app_eos.Memory.{read_uint, memcpy, ◌>>=◌}
use ledger_app_eos.Varint.{parse_varint32}

-- A value kept in a uint16_t.
abbrev pub u16 : ℕ → ℕ
u16 n = n % 2 ^ 16

-- It reads nothing.
abbrev pub parse_authorization : ℕ
parse_authorization = 16

unfoldable pub parse_asset : List ℕ → ℕ → Option (Asset × ℕ)
parse_asset mem buffer = do
  amount ← read_uint mem buffer 8
  symbol ← read_uint mem (buffer + 8) 8
  some (record { amount = amount; symbol = symbol }, 16)

unfoldable pub parse_transfer : List ℕ → ℕ → ℕ → Option (TransferAction × ℕ)
parse_transfer mem buffer length = do
  from ← read_uint mem buffer 8
  to ← read_uint mem (buffer + 8) 8
  (quantity, n) ← parse_asset mem (buffer + 16)
  some (record { from = from; to = to; quantity = quantity }, u16 length)

unfoldable pub parse_buyram : List ℕ → ℕ → ℕ → Option (BuyramAction × ℕ)
parse_buyram mem buffer length = do
  payer ← read_uint mem buffer 8
  receiver ← read_uint mem (buffer + 8) 8
  (quant, n) ← parse_asset mem (buffer + 16)
  some (record { payer = payer; receiver = receiver; quant = quant }, u16 length)

unfoldable pub parse_buyrambytes : List ℕ → ℕ → ℕ → Option (BuyrambytesAction × ℕ)
parse_buyrambytes mem buffer length = do
  payer ← read_uint mem buffer 8
  receiver ← read_uint mem (buffer + 8) 8
  bytes ← read_uint mem (buffer + 16) 4
  some (record { payer = payer; receiver = receiver; bytes = bytes }, u16 length)

unfoldable pub parse_sellram : List ℕ → ℕ → ℕ → Option (SellramAction × ℕ)
parse_sellram mem buffer length = do
  account ← read_uint mem buffer 8
  bytes ← read_uint mem (buffer + 8) 8
  some (record { account = account; bytes = bytes }, u16 length)

unfoldable pub parse_delegatebw : List ℕ → ℕ → ℕ → Option (DelegatebwAction × ℕ)
parse_delegatebw mem buffer length = do
  from ← read_uint mem buffer 8
  receiver ← read_uint mem (buffer + 8) 8
  (net, n) ← parse_asset mem (buffer + 16)
  (cpu, n') ← parse_asset mem (buffer + u16 (16 + n))
  transfer ← read_uint mem (buffer + u16 (u16 (16 + n) + n')) 4
  some (
    record {
      from = from;
      receiver = receiver;
      stake_net_quantity = net;
      stake_cpu_quantity = cpu;
      transfer = transfer;
    },
    u16 length,
  )

unfoldable pub parse_undelegatebw : List ℕ → ℕ → ℕ → Option (UndelegatebwAction × ℕ)
parse_undelegatebw mem buffer length = do
  from ← read_uint mem buffer 8
  receiver ← read_uint mem (buffer + 8) 8
  (net, n) ← parse_asset mem (buffer + 16)
  (cpu, n') ← parse_asset mem (buffer + u16 (16 + n))
  some (
    record {
      from = from;
      receiver = receiver;
      unstake_net_quantity = net;
      unstake_cpu_quantity = cpu;
    },
    u16 length,
  )

-- `producers` points at the first producer.
unfoldable pub parse_voteproducer : List ℕ → ℕ → ℕ → Option (VoteproducerAction × ℕ)
parse_voteproducer mem buffer length = do
  voter ← read_uint mem buffer 8
  proxy ← read_uint mem (buffer + 8) 8
  (num_producers, bts) ← parse_varint32 mem (buffer + 16)
  some (
    record {
      voter = voter;
      proxy = proxy;
      num_producers = num_producers;
      producers = buffer + u16 (16 + bts);
    },
    u16 length,
  )

-- The first key is read, and one key's size is skipped, whatever the number of keys.
unfoldable pub parse_authority : List ℕ → ℕ → Option (Authority × ℕ)
parse_authority mem buffer = do
  threshold ← read_uint mem buffer 4
  (num_key_weights, bts) ← parse_varint32 mem (buffer + 4)
  let offset = u16 (4 + bts)
  (_, bts') ← parse_varint32 mem (buffer + offset)
  let offset' = u16 (offset + bts')
  public_key ← memcpy mem (buffer + offset') 33
  let offset'' = u16 (offset' + 35)
  (num_accounts, bts'') ← parse_varint32 mem (buffer + offset'')
  let after_accounts = u16 (u16 (offset'' + bts'') + num_accounts * 18 % 2 ^ 32)
  (num_waits, bts''') ← parse_varint32 mem (buffer + after_accounts)
  some (
    record { threshold = threshold; public_key = public_key },
    u16 (u16 (after_accounts + bts''') + num_waits * 6 % 2 ^ 32),
  )

unfoldable pub parse_newaccount : List ℕ → ℕ → ℕ → Option (NewaccountAction × ℕ)
parse_newaccount mem buffer length = do
  creator ← read_uint mem buffer 8
  name ← read_uint mem (buffer + 8) 8
  (owner, n) ← parse_authority mem (buffer + 16)
  (active, n') ← parse_authority mem (buffer + u16 (16 + n))
  some (record { creator = creator; name = name; owner = owner; active = active }, u16 length)
