-- ===== src/Types.antt =====
-- The structures of eos_types.h. Integers are their bit patterns: an int64_t is a number below
-- 2 ^ 64, an int one below 2 ^ 32. A pointer into the raw transaction is an index. The `memo` of
-- transfer_action_t is left out: nothing writes or reads it.
use ledger_app_eos.Prelude.{ℕ, List}

pub record Asset : Type 0 where
  pub amount : ℕ
  pub symbol : ℕ

pub record TransferAction : Type 0 where
  pub from : ℕ
  pub to : ℕ
  pub quantity : Asset

pub record BuyramAction : Type 0 where
  pub payer : ℕ
  pub receiver : ℕ
  pub quant : Asset

pub record BuyrambytesAction : Type 0 where
  pub payer : ℕ
  pub receiver : ℕ
  pub bytes : ℕ

pub record SellramAction : Type 0 where
  pub account : ℕ
  pub bytes : ℕ

pub record DelegatebwAction : Type 0 where
  pub from : ℕ
  pub receiver : ℕ
  pub stake_net_quantity : Asset
  pub stake_cpu_quantity : Asset
  pub transfer : ℕ

pub record UndelegatebwAction : Type 0 where
  pub from : ℕ
  pub receiver : ℕ
  pub unstake_net_quantity : Asset
  pub unstake_cpu_quantity : Asset

pub record VoteproducerAction : Type 0 where
  pub voter : ℕ
  pub proxy : ℕ
  pub num_producers : ℕ
  pub producers : ℕ

pub record Authority : Type 0 where
  pub threshold : ℕ
  pub public_key : List ℕ

pub record NewaccountAction : Type 0 where
  pub creator : ℕ
  pub name : ℕ
  pub owner : Authority
  pub active : Authority

-- The union `op`, by the member that was written last; `blank` is the cleared union.
pub data Operation : Type 0 where
  blank : Operation
  transfer : TransferAction → Operation
  buyram : BuyramAction → Operation
  buyrambytes : BuyrambytesAction → Operation
  sellram : SellramAction → Operation
  delegatebw : DelegatebwAction → Operation
  undelegatebw : UndelegatebwAction → Operation
  voteproducer : VoteproducerAction → Operation
  newaccount : NewaccountAction → Operation

pub record OperationDetails : Type 0 where
  pub account : ℕ
  pub name : ℕ
  pub type : ℕ
  pub op : Operation

pub record TxDetails : Type 0 where
  pub expiration : ℕ
  pub ref_block_num : ℕ
  pub ref_block_prefix : ℕ
  pub net_usage_words : ℕ
  pub max_cpu_usage_ms : ℕ
  pub delay_sec : ℕ
  pub sequence_number : ℕ

pub record TxContext : Type 0 where
  pub bip32_len : ℕ
  pub bip32 : List ℕ
  pub raw : List ℕ
  pub raw_length : ℕ
  pub hash : List ℕ
  pub offset : ℕ
  pub op_details : OperationDetails
  pub tx_details : TxDetails
  pub op_count : ℕ
  pub op_idx : ℕ

-- MAX_OPS
abbrev pub max_ops : ℕ
max_ops = 35

-- MAX_RAW_TX
abbrev pub max_raw_tx : ℕ
max_raw_tx = 1540

-- MAX_BIP32_LEN
abbrev pub max_bip32_len : ℕ
max_bip32_len = 10
