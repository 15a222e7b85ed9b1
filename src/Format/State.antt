-- ===== src/Format/State.antt =====
-- What the Nano S screens share: the buffers and the global `formatter` of eos_format_nanos.c.
use ledger_app_eos.Prelude.{ℕ, List, Option}

-- A formatter is named for its function without `format_`. The tables of formatters and the
-- pointer `formatter` hold them; NULL is `none`.
pub data Formatter : Type 0 where
  transfer : Formatter
  transfer_from : Formatter
  transfer_to : Formatter
  transfer_quantity : Formatter
  buyram : Formatter
  buyram_payer : Formatter
  buyram_receiver : Formatter
  buyram_quant : Formatter
  buyrambytes : Formatter
  buyrambytes_payer : Formatter
  buyrambytes_receiver : Formatter
  buyrambytes_bytes : Formatter
  sellram : Formatter
  sellram_account : Formatter
  sellram_bytes : Formatter
  delegatebw : Formatter
  delegatebw_from : Formatter
  delegatebw_receiver : Formatter
  delegatebw_stake_net_quantity : Formatter
  delegatebw_stake_cpu_quantity : Formatter
  delegatebw_transfer : Formatter
  undelegatebw : Formatter
  undelegatebw_from : Formatter
  undelegatebw_receiver : Formatter
  undelegatebw_stake_net_quantity : Formatter
  undelegatebw_stake_cpu_quantity : Formatter
  voteproducer : Formatter
  voteproducer_voter : Formatter
  voteproducer_proxy : Formatter
  voteproducer_producers : Formatter
  newaccount : Formatter
  transfer_creator : Formatter
  newaccount_name : Formatter
  newaccount_owner : Formatter
  newaccount_active : Formatter
  confirm_operation : Formatter
  confirm_transaction_details : Formatter
  confirm_transaction : Formatter
  confirm_hash : Formatter
  confirm_hash_warning : Formatter
  confirm_hash_detail : Formatter

-- opCaption has 20 bytes, detailCaption 20 and detailValue 89.
pub record Display : Type 0 where
  pub op_caption : List ℕ
  pub detail_caption : List ℕ
  pub detail_value : List ℕ
  pub current_producer_index : ℕ
  pub formatter : Option Formatter
