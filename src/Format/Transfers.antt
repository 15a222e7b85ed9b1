-- ===== src/Format/Transfers.antt =====
-- The screens of transfers and of RAM trades.
use ledger_app_eos.Prelude.{ℕ, none, some, List, arith}
use ledger_app_eos.Types.{TxContext}
use ledger_app_eos.Text.{Frame}
use ledger_app_eos.Text.Buffer.{codes}
use ledger_app_eos.Format.State.{Formatter}
use ledger_app_eos.Format.Values.{name_text, asset_text, int_text}
use ledger_app_eos.Format.{nth, formatters}
use ledger_app_eos.Format
use ledger_app_eos.Format.Actions.{
  as_transfer, as_buyram, as_buyrambytes, as_sellram, as_delegatebw, as_undelegatebw,
  as_voteproducer, as_newaccount,
}
use ledger_app_eos.Format.Actions
use ledger_app_eos.Format.Screens.{action_shows, bound, Shrinks}

module _ (ripemd160 : List ℕ → List ℕ) (stale_olen : ℕ) (mem : List ℕ) (frame : Frame)
    (t : TxContext) where
  pub transfer-Shrinks : Shrinks ripemd160 stale_olen mem frame t Formatter.transfer
  unfolding Format.run_formatter Actions.format_transfer
  transfer-Shrinks d h = omega arith

  pub transfer_from-Shrinks : Shrinks ripemd160 stale_olen mem frame t Formatter.transfer_from
  unfolding Format.run_formatter Actions.format_transfer_from
  transfer_from-Shrinks d h =
      action_shows t (as_transfer t.op_details.op) (λ action. name_text frame action.from)
        (codes " Transfer ") (some Formatter.transfer_to) d
        (bound ripemd160 stale_olen mem frame t d Formatter.transfer_from) (omega arith)

  pub transfer_to-Shrinks : Shrinks ripemd160 stale_olen mem frame t Formatter.transfer_to
  unfolding Format.run_formatter Actions.format_transfer_to
  transfer_to-Shrinks d h =
      action_shows t (as_transfer t.op_details.op) (λ action. name_text frame action.to)
        (codes "   To   ") (some Formatter.transfer_quantity) d
        (bound ripemd160 stale_olen mem frame t d Formatter.transfer_to) (omega arith)

  pub transfer_quantity-Shrinks :
      Shrinks ripemd160 stale_olen mem frame t Formatter.transfer_quantity
  unfolding Format.run_formatter Actions.format_transfer_quantity
  transfer_quantity-Shrinks d h =
      action_shows t (as_transfer t.op_details.op) (λ action. asset_text frame action.quantity 64)
        (codes " Quantity ") none d
        (bound ripemd160 stale_olen mem frame t d Formatter.transfer_quantity) (omega arith)

  pub buyram-Shrinks : Shrinks ripemd160 stale_olen mem frame t Formatter.buyram
  unfolding Format.run_formatter Actions.format_buyram
  buyram-Shrinks d h = omega arith

  pub buyram_payer-Shrinks : Shrinks ripemd160 stale_olen mem frame t Formatter.buyram_payer
  unfolding Format.run_formatter Actions.format_buyram_payer
  buyram_payer-Shrinks d h =
      action_shows t (as_buyram t.op_details.op) (λ action. name_text frame action.payer)
        (codes " Buy RAM ") (some Formatter.buyram_receiver) d
        (bound ripemd160 stale_olen mem frame t d Formatter.buyram_payer) (omega arith)

  pub buyram_receiver-Shrinks : Shrinks ripemd160 stale_olen mem frame t Formatter.buyram_receiver
  unfolding Format.run_formatter Actions.format_buyram_receiver
  buyram_receiver-Shrinks d h =
      action_shows t (as_buyram t.op_details.op) (λ action. name_text frame action.receiver)
        (codes " Receiver ") (some Formatter.buyram_quant) d
        (bound ripemd160 stale_olen mem frame t d Formatter.buyram_receiver) (omega arith)

  pub buyram_quant-Shrinks : Shrinks ripemd160 stale_olen mem frame t Formatter.buyram_quant
  unfolding Format.run_formatter Actions.format_buyram_quant
  buyram_quant-Shrinks d h =
      action_shows t (as_buyram t.op_details.op) (λ action. asset_text frame action.quant 64)
        (codes " Quantity ") none d
        (bound ripemd160 stale_olen mem frame t d Formatter.buyram_quant) (omega arith)

  pub buyrambytes-Shrinks : Shrinks ripemd160 stale_olen mem frame t Formatter.buyrambytes
  unfolding Format.run_formatter Actions.format_buyrambytes
  buyrambytes-Shrinks d h = omega arith

  pub buyrambytes_payer-Shrinks :
      Shrinks ripemd160 stale_olen mem frame t Formatter.buyrambytes_payer
  unfolding Format.run_formatter Actions.format_buyrambytes_payer
  buyrambytes_payer-Shrinks d h =
      action_shows t (as_buyrambytes t.op_details.op) (λ action. name_text frame action.payer)
        (codes " Buy RAM ") (some Formatter.buyrambytes_receiver) d
        (bound ripemd160 stale_olen mem frame t d Formatter.buyrambytes_payer) (omega arith)

  pub buyrambytes_receiver-Shrinks :
      Shrinks ripemd160 stale_olen mem frame t Formatter.buyrambytes_receiver
  unfolding Format.run_formatter Actions.format_buyrambytes_receiver
  buyrambytes_receiver-Shrinks d h =
      action_shows t (as_buyrambytes t.op_details.op) (λ action. name_text frame action.receiver)
        (codes " Receiver ") (some Formatter.buyrambytes_bytes) d
        (bound ripemd160 stale_olen mem frame t d Formatter.buyrambytes_receiver) (omega arith)

  pub buyrambytes_bytes-Shrinks :
      Shrinks ripemd160 stale_olen mem frame t Formatter.buyrambytes_bytes
  unfolding Format.run_formatter Actions.format_buyrambytes_bytes
  buyrambytes_bytes-Shrinks d h =
      action_shows t (as_buyrambytes t.op_details.op) (λ action. int_text frame action.bytes)
        (codes "  Bytes  ") none d
        (bound ripemd160 stale_olen mem frame t d Formatter.buyrambytes_bytes) (omega arith)

  pub sellram-Shrinks : Shrinks ripemd160 stale_olen mem frame t Formatter.sellram
  unfolding Format.run_formatter Actions.format_sellram
  sellram-Shrinks d h = omega arith

  pub sellram_account-Shrinks : Shrinks ripemd160 stale_olen mem frame t Formatter.sellram_account
  unfolding Format.run_formatter Actions.format_sellram_account
  sellram_account-Shrinks d h =
      action_shows t (as_sellram t.op_details.op) (λ action. name_text frame action.account)
        (codes " Sell RAM ") (some Formatter.sellram_bytes) d
        (bound ripemd160 stale_olen mem frame t d Formatter.sellram_account) (omega arith)

  pub sellram_bytes-Shrinks : Shrinks ripemd160 stale_olen mem frame t Formatter.sellram_bytes
  unfolding Format.run_formatter Actions.format_sellram_bytes
  sellram_bytes-Shrinks d h =
      action_shows t (as_sellram t.op_details.op) (λ action. int_text frame action.bytes)
        (codes "  Bytes  ") none d
        (bound ripemd160 stale_olen mem frame t d Formatter.sellram_bytes) (omega arith)
