-- ===== src/Format/Table/Trades.antt =====
-- The screens of transfers and of RAM against the table.
use ledger_app_eos.Prelude.{ℕ, suc, ◌≡◌, refl, none, some, List, arith}
use ledger_app_eos.Types.{
  TxContext, Operation, TransferAction, BuyramAction, BuyrambytesAction, SellramAction,
}
use ledger_app_eos.Text.{Frame}
use ledger_app_eos.Text.Buffer.{codes}
use ledger_app_eos.Format.State.{Formatter}
use ledger_app_eos.Format.Values.{name_text, asset_text, int_text}
use ledger_app_eos.Format
use ledger_app_eos.Format.Actions
use ledger_app_eos.Format.Walk.{all_fields}
use ledger_app_eos.Format.Table.{captioned, fields_of, after, step, last_screen}

module _ (ripemd160 : List ℕ → List ℕ) (stale_olen : ℕ) (mem : List ℕ) (frame : Frame)
    (t : TxContext) where
  pub transfer_screens :
      (rounds : ℕ) (a : TransferAction)
      → t.op_details.op ≡ Operation.transfer a
      → after ripemd160 stale_olen mem frame t
          (suc (suc (suc (suc (rounds)))))
          (some Formatter.transfer_from)
        ≡ all_fields (fields_of ripemd160 stale_olen mem frame t (Operation.transfer a))
  unfolding Format.run_formatter Actions.format_transfer_from Actions.format_transfer_to
      Actions.format_transfer_quantity
  transfer_screens rounds a e =
      step ripemd160 stale_olen mem frame t (suc (suc (suc (rounds)))) Formatter.transfer_from
        (codes " Transfer ") (name_text frame a.from) (some Formatter.transfer_to) _
        (captioned (codes " Transfer ") (omega arith) (omega arith)) (rw e refl)
        (step ripemd160 stale_olen mem frame t (suc (suc (rounds))) Formatter.transfer_to
          (codes "   To   ") (name_text frame a.to) (some Formatter.transfer_quantity) _
          (captioned (codes "   To   ") (omega arith) (omega arith)) (rw e refl)
          (step ripemd160 stale_olen mem frame t (suc (rounds)) Formatter.transfer_quantity
            (codes " Quantity ") (asset_text frame a.quantity 64) none _
            (captioned (codes " Quantity ") (omega arith) (omega arith)) (rw e refl)
            (last_screen ripemd160 stale_olen mem frame t rounds)))

  pub buyram_screens :
      (rounds : ℕ) (a : BuyramAction)
      → t.op_details.op ≡ Operation.buyram a
      → after ripemd160 stale_olen mem frame t
          (suc (suc (suc (suc (rounds)))))
          (some Formatter.buyram_payer)
        ≡ all_fields (fields_of ripemd160 stale_olen mem frame t (Operation.buyram a))
  unfolding Format.run_formatter Actions.format_buyram_payer Actions.format_buyram_receiver
      Actions.format_buyram_quant
  buyram_screens rounds a e =
      step ripemd160 stale_olen mem frame t (suc (suc (suc (rounds)))) Formatter.buyram_payer
        (codes " Buy RAM ") (name_text frame a.payer) (some Formatter.buyram_receiver) _
        (captioned (codes " Buy RAM ") (omega arith) (omega arith)) (rw e refl)
        (step ripemd160 stale_olen mem frame t (suc (suc (rounds))) Formatter.buyram_receiver
          (codes " Receiver ") (name_text frame a.receiver) (some Formatter.buyram_quant) _
          (captioned (codes " Receiver ") (omega arith) (omega arith)) (rw e refl)
          (step ripemd160 stale_olen mem frame t (suc (rounds)) Formatter.buyram_quant
            (codes " Quantity ") (asset_text frame a.quant 64) none _
            (captioned (codes " Quantity ") (omega arith) (omega arith)) (rw e refl)
            (last_screen ripemd160 stale_olen mem frame t rounds)))

  pub buyrambytes_screens :
      (rounds : ℕ) (a : BuyrambytesAction)
      → t.op_details.op ≡ Operation.buyrambytes a
      → after ripemd160 stale_olen mem frame t
          (suc (suc (suc (suc (rounds)))))
          (some Formatter.buyrambytes_payer)
        ≡ all_fields (fields_of ripemd160 stale_olen mem frame t (Operation.buyrambytes a))
  unfolding Format.run_formatter Actions.format_buyrambytes_payer
      Actions.format_buyrambytes_receiver Actions.format_buyrambytes_bytes
  buyrambytes_screens rounds a e =
      step ripemd160 stale_olen mem frame t (suc (suc (suc (rounds)))) Formatter.buyrambytes_payer
        (codes " Buy RAM ") (name_text frame a.payer) (some Formatter.buyrambytes_receiver) _
        (captioned (codes " Buy RAM ") (omega arith) (omega arith)) (rw e refl)
        (step ripemd160 stale_olen mem frame t (suc (suc (rounds))) Formatter.buyrambytes_receiver
          (codes " Receiver ") (name_text frame a.receiver) (some Formatter.buyrambytes_bytes) _
          (captioned (codes " Receiver ") (omega arith) (omega arith)) (rw e refl)
          (step ripemd160 stale_olen mem frame t (suc (rounds)) Formatter.buyrambytes_bytes
            (codes "  Bytes  ") (int_text frame a.bytes) none _
            (captioned (codes "  Bytes  ") (omega arith) (omega arith)) (rw e refl)
            (last_screen ripemd160 stale_olen mem frame t rounds)))

  pub sellram_screens :
      (rounds : ℕ) (a : SellramAction)
      → t.op_details.op ≡ Operation.sellram a
      → after ripemd160 stale_olen mem frame t
          (suc (suc (suc (rounds))))
          (some Formatter.sellram_account)
        ≡ all_fields (fields_of ripemd160 stale_olen mem frame t (Operation.sellram a))
  unfolding Format.run_formatter Actions.format_sellram_account Actions.format_sellram_bytes
  sellram_screens rounds a e =
      step ripemd160 stale_olen mem frame t (suc (suc (rounds))) Formatter.sellram_account
        (codes " Sell RAM ") (name_text frame a.account) (some Formatter.sellram_bytes) _
        (captioned (codes " Sell RAM ") (omega arith) (omega arith)) (rw e refl)
        (step ripemd160 stale_olen mem frame t (suc (rounds)) Formatter.sellram_bytes
          (codes "  Bytes  ") (int_text frame a.bytes) none _
          (captioned (codes "  Bytes  ") (omega arith) (omega arith)) (rw e refl)
          (last_screen ripemd160 stale_olen mem frame t rounds))
