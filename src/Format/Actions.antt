-- ===== src/Format/Actions.antt =====
-- The screens of each action (eos_format_nanos.c), in the order in which they follow each other.
-- The members of the union `op` are read as what the parser stored there; another member is
-- outside the model and `none`.
use ledger_app_eos.Prelude.{Option, none, some}
use ledger_app_eos.Memory.{◌>>=◌}
use ledger_app_eos.Types.{
  TransferAction, BuyramAction, BuyrambytesAction, SellramAction, DelegatebwAction,
  UndelegatebwAction, VoteproducerAction, NewaccountAction, Operation, TxContext,
}
use ledger_app_eos.Text.{Frame}
use ledger_app_eos.Text.Buffer.{codes}
use ledger_app_eos.Format.State.{Formatter, Display}
use ledger_app_eos.Format.Values.{show, name_text, asset_text, int_text, sign_extend}

abbrev pub as_transfer : Operation → Option TransferAction
as_transfer (Operation.transfer action) = some action
as_transfer _ = none

abbrev pub as_buyram : Operation → Option BuyramAction
as_buyram (Operation.buyram action) = some action
as_buyram _ = none

abbrev pub as_buyrambytes : Operation → Option BuyrambytesAction
as_buyrambytes (Operation.buyrambytes action) = some action
as_buyrambytes _ = none

abbrev pub as_sellram : Operation → Option SellramAction
as_sellram (Operation.sellram action) = some action
as_sellram _ = none

abbrev pub as_delegatebw : Operation → Option DelegatebwAction
as_delegatebw (Operation.delegatebw action) = some action
as_delegatebw _ = none

abbrev pub as_undelegatebw : Operation → Option UndelegatebwAction
as_undelegatebw (Operation.undelegatebw action) = some action
as_undelegatebw _ = none

abbrev pub as_voteproducer : Operation → Option VoteproducerAction
as_voteproducer (Operation.voteproducer action) = some action
as_voteproducer _ = none

abbrev pub as_newaccount : Operation → Option NewaccountAction
as_newaccount (Operation.newaccount action) = some action
as_newaccount _ = none

module _ (frame : Frame) (t : TxContext) where
  unfoldable pub format_transfer : Display → Option Display
  format_transfer d = some (record d { formatter = some Formatter.transfer_from })

  unfoldable pub format_transfer_from : Display → Option Display
  unfolding show name_text asset_text int_text sign_extend
  format_transfer_from d = do
    action ← as_transfer t.op_details.op
    show (codes " Transfer ") (name_text frame action.from) (some Formatter.transfer_to) d

  unfoldable pub format_transfer_to : Display → Option Display
  unfolding show name_text asset_text int_text sign_extend
  format_transfer_to d = do
    action ← as_transfer t.op_details.op
    show (codes "   To   ") (name_text frame action.to) (some Formatter.transfer_quantity) d

  unfoldable pub format_transfer_quantity : Display → Option Display
  unfolding show name_text asset_text int_text sign_extend
  format_transfer_quantity d = do
    action ← as_transfer t.op_details.op
    show (codes " Quantity ") (asset_text frame action.quantity 64) none d

  unfoldable pub format_buyram : Display → Option Display
  format_buyram d = some (record d { formatter = some Formatter.buyram_payer })

  unfoldable pub format_buyram_payer : Display → Option Display
  unfolding show name_text asset_text int_text sign_extend
  format_buyram_payer d = do
    action ← as_buyram t.op_details.op
    show (codes " Buy RAM ") (name_text frame action.payer) (some Formatter.buyram_receiver) d

  unfoldable pub format_buyram_receiver : Display → Option Display
  unfolding show name_text asset_text int_text sign_extend
  format_buyram_receiver d = do
    action ← as_buyram t.op_details.op
    show (codes " Receiver ") (name_text frame action.receiver) (some Formatter.buyram_quant) d

  unfoldable pub format_buyram_quant : Display → Option Display
  unfolding show name_text asset_text int_text sign_extend
  format_buyram_quant d = do
    action ← as_buyram t.op_details.op
    show (codes " Quantity ") (asset_text frame action.quant 64) none d

  unfoldable pub format_buyrambytes : Display → Option Display
  format_buyrambytes d = some (record d { formatter = some Formatter.buyrambytes_payer })

  unfoldable pub format_buyrambytes_payer : Display → Option Display
  unfolding show name_text asset_text int_text sign_extend
  format_buyrambytes_payer d = do
    action ← as_buyrambytes t.op_details.op
    show (codes " Buy RAM ") (name_text frame action.payer) (some Formatter.buyrambytes_receiver) d

  unfoldable pub format_buyrambytes_receiver : Display → Option Display
  unfolding show name_text asset_text int_text sign_extend
  format_buyrambytes_receiver d = do
    action ← as_buyrambytes t.op_details.op
    show (codes " Receiver ") (name_text frame action.receiver) (some Formatter.buyrambytes_bytes) d

  unfoldable pub format_buyrambytes_bytes : Display → Option Display
  unfolding show name_text asset_text int_text sign_extend
  format_buyrambytes_bytes d = do
    action ← as_buyrambytes t.op_details.op
    show (codes "  Bytes  ") (int_text frame action.bytes) none d

  unfoldable pub format_sellram : Display → Option Display
  format_sellram d = some (record d { formatter = some Formatter.sellram_account })

  unfoldable pub format_sellram_account : Display → Option Display
  unfolding show name_text asset_text int_text sign_extend
  format_sellram_account d = do
    action ← as_sellram t.op_details.op
    show (codes " Sell RAM ") (name_text frame action.account) (some Formatter.sellram_bytes) d

  unfoldable pub format_sellram_bytes : Display → Option Display
  unfolding show name_text asset_text int_text sign_extend
  format_sellram_bytes d = do
    action ← as_sellram t.op_details.op
    show (codes "  Bytes  ") (int_text frame action.bytes) none d

  unfoldable pub format_delegatebw : Display → Option Display
  format_delegatebw d = some (record d { formatter = some Formatter.delegatebw_from })

  unfoldable pub format_delegatebw_from : Display → Option Display
  unfolding show name_text asset_text int_text sign_extend
  format_delegatebw_from d = do
    action ← as_delegatebw t.op_details.op
    show (codes "Increase Stake") (name_text frame action.from) (some Formatter.delegatebw_receiver)
        d

  unfoldable pub format_delegatebw_receiver : Display → Option Display
  unfolding show name_text asset_text int_text sign_extend
  format_delegatebw_receiver d = do
    action ← as_delegatebw t.op_details.op
    show (codes " Receiver ") (name_text frame action.receiver)
        (some Formatter.delegatebw_stake_net_quantity) d

  unfoldable pub format_delegatebw_stake_net_quantity : Display → Option Display
  unfolding show name_text asset_text int_text sign_extend
  format_delegatebw_stake_net_quantity d = do
    action ← as_delegatebw t.op_details.op
    show (codes "   NET   ") (asset_text frame action.stake_net_quantity 32)
        (some Formatter.delegatebw_stake_cpu_quantity) d

  unfoldable pub format_delegatebw_stake_cpu_quantity : Display → Option Display
  unfolding show name_text asset_text int_text sign_extend
  format_delegatebw_stake_cpu_quantity d = do
    action ← as_delegatebw t.op_details.op
    show (codes "   CPU  ") (asset_text frame action.stake_cpu_quantity 32)
        (some Formatter.delegatebw_transfer) d

  unfoldable pub format_delegatebw_transfer : Display → Option Display
  unfolding show name_text asset_text int_text sign_extend
  format_delegatebw_transfer d = do
    action ← as_delegatebw t.op_details.op
    show (codes " Transfer ") (int_text frame (sign_extend action.transfer)) none d

  unfoldable pub format_undelegatebw : Display → Option Display
  format_undelegatebw d = some (record d { formatter = some Formatter.undelegatebw_from })

  unfoldable pub format_undelegatebw_from : Display → Option Display
  unfolding show name_text asset_text int_text sign_extend
  format_undelegatebw_from d = do
    action ← as_undelegatebw t.op_details.op
    show (codes "Decrease Stake") (name_text frame action.from)
        (some Formatter.undelegatebw_receiver) d

  unfoldable pub format_undelegatebw_receiver : Display → Option Display
  unfolding show name_text asset_text int_text sign_extend
  format_undelegatebw_receiver d = do
    action ← as_undelegatebw t.op_details.op
    show (codes " Receiver ") (name_text frame action.receiver)
        (some Formatter.undelegatebw_stake_net_quantity) d

  unfoldable pub format_undelegatebw_stake_net_quantity : Display → Option Display
  unfolding show name_text asset_text int_text sign_extend
  format_undelegatebw_stake_net_quantity d = do
    action ← as_undelegatebw t.op_details.op
    show (codes "   NET   ") (asset_text frame action.unstake_net_quantity 64)
        (some Formatter.undelegatebw_stake_cpu_quantity) d

  unfoldable pub format_undelegatebw_stake_cpu_quantity : Display → Option Display
  unfolding show name_text asset_text int_text sign_extend
  format_undelegatebw_stake_cpu_quantity d = do
    action ← as_undelegatebw t.op_details.op
    show (codes "   CPU   ") (asset_text frame action.unstake_cpu_quantity 64) none d
