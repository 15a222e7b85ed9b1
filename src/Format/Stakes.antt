-- ===== src/Format/Stakes.antt =====
-- The screens of stakes and of new accounts.
use ledger_app_eos.Prelude.{ℕ, none, some, List, arith}
use ledger_app_eos.Types.{TxContext}
use ledger_app_eos.Text.{Frame}
use ledger_app_eos.Text.Buffer.{codes}
use ledger_app_eos.Format.State.{Formatter}
use ledger_app_eos.Format.Values.{name_text, asset_text, int_text, sign_extend}
use ledger_app_eos.Format.{nth, formatters}
use ledger_app_eos.Format
use ledger_app_eos.Format.Actions.{
  as_transfer, as_buyram, as_buyrambytes, as_sellram, as_delegatebw, as_undelegatebw,
  as_voteproducer, as_newaccount,
}
use ledger_app_eos.Format.Actions
use ledger_app_eos.Format.Screens.{action_shows, bound, Shrinks}

module _ (ripemd160 : List ℕ → List ℕ) (stale_olen : ℕ) (mem : List ℕ) (frame : Frame)
    (t : TxContext) where
  pub delegatebw-Shrinks : Shrinks ripemd160 stale_olen mem frame t Formatter.delegatebw
  unfolding Format.run_formatter Actions.format_delegatebw
  delegatebw-Shrinks d h = omega arith

  pub delegatebw_from-Shrinks : Shrinks ripemd160 stale_olen mem frame t Formatter.delegatebw_from
  unfolding Format.run_formatter Actions.format_delegatebw_from
  delegatebw_from-Shrinks d h =
      action_shows t (as_delegatebw t.op_details.op) (λ action. name_text frame action.from)
        (codes "Increase Stake") (some Formatter.delegatebw_receiver) d
        (bound ripemd160 stale_olen mem frame t d Formatter.delegatebw_from) (omega arith)

  pub delegatebw_receiver-Shrinks :
      Shrinks ripemd160 stale_olen mem frame t Formatter.delegatebw_receiver
  unfolding Format.run_formatter Actions.format_delegatebw_receiver
  delegatebw_receiver-Shrinks d h =
      action_shows t (as_delegatebw t.op_details.op) (λ action. name_text frame action.receiver)
        (codes " Receiver ") (some Formatter.delegatebw_stake_net_quantity) d
        (bound ripemd160 stale_olen mem frame t d Formatter.delegatebw_receiver) (omega arith)

  pub delegatebw_stake_net_quantity-Shrinks :
      Shrinks ripemd160 stale_olen mem frame t Formatter.delegatebw_stake_net_quantity
  unfolding Format.run_formatter Actions.format_delegatebw_stake_net_quantity
  delegatebw_stake_net_quantity-Shrinks d h =
      action_shows t (as_delegatebw t.op_details.op)
        (λ action. asset_text frame action.stake_net_quantity 32) (codes "   NET   ")
        (some Formatter.delegatebw_stake_cpu_quantity) d
        (bound ripemd160 stale_olen mem frame t d Formatter.delegatebw_stake_net_quantity)
        (omega arith)

  pub delegatebw_stake_cpu_quantity-Shrinks :
      Shrinks ripemd160 stale_olen mem frame t Formatter.delegatebw_stake_cpu_quantity
  unfolding Format.run_formatter Actions.format_delegatebw_stake_cpu_quantity
  delegatebw_stake_cpu_quantity-Shrinks d h =
      action_shows t (as_delegatebw t.op_details.op)
        (λ action. asset_text frame action.stake_cpu_quantity 32) (codes "   CPU  ")
        (some Formatter.delegatebw_transfer) d
        (bound ripemd160 stale_olen mem frame t d Formatter.delegatebw_stake_cpu_quantity)
        (omega arith)

  pub delegatebw_transfer-Shrinks :
      Shrinks ripemd160 stale_olen mem frame t Formatter.delegatebw_transfer
  unfolding Format.run_formatter Actions.format_delegatebw_transfer
  delegatebw_transfer-Shrinks d h =
      action_shows t (as_delegatebw t.op_details.op)
        (λ action. int_text frame (sign_extend action.transfer)) (codes " Transfer ") none d
        (bound ripemd160 stale_olen mem frame t d Formatter.delegatebw_transfer) (omega arith)

  pub undelegatebw-Shrinks : Shrinks ripemd160 stale_olen mem frame t Formatter.undelegatebw
  unfolding Format.run_formatter Actions.format_undelegatebw
  undelegatebw-Shrinks d h = omega arith

  pub undelegatebw_from-Shrinks :
      Shrinks ripemd160 stale_olen mem frame t Formatter.undelegatebw_from
  unfolding Format.run_formatter Actions.format_undelegatebw_from
  undelegatebw_from-Shrinks d h =
      action_shows t (as_undelegatebw t.op_details.op) (λ action. name_text frame action.from)
        (codes "Decrease Stake") (some Formatter.undelegatebw_receiver) d
        (bound ripemd160 stale_olen mem frame t d Formatter.undelegatebw_from) (omega arith)

  pub undelegatebw_receiver-Shrinks :
      Shrinks ripemd160 stale_olen mem frame t Formatter.undelegatebw_receiver
  unfolding Format.run_formatter Actions.format_undelegatebw_receiver
  undelegatebw_receiver-Shrinks d h =
      action_shows t (as_undelegatebw t.op_details.op) (λ action. name_text frame action.receiver)
        (codes " Receiver ") (some Formatter.undelegatebw_stake_net_quantity) d
        (bound ripemd160 stale_olen mem frame t d Formatter.undelegatebw_receiver) (omega arith)

  pub undelegatebw_stake_net_quantity-Shrinks :
      Shrinks ripemd160 stale_olen mem frame t Formatter.undelegatebw_stake_net_quantity
  unfolding Format.run_formatter Actions.format_undelegatebw_stake_net_quantity
  undelegatebw_stake_net_quantity-Shrinks d h =
      action_shows t (as_undelegatebw t.op_details.op)
        (λ action. asset_text frame action.unstake_net_quantity 64) (codes "   NET   ")
        (some Formatter.undelegatebw_stake_cpu_quantity) d
        (bound ripemd160 stale_olen mem frame t d Formatter.undelegatebw_stake_net_quantity)
        (omega arith)

  pub undelegatebw_stake_cpu_quantity-Shrinks :
      Shrinks ripemd160 stale_olen mem frame t Formatter.undelegatebw_stake_cpu_quantity
  unfolding Format.run_formatter Actions.format_undelegatebw_stake_cpu_quantity
  undelegatebw_stake_cpu_quantity-Shrinks d h =
      action_shows t (as_undelegatebw t.op_details.op)
        (λ action. asset_text frame action.unstake_cpu_quantity 64) (codes "   CPU   ") none d
        (bound ripemd160 stale_olen mem frame t d Formatter.undelegatebw_stake_cpu_quantity)
        (omega arith)

  pub newaccount-Shrinks : Shrinks ripemd160 stale_olen mem frame t Formatter.newaccount
  unfolding Format.run_formatter Format.format_newaccount
  newaccount-Shrinks d h = omega arith

  pub newaccount_active-Shrinks :
      Shrinks ripemd160 stale_olen mem frame t Formatter.newaccount_active
  unfolding Format.run_formatter Format.format_newaccount_active
  newaccount_active-Shrinks d h =
      action_shows t (as_newaccount t.op_details.op)
        (λ action. Format.key_text ripemd160 stale_olen mem frame t action.active.public_key)
        (codes "  Active  ") none d
        (bound ripemd160 stale_olen mem frame t d Formatter.newaccount_active) (omega arith)

  pub newaccount_owner-Shrinks : Shrinks ripemd160 stale_olen mem frame t Formatter.newaccount_owner
  unfolding Format.run_formatter Format.format_newaccount_owner
  newaccount_owner-Shrinks d h =
      action_shows t (as_newaccount t.op_details.op)
        (λ action. Format.key_text ripemd160 stale_olen mem frame t action.owner.public_key)
        (codes "  Owner   ") (some Formatter.newaccount_active) d
        (bound ripemd160 stale_olen mem frame t d Formatter.newaccount_owner) (omega arith)

  pub newaccount_name-Shrinks : Shrinks ripemd160 stale_olen mem frame t Formatter.newaccount_name
  unfolding Format.run_formatter Format.format_newaccount_name
  newaccount_name-Shrinks d h =
      action_shows t (as_newaccount t.op_details.op) (λ action. name_text frame action.name)
        (codes "  Name   ") (some Formatter.newaccount_owner) d
        (bound ripemd160 stale_olen mem frame t d Formatter.newaccount_name) (omega arith)

  pub transfer_creator-Shrinks : Shrinks ripemd160 stale_olen mem frame t Formatter.transfer_creator
  unfolding Format.run_formatter Format.format_transfer_creator
  transfer_creator-Shrinks d h =
      action_shows t (as_newaccount t.op_details.op) (λ action. name_text frame action.creator)
        (codes " New Account ") (some Formatter.newaccount_name) d
        (bound ripemd160 stale_olen mem frame t d Formatter.transfer_creator) (omega arith)
