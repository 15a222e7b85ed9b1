-- ===== src/Format/Table/Stakes.antt =====
-- The screens of stakes and of new accounts against the table.
use ledger_app_eos.Prelude.{ℕ, suc, ◌≡◌, refl, none, some, List, arith}
use ledger_app_eos.Types.{
  TxContext, Operation, DelegatebwAction, UndelegatebwAction, NewaccountAction,
}
use ledger_app_eos.Text.{Frame}
use ledger_app_eos.Text.Buffer.{codes}
use ledger_app_eos.Format.State.{Formatter}
use ledger_app_eos.Format.Values.{name_text, asset_text, int_text, sign_extend}
use ledger_app_eos.Format
use ledger_app_eos.Format.Actions
use ledger_app_eos.Format.Walk.{all_fields}
use ledger_app_eos.Format.Table.{captioned, key_text, fields_of, after, step, last_screen}

module _ (ripemd160 : List ℕ → List ℕ) (stale_olen : ℕ) (mem : List ℕ) (frame : Frame)
    (t : TxContext) where
  pub delegatebw_screens :
      (rounds : ℕ) (a : DelegatebwAction)
      → t.op_details.op ≡ Operation.delegatebw a
      → after ripemd160 stale_olen mem frame t
          (suc (suc (suc (suc (suc (suc (rounds)))))))
          (some Formatter.delegatebw_from)
        ≡ all_fields (fields_of ripemd160 stale_olen mem frame t (Operation.delegatebw a))
  unfolding Format.run_formatter Actions.format_delegatebw_from Actions.format_delegatebw_receiver
      Actions.format_delegatebw_stake_net_quantity Actions.format_delegatebw_stake_cpu_quantity
      Actions.format_delegatebw_transfer
  delegatebw_screens rounds a e =
      step ripemd160 stale_olen mem frame t (suc (suc (suc (suc (suc (rounds))))))
        Formatter.delegatebw_from (codes "Increase Stake") (name_text frame a.from)
        (some Formatter.delegatebw_receiver) _
        (captioned (codes "Increase Stake") (omega arith) (omega arith)) (rw e refl)
        (step ripemd160 stale_olen mem frame t (suc (suc (suc (suc (rounds)))))
          Formatter.delegatebw_receiver (codes " Receiver ") (name_text frame a.receiver)
          (some Formatter.delegatebw_stake_net_quantity) _
          (captioned (codes " Receiver ") (omega arith) (omega arith)) (rw e refl)
          (step ripemd160 stale_olen mem frame t (suc (suc (suc (rounds))))
            Formatter.delegatebw_stake_net_quantity (codes "   NET   ")
            (asset_text frame a.stake_net_quantity 32)
            (some Formatter.delegatebw_stake_cpu_quantity) _
            (captioned (codes "   NET   ") (omega arith) (omega arith)) (rw e refl)
            (step ripemd160 stale_olen mem frame t (suc (suc (rounds)))
              Formatter.delegatebw_stake_cpu_quantity (codes "   CPU  ")
              (asset_text frame a.stake_cpu_quantity 32) (some Formatter.delegatebw_transfer) _
              (captioned (codes "   CPU  ") (omega arith) (omega arith)) (rw e refl)
              (step ripemd160 stale_olen mem frame t (suc (rounds)) Formatter.delegatebw_transfer
                (codes " Transfer ") (int_text frame (sign_extend a.transfer)) none _
                (captioned (codes " Transfer ") (omega arith) (omega arith)) (rw e refl)
                (last_screen ripemd160 stale_olen mem frame t rounds)))))

  pub undelegatebw_screens :
      (rounds : ℕ) (a : UndelegatebwAction)
      → t.op_details.op ≡ Operation.undelegatebw a
      → after ripemd160 stale_olen mem frame t
          (suc (suc (suc (suc (suc (rounds))))))
          (some Formatter.undelegatebw_from)
        ≡ all_fields (fields_of ripemd160 stale_olen mem frame t (Operation.undelegatebw a))
  unfolding Format.run_formatter Actions.format_undelegatebw_from
      Actions.format_undelegatebw_receiver Actions.format_undelegatebw_stake_net_quantity
      Actions.format_undelegatebw_stake_cpu_quantity
  undelegatebw_screens rounds a e =
      step ripemd160 stale_olen mem frame t (suc (suc (suc (suc (rounds)))))
        Formatter.undelegatebw_from (codes "Decrease Stake") (name_text frame a.from)
        (some Formatter.undelegatebw_receiver) _
        (captioned (codes "Decrease Stake") (omega arith) (omega arith)) (rw e refl)
        (step ripemd160 stale_olen mem frame t (suc (suc (suc (rounds))))
          Formatter.undelegatebw_receiver (codes " Receiver ") (name_text frame a.receiver)
          (some Formatter.undelegatebw_stake_net_quantity) _
          (captioned (codes " Receiver ") (omega arith) (omega arith)) (rw e refl)
          (step ripemd160 stale_olen mem frame t (suc (suc (rounds)))
            Formatter.undelegatebw_stake_net_quantity (codes "   NET   ")
            (asset_text frame a.unstake_net_quantity 64)
            (some Formatter.undelegatebw_stake_cpu_quantity) _
            (captioned (codes "   NET   ") (omega arith) (omega arith)) (rw e refl)
            (step ripemd160 stale_olen mem frame t (suc (rounds))
              Formatter.undelegatebw_stake_cpu_quantity (codes "   CPU   ")
              (asset_text frame a.unstake_cpu_quantity 64) none _
              (captioned (codes "   CPU   ") (omega arith) (omega arith)) (rw e refl)
              (last_screen ripemd160 stale_olen mem frame t rounds))))

  pub newaccount_screens :
      (rounds : ℕ) (a : NewaccountAction)
      → t.op_details.op ≡ Operation.newaccount a
      → after ripemd160 stale_olen mem frame t
          (suc (suc (suc (suc (suc (rounds))))))
          (some Formatter.transfer_creator)
        ≡ all_fields (fields_of ripemd160 stale_olen mem frame t (Operation.newaccount a))
  unfolding Format.run_formatter Format.format_transfer_creator Format.format_newaccount_name
      Format.format_newaccount_owner Format.format_newaccount_active
  newaccount_screens rounds a e =
      step ripemd160 stale_olen mem frame t (suc (suc (suc (suc (rounds)))))
        Formatter.transfer_creator (codes " New Account ") (name_text frame a.creator)
        (some Formatter.newaccount_name) _
        (captioned (codes " New Account ") (omega arith) (omega arith)) (rw e refl)
        (step ripemd160 stale_olen mem frame t (suc (suc (suc (rounds)))) Formatter.newaccount_name
          (codes "  Name   ") (name_text frame a.name) (some Formatter.newaccount_owner) _
          (captioned (codes "  Name   ") (omega arith) (omega arith)) (rw e refl)
          (step ripemd160 stale_olen mem frame t (suc (suc (rounds))) Formatter.newaccount_owner
            (codes "  Owner   ") (key_text ripemd160 stale_olen mem frame t a.owner.public_key)
            (some Formatter.newaccount_active) _
            (captioned (codes "  Owner   ") (omega arith) (omega arith)) (rw e refl)
            (step ripemd160 stale_olen mem frame t (suc (rounds)) Formatter.newaccount_active
              (codes "  Active  ") (key_text ripemd160 stale_olen mem frame t a.active.public_key)
              none _ (captioned (codes "  Active  ") (omega arith) (omega arith)) (rw e refl)
              (last_screen ripemd160 stale_olen mem frame t rounds))))
