-- ===== src/Format/Table/Whole.antt =====
-- The screens of an action from its first one on.
use ledger_app_eos.Prelude.{ℕ, ◌≡◌, refl, ap, ◌∙◌, Option, some, List, [], ◌∷◌}
use ledger_app_eos.Memory.{◌>>=◌}
use ledger_app_eos.Types.{TxContext, Operation}
use ledger_app_eos.Text.{Frame}
use ledger_app_eos.Format.State.{Formatter}
use ledger_app_eos.Format
use ledger_app_eos.Format.Actions
use ledger_app_eos.Format.Walk.{walk-blank, Screen, blank, all_fields, walk}
use ledger_app_eos.Format.Table.{first_formatter, HasFields, fields_of, after}
use ledger_app_eos.Format.Table.Trades.{
  transfer_screens, buyram_screens, buyrambytes_screens, sellram_screens,
}
use ledger_app_eos.Format.Table.Stakes.{
  delegatebw_screens, undelegatebw_screens, newaccount_screens,
}

module _ (ripemd160 : List ℕ → List ℕ) (stale_olen : ℕ) (mem : List ℕ) (frame : Frame)
    (t : TxContext) where
  Sets : Formatter → Option Formatter → Type 0
  Sets f next =
      Format.run_formatter ripemd160 stale_olen mem frame t f (blank 0 (some f))
      ≡ some (blank 0 next)

  behind_blank :
      (f : Formatter) (next : Option Formatter)
      → Sets f next
      → (fields : Option (List Screen)) → after ripemd160 stale_olen mem frame t 7 next ≡ fields
      → after ripemd160 stale_olen mem frame t 8 (some f)
        ≡ (fields >>= λ rest. some (([], []) ∷ rest))
  unfolding Sets
  behind_blank f next e fields later =
      walk-blank ripemd160 stale_olen mem frame t 7 0 f next e
      ∙ ap (λ (rest : Option (List Screen)). rest >>= λ rest. some (([], []) ∷ rest)) later

  transfer_first : Sets Formatter.transfer (some Formatter.transfer_from)
  unfolding Sets Format.run_formatter Actions.format_transfer
  transfer_first = refl

  buyram_first : Sets Formatter.buyram (some Formatter.buyram_payer)
  unfolding Sets Format.run_formatter Actions.format_buyram
  buyram_first = refl

  buyrambytes_first : Sets Formatter.buyrambytes (some Formatter.buyrambytes_payer)
  unfolding Sets Format.run_formatter Actions.format_buyrambytes
  buyrambytes_first = refl

  sellram_first : Sets Formatter.sellram (some Formatter.sellram_account)
  unfolding Sets Format.run_formatter Actions.format_sellram
  sellram_first = refl

  delegatebw_first : Sets Formatter.delegatebw (some Formatter.delegatebw_from)
  unfolding Sets Format.run_formatter Actions.format_delegatebw
  delegatebw_first = refl

  undelegatebw_first : Sets Formatter.undelegatebw (some Formatter.undelegatebw_from)
  unfolding Sets Format.run_formatter Actions.format_undelegatebw
  undelegatebw_first = refl

  newaccount_first : Sets Formatter.newaccount (some Formatter.transfer_creator)
  unfolding Sets Format.run_formatter Format.format_newaccount
  newaccount_first = refl

  -- The screens of an action other than a vote: a blank one, then one for each of its fields in the
  -- order of the table, with its caption and with its text as print_summary shortens it, and no other.
  -- Where a text is not defined, neither is the walk.
  pub walk-fields_of :
      (op : Operation)
      → t.op_details.op ≡ op
      → HasFields op
      → walk ripemd160 stale_olen mem frame t 8 0 (first_formatter op) ≡ (
          all_fields (fields_of ripemd160 stale_olen mem frame t op) >>= λ rest.
          some (([], []) ∷ rest))
  walk-fields_of (Operation.transfer a) e h =
      behind_blank Formatter.transfer (some Formatter.transfer_from) transfer_first
        (all_fields (fields_of ripemd160 stale_olen mem frame t (Operation.transfer a)))
        (transfer_screens ripemd160 stale_olen mem frame t 3 a e)
  walk-fields_of (Operation.buyram a) e h =
      behind_blank Formatter.buyram (some Formatter.buyram_payer) buyram_first
        (all_fields (fields_of ripemd160 stale_olen mem frame t (Operation.buyram a)))
        (buyram_screens ripemd160 stale_olen mem frame t 3 a e)
  walk-fields_of (Operation.buyrambytes a) e h =
      behind_blank Formatter.buyrambytes (some Formatter.buyrambytes_payer) buyrambytes_first
        (all_fields (fields_of ripemd160 stale_olen mem frame t (Operation.buyrambytes a)))
        (buyrambytes_screens ripemd160 stale_olen mem frame t 3 a e)
  walk-fields_of (Operation.sellram a) e h =
      behind_blank Formatter.sellram (some Formatter.sellram_account) sellram_first
        (all_fields (fields_of ripemd160 stale_olen mem frame t (Operation.sellram a)))
        (sellram_screens ripemd160 stale_olen mem frame t 4 a e)
  walk-fields_of (Operation.delegatebw a) e h =
      behind_blank Formatter.delegatebw (some Formatter.delegatebw_from) delegatebw_first
        (all_fields (fields_of ripemd160 stale_olen mem frame t (Operation.delegatebw a)))
        (delegatebw_screens ripemd160 stale_olen mem frame t 1 a e)
  walk-fields_of (Operation.undelegatebw a) e h =
      behind_blank Formatter.undelegatebw (some Formatter.undelegatebw_from) undelegatebw_first
        (all_fields (fields_of ripemd160 stale_olen mem frame t (Operation.undelegatebw a)))
        (undelegatebw_screens ripemd160 stale_olen mem frame t 2 a e)
  walk-fields_of (Operation.newaccount a) e h =
      behind_blank Formatter.newaccount (some Formatter.transfer_creator) newaccount_first
        (all_fields (fields_of ripemd160 stale_olen mem frame t (Operation.newaccount a)))
        (newaccount_screens ripemd160 stale_olen mem frame t 2 a e)
  walk-fields_of (Operation.voteproducer a) e h = absurd h
  walk-fields_of Operation.blank e h = absurd h
