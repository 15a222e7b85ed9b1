-- ===== src/Format/Chosen.antt =====
-- The formatter that the tag of a parsed operation chooses.
use ledger_app_eos.Prelude.{ℕ, ◌≤◌, ◌≡◌, refl, ap, ◌∙◌, false, Option, none, some, List, ltb, arith}
use ledger_app_eos.Memory.{◌>>=◌}
use ledger_app_eos.Types.{TxContext, Operation}
use ledger_app_eos.Parser.Yields.{Yields}
use ledger_app_eos.Parser.Typed.{IsDetails, tag}
use ledger_app_eos.Text.{Frame}
use ledger_app_eos.Format.State.{Formatter, Display}
use ledger_app_eos.Format.{nth, formatters}
use ledger_app_eos.Format

-- The first screen of an operation, by the member of the union that it is stored in.
abbrev pub formatter_of : Operation → Option Formatter
formatter_of Operation.blank = none
formatter_of (Operation.transfer a) = some Formatter.transfer
formatter_of (Operation.buyram a) = some Formatter.buyram
formatter_of (Operation.buyrambytes a) = some Formatter.buyrambytes
formatter_of (Operation.sellram a) = some Formatter.sellram
formatter_of (Operation.delegatebw a) = some Formatter.delegatebw
formatter_of (Operation.undelegatebw a) = some Formatter.undelegatebw
formatter_of (Operation.voteproducer a) = some Formatter.voteproducer
formatter_of (Operation.newaccount a) = some Formatter.newaccount

-- A union that holds a member.
abbrev pub IsStored : Operation → Type 0
IsStored Operation.blank = ⊥
IsStored op = Unit {0}

-- The table of formatters at the tag of the details.
nth-tag :
    (op : Operation) (type : ℕ)
    → IsStored op
    → Yields (λ k. type ≡ k) (tag op)
    → nth formatters type ≡ formatter_of op
unfolding nth
nth-tag Operation.blank type stored h = absurd stored
nth-tag (Operation.transfer a) type stored h = ap (nth formatters) h
nth-tag (Operation.buyram a) type stored h = ap (nth formatters) h
nth-tag (Operation.buyrambytes a) type stored h = ap (nth formatters) h
nth-tag (Operation.sellram a) type stored h = ap (nth formatters) h
nth-tag (Operation.delegatebw a) type stored h = ap (nth formatters) h
nth-tag (Operation.undelegatebw a) type stored h = ap (nth formatters) h
nth-tag (Operation.voteproducer a) type stored h = ap (nth formatters) h
nth-tag (Operation.newaccount a) type stored h = ap (nth formatters) h

module _ (ripemd160 : List ℕ → List ℕ) (stale_olen : ℕ) (mem : List ℕ) (frame : Frame)
    (t : TxContext) where
  run_action-formatter_of :
      (op : Operation) (d : Display)
      → (formatter_of op >>= λ f. Format.run_action ripemd160 stale_olen mem frame t f d)
        ≡ (formatter_of op >>= λ f. Format.run_formatter ripemd160 stale_olen mem frame t f d)
  unfolding Format.run_action Format.run_formatter
  run_action-formatter_of Operation.blank d = refl
  run_action-formatter_of (Operation.transfer a) d = refl
  run_action-formatter_of (Operation.buyram a) d = refl
  run_action-formatter_of (Operation.buyrambytes a) d = refl
  run_action-formatter_of (Operation.sellram a) d = refl
  run_action-formatter_of (Operation.delegatebw a) d = refl
  run_action-formatter_of (Operation.undelegatebw a) d = refl
  run_action-formatter_of (Operation.voteproducer a) d = refl
  run_action-formatter_of (Operation.newaccount a) d = refl

  -- For the details that the parser leaves, with the tag of the member which was written, the screen
  -- of a transaction's only operation is the first one of that member's screens.
  pub format_confirm_operation-formatter_of :
      (d : Display)
      → t.op_count ≤ 1
      → IsDetails t.op_details
      → IsStored t.op_details.op
      → Format.format_confirm_operation ripemd160 stale_olen mem frame t d ≡ (
          formatter_of t.op_details.op >>= λ f.
          Format.run_formatter ripemd160 stale_olen mem frame t f d)
  unfolding Format.format_confirm_operation
  format_confirm_operation-formatter_of d few details stored =
      let single : ltb 1 t.op_count ≡ false = ground (arith, few) in
      rw single (
        ap
          (λ (f : Option Formatter).
            f >>= λ f. Format.run_action ripemd160 stale_olen mem frame t f d)
          (nth-tag t.op_details.op t.op_details.type stored details.tagged)
        ∙ run_action-formatter_of t.op_details.op d)
