-- ===== src/Format/Table.antt =====
-- The screens of each action as a table, apart from the functions that call each other.
pub mod Trades
pub mod Stakes
pub mod Whole
pub mod Votes
use ledger_app_eos.Prelude.{
  ℕ, zero, suc, ◌+◌, ◌<◌, ◌≡◌, refl, sym, ap, ◌∙◌, Option, none, some, List, [], ◌∷◌, ◌++◌,
  replicate, All, length, drop, arith, length-append, append_assoc,
}
use ledger_app_eos.Memory.{◌>>=◌}
use ledger_app_eos.Types.{
  TxContext, Operation, TransferAction, BuyramAction, BuyrambytesAction, SellramAction,
  DelegatebwAction, UndelegatebwAction, NewaccountAction,
}
use ledger_app_eos.Text.Summary.{write-over}
use ledger_app_eos.Text.Account.{text-eq}
use ledger_app_eos.Text.{Frame}
use ledger_app_eos.Text.Buffer.{codes, text, write}
use ledger_app_eos.Format.State.{Formatter, Display}
use ledger_app_eos.Format.Values.{show, name_text, asset_text, int_text, sign_extend}
use ledger_app_eos.Format
use ledger_app_eos.Format.Actions
use ledger_app_eos.Format.Walk.{Screen, blank, field, all_fields, IsCaption, walk, walk-fields}

-- The function of the table `formatters` for an action.
abbrev pub first_formatter : Operation → Option Formatter
first_formatter (Operation.transfer a) = some Formatter.transfer
first_formatter (Operation.buyram a) = some Formatter.buyram
first_formatter (Operation.buyrambytes a) = some Formatter.buyrambytes
first_formatter (Operation.sellram a) = some Formatter.sellram
first_formatter (Operation.delegatebw a) = some Formatter.delegatebw
first_formatter (Operation.undelegatebw a) = some Formatter.undelegatebw
first_formatter (Operation.newaccount a) = some Formatter.newaccount
first_formatter op = none

-- The actions whose screens follow each other in a fixed order.
abbrev pub HasFields : Operation → Type 0
HasFields (Operation.voteproducer a) = ⊥
HasFields Operation.blank = ⊥
HasFields op = Unit {0}

pub captioned : (c : List ℕ) → All (λ b. 0 < b) c → length c < 20 → IsCaption c
captioned c h fits =
    let buffer = c ++ (0 ∷ drop (length (c ++ (0 ∷ []))) (replicate 20 0)) in
    let cleared : List ℕ = replicate 20 0 in
    (
      buffer,
      write-over [] cleared (c ++ (0 ∷ [])) (omega (arith, fits, length-append c (0 ∷ [])))
          ∙ ap some (append_assoc c (0 ∷ []) (drop (length (c ++ (0 ∷ []))) cleared)),
      text-eq c (drop (length (c ++ (0 ∷ []))) cleared) h,
    )

module _ (ripemd160 : List ℕ → List ℕ) (stale_olen : ℕ) (mem : List ℕ) (frame : Frame)
    (t : TxContext) where
  abbrev pub key_text : List ℕ → Option (List ℕ)
  key_text = Format.key_text ripemd160 stale_olen mem frame t

  -- What an action shows: captions with the texts of its fields.
  abbrev pub fields_of : Operation → List (List ℕ × Option (List ℕ))
  fields_of (Operation.transfer a) =
      (codes " Transfer ", name_text frame a.from)
      ∷ (codes "   To   ", name_text frame a.to)
      ∷ (codes " Quantity ", asset_text frame a.quantity 64)
      ∷ []
  fields_of (Operation.buyram a) =
      (codes " Buy RAM ", name_text frame a.payer)
      ∷ (codes " Receiver ", name_text frame a.receiver)
      ∷ (codes " Quantity ", asset_text frame a.quant 64)
      ∷ []
  fields_of (Operation.buyrambytes a) =
      (codes " Buy RAM ", name_text frame a.payer)
      ∷ (codes " Receiver ", name_text frame a.receiver)
      ∷ (codes "  Bytes  ", int_text frame a.bytes)
      ∷ []
  fields_of (Operation.sellram a) =
      (codes " Sell RAM ", name_text frame a.account)
      ∷ (codes "  Bytes  ", int_text frame a.bytes)
      ∷ []
  fields_of (Operation.delegatebw a) =
      (codes "Increase Stake", name_text frame a.from)
      ∷ (codes " Receiver ", name_text frame a.receiver)
      ∷ (codes "   NET   ", asset_text frame a.stake_net_quantity 32)
      ∷ (codes "   CPU  ", asset_text frame a.stake_cpu_quantity 32)
      ∷ (codes " Transfer ", int_text frame (sign_extend a.transfer))
      ∷ []
  fields_of (Operation.undelegatebw a) =
      (codes "Decrease Stake", name_text frame a.from)
      ∷ (codes " Receiver ", name_text frame a.receiver)
      ∷ (codes "   NET   ", asset_text frame a.unstake_net_quantity 64)
      ∷ (codes "   CPU   ", asset_text frame a.unstake_cpu_quantity 64)
      ∷ []
  fields_of (Operation.newaccount a) =
      (codes " New Account ", name_text frame a.creator)
      ∷ (codes "  Name   ", name_text frame a.name)
      ∷ (codes "  Owner   ", key_text a.owner.public_key)
      ∷ (codes "  Active  ", key_text a.active.public_key)
      ∷ []
  fields_of op = []

  abbrev pub after : ℕ → Option Formatter → Option (List Screen)
  after rounds f = walk ripemd160 stale_olen mem frame t rounds 0 f

  -- A screen for the first of the fields.
  pub step :
      (rounds : ℕ) (f : Formatter) (caption : List ℕ) (tmp : Option (List ℕ))
      (next : Option Formatter) (fields : List (List ℕ × Option (List ℕ)))
      → IsCaption caption
      → Format.run_formatter ripemd160 stale_olen mem frame t f (blank 0 (some f))
        ≡ show caption tmp next (blank 0 (some f))
      → after rounds next ≡ all_fields fields
      → after (suc rounds) (some f) ≡ all_fields ((caption, tmp) ∷ fields)
  step rounds = walk-fields ripemd160 stale_olen mem frame t rounds 0

  pub last_screen : (rounds : ℕ) → after (suc rounds) none ≡ all_fields []
  unfolding walk all_fields
  last_screen rounds = refl
