-- ===== src/Parser/Frame.antt =====
-- What parse_tx leaves alone, and which exceptions it throws.
use ledger_app_eos.Prelude.{ℕ, ◌≡◌, ◌⊎◌, arith, Option, List}
use ledger_app_eos.Outcome.{Leaves}
use ledger_app_eos.Types.{Operation, OperationDetails, TxContext}
use ledger_app_eos.Parser.{
  store_action, parse_action, parse_op, parse_header, parse_tx_op, parse_tx,
}

-- The fields of a transaction context that the request's handlers fill and the signer reads.
pub record SameInput (t t' : TxContext) : Type 0 where
  pub bip32_len : t'.bip32_len ≡ t.bip32_len
  pub bip32 : t'.bip32 ≡ t.bip32
  pub raw : t'.raw ≡ t.raw
  pub raw_length : t'.raw_length ≡ t.raw_length
  pub hash : t'.hash ≡ t.hash

-- 0x6900 is an unknown action, 0x6e10 a count of actions above MAX_OPS.
abbrev pub IsParserError : ℕ → Type 0
IsParserError sw = (sw ≡ 0x6900) ⊎ (sw ≡ 0x6e10)

module _ (R : OperationDetails → Type 0) (any : (d : OperationDetails) → R d) where
  store_action-Leaves :
      {A : Type 0} (type : ℕ) (member : A → Operation) (offset : ℕ) (parsed : Option (A × ℕ))
      (d : OperationDetails)
      → Leaves R IsParserError (store_action type member offset parsed d)
  unfolding store_action
  store_action-Leaves type member offset parsed d = grind (arith, any)

  parse_action-Leaves :
      (mem : List ℕ) (buffer offset size name : ℕ) (d : OperationDetails)
      → Leaves R IsParserError (parse_action mem buffer offset size name d)
  unfolding parse_action
  parse_action-Leaves mem buffer offset size name d = grind (arith, store_action-Leaves, any)

  parse_op-Leaves :
      (mem : List ℕ) (buffer : ℕ) (d : OperationDetails)
      → Leaves R IsParserError (parse_op mem buffer d)
  unfolding parse_op
  parse_op-Leaves mem buffer d = grind (arith, parse_action-Leaves, any)

module _ (t : TxContext) where
  -- The header changes the count and the index of the actions, and clears `tx_details`.
  parse_header-Leaves : (mem : List ℕ) → Leaves (SameInput t) IsParserError (parse_header mem t)
  unfolding parse_header
  parse_header-Leaves mem = grind arith

  parse_tx_op-Leaves :
      (mem : List ℕ) (offset : ℕ) (t' : TxContext)
      → SameInput t t'
      → Leaves (SameInput t) IsParserError (parse_tx_op mem offset t')
  unfolding parse_tx_op
  parse_tx_op-Leaves mem offset t' same = grind (arith, parse_op-Leaves)

-- However parse_tx ends, the path, the raw transaction, its length and its hash are unchanged, so
-- that what is signed is what was received; and it throws only 0x6900 or 0x6e10.
pub parse_tx-Leaves :
    (mem : List ℕ) (t : TxContext) → Leaves (SameInput t) IsParserError (parse_tx mem t)
unfolding parse_tx
parse_tx-Leaves mem t = grind (arith, parse_header-Leaves, parse_tx_op-Leaves)
