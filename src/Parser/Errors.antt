-- ===== src/Parser/Errors.antt =====
-- The exceptions of parse_tx, and the state that it leaves behind them.
use ledger_app_eos.Prelude.{ℕ, ◌%◌, ◌^◌, ◌<◌, ◌≡◌, ◌≢◌, ◌∙◌, List, drop, arith, ◌==◌, true, false}
use ledger_app_eos.Outcome.{thrown, >>=-thrown, zoom-thrown}
use ledger_app_eos.Types.{OperationDetails, TxContext, max_ops}
use ledger_app_eos.Parser.{
  parse_action, parse_op, parse_header, parse_tx_op, parse_tx, count_op, on_op_details,
  action_transfer, action_buyram, action_buyrambytes, action_sellram, action_delegatebw,
  action_undelegatebw, action_voteproducer, action_newaccount,
}
use ledger_app_eos.Parser.Wire.{
  ActionHead, IsActionHead, action_head_bytes, Header, IsHeader, header_bytes,
}
use ledger_app_eos.Parser.Op.{parse_op-action_head}
use ledger_app_eos.Parser.Head.{parse_header-header_bytes, refused_header}

-- A name that is none of the eight.
pub record IsUnknown (name : ℕ) : Type 0 where
  pub transfer : name ≢ action_transfer
  pub buyram : name ≢ action_buyram
  pub buyrambytes : name ≢ action_buyrambytes
  pub sellram : name ≢ action_sellram
  pub delegatebw : name ≢ action_delegatebw
  pub undelegatebw : name ≢ action_undelegatebw
  pub voteproducer : name ≢ action_voteproducer
  pub newaccount : name ≢ action_newaccount

parse_action-unknown :
    (mem : List ℕ) (buffer offset size name : ℕ) (d : OperationDetails)
    → IsUnknown name
    → parse_action mem buffer offset size name d ≡ thrown 0x6900 d
unfolding parse_action
parse_action-unknown mem buffer offset size name d u = ground arith

-- The state in which an unknown action is refused.
abbrev pub refused_action : TxContext → ActionHead → TxContext
refused_action t h = record t {
  op_details = record t.op_details { account = h.account; name = h.name };
}

parse_tx_op-unknown :
    (mem : List ℕ) (p : ℕ) (h : ActionHead) (rest : List ℕ) (t : TxContext)
    → IsActionHead h
    → IsUnknown h.name
    → drop p mem ≡ action_head_bytes h rest
    → parse_tx_op mem p t ≡ thrown 0x6900 (refused_action t h)
unfolding parse_tx_op
parse_tx_op-unknown mem p h rest t v u at =
    >>=-thrown (on_op_details (parse_op mem p)) (count_op p) t (
      zoom-thrown (λ (t : TxContext). t.op_details) (λ d t. record t { op_details = d })
        (parse_op mem p) t
        ((parse_op-action_head mem p h rest t.op_details v at).0
          ∙ parse_action-unknown mem p _ _ h.name _ u))

-- An action that the app does not know, behind the first one, makes parse_tx throw 0x6900. The
-- offset and the index stay at that action, so each further call throws the same again.
pub parse_tx-unknown_action :
    (mem : List ℕ) (h : ActionHead) (rest : List ℕ) (t : TxContext)
    → t.offset ≢ 0
    → IsActionHead h
    → IsUnknown h.name
    → drop t.offset mem ≡ action_head_bytes h rest
    → (parse_tx mem t ≡ thrown 0x6900 (refused_action t h))
      × (parse_tx mem (refused_action t h) ≡ thrown 0x6900 (refused_action t h))
unfolding parse_tx
parse_tx-unknown_action mem h rest t o v u at =
    let later : (t.offset == 0) ≡ false = ground arith in
    (
      rw later (parse_tx_op-unknown mem t.offset h rest t v u at),
      rw later (parse_tx_op-unknown mem t.offset h rest (refused_action t h) v u at),
    )

-- A header whose count of actions, cut to eight bits, is above MAX_OPS makes the first call of
-- parse_tx throw 0x6e10, and keeps the parser at the beginning of the transaction.
pub parse_tx-too_many_actions :
    (mem : List ℕ) (h : Header) (rest : List ℕ) (t : TxContext)
    → t.offset ≡ 0
    → IsHeader h
    → mem ≡ header_bytes h rest
    → max_ops < h.count.value % 2 ^ 8
    → (parse_tx mem t ≡ thrown 0x6e10 (refused_header t (h.count.value % 2 ^ 8)))
      × ((refused_header t (h.count.value % 2 ^ 8)).offset ≡ 0)
unfolding parse_tx
parse_tx-too_many_actions mem h rest t o v at many =
    let fresh : (t.offset == 0) ≡ true = ground arith in
    let header = (parse_header-header_bytes mem h rest t v at).0 in
    (rw fresh (>>=-thrown (parse_header mem) (parse_tx_op mem) t (header ∙ ground arith)), o)
