-- ===== src/Parser/Tx.antt =====
-- parse_tx over a whole transaction in the wire format: the header, then an action at each call.
use ledger_app_eos.Prelude.{
  true, false, ℕ, zero, suc, ◌+◌, ◌%◌, ◌^◌, ◌<◌, ◌≤◌, ◌≡◌, ◌≢◌, refl, ap, ◌∙◌, List, [], ◌∷◌,
  length, drop, arith, ◌==◌, if◌then◌else◌, All, length-append,
}
use ledger_app_eos.Outcome.{Command, done, ◌>>=◌, ◌>>◌, pure, gets, zoom-done, >>=-done}
use ledger_app_eos.Types.{OperationDetails, TxContext, max_ops}
use ledger_app_eos.Parser.{parse_header, parse_tx, parse_tx_op, count_op, on_op_details, parse_op}
use ledger_app_eos.Parser.Actions.{u16}
use ledger_app_eos.Parser.Wire.{
  Action, action_bytes, action_size, IsAction, details, actions_bytes, actions_size, all_details,
  Transaction, transaction_bytes, header_size, IsTransaction, Header, IsHeader, header_bytes,
}
use ledger_app_eos.Parser.Head.{behind_header, parse_header-header_bytes}
use ledger_app_eos.Parser.Behind.{actions_bytes-append}
use ledger_app_eos.Parser.Op.{parse_op-action_bytes}

-- The state behind a call of parse_tx that read the action `a` at the pointer `p`, with `rest` behind it.
abbrev advance : TxContext → ℕ → Action → List ℕ → TxContext
advance t p a rest = record t {
  op_details = details p a rest;
  op_idx = (t.op_idx + 1) % 2 ^ 8;
  offset = if t.op_count == (t.op_idx + 1) % 2 ^ 8 then 0 else u16 (p + action_size a);
}

-- `k` calls of parse_tx, and what each left in `op_details`.
abbrev pub parse_calls : ℕ → List ℕ → Command TxContext (List OperationDetails)
parse_calls zero mem = pure []
parse_calls (suc k) mem = do
  parse_tx mem
  d ← gets (λ t. t.op_details)
  ds ← parse_calls k mem
  pure (d ∷ ds)

actions_bytes-room :
    (actions : List Action) (rest : List ℕ)
    → 3 ≤ length rest
    → 3 ≤ length (actions_bytes actions rest)
actions_bytes-room actions rest room =
    let same = ap (length {A = ℕ}) (actions_bytes-append actions [] rest) in
    omega (arith, room, same, length-append (actions_bytes actions []) rest)

module _ (mem : List ℕ) where
  parse_header-few :
      (h : Header) (rest : List ℕ) (t : TxContext)
      → IsHeader h
      → mem ≡ header_bytes h rest
      → h.count.value % 2 ^ 8 ≤ max_ops
      → (parse_header mem t ≡ done (header_size h) (behind_header t (h.count.value % 2 ^ 8)))
        × (drop (header_size h) mem ≡ rest)
  parse_header-few h rest t v at few =
      let (e, behind) = parse_header-header_bytes mem h rest t v at in (e ∙ ground arith, behind)

  parse_tx_op-action_bytes :
      (p : ℕ) (a : Action) (rest : List ℕ) (t : TxContext)
      → IsAction a
      → 3 ≤ length rest
      → drop p mem ≡ action_bytes a rest
      → parse_tx_op mem p t ≡ done tt (advance t p a rest)
  unfolding parse_tx_op
  parse_tx_op-action_bytes p a rest t v room at =
      >>=-done (on_op_details (parse_op mem p)) (count_op p) t (
        zoom-done (λ (t : TxContext). t.op_details) (λ d t. record t { op_details = d })
          (parse_op mem p) t (parse_op-action_bytes mem p a rest t.op_details v room at).0)

  parse_tx-next :
      (a : Action) (rest : List ℕ) (t : TxContext)
      → t.offset ≢ 0
      → IsAction a
      → 3 ≤ length rest
      → drop t.offset mem ≡ action_bytes a rest
      → parse_tx mem t ≡ done tt (advance t t.offset a rest)
  unfolding parse_tx
  parse_tx-next a rest t h v room at =
      let later : (t.offset == 0) ≡ false = ground arith in
      rw later (parse_tx_op-action_bytes t.offset a rest t v room at)

  parse_tx-first :
      (p : ℕ) (a : Action) (rest : List ℕ) (t t' : TxContext)
      → t.offset ≡ 0
      → parse_header mem t ≡ done p t'
      → IsAction a
      → 3 ≤ length rest
      → drop p mem ≡ action_bytes a rest
      → parse_tx mem t ≡ done tt (advance t' p a rest)
  unfolding parse_tx
  parse_tx-first p a rest t t' h e v room at =
      let fresh : (t.offset == 0) ≡ true = ground arith in
      rw fresh (
        >>=-done (parse_header mem) (parse_tx_op mem) t e
        ∙ parse_tx_op-action_bytes p a rest t' v room at)

  -- What calls of parse_tx from the state `t` on leave: each action's details, and a parser that
  -- will start from the beginning.
  abbrev Reads : TxContext → List OperationDetails → ℕ → Type 0
  Reads t ds k =
      (t' : TxContext) × (parse_calls k mem t ≡ done ds t')
      × (t'.offset ≡ 0)
      × (t'.op_idx ≡ t'.op_count)
      × (t'.op_count ≡ t.op_count)

  parse_calls-suc :
      (t t' : TxContext) (ds : List OperationDetails) (k : ℕ) {end : TxContext}
      → parse_tx mem t ≡ done tt t'
      → parse_calls k mem t' ≡ done ds end
      → parse_calls (suc k) mem t ≡ done (t'.op_details ∷ ds) end
  parse_calls-suc t t' ds k e calls =
      >>=-done (parse_tx mem) _ t e ∙ >>=-done (parse_calls k mem) _ t' calls

  Reads-suc :
      (t t' : TxContext) (ds : List OperationDetails) (k : ℕ)
      → parse_tx mem t ≡ done tt t'
      → t'.op_count ≡ t.op_count
      → Reads t' ds k
      → Reads t (t'.op_details ∷ ds) (suc k)
  Reads-suc t t' ds k e same (end, calls, o, i, c) =
      (end, parse_calls-suc t t' ds k e calls, o, i, c ∙ same)

  -- A state whose next call reads the first of the actions `later`, which stand at the pointer `p`.
  abbrev Ready : TxContext → ℕ → List Action → Type 0
  Ready t p later =
      (t.op_idx + length later ≡ t.op_count)
      × (t.offset ≡ (if length later == 0 then 0 else p))
      × (t.op_count ≤ max_ops)

  advance-Ready :
      (t : TxContext) (p : ℕ) (a : Action) (later : List Action) (rest : List ℕ)
      → t.op_idx + suc (length later) ≡ t.op_count
      → t.op_count ≤ max_ops
      → p + action_size a < 2 ^ 16
      → Ready (advance t p a rest) (p + action_size a) later
  advance-Ready t p a later rest n few fits = (ground arith, ground arith, few)

  parse_calls-Ready :
      (later : List Action) (p : ℕ) (rest : List ℕ) (t : TxContext)
      → Ready t p later
      → p ≢ 0
      → All IsAction later
      → p + actions_size later < 2 ^ 16
      → 3 ≤ length rest
      → drop p mem ≡ actions_bytes later rest
      → Reads t (all_details p later rest) (length later)
  parse_calls-Ready [] p rest t (n, o, few) h vs fits room at = (t, refl, o, omega arith, refl)
  parse_calls-Ready (a ∷ later) p rest t (n, o, few) h (v, vs) fits room at =
      let tail = actions_bytes later rest in
      let room' = actions_bytes-room later rest room in
      let start : t.offset ≡ p = ground arith in
      let behind = (parse_op-action_bytes mem p a tail t.op_details v room' at).1 in
      Reads-suc t (advance t p a tail) _ (length later)
        (parse_tx-next a tail t (rw start h) v room' (rw start at)
          ∙ ap (λ (q : ℕ). done tt (advance t q a tail)) start)
        refl
        (parse_calls-Ready later (p + action_size a) rest (advance t p a tail)
          (advance-Ready t p a later tail n few (omega arith)) (omega arith) vs (omega arith) room
          behind)

  parse_calls-first :
      (actions : List Action) (p : ℕ) (rest : List ℕ) (t t' : TxContext)
      → 1 ≤ length actions
      → t.offset ≡ 0
      → parse_header mem t ≡ done p t'
      → t'.op_idx ≡ 0
      → t'.op_count ≡ length actions
      → t'.op_count ≤ max_ops
      → p ≢ 0
      → All IsAction actions
      → p + actions_size actions < 2 ^ 16
      → 3 ≤ length rest
      → drop p mem ≡ actions_bytes actions rest
      → (end : TxContext) × (parse_calls (length actions) mem t
          ≡ done (all_details p actions rest) end)
        × (end.offset ≡ 0)
        × (end.op_idx ≡ end.op_count)
        × (end.op_count ≡ t'.op_count)
  parse_calls-first [] p rest t t' some_action _ _ _ _ _ _ _ _ _ _ = absurd (omega arith)
  parse_calls-first (a ∷ later) p rest t t' _ e header i n few h (v, vs) fits room at =
      let tail = actions_bytes later rest in
      let room' = actions_bytes-room later rest room in
      let behind = (parse_op-action_bytes mem p a tail t'.op_details v room' at).1 in
      let (end, calls, o, idx, count) =
        parse_calls-Ready later (p + action_size a) rest (advance t' p a tail)
          (advance-Ready t' p a later tail (omega arith) few (omega arith)) (omega arith) vs
          (omega arith) room behind in
      (
        end,
        parse_calls-suc t _ _ _ (parse_tx-first p a tail t t' e header v room' at) calls,
        o,
        idx,
        count,
      )

-- On a transaction in the wire format, with three bytes or more behind it, as many calls of parse_tx
-- as it has actions all return normally. They leave the account, the name, the type and the fields of
-- each action, in the transaction's order, and the parser then starts from the beginning again. The
-- transaction has one to 35 actions, no context-free ones, and authorities of one key. The bool of
-- a delegatebw is one byte, but what is left of it is the number of four bytes: the bool and the three
-- bytes behind it.
pub parse_tx-transaction_bytes :
    (tx : Transaction) (rest : List ℕ) (t : TxContext)
    → IsTransaction tx
    → 3 ≤ length rest
    → t.offset ≡ 0
    → (end : TxContext) × (parse_calls (length tx.actions) (transaction_bytes tx rest) t
        ≡ done (all_details (header_size tx.header) tx.actions rest) end)
      × (end.offset ≡ 0)
      × (end.op_idx ≡ end.op_count)
      × (end.op_count ≡ length tx.actions)
parse_tx-transaction_bytes tx rest t v room e =
    let n : tx.header.count.value % 2 ^ 8 ≡ length tx.actions =
      omega (arith, v.few_actions, v.counted) in
    let (header, at) =
      parse_header-few _ tx.header (actions_bytes tx.actions rest) t v.header refl
        (omega (arith, v.few_actions)) in
    let (end, calls, o, i, count) =
      parse_calls-first _ tx.actions (header_size tx.header) rest t _ v.some_action e header refl n
        (omega (arith, v.few_actions)) (omega arith) v.actions v.fits room at in
    (end, calls, o, i, count ∙ n)
