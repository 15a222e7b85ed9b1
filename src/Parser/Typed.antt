-- ===== src/Parser/Typed.antt =====
-- The values that the parser stores, within the types of eos_types.h.
use ledger_app_eos.Prelude.{
  ℕ, ◌+◌, ◌%◌, ◌^◌, ◌<◌, ◌≡◌, refl, arith, Option, none, some, List, ltb, ◌==◌, Bool, true, false,
  if◌then◌else◌,
}
use ledger_app_eos.Memory.{read_uint}
use ledger_app_eos.Outcome.{
  Outcome, done, Command, Leaves, reads, Leaves-if, Leaves->>=, Leaves-throw_if, throw_if, pure,
  gets, thrown, undefined, Leaves-throw_if, throw_if, pure, gets, thrown, undefined,
}
use ledger_app_eos.Outcome
use ledger_app_eos.Types.{Operation, OperationDetails, TxContext, max_ops}
use ledger_app_eos.Varint.{parse_varint32}
use ledger_app_eos.Parser.{
  on_op_details, cleared_tx_details, store_action, parse_action, parse_op, parse_header,
  parse_tx_op, parse_tx, action_transfer, action_buyram, action_buyrambytes, action_sellram,
  action_delegatebw, action_undelegatebw, action_voteproducer, action_newaccount,
}
use ledger_app_eos.Parser.Actions.{u16}
use ledger_app_eos.Parser.Yields.{
  AreBytes, Yields, Yields-any, IsOperation, read_uint-Yields, parse_transfer-Yields,
  parse_buyram-Yields, parse_buyrambytes-Yields, parse_sellram-Yields, parse_delegatebw-Yields,
  parse_undelegatebw-Yields, parse_voteproducer-Yields, parse_newaccount-Yields,
}

-- The tag `type`, which chooses the formatter, belongs to the member of the union that holds a value.
abbrev pub tag : Operation → Option ℕ
tag Operation.blank = none
tag (Operation.transfer a) = some 0
tag (Operation.buyram a) = some 1
tag (Operation.buyrambytes a) = some 2
tag (Operation.sellram a) = some 3
tag (Operation.delegatebw a) = some 4
tag (Operation.undelegatebw a) = some 5
tag (Operation.voteproducer a) = some 6
tag (Operation.newaccount a) = some 7

-- The details of an operation: integers within their types, and the tag of the member. The cleared
-- union has no tag of its own.
pub record IsDetails (d : OperationDetails) : Type 0 where
  pub account : d.account < 2 ^ 64
  pub name : d.name < 2 ^ 64
  pub op : IsOperation d.op
  pub tagged : Yields (λ type. d.type ≡ type) (tag d.op)

pub record IsTyped (t : TxContext) : Type 0 where
  pub op_count : t.op_count < 2 ^ 8
  pub op_idx : t.op_idx < 2 ^ 8
  pub offset : t.offset < 2 ^ 16
  pub details : IsDetails t.op_details

-- However a branch of the ladder ends, the details are valid.
store_action-IsDetails :
    {A : Type 0} (type : ℕ) (member : A → Operation) (offset : ℕ) (parsed : Option (A × ℕ))
    (d : OperationDetails)
    → ((a : A) → tag (member a) ≡ some type)
    → Yields (λ (a, n). IsOperation (member a)) parsed
    → IsDetails d
    → Leaves IsDetails (λ _. Unit {0}) (store_action type member offset parsed d)
unfolding store_action
store_action-IsDetails type member offset none d tagged valid h = tt
store_action-IsDetails type member offset (some (a, n)) d tagged valid h = record {
  account = h.account;
  name = h.name;
  op = valid;
  tagged = rw (tagged a) refl;
}

-- A read, and what follows it.
reads-Leaves :
    {S A B : Type 0} (R : S → Type 0) (E : ℕ → Type 0) (P : A → Type 0) (o : Option A)
    (f : A → Command S B) (s : S)
    → Yields P o
    → ((a : A) → P a → Leaves R E (f a s))
    → Leaves R E (Outcome.◌>>=◌ (reads o) f s)
reads-Leaves R E P none f s h k = tt
reads-Leaves R E P (some a) f s h k = k a h

abbrev pub Any : ℕ → Type 0
Any sw = Unit {0}

-- The details written back into the context.
with_details-IsTyped :
    {t : TxContext} {d : OperationDetails}
    → IsTyped t
    → IsDetails d
    → IsTyped (record t { op_details = d })
with_details-IsTyped valid details = record {
  op_count = valid.op_count;
  op_idx = valid.op_idx;
  offset = valid.offset;
  details = details;
}

zoomed-IsTyped :
    (t : TxContext) (o : Outcome OperationDetails ℕ)
    → IsTyped t
    → Leaves IsDetails Any o
    → Leaves IsTyped Any (elim o as (λ _. Outcome TxContext ℕ) [
      | done a d ↦ done a (record t { op_details = d })
      | thrown sw d ↦ thrown sw (record t { op_details = d })
      | undefined ↦ undefined
    ])
zoomed-IsTyped t (done a d) valid h = with_details-IsTyped valid h
zoomed-IsTyped t (thrown sw d) valid (h, e) = (with_details-IsTyped valid h, tt)
zoomed-IsTyped t undefined valid h = tt

either-fits : (b : Bool) (n : ℕ) → (if b then 0 else u16 n) < 2 ^ 16
either-fits true n = omega arith
either-fits false n = omega arith

module _ (mem : List ℕ) (h : AreBytes mem) where
  parse_action-IsDetails :
      (buffer offset size name : ℕ) (d : OperationDetails)
      → IsDetails d
      → Leaves IsDetails Any (parse_action mem buffer offset size name d)
  unfolding parse_action
  parse_action-IsDetails buffer offset size name d valid =
      let p = buffer + offset in
      Leaves-if IsDetails Any (name == action_transfer) _ _ d
        (store_action-IsDetails 0 _ offset _ d (λ a. refl) (parse_transfer-Yields mem h p size)
          valid)
        (Leaves-if IsDetails Any (name == action_buyram) _ _ d
          (store_action-IsDetails 1 _ offset _ d (λ a. refl) (parse_buyram-Yields mem h p size)
            valid)
          (Leaves-if IsDetails Any (name == action_buyrambytes) _ _ d
            (store_action-IsDetails 2 _ offset _ d (λ a. refl)
              (parse_buyrambytes-Yields mem h p size) valid)
            (Leaves-if IsDetails Any (name == action_sellram) _ _ d
              (store_action-IsDetails 3 _ offset _ d (λ a. refl) (parse_sellram-Yields mem h p size)
                valid)
              (Leaves-if IsDetails Any (name == action_delegatebw) _ _ d
                (store_action-IsDetails 4 _ offset _ d (λ a. refl)
                  (parse_delegatebw-Yields mem h p size) valid)
                (Leaves-if IsDetails Any (name == action_undelegatebw) _ _ d
                  (store_action-IsDetails 5 _ offset _ d (λ a. refl)
                    (parse_undelegatebw-Yields mem h p size) valid)
                  (Leaves-if IsDetails Any (name == action_voteproducer) _ _ d
                    (store_action-IsDetails 6 _ offset _ d (λ a. refl)
                      (parse_voteproducer-Yields mem h p size) valid)
                    (Leaves-if IsDetails Any (name == action_newaccount) _ _ d
                      (store_action-IsDetails 7 _ offset _ d (λ a. refl)
                        (parse_newaccount-Yields mem h p size) valid)
                      (valid, tt))))))))

  parse_op-IsDetails :
      (buffer : ℕ) (d : OperationDetails)
      → IsDetails d
      → Leaves IsDetails Any (parse_op mem buffer d)
  unfolding parse_op
  parse_op-IsDetails buffer d valid =
      reads-Leaves IsDetails Any (λ v. v < 2 ^ 64) (read_uint mem buffer 8) _ d
        (read_uint-Yields mem h buffer 8)
        λ account small.
          reads-Leaves IsDetails Any (λ v. v < 2 ^ 64) (read_uint mem (buffer + 8) 8) _
            (record d { account = account }) (read_uint-Yields mem h (buffer + 8) 8)
            λ name small'.
              let d' = record d { account = account; name = name } in
              let valid' : IsDetails d' = record {
                account = small;
                name = small';
                op = valid.op;
                tagged = valid.tagged;
              } in
              reads-Leaves IsDetails Any (λ _. Unit {0}) (parse_varint32 mem (buffer + 16)) _ d'
                (Yields-any (parse_varint32 mem (buffer + 16)))
                λ (authorizations, bts) _.
                  reads-Leaves IsDetails Any (λ _. Unit {0}) (parse_varint32 mem _) _ d'
                    (Yields-any (parse_varint32 mem _))
                    λ (size, bts') _. parse_action-IsDetails buffer _ size name d' valid'

  skip_count :
      {B : Type 0} (p : ℕ) (f : ℕ × ℕ → Command TxContext B) (t : TxContext)
      → ((x : ℕ × ℕ) → Leaves IsTyped Any (f x t))
      → Leaves IsTyped Any (Outcome.◌>>=◌ (reads (parse_varint32 mem p)) f t)
  skip_count p f t k =
      reads-Leaves IsTyped Any (λ _. Unit {0}) (parse_varint32 mem p) f t
        (Yields-any (parse_varint32 mem p)) λ x _. k x

  parse_header-IsTyped : (t : TxContext) → IsTyped t → Leaves IsTyped Any (parse_header mem t)
  unfolding parse_header
  parse_header-IsTyped t valid =
      let t' = record t { tx_details = cleared_tx_details } in
      skip_count _ _ t' λ net. skip_count _ _ t' λ cpu. skip_count _ _ t' λ delay.
        skip_count _ _ t' λ context_free. skip_count _ _ t' λ (op_count, bts).
          let counted = record t' { op_count = op_count % 2 ^ 8 } in
          let counted-IsTyped : IsTyped counted = record {
            op_count = omega arith;
            op_idx = valid.op_idx;
            offset = valid.offset;
            details = valid.details;
          } in
          Leaves->>= IsTyped Any (throw_if (ltb max_ops (op_count % 2 ^ 8)) 0x6e10) _ counted
            (Leaves-throw_if IsTyped Any (ltb max_ops (op_count % 2 ^ 8)) 0x6e10 counted
              counted-IsTyped tt)
            λ _ s typed. record {
              op_count = typed.op_count;
              op_idx = omega arith;
              offset = typed.offset;
              details = typed.details;
            }

  parse_tx_op-IsTyped :
      (offset : ℕ) (t : TxContext) → IsTyped t → Leaves IsTyped Any (parse_tx_op mem offset t)
  unfolding parse_tx_op
  parse_tx_op-IsTyped offset t valid =
      Leaves->>= IsTyped Any (on_op_details (parse_op mem offset)) _ t
        (zoomed-IsTyped t (parse_op mem offset t.op_details) valid
          (parse_op-IsDetails offset t.op_details valid.details))
        λ n s typed. record {
          op_count = typed.op_count;
          op_idx = omega arith;
          offset = either-fits _ _;
          details = typed.details;
        }

  -- From a transaction of bytes and a context within its types, parse_tx leaves a context within its
  -- types, whether it returns or throws: the counters, the offset and every integer of the operation
  -- fit the types of eos_types.h, a public key has its 33 bytes, and the tag by which the screens
  -- choose a formatter is that of the member of the union which was written.
  pub parse_tx-IsTyped : (t : TxContext) → IsTyped t → Leaves IsTyped Any (parse_tx mem t)
  unfolding parse_tx
  parse_tx-IsTyped t valid =
      Leaves->>= IsTyped Any (if t.offset == 0 then parse_header mem else pure t.offset) _ t
        (Leaves-if IsTyped Any (t.offset == 0) (parse_header mem) (pure t.offset) t
          (parse_header-IsTyped t valid) valid)
        λ offset s typed. parse_tx_op-IsTyped offset s typed
