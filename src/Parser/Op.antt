-- ===== src/Parser/Op.antt =====
-- parse_op on an action in the wire format, and on names that the app does not know.
use ledger_app_eos.Prelude.{
  ℕ, zero, suc, ◌+◌, ◌*◌, ◌^◌, ◌<◌, ◌≤◌, ◌≡◌, refl, ap, ◌∙◌, List, ◌++◌, length, drop, arith,
  append_assoc, length-append,
}
use ledger_app_eos.Outcome.{done}
use ledger_app_eos.Types.{OperationDetails}
use ledger_app_eos.Parser.{skip_authorizations, parse_action, parse_op}
use ledger_app_eos.Parser.Actions.{u16}
use ledger_app_eos.Parser.Wire.{
  Body, body_bytes, IsBody, body_name, body_type, body_op, Action, ActionHead, IsActionHead,
  action_head_bytes, action_head_size, action_bytes, action_size, IsAction, details,
}
use ledger_app_eos.Parser.ReadBack.{
  read_u64, read_count, skip_bytes, parse_transfer-bytes, parse_buyram-bytes,
  parse_buyrambytes-bytes, parse_sellram-bytes, parse_delegatebw-bytes, parse_undelegatebw-bytes,
  parse_voteproducer-bytes, parse_newaccount-bytes,
}

-- The loop over the authorizations adds sixteen for each.
skip_authorizations_closed :
    (n offset : ℕ) → offset < 2 ^ 16 → skip_authorizations n offset ≡ u16 (offset + n * 16)
unfolding skip_authorizations
skip_authorizations_closed zero offset h = omega arith
skip_authorizations_closed (suc n) offset h =
    omega (arith, skip_authorizations_closed n (u16 (offset + 16)) (omega arith))

-- The ladder takes the branch of the action's name.
parse_action-body :
    (mem : List ℕ) (buffer offset size : ℕ) (b : Body) (rest : List ℕ) (d : OperationDetails)
    → IsBody b
    → 3 ≤ length rest
    → drop (buffer + offset) mem ≡ body_bytes b rest
    → parse_action mem buffer offset size (body_name b) d
      ≡ done
          (u16 (offset + u16 size))
          (record d { type = body_type b; op = body_op (buffer + offset) b rest })
unfolding parse_action
parse_action-body mem buffer offset size (Body.transfer a) rest d v behind h =
    rw (parse_transfer-bytes mem (buffer + offset) size a rest v h) refl
parse_action-body mem buffer offset size (Body.buyram a) rest d v behind h =
    rw (parse_buyram-bytes mem (buffer + offset) size a rest v h) refl
parse_action-body mem buffer offset size (Body.buyrambytes a) rest d v behind h =
    rw (parse_buyrambytes-bytes mem (buffer + offset) size a rest v h) refl
parse_action-body mem buffer offset size (Body.sellram a) rest d v behind h =
    rw (parse_sellram-bytes mem (buffer + offset) size a rest v h) refl
parse_action-body mem buffer offset size (Body.delegatebw a) rest d v behind h =
    rw (parse_delegatebw-bytes mem (buffer + offset) size a rest v behind h) refl
parse_action-body mem buffer offset size (Body.undelegatebw a) rest d v behind h =
    rw (parse_undelegatebw-bytes mem (buffer + offset) size a rest v h) refl
parse_action-body mem buffer offset size (Body.voteproducer voter proxy count ps) rest d v behind
      h =
    rw (parse_voteproducer-bytes mem (buffer + offset) size voter proxy count ps rest v h) refl
parse_action-body mem buffer offset size (Body.newaccount creator name w w') rest d v behind h =
    rw (parse_newaccount-bytes mem (buffer + offset) size creator name w w' rest v h) refl

-- Bytes behind an action's data stay behind it.
body_bytes-append : (b : Body) (xs ys : List ℕ) → body_bytes b (xs ++ ys) ≡ body_bytes b xs ++ ys
body_bytes-append (Body.transfer a) xs ys = simp append_assoc
body_bytes-append (Body.buyram a) xs ys = simp append_assoc
body_bytes-append (Body.buyrambytes a) xs ys = simp append_assoc
body_bytes-append (Body.sellram a) xs ys = simp append_assoc
body_bytes-append (Body.delegatebw a) xs ys = simp append_assoc
body_bytes-append (Body.undelegatebw a) xs ys = simp append_assoc
body_bytes-append (Body.voteproducer voter proxy count ps) xs ys = simp append_assoc
body_bytes-append (Body.newaccount creator name w w') xs ys = simp append_assoc

-- parse_op up to the ladder: the account and the name are stored, and the offset leads to the data.
pub parse_op-action_head :
    (mem : List ℕ) (p : ℕ) (h : ActionHead) (rest : List ℕ) (d : OperationDetails)
    → IsActionHead h
    → drop p mem ≡ action_head_bytes h rest
    → (parse_op mem p d
        ≡ parse_action mem p
            (action_head_size h)
            h.size.value
            h.name
            (record d { account = h.account; name = h.name }))
      × (drop (p + action_head_size h) mem ≡ rest)
unfolding parse_op
parse_op-action_head mem p h rest d v at =
    let (e₁, a₁) = read_u64 mem p h.account (p + 8) _ v.account refl at in
    let (e₂, a₂) = read_u64 mem (p + 8) h.name (p + 16) _ v.name (omega arith) a₁ in
    let o₁ = 16 + length h.authorizations.bytes in
    let (e₃, a₃) =
      read_count mem (p + 16) h.authorizations (p + o₁) _ v.authorizations (omega arith) a₂ in
    let o₂ = o₁ + length h.authorization_bytes in
    let a₄ = skip_bytes mem (p + o₁) (p + o₂) h.authorization_bytes _ (omega arith) a₃ in
    let (e₄, a₅) =
      read_count mem (p + o₂) h.size (p + action_head_size h) _ v.size (omega arith) a₄ in
    let s₁ : skip_authorizations h.authorizations.value (u16 o₁) ≡ o₂ = omega (
      arith,
      v.fits,
      v.authorization_bytes,
      skip_authorizations_closed h.authorizations.value (u16 o₁) (omega arith),
    ) in
    let s₂ : u16 (action_head_size h) ≡ action_head_size h = omega (arith, v.fits) in
    (rw (e₁, e₂, e₃, s₁, e₄, s₂) refl, a₅)

-- parse_op on an action in the wire format, with three bytes or more behind it: it stores the
-- account, the name, the type and the fields of the action, and its offset leads to what follows the
-- action. An authority has one key. The bool of delegatebw is one byte of the action, but what is
-- stored is the number of four bytes: the bool and the three bytes behind it.
pub parse_op-action_bytes :
    (mem : List ℕ) (p : ℕ) (a : Action) (rest : List ℕ) (d : OperationDetails)
    → IsAction a
    → 3 ≤ length rest
    → drop p mem ≡ action_bytes a rest
    → (parse_op mem p d ≡ done (action_size a) (details p a rest))
      × (drop (p + action_size a) mem ≡ rest)
parse_op-action_bytes mem p a rest d v room at =
    let o = action_head_size a.head in
    let (head, behind) = parse_op-action_head mem p a.head _ d v.head at in
    let body =
      parse_action-body mem p o a.head.size.value a.body _
        (record d { account = a.head.account; name = body_name a.body }) v.body
        (omega (arith, room, length-append a.extra rest)) behind in
    let size : u16 (o + u16 a.head.size.value) ≡ action_size a = omega (arith, v.fits) in
    (
      head ∙ rw v.name (body ∙ ap (λ (n : ℕ). done n (details p a rest)) size),
      skip_bytes mem (p + o) (p + action_size a) (body_bytes a.body a.extra) rest
          (omega (arith, v.exact)) (behind ∙ body_bytes-append a.body a.extra rest),
    )
