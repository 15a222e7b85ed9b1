-- ===== src/Parser/Behind.antt =====
-- Bytes behind a transaction in the wire format.
use ledger_app_eos.Prelude.{ℕ, ◌≡◌, refl, sym, ap, ◌∙◌, List, [], ◌∷◌, ◌++◌, append_assoc}
use ledger_app_eos.Parser.Wire.{
  Action, action_bytes, actions_bytes, Body, body_bytes, authority_bytes, AuthorityWire, ActionHead,
  action_head_bytes, Header, header_bytes, Transaction, transaction_bytes, transfer, buyram,
  buyrambytes, sellram, delegatebw, undelegatebw, voteproducer, newaccount,
}

authority_bytes-append :
    (w : AuthorityWire) (xs ys : List ℕ) → authority_bytes w (xs ++ ys) ≡ authority_bytes w xs ++ ys
authority_bytes-append w xs ys = sym (simp append_assoc)

body_bytes-append : (b : Body) (xs ys : List ℕ) → body_bytes b (xs ++ ys) ≡ body_bytes b xs ++ ys
body_bytes-append (transfer a) xs ys = sym (simp append_assoc)
body_bytes-append (buyram a) xs ys = sym (simp append_assoc)
body_bytes-append (buyrambytes a) xs ys = sym (simp append_assoc)
body_bytes-append (sellram a) xs ys = sym (simp append_assoc)
body_bytes-append (delegatebw a) xs ys = sym (simp append_assoc)
body_bytes-append (undelegatebw a) xs ys = sym (simp append_assoc)
body_bytes-append (voteproducer voter proxy count producers) xs ys = sym (simp append_assoc)
body_bytes-append (newaccount creator name owner active) xs ys =
    rw
      (
        authority_bytes-append active xs ys,
        authority_bytes-append owner (authority_bytes active xs) ys,
      )
      (sym (simp append_assoc))

action_head_bytes-append :
    (h : ActionHead) (xs ys : List ℕ)
    → action_head_bytes h (xs ++ ys) ≡ action_head_bytes h xs ++ ys
action_head_bytes-append h xs ys = sym (simp append_assoc)

header_bytes-append :
    (h : Header) (xs ys : List ℕ) → header_bytes h (xs ++ ys) ≡ header_bytes h xs ++ ys
header_bytes-append h xs ys = sym (simp append_assoc)

action_bytes-append :
    (a : Action) (xs ys : List ℕ) → action_bytes a (xs ++ ys) ≡ action_bytes a xs ++ ys
action_bytes-append a xs ys =
    ap (λ (r : List ℕ). action_head_bytes a.head (body_bytes a.body r))
      (sym (append_assoc a.extra xs ys))
    ∙ ap (action_head_bytes a.head) (body_bytes-append a.body (a.extra ++ xs) ys)
    ∙ action_head_bytes-append a.head (body_bytes a.body (a.extra ++ xs)) ys

pub actions_bytes-append :
    (actions : List Action) (xs ys : List ℕ)
    → actions_bytes actions (xs ++ ys) ≡ actions_bytes actions xs ++ ys
actions_bytes-append [] xs ys = refl
actions_bytes-append (a ∷ actions) xs ys =
    ap (action_bytes a) (actions_bytes-append actions xs ys)
    ∙ action_bytes-append a (actions_bytes actions xs) ys

pub transaction_bytes-append :
    (tx : Transaction) (xs ys : List ℕ)
    → transaction_bytes tx (xs ++ ys) ≡ transaction_bytes tx xs ++ ys
transaction_bytes-append tx xs ys =
    ap (header_bytes tx.header) (actions_bytes-append tx.actions xs ys)
    ∙ header_bytes-append tx.header (actions_bytes tx.actions xs) ys
