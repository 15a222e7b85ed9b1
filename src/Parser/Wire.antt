-- ===== src/Parser/Wire.antt =====
-- The wire format of EOS actions, stated apart from the parser. Each function puts the bytes of a
-- value in front of the bytes `rest`.
use ledger_app_eos.Prelude.{ℕ, ◌+◌, ◌*◌, ◌^◌, ◌<◌, ◌≤◌, ◌≡◌, List, [], ◌∷◌, ◌++◌, length, All, take}
use ledger_app_eos.Types.{
  Asset, TransferAction, BuyramAction, BuyrambytesAction, SellramAction, DelegatebwAction,
  UndelegatebwAction, Authority, Operation, OperationDetails, max_ops,
}
use ledger_app_eos.Memory.{little_endian}
use ledger_app_eos.Memory.Words.{le_bytes}
use ledger_app_eos.Varint.Decode.{Encodes}
use ledger_app_eos.Parser.{
  action_transfer, action_buyram, action_buyrambytes, action_sellram, action_delegatebw,
  action_undelegatebw, action_voteproducer, action_newaccount,
}

abbrev pub IsU64 : ℕ → Type 0
IsU64 v = v < 2 ^ 64

abbrev pub IsU32 : ℕ → Type 0
IsU32 v = v < 2 ^ 32

abbrev pub u64_bytes : ℕ → List ℕ → List ℕ
u64_bytes v rest = le_bytes 8 v ++ rest

abbrev pub u32_bytes : ℕ → List ℕ → List ℕ
u32_bytes v rest = le_bytes 4 v ++ rest

-- A bool takes one byte.
abbrev pub bool_bytes : ℕ → List ℕ → List ℕ
bool_bytes v rest = v ∷ rest

abbrev pub asset_bytes : Asset → List ℕ → List ℕ
asset_bytes a rest = u64_bytes a.amount (u64_bytes a.symbol rest)

abbrev pub IsAsset : Asset → Type 0
IsAsset a = IsU64 a.amount × IsU64 a.symbol

-- A length in front of a list: some encoding of the number, in ten bytes at most.
pub record Count : Type 0 where
  pub value : ℕ
  pub bytes : List ℕ

abbrev pub IsCount : Count → Type 0
IsCount c = Encodes c.bytes c.value × (length c.bytes ≤ 10) × IsU32 c.value

-- An authority with one key, the only form that the app reads correctly. `key` is the key's type and 33 bytes, `weight` its weight; the lists
-- of accounts and waits are opaque.
pub record AuthorityWire : Type 0 where
  pub threshold : ℕ
  pub keys : Count
  pub key_type : Count
  pub public_key : List ℕ
  pub weight : List ℕ
  pub accounts : Count
  pub account_bytes : List ℕ
  pub waits : Count
  pub wait_bytes : List ℕ

abbrev pub authority_bytes : AuthorityWire → List ℕ → List ℕ
authority_bytes w rest = u32_bytes w.threshold (
    w.keys.bytes
    ++ (w.key_type.bytes
        ++ ((w.public_key ++ w.weight)
            ++ (w.accounts.bytes
                ++ (w.account_bytes ++ (w.waits.bytes ++ (w.wait_bytes ++ rest)))))))

-- The bytes that an authority takes.
abbrev pub authority_size : AuthorityWire → ℕ
authority_size w =
    4
    + length w.keys.bytes
    + length w.key_type.bytes
    + 35
    + length w.accounts.bytes
    + length w.account_bytes
    + length w.waits.bytes
    + length w.wait_bytes

pub record IsAuthority (w : AuthorityWire) : Type 0 where
  pub threshold : IsU32 w.threshold
  pub keys : IsCount w.keys
  pub one_key : w.keys.value ≡ 1
  pub key_type : IsCount w.key_type
  pub public_key : length w.public_key ≡ 33
  pub weight : length w.weight ≡ 2
  pub accounts : IsCount w.accounts
  pub account_bytes : length w.account_bytes ≡ w.accounts.value * 18
  pub waits : IsCount w.waits
  pub wait_bytes : length w.wait_bytes ≡ w.waits.value * 6

-- The data of an action, one constructor for each that the app knows.
pub data Body : Type 0 where
  transfer : TransferAction → Body
  buyram : BuyramAction → Body
  buyrambytes : BuyrambytesAction → Body
  sellram : SellramAction → Body
  delegatebw : DelegatebwAction → Body
  undelegatebw : UndelegatebwAction → Body
  voteproducer : ℕ → ℕ → Count → List ℕ → Body
  newaccount : ℕ → ℕ → AuthorityWire → AuthorityWire → Body

abbrev pub body_bytes : Body → List ℕ → List ℕ
body_bytes (Body.transfer a) rest = u64_bytes a.from (u64_bytes a.to (asset_bytes a.quantity rest))
body_bytes (Body.buyram a) rest =
    u64_bytes a.payer (u64_bytes a.receiver (asset_bytes a.quant rest))
body_bytes (Body.buyrambytes a) rest =
    u64_bytes a.payer (u64_bytes a.receiver (u32_bytes a.bytes rest))
body_bytes (Body.sellram a) rest = u64_bytes a.account (u64_bytes a.bytes rest)
body_bytes (Body.delegatebw a) rest = u64_bytes a.from (
    u64_bytes a.receiver (
      asset_bytes a.stake_net_quantity
        (asset_bytes a.stake_cpu_quantity (bool_bytes a.transfer rest))))
body_bytes (Body.undelegatebw a) rest = u64_bytes a.from (
    u64_bytes a.receiver
      (asset_bytes a.unstake_net_quantity (asset_bytes a.unstake_cpu_quantity rest)))
body_bytes (Body.voteproducer voter proxy count producers) rest =
    u64_bytes voter (u64_bytes proxy (count.bytes ++ (producers ++ rest)))
body_bytes (Body.newaccount creator name owner active) rest =
    u64_bytes creator (u64_bytes name (authority_bytes owner (authority_bytes active rest)))

abbrev pub IsBody : Body → Type 0
IsBody (Body.transfer a) = IsU64 a.from × IsU64 a.to × IsAsset a.quantity
IsBody (Body.buyram a) = IsU64 a.payer × IsU64 a.receiver × IsAsset a.quant
IsBody (Body.buyrambytes a) = IsU64 a.payer × IsU64 a.receiver × IsU32 a.bytes
IsBody (Body.sellram a) = IsU64 a.account × IsU64 a.bytes
IsBody (Body.delegatebw a) =
    IsU64 a.from
    × IsU64 a.receiver
    × IsAsset a.stake_net_quantity
    × IsAsset a.stake_cpu_quantity
    × (a.transfer ≤ 1)
IsBody (Body.undelegatebw a) =
    IsU64 a.from
    × IsU64 a.receiver
    × IsAsset a.unstake_net_quantity
    × IsAsset a.unstake_cpu_quantity
IsBody (Body.voteproducer voter proxy count producers) =
    IsU64 voter × IsU64 proxy × IsCount count × (length producers ≡ count.value * 8)
IsBody (Body.newaccount creator name owner active) =
    IsU64 creator
    × IsU64 name
    × IsAuthority owner
    × IsAuthority active
    × (authority_size owner + authority_size active < 2 ^ 15)

-- The action's name, and the number that the app shows it by.
abbrev pub body_name : Body → ℕ
body_name (Body.transfer a) = action_transfer
body_name (Body.buyram a) = action_buyram
body_name (Body.buyrambytes a) = action_buyrambytes
body_name (Body.sellram a) = action_sellram
body_name (Body.delegatebw a) = action_delegatebw
body_name (Body.undelegatebw a) = action_undelegatebw
body_name (Body.voteproducer voter proxy count producers) = action_voteproducer
body_name (Body.newaccount creator name owner active) = action_newaccount

abbrev pub body_type : Body → ℕ
body_type (Body.transfer a) = 0
body_type (Body.buyram a) = 1
body_type (Body.buyrambytes a) = 2
body_type (Body.sellram a) = 3
body_type (Body.delegatebw a) = 4
body_type (Body.undelegatebw a) = 5
body_type (Body.voteproducer voter proxy count producers) = 6
body_type (Body.newaccount creator name owner active) = 7

abbrev pub authority_of : AuthorityWire → Authority
authority_of w = record { threshold = w.threshold; public_key = w.public_key }

-- What parse_delegatebw keeps of a bool: the app reads four bytes, the bool and three of the bytes
-- that follow it.
abbrev pub bool_and_behind : ℕ → List ℕ → ℕ
bool_and_behind v after = little_endian (v ∷ take 3 after)

-- What the parser keeps of an action whose data begins at the pointer `p`, with the bytes `after`
-- behind the fields that it knows.
abbrev pub body_op : ℕ → Body → List ℕ → Operation
body_op p (Body.transfer a) after = Operation.transfer a
body_op p (Body.buyram a) after = Operation.buyram a
body_op p (Body.buyrambytes a) after = Operation.buyrambytes a
body_op p (Body.sellram a) after = Operation.sellram a
body_op p (Body.delegatebw a) after =
    Operation.delegatebw (record a { transfer = bool_and_behind a.transfer after })
body_op p (Body.undelegatebw a) after = Operation.undelegatebw a
body_op p (Body.voteproducer voter proxy count producers) after = Operation.voteproducer (record {
  voter = voter;
  proxy = proxy;
  num_producers = count.value;
  producers = p + (16 + length count.bytes);
})
body_op p (Body.newaccount creator name owner active) after = Operation.newaccount (record {
  creator = creator;
  name = name;
  owner = authority_of owner;
  active = authority_of active;
})

-- What stands before an action's data.
pub record ActionHead : Type 0 where
  pub account : ℕ
  pub name : ℕ
  pub authorizations : Count
  pub authorization_bytes : List ℕ
  pub size : Count

abbrev pub action_head_bytes : ActionHead → List ℕ → List ℕ
action_head_bytes h rest =
    u64_bytes h.account (
      u64_bytes h.name
        (h.authorizations.bytes ++ (h.authorization_bytes ++ (h.size.bytes ++ rest))))

-- Where an action's data begins, from the action's first byte on.
abbrev pub action_head_size : ActionHead → ℕ
action_head_size h =
    16 + length h.authorizations.bytes + length h.authorization_bytes + length h.size.bytes

pub record IsActionHead (h : ActionHead) : Type 0 where
  pub account : IsU64 h.account
  pub name : IsU64 h.name
  pub authorizations : IsCount h.authorizations
  pub authorization_bytes : length h.authorization_bytes ≡ h.authorizations.value * 16
  pub size : IsCount h.size
  pub fits : action_head_size h < 2 ^ 16

-- An action of a transaction, under the name that goes with its body. `extra` is data behind the
-- fields that the app knows, such as a transfer's memo.
pub record Action : Type 0 where
  pub head : ActionHead
  pub body : Body
  pub extra : List ℕ

abbrev pub action_bytes : Action → List ℕ → List ℕ
action_bytes a rest = action_head_bytes a.head (body_bytes a.body (a.extra ++ rest))

-- The bytes that an action takes.
abbrev pub action_size : Action → ℕ
action_size a = action_head_size a.head + a.head.size.value

pub record IsAction (a : Action) : Type 0 where
  pub head : IsActionHead a.head
  pub name : a.head.name ≡ body_name a.body
  pub exact : a.head.size.value ≡ length (body_bytes a.body a.extra)
  pub body : IsBody a.body
  pub fits : action_size a < 2 ^ 16

-- What the parser keeps of an action that begins at the pointer `p`, with `rest` behind it.
abbrev pub details : ℕ → Action → List ℕ → OperationDetails
details p a rest = record {
  account = a.head.account;
  name = body_name a.body;
  type = body_type a.body;
  op = body_op (p + action_head_size a.head) a.body (a.extra ++ rest);
}

abbrev pub actions_bytes : List Action → List ℕ → List ℕ
actions_bytes [] rest = rest
actions_bytes (a ∷ later) rest = action_bytes a (actions_bytes later rest)

abbrev pub actions_size : List Action → ℕ
actions_size [] = 0
actions_size (a ∷ later) = action_size a + actions_size later

-- What the parser keeps of each action in turn, from the pointer `p` on.
abbrev pub all_details : ℕ → List Action → List ℕ → List OperationDetails
all_details p [] rest = []
all_details p (a ∷ later) rest =
    details p a (actions_bytes later rest) ∷ all_details (p + action_size a) later rest

-- What stands before a transaction's actions. `head` is the chain's id, the expiration and the
-- reference block; `context_free` is the count of the context-free actions, none of which may
-- follow, and `count` that of the actions.
pub record Header : Type 0 where
  pub head : List ℕ
  pub net_usage_words : Count
  pub max_cpu_usage_ms : Count
  pub delay_sec : Count
  pub context_free : Count
  pub count : Count

abbrev pub header_bytes : Header → List ℕ → List ℕ
header_bytes h rest =
    h.head
    ++ (h.net_usage_words.bytes
        ++ (h.max_cpu_usage_ms.bytes
            ++ (h.delay_sec.bytes ++ (h.context_free.bytes ++ (h.count.bytes ++ rest)))))

-- Where the first action begins.
abbrev pub header_size : Header → ℕ
header_size h =
    42
    + length h.net_usage_words.bytes
    + length h.max_cpu_usage_ms.bytes
    + length h.delay_sec.bytes
    + length h.context_free.bytes
    + length h.count.bytes

pub record IsHeader (h : Header) : Type 0 where
  pub head : length h.head ≡ 42
  pub net_usage_words : IsCount h.net_usage_words
  pub max_cpu_usage_ms : IsCount h.max_cpu_usage_ms
  pub delay_sec : IsCount h.delay_sec
  pub context_free : IsCount h.context_free
  pub count : IsCount h.count

pub record Transaction : Type 0 where
  pub header : Header
  pub actions : List Action

abbrev pub transaction_bytes : Transaction → List ℕ → List ℕ
transaction_bytes tx rest = header_bytes tx.header (actions_bytes tx.actions rest)

pub record IsTransaction (tx : Transaction) : Type 0 where
  pub header : IsHeader tx.header
  pub counted : tx.header.count.value ≡ length tx.actions
  pub some_action : 1 ≤ length tx.actions
  pub few_actions : length tx.actions ≤ max_ops
  pub actions : All IsAction tx.actions
  pub fits : header_size tx.header + actions_size tx.actions < 2 ^ 16
