-- ===== src/Format/Screens.antt =====
-- How many screens an operation still shows, and what a screen leaves behind it.
use ledger_app_eos.Prelude.{
  ℕ, zero, suc, ◌+◌, ◌-◌, ◌%◌, ◌^◌, ◌<◌, ◌≡◌, refl, Bool, true, false, Option, none, some, List, [],
  ◌∷◌, ltb, if◌then◌else◌, arith, All,
}
use ledger_app_eos.Memory.{◌>>=◌}
use ledger_app_eos.Types.{TxContext, VoteproducerAction}
use ledger_app_eos.Text.{Frame, print_summary}
use ledger_app_eos.Text.Buffer.{strcpy}
use ledger_app_eos.Format.State.{Formatter, Display}
use ledger_app_eos.Format.Values.{show}
use ledger_app_eos.Format.{nth, formatters}
use ledger_app_eos.Format
use ledger_app_eos.Format.Actions.{as_voteproducer}

-- What holds of the value, if there is one.
abbrev pub IfSome : {A : Type 0} → (A → Type 0) → Option A → Type 0
IfSome P none = Unit {0}
IfSome P (some a) = P a

pub IfSome->>= :
    {A B : Type 0} (P : B → Type 0) (m : Option A) (f : A → Option B)
    → ((a : A) → IfSome P (f a))
    → IfSome P (m >>= f)
IfSome->>= P none f h = tt
IfSome->>= P (some a) f h = h a

pub bind-IfSome :
    {A B : Type 0} (Q : A → Type 0) (P : B → Type 0) (m : Option A) (f : A → Option B)
    → IfSome Q m
    → ((a : A) → Q a → IfSome P (f a))
    → IfSome P (m >>= f)
bind-IfSome Q P none f q h = tt
bind-IfSome Q P (some a) f q h = h a q

pub bind-eq :
    {A B : Type 0} (P : B → Type 0) (m : Option A) (f : A → Option B)
    → ((a : A) → m ≡ some a → IfSome P (f a))
    → IfSome P (m >>= f)
bind-eq P none f h = tt
bind-eq P (some a) f h = h a refl

pub if-IfSome :
    {A : Type 0} (P : A → Type 0) (b : Bool) (x y : Option A)
    → IfSome P x
    → IfSome P y
    → IfSome P (if b then x else y)
if-IfSome P true x y p q = p
if-IfSome P false x y p q = q

pub nth-IfSome :
    {A : Type 0} (P : A → Type 0) (xs : List A) → All P xs → (i : ℕ) → IfSome P (nth xs i)
unfolding nth
nth-IfSome P [] all i = tt
nth-IfSome P (x ∷ xs) (p, all) zero = p
nth-IfSome P (x ∷ xs) (p, all) (suc i) = nth-IfSome P xs all i

pub show-IfSome :
    (P : Display → Type 0) (caption : List ℕ) (tmp : Option (List ℕ)) (next : Option Formatter)
    (d : Display)
    → ((d' : Display)
        → d'.formatter ≡ next
        → d'.current_producer_index ≡ d.current_producer_index
        → P d')
    → IfSome P (show caption tmp next d)
unfolding show
show-IfSome P caption tmp next d h = IfSome->>= P tmp _ λ text.
    IfSome->>= P (strcpy d.detail_caption 0 caption) _
      λ c. IfSome->>= P (print_summary text d.detail_value 6 6) _ λ v. h _ refl refl

-- The number of producers that a transaction's current action votes for.
unfoldable pub producer_count : TxContext → ℕ
producer_count t = elim (as_voteproducer t.op_details.op) [
  | none ↦ 0
  | some action ↦ action.num_producers
]

abbrev pub is_hash_screen : Formatter → Bool
is_hash_screen Formatter.confirm_hash = true
is_hash_screen Formatter.confirm_hash_warning = true
is_hash_screen Formatter.confirm_hash_detail = true
is_hash_screen _ = false

-- How many screens are still to come at most: of `count` producers, `index` have been shown.
abbrev pub screens_left : ℕ → ℕ → Option Formatter → ℕ
screens_left count index none = 0
screens_left count index (some Formatter.transfer) = 4
screens_left count index (some Formatter.transfer_from) = 3
screens_left count index (some Formatter.transfer_to) = 2
screens_left count index (some Formatter.transfer_quantity) = 1
screens_left count index (some Formatter.buyram) = 4
screens_left count index (some Formatter.buyram_payer) = 3
screens_left count index (some Formatter.buyram_receiver) = 2
screens_left count index (some Formatter.buyram_quant) = 1
screens_left count index (some Formatter.buyrambytes) = 4
screens_left count index (some Formatter.buyrambytes_payer) = 3
screens_left count index (some Formatter.buyrambytes_receiver) = 2
screens_left count index (some Formatter.buyrambytes_bytes) = 1
screens_left count index (some Formatter.sellram) = 3
screens_left count index (some Formatter.sellram_account) = 2
screens_left count index (some Formatter.sellram_bytes) = 1
screens_left count index (some Formatter.delegatebw) = 6
screens_left count index (some Formatter.delegatebw_from) = 5
screens_left count index (some Formatter.delegatebw_receiver) = 4
screens_left count index (some Formatter.delegatebw_stake_net_quantity) = 3
screens_left count index (some Formatter.delegatebw_stake_cpu_quantity) = 2
screens_left count index (some Formatter.delegatebw_transfer) = 1
screens_left count index (some Formatter.undelegatebw) = 5
screens_left count index (some Formatter.undelegatebw_from) = 4
screens_left count index (some Formatter.undelegatebw_receiver) = 3
screens_left count index (some Formatter.undelegatebw_stake_net_quantity) = 2
screens_left count index (some Formatter.undelegatebw_stake_cpu_quantity) = 1
screens_left count index (some Formatter.voteproducer) = 3 + count
screens_left count index (some Formatter.voteproducer_voter) = 2 + (count - index)
screens_left count index (some Formatter.voteproducer_proxy) = 1
screens_left count index (some Formatter.voteproducer_producers) = 1 + (count - index)
screens_left count index (some Formatter.newaccount) = 5
screens_left count index (some Formatter.transfer_creator) = 4
screens_left count index (some Formatter.newaccount_name) = 3
screens_left count index (some Formatter.newaccount_owner) = 2
screens_left count index (some Formatter.newaccount_active) = 1
screens_left count index (some Formatter.confirm_operation) = 7 + count
screens_left count index (some Formatter.confirm_transaction_details) = 1
screens_left count index (some Formatter.confirm_transaction) = 8 + count
screens_left count index (some Formatter.confirm_hash) = 0
screens_left count index (some Formatter.confirm_hash_warning) = 0
screens_left count index (some Formatter.confirm_hash_detail) = 0

pub producer_count-some :
    (t : TxContext) (action : VoteproducerAction)
    → as_voteproducer t.op_details.op ≡ some action
    → producer_count t ≡ action.num_producers
unfolding producer_count
producer_count-some t action e = rw (e, producer_count) refl

pub next_producer :
    (n i : ℕ)
    → i + 1 < 2 ^ 32
    → screens_left n
        ((i + 1) % 2 ^ 32)
        (if ltb ((i + 1) % 2 ^ 32) n then some Formatter.voteproducer_producers else none)
      < 1 + (n - i)
next_producer n i h = ground arith

pub proxy_or_producers :
    (n i j : ℕ) (b : Bool)
    → j ≡ i
    → screens_left n j
        (some (if b then Formatter.voteproducer_producers else Formatter.voteproducer_proxy))
      < 2 + (n - i)
proxy_or_producers n i j true e = rw e (omega arith)
proxy_or_producers n i j false e = omega arith

-- A display with fewer screens to come than `n`.
abbrev pub Fewer : TxContext → ℕ → Display → Type 0
Fewer t n d = screens_left (producer_count t) d.current_producer_index d.formatter < n

pub shows :
    (t : TxContext) (caption : List ℕ) (tmp : Option (List ℕ)) (next : Option Formatter)
    (d : Display) (n : ℕ)
    → screens_left (producer_count t) d.current_producer_index next < n
    → IfSome (Fewer t n) (show caption tmp next d)
shows t caption tmp next d n h = show-IfSome (Fewer t n) caption tmp next d λ d' e i. rw (e, i) h

-- The shape of most screens: read the action, then show one of its fields.
pub action_shows :
    {A : Type 0} (t : TxContext) (action : Option A) (tmp : A → Option (List ℕ)) (caption : List ℕ)
    (next : Option Formatter) (d : Display) (n : ℕ)
    → screens_left (producer_count t) d.current_producer_index next < n
    → IfSome (Fewer t n) (action >>= λ a. show caption (tmp a) next d)
action_shows t action tmp caption next d n h =
    IfSome->>= (Fewer t n) action _ λ a. shows t caption (tmp a) next d n h

module _ (ripemd160 : List ℕ → List ℕ) (stale_olen : ℕ) (mem : List ℕ) (frame : Frame)
    (t : TxContext) where
  -- The bound that a screen of `f` is given.
  abbrev pub bound : Display → Formatter → ℕ
  bound d f = screens_left (producer_count t) d.current_producer_index (some f)

  abbrev pub Shrinks : Formatter → Type 0
  Shrinks f =
      (d : Display)
      → d.current_producer_index + 1 < 2 ^ 32
      → IfSome (Fewer t (bound d f)) (Format.run_formatter ripemd160 stale_olen mem frame t f d)
