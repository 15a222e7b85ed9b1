-- ===== src/Approval/Frame.antt =====
-- What the screens of an approval leave alone.
use ledger_app_eos.Prelude.{ℕ, ◌≡◌, arith, Option, none, some}
use ledger_app_eos.Outcome.{Leaves, Leaves->>=, Leaves-reads}
use ledger_app_eos.Parser.Frame.{SameInput, parse_tx-Leaves}
use ledger_app_eos.Format.State.{Formatter}
use ledger_app_eos.Device.{Device}
use ledger_app_eos.Context.{App}
use ledger_app_eos.Approval.{
  put_status, exchange, respond, next_formatter, new_formatter, show_screen,
  ui_approve_tx_next_screen, set_formatter, ui_approve_tx_init, ui_approve_tx_hash_init,
}

-- What a request has set up for the signature, and the settings of the app.
pub record Keeps (s s' : App) : Type 0 where
  pub input : SameInput s.tx s'.tx
  pub padding : s'.padding ≡ s.padding
  pub req_type : s'.req_type ≡ s.req_type
  pub hash_signing : s'.hash_signing ≡ s.hash_signing
  pub flags : s'.flags ≡ s.flags

-- No exception.
abbrev pub Never : ℕ → Type 0
Never sw = ⊥

put_status-Keeps :
    (s0 : App) (sw n : ℕ) (s : App) → Keeps s0 s → Leaves (Keeps s0) Never (put_status sw n s)
unfolding put_status
put_status-Keeps s0 sw n s k = grind (arith)

module _ (device : Device) where
  pub respond-Keeps :
      (s0 : App) (sw n : ℕ) (s : App) → Keeps s0 s → Leaves (Keeps s0) Never (respond device sw n s)
  unfolding respond exchange
  respond-Keeps s0 sw n s k =
      Leaves->>= (Keeps s0) Never (put_status sw n) _ s (put_status-Keeps s0 sw n s k)
        λ u s' k'. grind arith

  next_formatter-Keeps :
      (s0 s : App) → Keeps s0 s → Leaves (Keeps s0) Never (next_formatter device s)
  unfolding next_formatter
  next_formatter-Keeps s0 s k = grind (arith, parse_tx-Leaves s.tx.raw s.tx, respond-Keeps)

  show_screen-Keeps :
      (s0 : App) (f : Option Formatter) (s : App)
      → Keeps s0 s
      → Leaves (Keeps s0) Never (show_screen device f s)
  unfolding show_screen
  show_screen-Keeps s0 none s k = k
  show_screen-Keeps s0 (some f) s k = grind (arith, Leaves-reads)

  new_formatter-Keeps :
      (s0 : App) (f : Option Formatter) (s : App)
      → Keeps s0 s
      → Leaves (Keeps s0) Never (new_formatter device f s)
  unfolding new_formatter
  new_formatter-Keeps s0 none s k =
      Leaves->>= (Keeps s0) Never (next_formatter device) _ s (next_formatter-Keeps s0 s k)
        λ f s' k'. grind arith
  new_formatter-Keeps s0 (some f) s k = k

  -- A screen of an approval, whether it goes on with the last action or parses the next one, leaves
  -- the path, the raw transaction, its hash and the settings alone, and no exception leaves it.
  pub ui_approve_tx_next_screen-Keeps :
      (s0 s : App) → Keeps s0 s → Leaves (Keeps s0) Never (ui_approve_tx_next_screen device s)
  unfolding ui_approve_tx_next_screen
  ui_approve_tx_next_screen-Keeps s0 s k =
      Leaves->>= (Keeps s0) Never (new_formatter device s.display.formatter) _ s
        (new_formatter-Keeps s0 s.display.formatter s k) λ f s' k'. show_screen-Keeps s0 f s' k'

  pub ui_approve_tx_init-Keeps :
      (s0 s : App) → Keeps s0 s → Leaves (Keeps s0) Never (ui_approve_tx_init device s)
  unfolding ui_approve_tx_init set_formatter
  ui_approve_tx_init-Keeps s0 s k =
      let s1 : App = set_formatter device none (record s { tx = record s.tx { offset = 0 } }) in
      let k1 : Keeps s0 s1 = ground arith in ui_approve_tx_next_screen-Keeps s0 s1 k1

  pub ui_approve_tx_hash_init-Keeps :
      (s0 s : App) → Keeps s0 s → Leaves (Keeps s0) Never (ui_approve_tx_hash_init device s)
  unfolding ui_approve_tx_hash_init
  ui_approve_tx_hash_init-Keeps s0 s k = grind (arith, Leaves-reads)
