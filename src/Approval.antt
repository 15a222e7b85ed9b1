-- ===== src/Approval.antt =====
-- The screens of an approval on the Nano S (eos_ux_nanos.c), with the answer to the host of
-- eos_ux_common.c. UX_DISPLAY and ui_idle only tell the SDK's display library what to draw.
pub mod Frame
pub mod Refused
use ledger_app_eos.Prelude.{
  ℕ, ◌+◌, ◌/◌, ◌%◌, ◌^◌, Bool, true, false, Option, none, some, List, [], ◌∷◌, replicate, take,
  ◌==◌, if◌then◌else◌,
}
use ledger_app_eos.Outcome.{
  Outcome, done, thrown, undefined, Command, ◌>>=◌, ◌>>◌, pure, modify, gets, reads,
}
use ledger_app_eos.Types.{TxContext}
use ledger_app_eos.Parser.{parse_tx}
use ledger_app_eos.Text.Buffer.{write}
use ledger_app_eos.Text.Address.{print_public_key}
use ledger_app_eos.Format.{run_formatter, format_confirm_hash}
use ledger_app_eos.Format.State.{Formatter, Display}
use ledger_app_eos.Device.{Device}
use ledger_app_eos.Context.{App, Reply, pk_bytes}

-- The high and the low byte of a status word, stored behind a reply of `n` bytes.
unfoldable pub put_status : ℕ → ℕ → Command App (Unit {0})
put_status sw n = do
  apdu ← gets (λ s. s.apdu)
  apdu ← reads (write apdu n (sw / 256 % 256 ∷ sw % 256 ∷ []))
  modify (λ (s : App). record s { apdu = apdu })

-- io_exchange of the first `n` bytes, as far as it is the app's doing.
unfoldable pub exchange : ℕ → ℕ → Command App (Unit {0})
exchange flags n =
    modify
      (λ (s : App). record s { sent = record { flags = flags; bytes = take n s.apdu } ∷ s.sent })

module _ (device : Device) where
  unfoldable pub respond : ℕ → ℕ → Command App (Unit {0})
  unfolding put_status exchange
  respond sw n = do put_status sw n; exchange device.io_return_after_tx (n + 2)

  unfoldable pub next_formatter : Command App (Option Formatter)
  unfolding respond parse_tx
  next_formatter s = elim (parse_tx s.tx.raw s.tx) [
    | done _ tx ↦
        done
          (some
            (if tx.op_idx == 1 then Formatter.confirm_transaction else Formatter.confirm_operation))
          (record s { tx = tx })
    | thrown sw tx ↦ (respond sw 0 >> pure none) (record s { tx = tx })
    | undefined ↦ undefined
  ]

  -- The three MEMCLEAR of the screens' texts.
  abbrev pub clear_texts : Display → Display
  clear_texts d = record d {
    op_caption = replicate 20 0;
    detail_caption = replicate 20 0;
    detail_value = replicate 89 0;
  }

  set_formatter : Option Formatter → App → App
  set_formatter f s = record s { display = record s.display { formatter = f } }

  -- The second half of ui_approve_tx_next_screen.
  unfoldable pub show_screen : Option Formatter → Command App (Unit {0})
  unfolding run_formatter
  show_screen none = pure tt
  show_screen (some f) = do
    tx ← gets (λ s. s.tx)
    d ← gets (λ s. s.display)
    d ←
        reads (
          run_formatter device.ripemd160 device.stale_olen tx.raw device.frame tx f (clear_texts d))
    modify (λ (s : App). record s { display = d })

  unfoldable pub new_formatter : Option Formatter → Command App (Option Formatter)
  unfolding next_formatter set_formatter
  new_formatter (some f) = pure (some f)
  new_formatter none = do f ← next_formatter; modify (set_formatter f); pure f

  unfoldable pub ui_approve_tx_next_screen : Command App (Unit {0})
  unfolding new_formatter show_screen
  ui_approve_tx_next_screen = do
    now ← gets (λ s. s.display.formatter)
    f ← new_formatter now
    show_screen f

  unfoldable pub ui_approve_tx_init : Command App (Unit {0})
  unfolding ui_approve_tx_next_screen set_formatter
  ui_approve_tx_init = do
    modify (λ (s : App). record s { tx = record s.tx { offset = 0 } })
    modify (set_formatter none)
    ui_approve_tx_next_screen

  unfoldable pub ui_approve_tx_hash_init : Command App (Unit {0})
  unfolding format_confirm_hash
  ui_approve_tx_hash_init = do
    tx ← gets (λ s. s.tx)
    d ← gets (λ s. s.display)
    d ← reads (
        format_confirm_hash device.ripemd160 device.stale_olen tx.raw device.frame tx
          (clear_texts d))
    modify (λ (s : App). record s { display = d })

  unfoldable pub ui_show_address_init : Command App (Unit {0})
  ui_show_address_init = do
    address ← gets pk_bytes
    d ← gets (λ s. s.display)
    detail_value ← reads (print_public_key device.frame address d.detail_value 12 12)
    modify (λ (s : App). record s { display = record d { detail_value = detail_value } })
