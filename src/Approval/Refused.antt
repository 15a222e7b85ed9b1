-- ===== src/Approval/Refused.antt =====
-- What the host gets when the parser refuses the next action of a transaction that is shown
-- (ui_approve_tx_next_screen of eos_ux_nanos.c).
use ledger_app_eos.Prelude.{
  ℕ, ◌/◌, ◌%◌, ◌≤◌, ◌≡◌, refl, ap, ◌∙◌, Option, none, some, ◌==◌, if◌then◌else◌, [], ◌∷◌, length,
  arith,
}
use ledger_app_eos.Outcome.{
  Outcome, done, thrown, undefined, ◌>>◌, pure, >>=-done, Leaves, Leaves-done,
}
use ledger_app_eos.Types.{TxContext}
use ledger_app_eos.Parser.{parse_tx}
use ledger_app_eos.Format.State.{Formatter}
use ledger_app_eos.Device.{Device}
use ledger_app_eos.Context.{App}
use ledger_app_eos.Approval.{
  respond, exchange, put_status, next_formatter, new_formatter, show_screen,
  ui_approve_tx_next_screen, set_formatter,
}
use ledger_app_eos.Approval.Frame.{Never}
use ledger_app_eos.Events.Buttons.{respond-Sends}

module _ (device : Device) where
  respond-tx :
      (sw : ℕ) (s : App) → Leaves (λ (s' : App). s'.tx ≡ s.tx) Never (respond device sw 0 s)
  unfolding respond exchange put_status
  respond-tx sw s = grind arith

  next_formatter-refused :
      (s s' : App) (sw : ℕ) (tx : TxContext)
      → parse_tx s.tx.raw s.tx ≡ thrown sw tx
      → respond device sw 0 (record s { tx = tx }) ≡ done tt s'
      → next_formatter device s ≡ done none s'
  unfolding next_formatter
  next_formatter-refused s s' sw tx e answered =
      ap
        (λ (o : Outcome TxContext (Unit {0})). elim o as (λ _. Outcome App (Option Formatter)) [
          | done _ tx ↦
              done
                (some (
                  if tx.op_idx == 1
                  then Formatter.confirm_transaction
                  else Formatter.confirm_operation))
                (record s { tx = tx })
          | thrown sw tx ↦ (respond device sw 0 >> pure none) (record s { tx = tx })
          | undefined ↦ undefined
        ])
        e
      ∙ >>=-done (respond device sw 0) (λ u. pure {S = App} none) (record s { tx = tx }) answered

  -- When no formatter is left and the parser throws at the next action, the screen ends normally: the
  -- host gets the exception as a status word and nothing else, the parser's state is kept, and no
  -- formatter is set, so that the screens do not go on. The reply has room in the APDU buffer.
  pub ui_approve_tx_next_screen-refused :
      (s : App) (sw : ℕ) (tx : TxContext)
      → s.display.formatter ≡ none
      → parse_tx s.tx.raw s.tx ≡ thrown sw tx
      → 2 ≤ length s.apdu
      → (s' : App) × (ui_approve_tx_next_screen device s ≡ done tt s')
        × (s'.sent
            ≡ record { flags = device.io_return_after_tx; bytes = sw / 256 % 256 ∷ sw % 256 ∷ [] }
              ∷ s.sent)
        × (s'.display.formatter ≡ none)
        × (s'.tx ≡ tx)
  unfolding ui_approve_tx_next_screen new_formatter show_screen set_formatter
  ui_approve_tx_next_screen-refused s sw tx start e room =
      let (s1, answered, sent) =
        respond-Sends device sw (record s { tx = tx }) [] s.apdu refl room in
      let next = next_formatter-refused s s1 sw tx e answered in
      (
        set_formatter device none s1,
        >>=-done (new_formatter device s.display.formatter) (show_screen device) s (
            ap (λ (f : Option Formatter). new_formatter device f s) start
            ∙ >>=-done (next_formatter device) _ s next),
        sent,
        refl,
        Leaves-done (λ (s' : App). s'.tx ≡ tx) Never _ (respond-tx sw (record s { tx = tx }))
            answered,
      )
