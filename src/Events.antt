-- ===== src/Events.antt =====
-- What the user and the clock do: the touch handlers of eos_ux_common.c, the buttons, the menu and the
-- screens' callbacks of eos_ux_nanos.c, and the ticker of io_event (main.c).
pub mod Timer
pub mod Buttons
pub mod Loop
use ledger_app_eos.Prelude.{
  ℕ, ◌+◌, ◌-◌, ◌%◌, ◌^◌, Bool, ◌&&◌, not, List, [], ◌∷◌, ltb, ◌==◌, if◌then◌else◌,
}
use ledger_app_eos.Outcome.{Command, ◌>>=◌, ◌>>◌, pure, modify, gets, reads}
use ledger_app_eos.Text.Buffer.{get_or, write}
use ledger_app_eos.Format.State.{Display}
use ledger_app_eos.Device.{Device}
use ledger_app_eos.Context.{App, RequestType}
use ledger_app_eos.Approval.{respond, exchange, ui_approve_tx_next_screen}
use ledger_app_eos.Requests.{set_result_get_public_key}
use ledger_app_eos.Signing.{set_result_sign_tx}

-- What a screen's callback returns: no element, the element itself, or it with another text.
pub data Shown : Type 0 where
  hidden : Shown
  unchanged : Shown
  with_text : List ℕ → Shown

-- detailCaption[0] != '\0', and the same of opCaption
abbrev pub has_details : Display → Bool
has_details d = not (get_or d.detail_caption 0 0 == 0)

abbrev pub has_operation : Display → Bool
has_operation d = not (get_or d.op_caption 0 0 == 0)

unfoldable pub ui_approve_tx_prepro : Display → ℕ → Shown
ui_approve_tx_prepro d userid =
    if userid == 0x00
    then Shown.unchanged
    else if userid == 0x01
    then (if not (has_details d) && not (has_operation d) then Shown.unchanged else Shown.hidden)
    else if userid == 0x02
    then (if has_operation d then Shown.with_text d.op_caption else Shown.hidden)
    else if userid == 0x03
    then (if has_details d then Shown.with_text d.detail_caption else Shown.hidden)
    else if userid == 0x04
    then (if has_details d then Shown.with_text d.detail_value else Shown.hidden)
    else Shown.hidden

unfoldable pub ui_tx_approve_hash_prepro : Display → ℕ → Shown
ui_tx_approve_hash_prepro d userid =
    if userid == 0x00
    then Shown.unchanged
    else if userid == 0x01
    then (if has_details d then Shown.hidden else Shown.unchanged)
    else if userid == 0x03
    then (if has_details d then Shown.with_text d.detail_caption else Shown.hidden)
    else if userid == 0x04
    then (if has_details d then Shown.with_text d.detail_value else Shown.hidden)
    else Shown.hidden

unfoldable pub menu_settings_hash_signing_change : ℕ → Command App (Unit {0})
menu_settings_hash_signing_change enabled =
    modify (λ (s : App). record s { hash_signing = enabled % 2 ^ 8 })

module _ (device : Device) where
  unfoldable pub touch_address_ok : Command App (Unit {0})
  unfolding set_result_get_public_key respond
  touch_address_ok = do n ← set_result_get_public_key; respond device 0x9000 n

  unfoldable pub touch_address_cancel : Command App (Unit {0})
  unfolding respond
  touch_address_cancel = respond device 0x6985 0

  -- `rounds` bounds the signatures that the device makes until one is canonical.
  unfoldable pub touch_tx_ok : ℕ → Command App (Unit {0})
  touch_tx_ok rounds = do n ← set_result_sign_tx device rounds; respond device 0x9000 n

  unfoldable pub touch_tx_cancel : Command App (Unit {0})
  touch_tx_cancel = respond device 0x6985 0

  unfoldable pub ui_address_nanos_button : ℕ → Command App (Unit {0})
  unfolding touch_address_ok touch_address_cancel
  ui_address_nanos_button button_mask =
      if button_mask == device.released_left
      then touch_address_cancel
      else if button_mask == device.released_right
      then touch_address_ok
      else pure tt

  unfoldable pub ui_approve_tx_nanos_button : ℕ → ℕ → Command App (Unit {0})
  ui_approve_tx_nanos_button rounds button_mask =
      if button_mask == device.released_left
      then touch_tx_cancel
      else if button_mask == device.released_right
      then touch_tx_ok rounds
      else pure tt

  unfoldable pub u2f_send_keep_alive : Command App (Unit {0})
  unfolding exchange
  u2f_send_keep_alive = do
    s ← gets (λ s. s)
    apdu ← reads (write s.apdu 0 (0x6e ∷ 0x02 ∷ []))
    modify (λ (s : App). record s { u2f_timer = 0; apdu = apdu })
    exchange device.io_return_after_tx 2

  -- The countdown of a ticker event; the timer is a uint16_t.
  unfoldable pub u2f_tick : Bool → Command App (Unit {0})
  unfolding u2f_send_keep_alive
  u2f_tick u2f_media = do
    timer ← gets (λ s. s.u2f_timer)
    let left = (timer + (2 ^ 16 - 100)) % 2 ^ 16
    if u2f_media && ltb 0 timer
        then (do
          modify (λ (s : App). record s { u2f_timer = left })
          (if left == 0 then u2f_send_keep_alive else pure tt))
        else pure tt

  -- SEPROXYHAL_TAG_TICKER_EVENT. The SDK tells the medium of the command, whether the interval of the
  -- screen has passed, and whether the app may draw.
  unfoldable pub ticker_event : Bool → Bool → Bool → Command App (Unit {0})
  unfolding u2f_tick
  ticker_event u2f_media elapsed allowed = do
    u2f_tick u2f_media
    req_type ← gets (λ s. s.req_type)
    if elapsed && allowed
        then elim req_type [
          | RequestType.confirm_transaction ↦ ui_approve_tx_next_screen device
          | RequestType.confirm_address ↦ pure tt
        ]
        else pure tt
