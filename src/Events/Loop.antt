-- ===== src/Events/Loop.antt =====
-- The event loop's part in main.c: io_event over the SDK's events, io_exchange_al, and the first
-- write of the flash page.
use ledger_app_eos.Prelude.{
  ℕ, ◌+◌, ◌*◌, ◌-◌, ◌^◌, bit_and, bit_xor, Bool, true, false, not, ◌||◌, Option, some, List, ◌∷◌,
  ◌++◌, length, take, drop, ◌==◌, if◌then◌else◌,
}
use ledger_app_eos.Memory
use ledger_app_eos.Outcome.{Command, ◌>>=◌, ◌>>◌, pure, throw, modify, gets, reads}
use ledger_app_eos.Text.Buffer.{get_or}
use ledger_app_eos.Device.{Device}
use ledger_app_eos.Context.{App}
use ledger_app_eos.Events.{ticker_event}

-- What the SDK provides for events: its tags and flags, and its macros, which draw and call the
-- callbacks of the screens that are displayed.
pub record Events : Type 0 where
  pub tag_finger_event : ℕ
  pub tag_button_push_event : ℕ
  pub tag_status_event : ℕ
  pub tag_display_processed_event : ℕ
  pub tag_ticker_event : ℕ
  pub flag_usb_powered : ℕ
  pub exception_io_reset : ℕ
  pub ux_finger_event : List ℕ → Command App (Unit {0})
  pub ux_button_push_event : List ℕ → Command App (Unit {0})
  pub ux_default_event : Command App (Unit {0})
  pub ux_displayed_event : Command App (Unit {0})
  -- whether a ticker event ends the interval of the screen, and UX_ALLOWED
  pub elapsed : List ℕ → App → Bool
  pub allowed : App → Bool
  pub is_status_sent : App → Bool
  pub general_status : Command App (Unit {0})

-- The medium of the last command.
pub data Medium : Type 0 where
  usb_hid : Medium
  u2f : Medium
  other : Medium

abbrev pub is_usb : Medium → Bool
is_usb Medium.usb_hid = true
is_usb _ = false

abbrev pub is_u2f : Medium → Bool
is_u2f Medium.u2f = true
is_u2f _ = false

-- U4BE, a big-endian integer of four bytes.
unfoldable pub u4be : List ℕ → ℕ → Option ℕ
u4be buffer offset = Memory.◌>>=◌ (Memory.memcpy buffer offset 4) λ bytes. some (
    get_or bytes 0 0 * 2 ^ 24
    + get_or bytes 1 0 * 2 ^ 16
    + get_or bytes 2 0 * 2 ^ 8
    + get_or bytes 3 0)

module _ (device : Device) (events : Events) where
  -- SEPROXYHAL_TAG_STATUS_EVENT, before it falls through to the default.
  unfoldable pub status_event : Medium → List ℕ → Command App (Unit {0})
  unfolding u4be
  status_event medium buffer =
      if is_usb medium
      then (do
        flags ← reads (u4be buffer 3)
        if bit_and flags events.flag_usb_powered == 0
            then throw events.exception_io_reset
            else pure tt)
      else pure tt

  unfoldable pub switch_event : Medium → List ℕ → Command App (Unit {0})
  unfolding status_event ticker_event
  switch_event medium buffer s =
      (let tag = get_or buffer 0 0 in
          if tag == events.tag_finger_event
          then events.ux_finger_event buffer
          else if tag == events.tag_button_push_event
          then events.ux_button_push_event buffer
          else if tag == events.tag_status_event
          then (do status_event medium buffer; events.ux_default_event)
          else if tag == events.tag_display_processed_event
          then events.ux_displayed_event
          else if tag == events.tag_ticker_event
          then ticker_event device (is_u2f medium) (events.elapsed buffer s) (events.allowed s)
          else events.ux_default_event)
        s

  -- io_event on the buffer of the SDK.
  unfoldable pub io_event : Medium → List ℕ → Command App ℕ
  unfolding switch_event
  io_event medium buffer = do
    switch_event medium buffer
    sent ← gets events.is_status_sent
    (if sent then pure tt else events.general_status)
    pure 1

-- The channels and flags of the SDK, and its reset of the device.
pub record Spi : Type 0 where
  pub io_flags : ℕ
  pub channel_keyboard : ℕ
  pub channel_spi : ℕ
  pub io_reset_after_replied : ℕ
  pub invalid_parameter : ℕ

-- The APDU buffer, what went out, and whether the device was reset.
pub record Wire : Type 0 where
  pub apdu : List ℕ
  pub spi : List (List ℕ)
  pub was_reset : Bool

-- io_exchange_al on an unsigned char `channel`; `received` is what the next command will be.
unfoldable pub io_exchange_al : Spi → List ℕ → ℕ → ℕ → Command Wire ℕ
io_exchange_al spi received channel tx_len =
    let plain = bit_and channel (bit_xor (2 ^ 8 - 1) spi.io_flags) in
    if plain == spi.channel_keyboard
    then pure 0
    else if plain == spi.channel_spi
    then (if tx_len == 0
        then (do
          modify (λ (w : Wire). record w { apdu = received ++ drop (length received) w.apdu })
          pure (length received))
        else (do
          modify (λ (w : Wire). record w { spi = take tx_len w.apdu ∷ w.spi })
          modify (λ (w : Wire). record w {
            was_reset = not (bit_and channel spi.io_reset_after_replied == 0) || w.was_reset;
          })
          pure 0))
    else throw spi.invalid_parameter

-- The byte `initialized` of the page in flash memory, before and after.
unfoldable pub eos_nv_state_init : ℕ → ℕ
eos_nv_state_init initialized = if initialized == 0x01 then initialized else 0x01
