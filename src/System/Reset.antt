-- ===== src/System/Reset.antt =====
-- Which events make io_event leave the loop of commands.
use ledger_app_eos.Prelude.{
  ℕ, ◌≡◌, refl, Bool, true, false, List, ◌==◌, bit_and, if◌then◌else◌, some, none, Option,
}
use ledger_app_eos.Outcome.{
  Command, ◌>>=◌, pure, throw, reads, Leaves, Leaves->>=, Leaves-mono, Leaves-if,
}
use ledger_app_eos.Text.Buffer.{get_or}
use ledger_app_eos.Device.{Device}
use ledger_app_eos.Context.{App}
use ledger_app_eos.Approval.Frame.{Keeps, Never}
use ledger_app_eos.Requests.Sizes.{Keeps-refl}
use ledger_app_eos.Events.{ticker_event}
use ledger_app_eos.Events.Loop.{Events, Medium, is_u2f, u4be, status_event, switch_event, io_event}
use ledger_app_eos.System.Approved.{ticker_event-Keeps}

abbrev pub Anywhere : App → Type 0
Anywhere s = Unit {0}

-- A command that throws nothing, in whatever state.
abbrev pub Silent : Command App (Unit {0}) → Type 0
Silent m = (s : App) → Leaves Anywhere Never (m s)

-- The SDK's macros hand an event to callbacks, none of which throws.
pub record AreSilent (events : Events) : Type 0 where
  pub finger : (buffer : List ℕ) → Silent (events.ux_finger_event buffer)
  pub button : (buffer : List ℕ) → Silent (events.ux_button_push_event buffer)
  pub default : Silent events.ux_default_event
  pub displayed : Silent events.ux_displayed_event
  pub status : Silent events.general_status

-- The event that ends a session: the device reports that it has lost the power of the USB by which
-- the last command came.
abbrev pub IsUnplugged : Events → Medium → List ℕ → ℕ → Type 0
IsUnplugged events medium buffer sw =
    (sw ≡ events.exception_io_reset)
    × (medium ≡ Medium.usb_hid)
    × ((get_or buffer 0 0 == events.tag_status_event) ≡ true)
    × ((flags : ℕ) × (u4be buffer 3 ≡ some flags)
        × ((bit_and flags events.flag_usb_powered == 0) ≡ true))

-- The two branches of a test, with what it says.
if-Leaves :
    (E : ℕ → Type 0) (b b' : Bool) (m k : Command App (Unit {0})) (s : App)
    → b' ≡ b
    → (b' ≡ true → Leaves Anywhere E (m s))
    → (b' ≡ false → Leaves Anywhere E (k s))
    → Leaves Anywhere E ((if b then m else k) s)
if-Leaves E true b' m k s e h h' = h e
if-Leaves E false b' m k s e h h' = h' e

module _ (device : Device) (events : Events) (buffer : List ℕ) where
  powered :
      (o : Option ℕ) (s : App)
      → (get_or buffer 0 0 == events.tag_status_event) ≡ true
      → u4be buffer 3 ≡ o
      → Leaves Anywhere (IsUnplugged events Medium.usb_hid buffer) (
          (do
            flags ← reads o
            if bit_and flags events.flag_usb_powered == 0
                then throw events.exception_io_reset
                else pure tt)
            s)
  powered none s e read = tt
  powered (some flags) s e read =
      if-Leaves (IsUnplugged events Medium.usb_hid buffer)
        (bit_and flags events.flag_usb_powered == 0) (bit_and flags events.flag_usb_powered == 0)
        (throw events.exception_io_reset) (pure tt) s refl
        (λ off. (tt, (refl, refl, e, (flags, read, off)))) (λ on. tt)

  status_event-Leaves :
      (medium : Medium) (s : App)
      → (get_or buffer 0 0 == events.tag_status_event) ≡ true
      → Leaves Anywhere
          (IsUnplugged events medium buffer)
          (status_event device events medium buffer s)
  unfolding status_event
  status_event-Leaves Medium.usb_hid s e = powered (u4be buffer 3) s e refl
  status_event-Leaves Medium.u2f s e = tt
  status_event-Leaves Medium.other s e = tt

  module _ (silent : AreSilent events) (medium : Medium) where
    quiet :
        (m : Command App (Unit {0})) (s : App)
        → Silent m
        → Leaves Anywhere (IsUnplugged events medium buffer) (m s)
    quiet m s h =
        Leaves-mono Anywhere Anywhere Never (IsUnplugged events medium buffer) (m s) (λ s h. h)
          (λ sw e. absurd e) (h s)

    ticker-Silent : (u2f elapsed allowed : Bool) → Silent (ticker_event device u2f elapsed allowed)
    ticker-Silent u2f elapsed allowed s =
        Leaves-mono (Keeps s) Anywhere Never Never (ticker_event device u2f elapsed allowed s)
          (λ s h. tt) (λ sw e. e) (ticker_event-Keeps device s u2f elapsed allowed s (Keeps-refl s))

    switch_event-Leaves :
        (s : App)
        → Leaves Anywhere
            (IsUnplugged events medium buffer)
            (switch_event device events medium buffer s)
    unfolding switch_event
    switch_event-Leaves s =
        let E = IsUnplugged events medium buffer in
        let tag = get_or buffer 0 0 in
        if-Leaves E (tag == events.tag_finger_event) _ _ _ s refl
          (λ e. quiet (events.ux_finger_event buffer) s (silent.finger buffer))
          λ e.
            if-Leaves E (tag == events.tag_button_push_event) _ _ _ s refl
              (λ e. quiet (events.ux_button_push_event buffer) s (silent.button buffer))
              λ e.
                if-Leaves E (tag == events.tag_status_event) _ _ _ s refl
                  (λ e.
                    Leaves->>= Anywhere E (status_event device events medium buffer) _ s
                      (status_event-Leaves medium s e)
                      λ _ s' _. quiet events.ux_default_event s' silent.default)
                  λ e.
                    if-Leaves E (tag == events.tag_display_processed_event) _ _ _ s refl
                      (λ e. quiet events.ux_displayed_event s silent.displayed)
                      λ e.
                        if-Leaves E (tag == events.tag_ticker_event) _ _ _ s refl
                          (λ e.
                            quiet
                              (ticker_event device (is_u2f medium) (events.elapsed buffer s)
                                (events.allowed s))
                              s
                              (ticker-Silent (is_u2f medium) (events.elapsed buffer s)
                                (events.allowed s)))
                          λ e. quiet events.ux_default_event s silent.default

    -- Where the callbacks of the display library throw nothing, io_event throws nothing either, in
    -- whatever state, but for the exception that resets the app, and that one only on a status event
    -- which says that the USB, by which the last command came, has lost its power.
    pub io_event-Leaves :
        (s : App)
        → Leaves Anywhere
            (IsUnplugged events medium buffer)
            (io_event device events medium buffer s)
    unfolding io_event
    io_event-Leaves s =
        let E = IsUnplugged events medium buffer in
        Leaves->>= Anywhere E (switch_event device events medium buffer) _ s (switch_event-Leaves s)
          λ _ s' _.
            Leaves->>= Anywhere E
              (if events.is_status_sent s' then pure tt else events.general_status) _ s'
              (Leaves-if Anywhere E (events.is_status_sent s') (pure tt) events.general_status s' tt
                (quiet events.general_status s' silent.status))
              λ _ s'' _. tt
