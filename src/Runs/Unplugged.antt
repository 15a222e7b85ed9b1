-- ===== src/Runs/Unplugged.antt =====
-- The theorem on io_event at a concrete input: a status event behind a command over USB.
use ledger_app_eos.Prelude.{◌≡◌, refl, false, List, ℕ, [], ◌∷◌}
use ledger_app_eos.Memory.{memcpy}
use ledger_app_eos.Outcome.{Leaves, pure, thrown}
use ledger_app_eos.Events.Loop.{Events, Medium, io_event}
use ledger_app_eos.System.Reset.{Anywhere, AreSilent, IsUnplugged, io_event-Leaves}
use ledger_app_eos.Runs.Host.{app, device}

abbrev events : Events
events = record {
  tag_finger_event = 0x0c;
  tag_button_push_event = 0x05;
  tag_status_event = 0x15;
  tag_display_processed_event = 0x0d;
  tag_ticker_event = 0x0e;
  flag_usb_powered = 0x08;
  exception_io_reset = 0x10;
  ux_finger_event = λ buffer. pure tt;
  ux_button_push_event = λ buffer. pure tt;
  ux_default_event = pure tt;
  ux_displayed_event = pure tt;
  elapsed = λ buffer s. false;
  allowed = λ s. false;
  is_status_sent = λ s. false;
  general_status = pure tt;
}

events-AreSilent : AreSilent events
events-AreSilent = record {
  finger = λ buffer s. tt;
  button = λ buffer s. tt;
  default = λ s. tt;
  displayed = λ s. tt;
  status = λ s. tt;
}

-- The tag, a length, and flags of which that of the USB's power is not set.
abbrev unplugged : List ℕ
unplugged = 0x15 ∷ 0 ∷ 4 ∷ 0 ∷ 0 ∷ 0 ∷ 0x06 ∷ []

reset_test : io_event device events Medium.usb_hid unplugged app ≡ thrown 0x10 app
unfolding io_event memcpy
reset_test = refl

io_event-Leaves_example :
    Leaves Anywhere
      (IsUnplugged events Medium.usb_hid unplugged)
      (io_event device events Medium.usb_hid unplugged app)
io_event-Leaves_example =
    io_event-Leaves device events unplugged events-AreSilent Medium.usb_hid app
