-- ===== src/Runs/BlueScreens.antt =====
-- The theorems on the Blue's screens at concrete inputs, and tests of its callbacks.
use ledger_app_eos.Prelude.{
  All, length, true, ℕ, ◌≡◌, refl, none, some, List, [], ◌∷◌, ◌++◌, replicate, arith,
}
use ledger_app_eos.Memory.{read_uint}
use ledger_app_eos.Outcome.{done}
use ledger_app_eos.Types.{TxContext, transfer}
use ledger_app_eos.Parser.{parse_tx, action_transfer}
use ledger_app_eos.Parser.Actions.{parse_transfer, parse_asset}
use ledger_app_eos.Varint.{parse_varint32}
use ledger_app_eos.Text.Buffer.{codes, text, write, strlen}
use ledger_app_eos.Format.{nth}
use ledger_app_eos.Blue.{ui_approve_tx_init, ui_approve_tx_hash_init, operation_title}
use ledger_app_eos.Blue.State.{Blue, no_captions, no_values}
use ledger_app_eos.Blue.Loop.{Waits, ui_approve_tx_init-Waits}
use ledger_app_eos.Blue.Details.{draw, draw-whole_value}
use ledger_app_eos.Blue.Hash.{
  shown_detail, is_hex_digit, bytes_of_digits, ui_approve_tx_hash_init-shown,
}
use ledger_app_eos.Runs.{memo_transfer, fresh_context}
use ledger_app_eos.Runs.Host.{app}

abbrev screens : Blue
screens = record {
  app = record app { tx = fresh_context };
  title_caption = replicate 26 0;
  subtitle_caption = replicate 21 0;
  detail_captions = no_captions;
  detail_values = no_values;
  display_string = replicate 33 0;
  current_screen = 0;
  offsets = replicate 35 0;
  details = none;
}

abbrev pub parsed_file : TxContext
parsed_file = record fresh_context {
  op_details = record {
    account = 0x5530ea033482a600;
    name = action_transfer;
    type = 0;
    op = transfer memo_transfer;
  };
  op_count = 1;
  op_idx = 1;
}

ui_approve_tx_init-Waits_example : Waits (ui_approve_tx_init 1000 screens)
unfolding parse_tx parse_transfer parse_asset read_uint parse_varint32 operation_title write strlen
ui_approve_tx_init-Waits_example =
    ui_approve_tx_init-Waits 1000 0 0 (replicate 33 0) (codes "Operation " ++ replicate 16 0)
      screens parsed_file refl refl refl

-- A memo of forty chars, which two of the three lines hold.
abbrev long_value : List ℕ
long_value = codes "abcdefghijklmnopqrstuvwxyz0123456789ABCD"

abbrev tapped : Blue
tapped = record screens {
  detail_captions = (codes "Memo" ++ replicate 16 0) ∷ replicate 6 (replicate 20 0);
  detail_values = (long_value ++ (0 ∷ replicate 26 0)) ∷ replicate 6 (replicate 67 0);
  details = some 0;
}

draw-whole_value_example : draw tapped (0x10 ∷ 0x11 ∷ 0x12 ∷ []) ≡ some long_value
unfolding nth
draw-whole_value_example =
    draw-whole_value tapped 0 (codes "Memo" ++ replicate 16 0) long_value (replicate 26 0) refl refl
      refl (omega arith) (omega arith) (omega arith)

abbrev with_hash : Blue
with_hash = record screens {
  app = record app { tx = record fresh_context { hash = replicate 32 7 } };
}

ui_approve_tx_hash_init-shown_example :
    (s' : Blue) × (ui_approve_tx_hash_init with_hash ≡ done tt s')
    × (digits : List ℕ) × (shown_detail s' 0 ≡ some (codes "Hash", codes "0x" ++ digits))
    × (length digits ≡ 64)
    × All (λ c. is_hex_digit c ≡ true) digits
    × (bytes_of_digits digits ≡ replicate 32 7)
    × (text s'.title_caption ≡ codes "WARNING")
    × (text s'.subtitle_caption ≡ codes "No details available")
    × (s'.app ≡ with_hash.app)
ui_approve_tx_hash_init-shown_example =
    ui_approve_tx_hash_init-shown with_hash refl (omega arith) refl refl
