-- ===== src/Runs/Approval.antt =====
-- The transfer of test/tx_transfer.hex, uploaded and shown.
use ledger_app_eos.Prelude.{ℕ, List, [], ◌++◌, length}
use ledger_app_eos.Parser.Wire.{transaction_bytes}
use ledger_app_eos.Context.{App}
use ledger_app_eos.Requests.{handle_sign_tx, p1_more, p2_last}
use ledger_app_eos.Runs.{transfer_tx}
use ledger_app_eos.Runs.Host.{device, app, behind}

abbrev piece : List ℕ
piece = transaction_bytes transfer_tx []

abbrev requested : App
requested = behind (handle_sign_tx device p1_more p2_last (piece ++ []) (length piece) app)
