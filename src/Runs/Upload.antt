-- ===== src/Runs/Upload.antt =====
-- The upload of a transaction at a concrete input.
use ledger_app_eos.Prelude.{some, ◌≡◌, ℕ, refl, List, [], ◌∷◌, replicate, arith}
use ledger_app_eos.Context.{App, cleared_tx}
use ledger_app_eos.Requests.Upload.{Holds}
use ledger_app_eos.Requests.Path.{IsPath}
use ledger_app_eos.Requests.Protocol.{
  collecting, Piece, first, more, ArePieces, Represents, protocol, protocol_run, upload,
  upload-protocol_run,
}
use ledger_app_eos.Runs.Host.{device, app}

pub app-Holds : Holds [] app
unfolding cleared_tx
app-Holds = (replicate 1540 0, refl, refl, refl)

abbrev pub path : List ℕ
path = 0x8000002c ∷ 0x800000c2 ∷ []

abbrev upload_pieces : List Piece
upload_pieces = first path (1 ∷ 2 ∷ []) ∷ more (3 ∷ []) ∷ []

pub path-IsPath : IsPath path
path-IsPath = record {
  some_word = omega arith;
  few_words = omega arith;
  words = (omega arith, (omega arith, tt));
}

upload_pieces-ArePieces : ArePieces (collecting [] []) upload_pieces
unfolding protocol
upload_pieces-ArePieces = ((path-IsPath, omega arith), (omega arith, tt))

pub app-Represents : Represents (collecting [] []) app
unfolding cleared_tx
app-Represents = (app-Holds, refl)

upload-protocol_run_example :
    (s' : App) × (upload device [] upload_pieces app
      ≡ some ((protocol_run (collecting [] []) upload_pieces).0, s'))
    × Represents ((protocol_run (collecting [] []) upload_pieces).1) s'
upload-protocol_run_example =
    upload-protocol_run device [] (collecting [] []) upload_pieces app app-Represents
      upload_pieces-ArePieces
