-- ===== src/Requests/Upload.antt =====
-- A transaction that arrives in pieces.
use ledger_app_eos.Prelude.{
  ℕ, ◌+◌, ◌%◌, ◌^◌, ◌≤◌, ◌≡◌, refl, some, List, ◌++◌, length, drop, arith, ltb, false,
}
use ledger_app_eos.Memory.{memcpy}
use ledger_app_eos.Memory.Words.{memcpy-eq}
use ledger_app_eos.Outcome.{done}
use ledger_app_eos.Types.{max_raw_tx}
use ledger_app_eos.Text.Summary.{write-over}
use ledger_app_eos.Context.{App}
use ledger_app_eos.Requests.{more_piece, copy_raw}

-- What an upload has left so far: the bytes sent stand at the start of the raw transaction.
abbrev pub Holds : List ℕ → App → Type 0
Holds sent s =
    (rest : List ℕ) × (s.tx.raw ≡ sent ++ rest)
    × (length sent + length rest ≡ max_raw_tx)
    × (s.tx.raw_length ≡ length sent)

-- The context with one piece more.
abbrev pub with_piece : App → List ℕ → ℕ → App
with_piece s raw n = record s { tx = record (record s.tx { raw_length = n }) { raw = raw } }

pub more_piece_lem :
    (s : App) (sent rest piece junk : List ℕ)
    → s.tx.raw ≡ sent ++ rest
    → s.tx.raw_length ≡ length sent
    → length sent + length rest ≡ max_raw_tx
    → length sent + length piece ≤ max_raw_tx
    → more_piece (piece ++ junk) (length piece) s
      ≡ done tt
          (with_piece s (sent ++ (piece ++ drop (length piece) rest)) (length sent + length piece))
unfolding more_piece copy_raw
more_piece_lem s sent rest piece junk raw len room fits =
    let small : (length sent + length piece) % 2 ^ 32 ≡ length sent + length piece =
      omega (arith, fits) in
    let passes : ltb max_raw_tx (length sent + length piece) ≡ false = ground (arith, fits) in
    let copied : memcpy (piece ++ junk) 0 (length piece) ≡ some piece =
      memcpy-eq 0 (piece ++ junk) piece junk refl in
    rw (len, small, passes, copied, raw, write-over sent rest piece (omega (arith, room, fits)))
      refl
