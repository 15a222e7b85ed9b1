-- ===== src/Requests/Protocol.antt =====
-- What the host may rely on when it uploads a transaction, apart from the context that holds it.
use ledger_app_eos.Prelude.{
  ℕ, ◌+◌, ◌*◌, ◌%◌, ◌^◌, ◌≤◌, ◌<◌, ◌≡◌, refl, sym, ap, ◌∙◌, Option, none, some, List, [], ◌∷◌, ◌++◌,
  true, length, drop, take, arith, ltb, if◌then◌else◌, length-append, append_assoc, length-drop,
  take-append, Bool-cases, inl, inr,
}
use ledger_app_eos.Outcome.{Outcome, done, thrown, undefined, >>=-done, >>=-thrown}
use ledger_app_eos.Types.{max_raw_tx}
use ledger_app_eos.Device.{Device}
use ledger_app_eos.Context.{App, cleared_tx}
use ledger_app_eos.Requests.{
  handle_sign_tx, first_piece, more_piece, sign_data, p1_first, p1_more, p2_more,
}
use ledger_app_eos.Requests.Sizes.{cleared_tx-sizes}
use ledger_app_eos.Requests.Upload.{Holds, with_piece, more_piece_lem}
use ledger_app_eos.Requests.Path.{path_bytes, IsPath, first_piece-path_bytes, first_context}

-- An upload is a path with the bytes so far, or a size above what the context holds.
pub data Upload : Type 0 where
  collecting : (path bytes : List ℕ) → Upload
  overfull : (size : ℕ) → Upload

-- A request with P2_MORE: the first piece with the path, or a further one.
pub data Piece : Type 0 where
  first : (path bytes : List ℕ) → Piece
  more : (bytes : List ℕ) → Piece

-- The upload after a further piece, and the status word.
grow : Upload → List ℕ → Upload × ℕ
grow (collecting path bytes) piece =
    if ltb max_raw_tx (length bytes + length piece)
    then (overfull (length bytes + length piece), 0x6700)
    else (collecting path (bytes ++ piece), 0x9000)
grow (overfull size) piece = (overfull (size + length piece), 0x6700)

unfoldable pub protocol : Upload → Piece → Upload × ℕ
unfolding grow
protocol u (first path bytes) = (collecting path bytes, 0x9000)
protocol u (more bytes) = grow u bytes

-- Pieces that a host can send: a path that the device knows, data that fits into a command, and no
-- size of 32 bits or more.
abbrev pub IsPiece : Upload → Piece → Type 0
IsPiece u (first path bytes) = IsPath path × (1 + length path * 4 + length bytes ≤ 255)
IsPiece (collecting path sent) (more bytes) = length bytes ≤ 255
IsPiece (overfull size) (more bytes) = size + length bytes < 2 ^ 32

-- How the context keeps an upload.
abbrev pub Represents : Upload → App → Type 0
Represents (collecting path bytes) s = Holds bytes s × (take s.tx.bip32_len s.tx.bip32 ≡ path)
Represents (overfull size) s = (max_raw_tx < size) × (s.tx.raw_length ≡ size)

more_piece-refused :
    (s : App) (data_buffer : List ℕ) (data_length size : ℕ)
    → (s.tx.raw_length + data_length) % 2 ^ 32 ≡ size
    → ltb max_raw_tx size ≡ true
    → more_piece data_buffer data_length s
      ≡ thrown 0x6700 (record s { tx = record s.tx { raw_length = size } })
unfolding more_piece
more_piece-refused s data_buffer data_length size stored refuses = rw (stored, refuses) refl

-- An answer before those of later requests.
abbrev with_answer : ℕ → Option (List ℕ × App) → Option (List ℕ × App)
with_answer sw none = none
with_answer sw (some (answers, s)) = some (sw ∷ answers, s)

abbrev behind_answer :
    Outcome App (Unit {0}) → (App → Option (List ℕ × App)) → Option (List ℕ × App)
behind_answer (thrown sw s) later = with_answer sw (later s)
behind_answer (done u s) later = none
behind_answer undefined later = none

module _ (device : Device) (junk : List ℕ) where
  -- A request with a piece, in a buffer with other bytes behind it.
  unfoldable pub request : Piece → App → Outcome App (Unit {0})
  request (first path bytes) =
      handle_sign_tx device p1_first p2_more (path_bytes path ++ (bytes ++ junk))
        (1 + length path * 4 + length bytes)
  request (more bytes) = handle_sign_tx device p1_more p2_more (bytes ++ junk) (length bytes)

  abbrev Answers : Upload × ℕ → Outcome App (Unit {0}) → Type 0
  Answers (u, sw) o = (s' : App) × (o ≡ thrown sw s') × Represents u s'

  first-Answers :
      (s : App) (path bytes : List ℕ)
      → IsPath path
      → length bytes ≤ 255
      → Answers (collecting path bytes, 0x9000) (request (first path bytes) s)
  unfolding request handle_sign_tx sign_data
  first-Answers s path bytes h fits =
      let step =
        >>=-done
          (first_piece (path_bytes path ++ (bytes ++ junk)) (1 + length path * 4 + length bytes))
          (λ u. sign_data device p2_more) s
          (first_piece-path_bytes s path bytes junk h (omega (arith, fits))) in
      let room : length bytes + length (drop (length bytes) cleared_tx.raw) ≡ max_raw_tx =
        omega (arith, length-drop (length bytes) cleared_tx.raw, cleared_tx-sizes.0, fits) in
      (
        first_context s path bytes,
        step,
        (
          (drop (length bytes) cleared_tx.raw, refl, room, refl),
          take-append path (drop (length path) cleared_tx.bip32),
        ),
      )

  more-Answers :
      (s : App) (path sent bytes : List ℕ)
      → Represents (collecting path sent) s
      → length sent + length bytes ≤ max_raw_tx
      → Answers (collecting path (sent ++ bytes), 0x9000) (request (more bytes) s)
  unfolding request handle_sign_tx sign_data
  more-Answers s path sent bytes ((rest, raw, room, len), same) fits =
      let step =
        >>=-done (more_piece (bytes ++ junk) (length bytes)) (λ u. sign_data device p2_more) s
          (more_piece_lem s sent rest bytes junk raw len room fits) in
      (
        with_piece s (sent ++ (bytes ++ drop (length bytes) rest)) (length sent + length bytes),
        step,
        (
          (
            drop (length bytes) rest,
            sym (append_assoc sent bytes (drop (length bytes) rest)),
            omega (arith, fits, room, length-append sent bytes, length-drop (length bytes) rest),
            sym (length-append sent bytes),
          ),
          same,
        ),
      )

  refused-Answers :
      (s : App) (size : ℕ) (bytes : List ℕ)
      → s.tx.raw_length + length bytes ≡ size
      → max_raw_tx < size
      → size < 2 ^ 32
      → Answers (overfull size, 0x6700) (request (more bytes) s)
  unfolding request handle_sign_tx
  refused-Answers s size bytes e large few =
      let stored : (s.tx.raw_length + length bytes) % 2 ^ 32 ≡ size = omega (arith, e, few) in
      let refuses : ltb max_raw_tx size ≡ true = ground (arith, large) in
      (
        record s { tx = record s.tx { raw_length = size } },
        >>=-thrown (more_piece (bytes ++ junk) (length bytes)) (λ u. sign_data device p2_more) s
            (more_piece-refused s (bytes ++ junk) (length bytes) size stored refuses),
        (large, refl),
      )

  request-Answers :
      (u : Upload) (p : Piece) (s : App)
      → Represents u s
      → IsPiece u p
      → Answers (protocol u p) (request p s)
  unfolding protocol
  request-Answers u (first path bytes) s h (path_ok, fits) =
      first-Answers s path bytes path_ok (omega (arith, fits))
  request-Answers (collecting path sent) (more bytes) s h fits =
      elim (Bool-cases (ltb max_raw_tx (length sent + length bytes))) [
        | inl e ↦ rw e (
            refused-Answers s (length sent + length bytes) bytes (omega (arith, h.0.3))
              (ground (arith, e)) (omega (arith, h.0.2, fits)))
        | inr e ↦ rw e (more-Answers s path sent bytes h (ground (arith, e)))
      ]
  request-Answers (overfull size) (more bytes) s (large, stored) few =
      refused-Answers s (size + length bytes) bytes (omega (arith, stored)) (omega (arith, large))
        few

  -- The requests of an upload one after the other, with the status words of their answers.
  unfoldable pub upload : List Piece → App → Option (List ℕ × App)
  upload [] s = some ([], s)
  upload (p ∷ pieces) s = behind_answer (request p s) (upload pieces)

  upload-next :
      (p : Piece) (pieces : List Piece) (s s' : App) {sw : ℕ} {answers : List ℕ} {s'' : App}
      → request p s ≡ thrown sw s'
      → upload pieces s' ≡ some (answers, s'')
      → upload (p ∷ pieces) s ≡ some (sw ∷ answers, s'')
  unfolding upload
  upload-next p pieces s s' {sw} answered later =
      ap (λ (o : Outcome App (Unit {0})). behind_answer o (upload pieces)) answered
      ∙ ap (λ (r : Option (List ℕ × App)). with_answer sw r) later

-- The protocol over several pieces: the status words and the last upload.
unfoldable pub protocol_run : Upload → List Piece → List ℕ × Upload
unfolding protocol
protocol_run u [] = ([], u)
protocol_run u (p ∷ pieces) =
    let rest = protocol_run ((protocol u p).0) pieces in ((protocol u p).1 ∷ rest.0, rest.1)

abbrev pub ArePieces : Upload → List Piece → Type 0
ArePieces u [] = Unit {0}
ArePieces u (p ∷ pieces) = IsPiece u p × ArePieces ((protocol u p).0) pieces

-- Whatever pieces a host sends, in any order, the app answers them with the status words of the
-- protocol, and in the end the context holds what the protocol has: the path and the bytes of all
-- pieces since the last first one, or, where they became too many, a size that refuses each further
-- piece. The paths have between one and ten words, each piece fits into a command, and the refused
-- pieces stay below 2 ^ 32 bytes in all.
pub upload-protocol_run :
    (device : Device) (junk : List ℕ) (u : Upload) (pieces : List Piece) (s : App)
    → Represents u s
    → ArePieces u pieces
    → (s' : App) × (upload device junk pieces s ≡ some ((protocol_run u pieces).0, s'))
      × Represents ((protocol_run u pieces).1) s'
unfolding upload protocol_run
upload-protocol_run device junk u [] s h v = (s, refl, h)
upload-protocol_run device junk u (p ∷ pieces) s h (v, vs) =
    let (s1, answered, h1) = request-Answers device junk u p s h v in
    let (s', later, h') = upload-protocol_run device junk ((protocol u p).0) pieces s1 h1 vs in
    (s', upload-next device junk p pieces s s1 answered later, h')
