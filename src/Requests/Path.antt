-- ===== src/Requests/Path.antt =====
-- The first piece of a transaction: the path of the key, then bytes of the transaction.
use ledger_app_eos.Prelude.{
  ℕ, ◌+◌, ◌*◌, ◌/◌, ◌%◌, ◌^◌, ◌≤◌, ◌<◌, ◌≡◌, ◌-◌, refl, ap, ◌∙◌, some, List, [], ◌∷◌, ◌++◌, false,
  ◌||◌, length, drop, arith, ltb, All, drop-append,
}
use ledger_app_eos.Memory.{memcpy}
use ledger_app_eos.Memory.Words.{memcpy-eq, drop-add}
use ledger_app_eos.Outcome.{done, >>=-done, zoom, zoom-done}
use ledger_app_eos.Types.{max_raw_tx, max_bip32_len}
use ledger_app_eos.Text.Summary.{write-over}
use ledger_app_eos.Context.{App, RequestType, cleared_tx}
use ledger_app_eos.Requests.Sizes.{cleared_tx-sizes}
use ledger_app_eos.Requests.{bip32_loop, read_bip32, start_request, first_piece, copy_raw}

-- The bytes of a word, the highest first.
abbrev pub be_word : ℕ → List ℕ
be_word w = w / 2 ^ 24 % 2 ^ 8 ∷ w / 2 ^ 16 % 2 ^ 8 ∷ w / 2 ^ 8 % 2 ^ 8 ∷ w % 2 ^ 8 ∷ []

abbrev pub words_bytes : List ℕ → List ℕ
words_bytes [] = []
words_bytes (w ∷ path) = be_word w ++ words_bytes path

-- A path as a request carries it: its length and its words.
abbrev pub path_bytes : List ℕ → List ℕ
path_bytes path = length path ∷ words_bytes path

pub record IsPath (path : List ℕ) : Type 0 where
  pub some_word : 1 ≤ length path
  pub few_words : length path ≤ max_bip32_len
  pub words : All (λ w. w < 2 ^ 32) path

length-words_bytes : (path : List ℕ) → length (words_bytes path) ≡ length path * 4
length-words_bytes [] = refl
length-words_bytes (w ∷ path) = omega (arith, length-words_bytes path)

be_word-value :
    (w : ℕ)
    → w < 2 ^ 32
    → (((0 + w / 2 ^ 24 % 2 ^ 8) * 256 + w / 2 ^ 16 % 2 ^ 8) * 256 + w / 2 ^ 8 % 2 ^ 8) * 256
        + w % 2 ^ 8
      ≡ w
be_word-value w h = omega (arith, h)

bip32_loop-words_bytes :
    (mem : List ℕ) (p : ℕ) (path rest : List ℕ)
    → All (λ w. w < 2 ^ 32) path
    → drop p mem ≡ words_bytes path ++ rest
    → bip32_loop mem p (length path) ≡ some path
unfolding bip32_loop
bip32_loop-words_bytes mem p [] rest h e = refl
bip32_loop-words_bytes mem p (w ∷ path) rest (small, h) e =
    let word = memcpy-eq p mem (be_word w) (words_bytes path ++ rest) e in
    let later = bip32_loop-words_bytes mem (p + 4) path rest h (drop-add p mem (be_word w) e) in
    rw (word, later) (ap (λ (v : ℕ). some (v ∷ path)) (be_word-value w small))

-- The context in which a request with a path goes on.
abbrev pub with_path : App → List ℕ → App
with_path s path = record s {
  tx = record cleared_tx {
    bip32 = path ++ drop (length path) cleared_tx.bip32;
    bip32_len = length path;
  };
  req_type = RequestType.confirm_transaction;
}

-- The context after a first piece.
abbrev pub first_context : App → List ℕ → List ℕ → App
first_context s path piece = record s {
  tx = record cleared_tx {
    bip32 = path ++ drop (length path) cleared_tx.bip32;
    bip32_len = length path;
    raw_length = length piece;
    raw = piece ++ drop (length piece) cleared_tx.raw;
  };
  req_type = RequestType.confirm_transaction;
}

in_range : (n : ℕ) → 1 ≤ n → n ≤ max_bip32_len → (ltb n 1 || ltb max_bip32_len n) ≡ false
in_range n h k = ground (arith, h, k)

read_bip32-path_bytes :
    (path rest bip32 : List ℕ)
    → IsPath path
    → read_bip32 (path_bytes path ++ rest) bip32
      ≡ done (length path) (path ++ drop (length path) bip32)
unfolding read_bip32
read_bip32-path_bytes path rest bip32 h =
    let first : memcpy (path_bytes path ++ rest) 0 1 ≡ some (length path ∷ []) =
      memcpy-eq 0 (path_bytes path ++ rest) (length path ∷ []) (words_bytes path ++ rest) refl in
    let words = bip32_loop-words_bytes (path_bytes path ++ rest) 1 path rest h.words refl in
    rw (first, in_range (length path) h.some_word h.few_words, words) refl

start_request-done :
    (s : App) (data_buffer path words : List ℕ)
    → words ≡ path ++ drop (length path) cleared_tx.bip32
    → read_bip32 data_buffer cleared_tx.bip32 ≡ done (length path) words
    → start_request data_buffer s ≡ done (1 + length path * 4) (with_path s path)
unfolding start_request
start_request-done s data_buffer path words e read =
    let s1 : App = record s { tx = cleared_tx; req_type = RequestType.confirm_transaction } in
    let get : App → List ℕ = λ s. s.tx.bip32 in
    let set : List ℕ → App → App = λ bip32 s. record s { tx = record s.tx { bip32 = bip32 } } in
    >>=-done (zoom get set (read_bip32 data_buffer)) _ s1
      (zoom-done get set (read_bip32 data_buffer) s1 read)
    ∙ rw e refl

first_piece-done :
    (s : App) (data_buffer path piece rest : List ℕ)
    → IsPath path
    → length piece ≤ max_raw_tx
    → start_request data_buffer s ≡ done (1 + length path * 4) (with_path s path)
    → drop (1 + length path * 4) data_buffer ≡ piece ++ rest
    → first_piece data_buffer (1 + length path * 4 + length piece) s
      ≡ done tt (first_context s path piece)
unfolding first_piece copy_raw
first_piece-done s data_buffer path piece rest h fits started behind =
    let size : (1 + length path * 4 + length piece + (2 ^ 16 - (1 + length path * 4))) % 2 ^ 16
        ≡ length piece =
      omega (arith, h.few_words, fits) in
    let copied : memcpy data_buffer (1 + length path * 4) (length piece) ≡ some piece =
      memcpy-eq (1 + length path * 4) data_buffer piece rest behind in
    let wrote = write-over [] cleared_tx.raw piece (omega (arith, fits, cleared_tx-sizes.0)) in
    >>=-done (start_request data_buffer) _ s started ∙ rw (size, copied, wrote) refl

pub start_request-path_bytes :
    (s : App) (path rest : List ℕ)
    → IsPath path
    → start_request (path_bytes path ++ rest) s ≡ done (1 + length path * 4) (with_path s path)
start_request-path_bytes s path rest h =
    start_request-done s (path_bytes path ++ rest) path _ refl
      (read_bip32-path_bytes path rest cleared_tx.bip32 h)

pub first_piece-path_bytes :
    (s : App) (path piece junk : List ℕ)
    → IsPath path
    → length piece ≤ max_raw_tx
    → first_piece (path_bytes path ++ (piece ++ junk)) (1 + length path * 4 + length piece) s
      ≡ done tt (first_context s path piece)
first_piece-path_bytes s path piece junk h fits =
    let skip : drop (length (path_bytes path)) (path_bytes path ++ (piece ++ junk))
        ≡ piece ++ junk =
      drop-append (path_bytes path) (piece ++ junk) in
    let size : 1 + length path * 4 ≡ length (path_bytes path) =
      omega (arith, length-words_bytes path) in
    first_piece-done s (path_bytes path ++ (piece ++ junk)) path piece junk h fits
      (start_request-path_bytes s path (piece ++ junk) h)
      (ap (λ (n : ℕ). drop n (path_bytes path ++ (piece ++ junk))) size ∙ skip)
