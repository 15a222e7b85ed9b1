-- ===== src/Requests/Sizes.antt =====
-- The sizes of the context's arrays, and the exceptions of the requests.
use ledger_app_eos.Prelude.{
  ℕ, zero, suc, ◌+◌, ◌≡◌, refl, Bool, true, ◌&&◌, ◌||◌, not, Option, some, List, [], ◌∷◌, length,
  arith, ◌==◌, if◌then◌else◌, length-append, length-drop, length-replicate,
}
use ledger_app_eos.Outcome.{Leaves, throw_if, Leaves->>=, Leaves-mono, Leaves-throw_if, Leaves-if}
use ledger_app_eos.Types.{max_raw_tx, max_bip32_len}
use ledger_app_eos.Text.Buffer.{write, write_here}
use ledger_app_eos.Device.{Device}
use ledger_app_eos.Context.{App, cleared_tx}
use ledger_app_eos.Approval.Frame.{
  Keeps, Never, ui_approve_tx_init-Keeps, ui_approve_tx_hash_init-Keeps,
}
use ledger_app_eos.Approval.{ui_approve_tx_init, ui_approve_tx_hash_init}
use ledger_app_eos.Requests.{
  bip32_loop, read_bip32, start_request, copy_raw, first_piece, more_piece, sign_data,
  handle_sign_tx, handle_sign_tx_hash, p1_first, p1_more, p2_last, p2_more,
}

-- The arrays of the context have the sizes that their types give them.
pub record IsContext (s : App) : Type 0 where
  pub raw_size : length s.tx.raw ≡ max_raw_tx
  pub path_size : length s.tx.bip32 ≡ max_bip32_len
  pub padding_size : length s.padding ≡ 3

pub cleared_tx-sizes :
    (length cleared_tx.raw ≡ max_raw_tx) × (length cleared_tx.bip32 ≡ max_bip32_len)
unfolding cleared_tx
cleared_tx-sizes = (length-replicate max_raw_tx 0, length-replicate max_bip32_len 0)

length-bip32_loop :
    (data_buffer : List ℕ) (p n : ℕ) {words : List ℕ}
    → bip32_loop data_buffer p n ≡ some words
    → length words ≡ n
unfolding bip32_loop
length-bip32_loop data_buffer p zero e = ground arith
length-bip32_loop data_buffer p (suc n) e = grind (arith, length-bip32_loop data_buffer (p + 4) n)

-- The status words of the signing requests.
abbrev pub is_request_status : ℕ → Bool
is_request_status sw =
    (sw == 0x6b00) || ((sw == 0x6a80) || ((sw == 0x6700) || ((sw == 0x6c66) || (sw == 0x9000))))

abbrev pub IsRequestStatus : ℕ → Type 0
IsRequestStatus sw = is_request_status sw ≡ true

length-write_here :
    (buffer bytes : List ℕ) {out : List ℕ}
    → write_here buffer bytes ≡ some out
    → length out ≡ length buffer
unfolding write_here
length-write_here buffer [] e = ground arith
length-write_here [] (b ∷ bytes) e = ground arith
length-write_here (x ∷ buffer) (b ∷ bytes) e = grind (arith, length-write_here buffer bytes)

pub length-write :
    (buffer : List ℕ) (p : ℕ) (bytes : List ℕ) {out : List ℕ}
    → write buffer p bytes ≡ some out
    → length out ≡ length buffer
unfolding write
length-write buffer zero bytes e = length-write_here buffer bytes e
length-write [] (suc p) bytes e = ground arith
length-write (x ∷ buffer) (suc p) bytes e = grind (arith, length-write buffer p bytes)

-- A path is read into an array without a change of its size, or refused with 0x6a80.
read_bip32-Leaves :
    (data_buffer bip32 : List ℕ)
    → length bip32 ≡ max_bip32_len
    → Leaves
        (λ path. length path ≡ max_bip32_len)
        (λ sw. sw ≡ 0x6a80)
        (read_bip32 data_buffer bip32)
unfolding read_bip32
read_bip32-Leaves data_buffer bip32 h = grind (arith, length-bip32_loop, length-append, length-drop)

start_request-Leaves :
    (data_buffer : List ℕ) (s : App)
    → IsContext s
    → Leaves IsContext IsRequestStatus (start_request data_buffer s)
unfolding start_request
start_request-Leaves data_buffer s c =
    grind
      (arith, read_bip32-Leaves data_buffer cleared_tx.bip32 cleared_tx-sizes.1, cleared_tx-sizes)

copy_raw-Leaves :
    (offset : ℕ) (bytes : Option (List ℕ)) (s : App)
    → IsContext s
    → Leaves IsContext IsRequestStatus (copy_raw offset bytes s)
unfolding copy_raw
copy_raw-Leaves offset bytes s c = grind (arith, length-write)

first_piece-Leaves :
    (data_buffer : List ℕ) (data_length : ℕ) (s : App)
    → IsContext s
    → Leaves IsContext IsRequestStatus (first_piece data_buffer data_length s)
unfolding first_piece
first_piece-Leaves data_buffer data_length s c =
    Leaves->>= IsContext IsRequestStatus (start_request data_buffer) _ s
      (start_request-Leaves data_buffer s c) λ skip s' c'. grind (arith, copy_raw-Leaves)

more_piece-Leaves :
    (data_buffer : List ℕ) (data_length : ℕ) (s : App)
    → IsContext s
    → Leaves IsContext IsRequestStatus (more_piece data_buffer data_length s)
unfolding more_piece
more_piece-Leaves data_buffer data_length s c = grind (arith, copy_raw-Leaves)

pub Keeps-IsContext : (s s' : App) → IsContext s → Keeps s s' → IsContext s'
Keeps-IsContext s s' c k = ground arith

pub Keeps-refl : (s : App) → Keeps s s
Keeps-refl s = ground arith

module _ (device : Device) where
  init-Leaves :
      (s : App) → IsContext s → Leaves IsContext IsRequestStatus (ui_approve_tx_init device s)
  init-Leaves s c =
      Leaves-mono (Keeps s) IsContext Never IsRequestStatus (ui_approve_tx_init device s)
        (λ s' k. Keeps-IsContext s s' c k) (λ sw e. absurd e)
        (ui_approve_tx_init-Keeps device s s (Keeps-refl s))

  hash_init-Leaves :
      (s : App) → IsContext s → Leaves IsContext IsRequestStatus (ui_approve_tx_hash_init device s)
  hash_init-Leaves s c =
      Leaves-mono (Keeps s) IsContext Never IsRequestStatus (ui_approve_tx_hash_init device s)
        (λ s' k. Keeps-IsContext s s' c k) (λ sw e. absurd e)
        (ui_approve_tx_hash_init-Keeps device s s (Keeps-refl s))

  sign_data-Leaves :
      (p2 : ℕ) (s : App) → IsContext s → Leaves IsContext IsRequestStatus (sign_data device p2 s)
  unfolding sign_data
  sign_data-Leaves p2 s c = grind (arith, init-Leaves)

  pub handle_sign_tx-Leaves :
      (p1 p2 : ℕ) (data_buffer : List ℕ) (data_length : ℕ) (s : App)
      → IsContext s
      → Leaves IsContext IsRequestStatus (handle_sign_tx device p1 p2 data_buffer data_length s)
  unfolding handle_sign_tx
  handle_sign_tx-Leaves p1 p2 data_buffer data_length s c =
      let R = IsContext in
      let E = IsRequestStatus in
      Leaves->>= R E (throw_if (not (p1 == p1_first) && not (p1 == p1_more)) 0x6b00) _ s
        (Leaves-throw_if R E _ 0x6b00 s c refl)
        λ u1 s1 c1.
          Leaves->>= R E (throw_if (not (p2 == p2_last) && not (p2 == p2_more)) 0x6b00) _ s1
            (Leaves-throw_if R E _ 0x6b00 s1 c1 refl)
            λ u2 s2 c2.
              Leaves->>= R E
                (if p1 == p1_first
                  then first_piece data_buffer data_length
                  else more_piece data_buffer data_length)
                _ s2
                (Leaves-if R E (p1 == p1_first) (first_piece data_buffer data_length)
                  (more_piece data_buffer data_length) s2
                  (first_piece-Leaves data_buffer data_length s2 c2)
                  (more_piece-Leaves data_buffer data_length s2 c2))
                λ u3 s3 c3. sign_data-Leaves p2 s3 c3

  pub handle_sign_tx_hash-Leaves :
      (data_buffer : List ℕ) (data_length : ℕ) (s : App)
      → IsContext s
      → Leaves IsContext IsRequestStatus (handle_sign_tx_hash device data_buffer data_length s)
  unfolding handle_sign_tx_hash
  handle_sign_tx_hash-Leaves data_buffer data_length s c =
      grind (arith, start_request-Leaves, hash_init-Leaves)
