-- ===== src/Requests.antt =====
-- The requests of eos.c.
-- The bytes of a request are those of the buffer behind its header, which holds more than the
-- request: a read past its data is a read of that buffer.
pub mod Upload
pub mod Path
pub mod Protocol
pub mod Sizes
pub mod Union
use ledger_app_eos.Prelude.{
  ℕ, zero, suc, ◌+◌, ◌-◌, ◌*◌, ◌%◌, ◌^◌, bit_or, bit_and, Bool, true, false, ◌&&◌, ◌||◌, not,
  Option, none, some, List, [], ◌∷◌, ◌++◌, replicate, take, drop, length, ltb, ◌==◌, if◌then◌else◌,
}
use ledger_app_eos.Memory
use ledger_app_eos.Outcome.{
  Outcome, done, thrown, undefined, Command, ◌>>=◌, ◌>>◌, pure, throw, modify, gets, throw_if,
  reads, zoom,
}
use ledger_app_eos.Types.{TxContext, max_raw_tx, max_bip32_len}
use ledger_app_eos.Text.{Frame, local_array}
use ledger_app_eos.Text.Buffer.{write, get_or, strlen}
use ledger_app_eos.Keys.{compress_public_key, hash_and_encode_base58}
use ledger_app_eos.Device.{Device}
use ledger_app_eos.Context.{App, RequestType, cleared_tx, pk_bytes, with_pk_bytes}
use ledger_app_eos.Approval.{ui_approve_tx_init, ui_approve_tx_hash_init, ui_show_address_init}

-- P1_FIRST, P1_MORE, P2_LAST and P2_MORE
abbrev pub p1_first : ℕ
p1_first = 0x00

abbrev pub p1_more : ℕ
p1_more = 0x80

abbrev pub p2_last : ℕ
p2_last = 0x00

abbrev pub p2_more : ℕ
p2_more = 0x80

-- P1_NO_SIGNATURE, P1_SIGNATURE, P2_NO_CONFIRM and P2_CONFIRM
abbrev pub p1_no_signature : ℕ
p1_no_signature = 0x00

abbrev pub p1_signature : ℕ
p1_signature = 0x01

abbrev pub p2_no_confirm : ℕ
p2_no_confirm = 0x00

abbrev pub p2_confirm : ℕ
p2_confirm = 0x01

-- LEDGER_MAJOR_VERSION, LEDGER_MINOR_VERSION and LEDGER_PATCH_VERSION of the Makefile
abbrev pub ledger_major_version : ℕ
ledger_major_version = 0

abbrev pub ledger_minor_version : ℕ
ledger_minor_version = 1

abbrev pub ledger_patch_version : ℕ
ledger_patch_version = 5

-- A word with its highest byte first.
abbrev big_endian : List ℕ → ℕ → ℕ
big_endian [] acc = acc
big_endian (b ∷ bytes) acc = big_endian bytes (acc * 256 + b)

-- The loop of read_bip32: `n` words from `data_buffer + p`.
unfoldable pub bip32_loop : List ℕ → ℕ → ℕ → Option (List ℕ)
bip32_loop data_buffer p zero = some []
bip32_loop data_buffer p (suc n) =
    Memory.◌>>=◌ (Memory.memcpy data_buffer p 4) λ word.
      Memory.◌>>=◌ (bip32_loop data_buffer (p + 4) n) λ rest. some (big_endian word 0 ∷ rest)

-- read_bip32 into the path of the context; the length is returned.
unfoldable pub read_bip32 : List ℕ → Command (List ℕ) ℕ
unfolding bip32_loop
read_bip32 data_buffer = do
  first ← reads (Memory.memcpy data_buffer 0 1)
  let bip32_len = get_or first 0 0
  throw_if (ltb bip32_len 1 || ltb max_bip32_len bip32_len) 0x6a80
  words ← reads (bip32_loop data_buffer 1 bip32_len)
  modify (λ bip32. words ++ drop bip32_len bip32)
  pure bip32_len

-- What SIGN_TX and SIGN_TX_HASH begin with: a cleared context and the path of the key.
unfoldable pub start_request : List ℕ → Command App ℕ
start_request data_buffer = do
  modify (λ (s : App). record s { tx = cleared_tx; req_type = RequestType.confirm_transaction })
  n ←
      zoom (λ s. s.tx.bip32) (λ bip32 s. record s { tx = record s.tx { bip32 = bip32 } })
        (read_bip32 data_buffer)
  modify (λ (s : App). record s { tx = record s.tx { bip32_len = n } })
  pure (1 + n * 4)

-- os_memmove of `n` bytes behind `offset` of the raw transaction.
unfoldable pub copy_raw : ℕ → Option (List ℕ) → Command App (Unit {0})
copy_raw offset bytes = do
  piece ← reads bytes
  raw ← gets (λ s. s.tx.raw)
  raw ← reads (write raw offset piece)
  modify (λ (s : App). record s { tx = record s.tx { raw = raw } })

-- The two ways in which handle_sign_tx takes the data. The first piece is copied whatever its
-- length; `data_length` is a uint16_t, which wraps around below the length of the path.
unfoldable pub first_piece : List ℕ → ℕ → Command App (Unit {0})
first_piece data_buffer data_length = do
  skip ← start_request data_buffer
  let rest = (data_length + (2 ^ 16 - skip)) % 2 ^ 16
  modify (λ (s : App). record s { tx = record s.tx { raw_length = rest } })
  copy_raw 0 (Memory.memcpy data_buffer skip rest)

unfoldable pub more_piece : List ℕ → ℕ → Command App (Unit {0})
more_piece data_buffer data_length = do
  offset ← gets (λ s. s.tx.raw_length)
  modify
      (λ (s : App). record s { tx = record s.tx { raw_length = (offset + data_length) % 2 ^ 32 } })
  n ← gets (λ s. s.tx.raw_length)
  throw_if (ltb max_raw_tx n) 0x6700
  copy_raw offset (Memory.memcpy data_buffer 0 data_length)

-- The path of GET_PUBLIC_KEY, in a local array.
unfoldable pub read_path : List ℕ → List ℕ → Command App (List ℕ)
read_path data_buffer bip32 s = elim (read_bip32 data_buffer bip32) [
  | done n words ↦ done (take n words) s
  | thrown sw words ↦ thrown sw s
  | undefined ↦ undefined
]

-- set_result_get_public_key
unfoldable pub set_result_get_public_key : Command App ℕ
unfolding pk_bytes
set_result_get_public_key = do
  address ← gets pk_bytes
  n ← reads (strlen address)
  apdu ← gets (λ s. s.apdu)
  apdu ← reads (write apdu 0 (take n address))
  modify (λ (s : App). record s { apdu = apdu })
  pure n

unfoldable pub handle_get_app_configuration : Command App (Unit {0})
handle_get_app_configuration = do
  s ← gets (λ s. s)
  let answer =
      s.hash_signing ∷ ledger_major_version ∷ ledger_minor_version ∷ ledger_patch_version ∷ []
  apdu ← reads (write s.apdu 0 answer)
  modify (λ (s : App). record s { apdu = apdu; reply_length = 4 })
  throw 0x9000

module _ (device : Device) where
  -- The end of handle_sign_tx: after the last piece, the hash and the screens.
  unfoldable pub sign_data : ℕ → Command App (Unit {0})
  sign_data p2 = do
    throw_if (p2 == p2_more) 0x9000
    tx ← gets (λ s. s.tx)
    content ← reads (Memory.memcpy tx.raw 0 tx.raw_length)
    modify (λ (s : App). record s { tx = record s.tx { hash = device.sha256 content } })
    ui_approve_tx_init device
    modify (λ (s : App). record s { flags = bit_or s.flags device.io_asynch_reply })

  unfoldable pub handle_sign_tx : ℕ → ℕ → List ℕ → ℕ → Command App (Unit {0})
  handle_sign_tx p1 p2 data_buffer data_length = do
    throw_if (not (p1 == p1_first) && not (p1 == p1_more)) 0x6b00
    throw_if (not (p2 == p2_last) && not (p2 == p2_more)) 0x6b00
    (if p1 == p1_first
        then first_piece data_buffer data_length
        else more_piece data_buffer data_length)
    sign_data p2

  unfoldable pub handle_sign_tx_hash : List ℕ → ℕ → Command App (Unit {0})
  handle_sign_tx_hash data_buffer data_length = do
    enabled ← gets (λ s. s.hash_signing)
    throw_if (enabled == 0) 0x6c66
    skip ← start_request data_buffer
    let rest = (data_length + (2 ^ 16 - skip)) % 2 ^ 16
    throw_if (not (rest == 32)) 0x6a80
    hash ← reads (Memory.memcpy data_buffer skip rest)
    modify (λ (s : App). record s { tx = record s.tx { hash = hash } })
    ui_approve_tx_hash_init device
    modify (λ (s : App). record s { flags = bit_or s.flags device.io_asynch_reply })

  unfoldable pub handle_keep_alive : Command App (Unit {0})
  handle_keep_alive =
      modify (λ (s : App). record s { flags = bit_or s.flags device.io_asynch_reply })

  -- The part of handle_get_public_key that derives the key and writes its text into the union.
  unfoldable pub put_address : List ℕ → Command App (Unit {0})
  put_address path = do
    modify (λ (s : App). with_pk_bytes (replicate 50 0 ++ drop 50 (pk_bytes s)) s)
    let w = device.public_key (device.derive_node path)
    compressed_key ← reads (compress_public_key w (replicate 33 0) 33)
    address ← gets pk_bytes
    (address, _) ←
        reads (hash_and_encode_base58 device.ripemd160 device.stale_olen compressed_key 33 address)
    modify (λ (s : App). with_pk_bytes address s)

  unfoldable pub answer_public_key : ℕ → Command App (Unit {0})
  answer_public_key p2 =
      if not (bit_and p2 p2_confirm == 0)
      then (do
        modify (λ (s : App). record s { req_type = RequestType.confirm_address })
        ui_show_address_init device
        modify (λ (s : App). record s { flags = bit_or s.flags device.io_asynch_reply }))
      else (do
        n ← set_result_get_public_key
        modify (λ (s : App). record s { reply_length = n })
        throw 0x9000)

  unfoldable pub handle_get_public_key : ℕ → ℕ → List ℕ → ℕ → Command App (Unit {0})
  handle_get_public_key p1 p2 data_buffer data_length = do
    throw_if (not (p1 == p1_signature) && not (p1 == p1_no_signature)) 0x6b00
    throw_if (not (p2 == p2_confirm) && not (p2 == p2_no_confirm)) 0x6b00
    path ← read_path data_buffer (local_array device.frame max_bip32_len)
    put_address path
    answer_public_key p2
