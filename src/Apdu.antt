-- ===== src/Apdu.antt =====
-- Commands from the host (main.c): handle_apdu, the status words, and one round of eos_main.
pub mod Answers
use ledger_app_eos.Prelude.{
  ℕ, ◌+◌, ◌%◌, ◌^◌, bit_and, bit_or, Bool, true, false, not, Option, List, [], ◌∷◌, ◌++◌, take,
  drop, length, ◌==◌, if◌then◌else◌,
}
use ledger_app_eos.Memory
use ledger_app_eos.Outcome.{
  Outcome, done, thrown, undefined, Command, ◌>>=◌, ◌>>◌, pure, throw, throw_if, modify, gets,
  reads,
}
use ledger_app_eos.Text.Buffer.{get_or, write}
use ledger_app_eos.Device.{Device}
use ledger_app_eos.Context.{App}
use ledger_app_eos.Approval.{put_status, exchange}
use ledger_app_eos.Requests.{
  handle_get_public_key, handle_sign_tx, handle_sign_tx_hash, handle_get_app_configuration,
  handle_keep_alive,
}

abbrev pub cla : ℕ
cla = 0xe0

abbrev pub ins_get_public_key : ℕ
ins_get_public_key = 0x02

abbrev pub ins_sign_tx : ℕ
ins_sign_tx = 0x04

abbrev pub ins_get_app_configuration : ℕ
ins_get_app_configuration = 0x06

abbrev pub ins_sign_tx_hash : ℕ
ins_sign_tx_hash = 0x08

abbrev pub ins_keep_alive : ℕ
ins_keep_alive = 0x10

-- U2F_REQUEST_TIMEOUT of the Makefile
abbrev pub u2f_request_timeout : ℕ
u2f_request_timeout = 28000

-- The status word for an exception: those of the app pass, any other is an internal error.
unfoldable pub status_word : ℕ → ℕ
status_word e =
    let class = bit_and e 0xf000 in
    if class == 0x6000
    then e % 2 ^ 16
    else if class == 0x9000
    then e % 2 ^ 16
    else bit_or 0x6800 (bit_and e 0x7ff)

-- The CATCH_OTHER of handle_apdu and of eos_main.
unfoldable pub report : ℕ → Command App (Unit {0})
unfolding status_word put_status
report e = do
  n ← gets (λ s. s.reply_length)
  put_status (status_word e) n
  modify (λ (s : App). record s { reply_length = n + 2 })

-- TRY with that handler.
abbrev pub catching : Command App (Unit {0}) → Command App (Unit {0})
catching body s = elim (body s) [
  | done u s' ↦ done u s'
  | thrown e s' ↦ report e s'
  | undefined ↦ undefined
]

-- The byte of the APDU buffer at an index.
abbrev pub apdu_byte : ℕ → Command App ℕ
apdu_byte i s =
    (reads (Memory.◌>>=◌ (Memory.memcpy s.apdu i 1) λ bytes. Option.some (get_or bytes 0 0))) s

-- io_exchange returns with a command in the buffer, and the variables of the loop are reset.
unfoldable pub receive : List ℕ → App → App
receive received s = record s {
  reply_length = 0;
  flags = 0;
  apdu = received ++ drop (length received) s.apdu;
}

module _ (device : Device) where
  -- The switch over the instruction.
  unfoldable pub dispatch : ℕ → ℕ → ℕ → ℕ → List ℕ → Command App (Unit {0})
  dispatch ins p1 p2 data_length data_buffer =
      if ins == ins_get_public_key
      then handle_get_public_key device p1 p2 data_buffer data_length
      else if ins == ins_sign_tx
      then handle_sign_tx device p1 p2 data_buffer data_length
      else if ins == ins_sign_tx_hash
      then handle_sign_tx_hash device data_buffer data_length
      else if ins == ins_get_app_configuration
      then handle_get_app_configuration
      else if ins == ins_keep_alive
      then handle_keep_alive device
      else throw 0x6d00

  unfoldable pub try_apdu : Command App (Unit {0})
  unfolding dispatch
  try_apdu = do
    class ← apdu_byte 0
    throw_if (not (class == cla)) 0x6e00
    ins ← apdu_byte 1
    p1 ← apdu_byte 2
    p2 ← apdu_byte 3
    data_length ← apdu_byte 4
    modify (λ (s : App). record s { u2f_timer = u2f_request_timeout })
    apdu ← gets (λ s. s.apdu)
    dispatch ins p1 p2 data_length (drop 5 apdu)

  unfoldable pub handle_apdu : Command App (Unit {0})
  unfolding try_apdu report
  handle_apdu = catching try_apdu

  -- The loop of eos_main from where io_exchange returns with `received` to the next call of it. The
  -- first call has nothing to send.
  unfoldable pub main_round : List ℕ → Command App (Unit {0})
  unfolding handle_apdu exchange receive
  main_round received = do
    modify (receive received)
    catching (do throw_if (length received == 0) 0x6982; handle_apdu)
    s ← gets (λ s. s)
    exchange s.flags s.reply_length
