-- ===== src/Context.antt =====
-- The globals of the app: the context `ctx` with its union, the APDU buffer, and the display.
use ledger_app_eos.Prelude.{ℕ, zero, suc, List, [], ◌∷◌, ◌++◌, replicate, take, drop, length}
use ledger_app_eos.Memory.{little_endian}
use ledger_app_eos.Memory.Words.{le_bytes}
use ledger_app_eos.Types.{TxContext, Operation, max_raw_tx, max_bip32_len}
use ledger_app_eos.Parser.{cleared_tx_details}
use ledger_app_eos.Text.Buffer.{get_or}
use ledger_app_eos.Format.State.{Display}

pub data RequestType : Type 0 where
  confirm_address : RequestType
  confirm_transaction : RequestType

-- What the app hands over to io_exchange: the flags beside CHANNEL_APDU, and the bytes to send.
pub record Reply : Type 0 where
  pub flags : ℕ
  pub bytes : List ℕ

-- eos_context_t, the screens' globals, G_io_apdu_buffer, the variables `flags` and `tx` of eos_main,
-- and what went to io_exchange, the last first. Of the union `req` the member `tx` is kept, with the
-- three bytes of padding behind its bip32Len; `pk` is a view of the same bytes.
pub record App : Type 0 where
  pub tx : TxContext
  pub padding : List ℕ
  pub req_type : RequestType
  pub u2f_timer : ℕ
  pub hash_signing : ℕ
  pub display : Display
  pub apdu : List ℕ
  pub flags : ℕ
  pub reply_length : ℕ
  pub sent : List Reply

-- MEMCLEAR(ctx.req.tx)
unfoldable pub cleared_tx : TxContext
cleared_tx = record {
  bip32_len = 0;
  bip32 = replicate max_bip32_len 0;
  raw = replicate max_raw_tx 0;
  raw_length = 0;
  hash = replicate 32 0;
  offset = 0;
  op_details = record { account = 0; name = 0; type = 0; op = Operation.blank };
  tx_details = cleared_tx_details;
  op_count = 0;
  op_idx = 0;
}

-- The bytes of words, as the device stores them.
unfoldable pub bytes_of_words : List ℕ → List ℕ
bytes_of_words [] = []
bytes_of_words (w ∷ words) = le_bytes 4 w ++ bytes_of_words words

unfoldable pub words_of_bytes : ℕ → List ℕ → List ℕ
words_of_bytes zero bytes = []
words_of_bytes (suc n) bytes = little_endian (take 4 bytes) ∷ words_of_bytes n (drop 4 bytes)

-- The bytes of `address` and `chainCode` in the union: those of bip32Len, of the padding, of the path
-- and of the first bytes of `raw`.
abbrev pub pk_size : ℕ
pk_size = 82

unfoldable pub pk_bytes : App → List ℕ
unfolding bytes_of_words
pk_bytes s = take pk_size (s.tx.bip32_len ∷ s.padding ++ (bytes_of_words s.tx.bip32 ++ s.tx.raw))

-- The union after a write through `pk`.
unfoldable pub with_pk_bytes : List ℕ → App → App
unfolding words_of_bytes
with_pk_bytes bytes s = record s {
  tx = record s.tx {
    bip32_len = get_or bytes 0 0;
    bip32 = words_of_bytes max_bip32_len (drop 4 bytes);
    raw = drop 44 bytes ++ drop (length (drop 44 bytes)) s.tx.raw;
  };
  padding = take 3 (drop 1 bytes);
}
