-- ===== src/Device.antt =====
-- What the app takes from outside: the device's SDK, its constants, and what the compiler leaves open.
use ledger_app_eos.Prelude.{ℕ, List}
use ledger_app_eos.Text.{Frame}

pub record Device : Type 0 where
  -- cx_hash_sha256, and the cx_hash of eos_hash_and_encode_base58
  pub sha256 : List ℕ → List ℕ
  pub ripemd160 : List ℕ → List ℕ
  -- os_perso_derive_node_bip32: the private key of a path
  pub derive_node : List ℕ → List ℕ
  -- cx_ecfp_generate_pair: the bytes `W` of the public key
  pub public_key : List ℕ → List ℕ
  -- cx_ecdsa_sign with a private key and a hash: the bytes and the info of the n-th signature, which
  -- random numbers tell apart
  pub ecdsa_sign : List ℕ → List ℕ → ℕ → List ℕ × ℕ
  pub io_asynch_reply : ℕ
  pub io_return_after_tx : ℕ
  -- BUTTON_EVT_RELEASED with BUTTON_LEFT and with BUTTON_RIGHT
  pub released_left : ℕ
  pub released_right : ℕ
  -- what `olen` of eos_hash_and_encode_base58 holds before it is written
  pub stale_olen : ℕ
  pub frame : Frame
