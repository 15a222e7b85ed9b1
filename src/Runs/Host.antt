-- ===== src/Runs/Host.antt =====
-- A device and a context at which the theorems on requests are applied.
use ledger_app_eos.Prelude.{ℕ, zero, suc, refl, [], ◌∷◌, ◌++◌, replicate, take, arith}
use ledger_app_eos.Outcome.{Outcome, done, thrown, undefined}
use ledger_app_eos.Device.{Device}
use ledger_app_eos.Context.{App, RequestType, cleared_tx}
use ledger_app_eos.Keys.Canonical.{Half, IsHalf, der}
use ledger_app_eos.Runs.Screens.{frame, blank_display}

-- A half with its top bit clear, and one with it set and a zero before it.
abbrev pub small_half : Half
small_half = record { lead = []; first = 0x12; second = 0x34; others = replicate 30 7 }

abbrev pub large_half : Half
large_half = record { lead = 0 ∷ []; first = 0x92; second = 0x34; others = replicate 30 7 }

pub small_half-IsHalf : IsHalf small_half
small_half-IsHalf = record {
  size = omega arith;
  leading = omega arith;
  whole = λ e. refl;
  positive = λ e. absurd (omega (arith, e));
}

pub large_half-IsHalf : IsHalf large_half
large_half-IsHalf = record {
  size = omega arith;
  leading = omega arith;
  whole = λ e. refl;
  positive = λ e. λ p. absurd (omega (arith, p));
}

-- The second signature is canonical, the first one is not.
abbrev pub r_of : ℕ → Half
r_of zero = large_half
r_of (suc n) = small_half

abbrev pub device : Device
device = record {
  sha256 = λ bytes. bytes;
  ripemd160 = λ bytes. take 20 (bytes ++ replicate 20 0);
  derive_node = λ path. path;
  public_key = λ key. 4 ∷ replicate 64 1;
  ecdsa_sign = λ key hash n. (der (r_of n) small_half, n);
  io_asynch_reply = 16;
  io_return_after_tx = 32;
  released_left = 1;
  released_right = 2;
  stale_olen = 50;
  frame = frame;
}

abbrev pub app : App
app = record {
  tx = cleared_tx;
  padding = replicate 3 0;
  req_type = RequestType.confirm_transaction;
  u2f_timer = 0;
  hash_signing = 0;
  display = blank_display;
  apdu = replicate 260 0;
  flags = 0;
  reply_length = 0;
  sent = [];
}

-- The state behind a command that ends normally.
abbrev pub behind : {A : Type 0} → Outcome App A → App
behind (done a s) = s
behind (thrown sw s) = app
behind undefined = app
