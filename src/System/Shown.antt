-- ===== src/System/Shown.antt =====
-- What the user sees against what the user signs.
use ledger_app_eos.Device.{Device}
