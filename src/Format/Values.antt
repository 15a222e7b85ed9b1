-- ===== src/Format/Values.antt =====
-- The values that a screen shows: assets, names and numbers (eos_format_nanos.c).
use ledger_app_eos.Prelude.{
  ℕ, zero, suc, ◌+◌, ◌-◌, ◌*◌, ◌/◌, ◌%◌, ◌^◌, bit_and, Option, none, some, List, [], ◌∷◌, ltb, ◌==◌,
  if◌then◌else◌,
}
use ledger_app_eos.Memory.{◌>>=◌, memcpy}
use ledger_app_eos.Types.{Asset}
use ledger_app_eos.Text.{Frame, local_array, parse_name, print_int, print_summary}
use ledger_app_eos.Text.Buffer.{write, strlen, text, strcpy, strcat}
use ledger_app_eos.Format.State.{Formatter, Display}

unfoldable pub decimals : ℕ → ℕ
decimals value = bit_and value 0xff

-- The loop of precision: `p` more products, in a uint64_t.
unfoldable pub precision_loop : ℕ → ℕ → ℕ
precision_loop zero p10 = p10
precision_loop (suc p) p10 = precision_loop p (p10 * 10 % 2 ^ 64)

unfoldable pub precision : ℕ → ℕ
unfolding precision_loop decimals
precision value = precision_loop (decimals value) 1

-- The loop of name: the bytes of `v` up to its highest one that is not 0. A uint64_t has eight.
unfoldable pub name_bytes : ℕ → ℕ → List ℕ
name_bytes zero v = []
name_bytes (suc left) v =
    let more = v % 2 ^ 8 ∷ name_bytes left (v / 2 ^ 8) in if v == 0 then [] else more

unfoldable pub name : ℕ → List ℕ → Option (List ℕ)
unfolding name_bytes
name value buffer = strcpy buffer 0 (name_bytes 8 (value / 2 ^ 8))

-- sizeof(char *) on the device's 32-bit core.
abbrev pub pointer_size : ℕ
pointer_size = 4

-- llabs on the bit pattern of an int64_t. The least value has no absolute value.
unfoldable pub llabs : ℕ → Option ℕ
llabs l = if ltb l (2 ^ 63) then some l else if l == 2 ^ 63 then none else some (2 ^ 64 - l)

-- The block of format_asset for the digits behind the point, with its ten-byte `fracStr`.
unfoldable pub format_fraction : Frame → ℕ → ℕ → List ℕ → Option (List ℕ)
unfolding print_int text
format_fraction frame prec frac out = do
  frac_str ← print_int ((prec + frac) % 2 ^ 64) (local_array frame 10)
  moved ← memcpy frac_str 1 (pointer_size + 1)
  frac_str ← write frac_str 2 moved
  frac_str ← write frac_str 1 (b'.' ∷ [])
  n ← strlen frac_str
  ptr ← memcpy frac_str 1 (n - 1)
  strcat out ptr

-- The name of the symbol, with a space before it.
unfoldable pub format_symbol : Frame → ℕ → List ℕ → Option (List ℕ)
unfolding name text
format_symbol frame sym out = do
  sym_name ← name sym (local_array frame 17)
  n ← strlen sym_name
  moved ← memcpy sym_name 0 (n + 1)
  sym_name ← write sym_name 1 moved
  sym_name ← write sym_name 0 (b' ' ∷ [])
  strcat out (text sym_name)

-- format_asset. To divide by a precision that wrapped around to 0 is undefined.
unfoldable pub format_asset : Frame → Asset → List ℕ → Option (List ℕ)
unfolding format_fraction format_symbol llabs precision
format_asset frame asset out = do
  abs_amount ← llabs asset.amount
  let prec = precision asset.symbol
  if prec == 0 then none else (do
    out ← print_int (abs_amount / prec) out
    out ←
        (if decimals asset.symbol == 0
          then some out
          else format_fraction frame prec (abs_amount % prec) out)
    format_symbol frame asset.symbol out)

-- What every detail screen does: a caption, a text summarised into detailValue, the next screen.
unfoldable pub show : List ℕ → Option (List ℕ) → Option Formatter → Display → Option Display
show caption tmp next d = do
  tmp ← tmp
  detail_caption ← strcpy d.detail_caption 0 caption
  detail_value ← print_summary tmp d.detail_value 6 6
  some (record d { detail_caption = detail_caption; detail_value = detail_value; formatter = next })

unfoldable pub name_text : Frame → ℕ → Option (List ℕ)
unfolding parse_name
name_text frame value = do (out, n) ← parse_name frame value; some out

unfoldable pub asset_text : Frame → Asset → ℕ → Option (List ℕ)
unfolding format_asset
asset_text frame asset size = format_asset frame asset (local_array frame size)

unfoldable pub int_text : Frame → ℕ → Option (List ℕ)
int_text frame l = print_int l (local_array frame 64)

-- An int of 32 bits as an int64_t.
unfoldable pub sign_extend : ℕ → ℕ
sign_extend l = if ltb l (2 ^ 31) then l else l + (2 ^ 64 - 2 ^ 32)
