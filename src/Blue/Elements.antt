-- ===== src/Blue/Elements.antt =====
-- The callbacks that the display library runs before it draws an element (eos_ux_blue.c), and the
-- taps that change no more than what is shown.
use Prim.Native.Nat.{min}
use ledger_app_eos.Prelude.{
  ℕ, ◌+◌, ◌-◌, ◌*◌, ◌^◌, bit_and, bit_xor, Bool, true, false, ◌&&◌, not, Option, none, some, List,
  replicate, ltb, leb, ◌==◌, if◌then◌else◌,
}
use ledger_app_eos.Memory.{◌>>=◌, memcpy}
use ledger_app_eos.Text.Buffer.{get_or, write, strcpy, strlen, text}
use ledger_app_eos.Format.{nth}
use ledger_app_eos.Context.{App}
use ledger_app_eos.Blue.State.{Blue}

-- What a callback returns: NULL, the element itself, or the copy of it with another text, moved to
-- the left.
pub data Drawn : Type 0 where
  hidden : Drawn
  unchanged : Drawn
  with_text : List ℕ → ℕ → Drawn

-- Constants of the SDK's display library.
pub record Library : Type 0 where
  pub bagl_none : ℕ
  pub bagl_flag_touchable : ℕ

-- MAX_CHAR_PER_LINE
abbrev pub max_char_per_line : ℕ
max_char_per_line = 28

-- BAGL_FONT_OPEN_SANS_REGULAR_10_13PX_AVG_WIDTH
abbrev pub avg_width : ℕ
avg_width = 8

-- component.type & ~BAGL_FLAG_TOUCHABLE == BAGL_NONE
abbrev pub is_none : Library → ℕ → Bool
is_none library type =
    bit_and type (bit_xor (2 ^ 32 - 1) library.bagl_flag_touchable) == library.bagl_none

unfoldable pub ui_settings_blue_toggle_hash_signing : App → App
ui_settings_blue_toggle_hash_signing s = record s {
  hash_signing = if s.hash_signing == 0 then 1 else 0;
}

-- The icons are texts of the SDK's tools, C_icon_toggle_set and C_icon_toggle_reset.
unfoldable pub ui_settings_blue_prepro : Library → List ℕ → List ℕ → App → ℕ → ℕ → Drawn
ui_settings_blue_prepro library toggle_set toggle_reset s type userid =
    if is_none library type
    then Drawn.hidden
    else if userid == 0
    then Drawn.unchanged
    else Drawn.with_text (if s.hash_signing == 0 then toggle_reset else toggle_set) 0

-- os_memset of the line and os_memmove of at most a line.
unfoldable pub fill_line : List ℕ → List ℕ → Option (List ℕ)
fill_line line bytes = do line ← write line 0 (replicate 29 0); write line 0 bytes

-- A length below 0 is a size_t beyond every array.
unfoldable pub ui_address_blue_prepro : Blue → ℕ → Option Blue
unfolding fill_line
ui_address_blue_prepro s userid = if userid == 0 then some s else (do
  let offset = bit_and userid 0xf * max_char_per_line
  bytes ←
      (if ltb 57 offset
        then none
        else memcpy s.app.display.detail_value offset (min (57 - offset) max_char_per_line))
  line ← fill_line s.display_string bytes
  some (record s { display_string = line }))

-- The line of the content from `offset` on, where it reaches so far.
unfoldable pub details_line : Blue → List ℕ → ℕ → Option (Drawn × Blue)
unfolding fill_line
details_line s content offset = do
  len ← strlen content
  if leb offset len
      then (do
        bytes ← memcpy content offset (min (len - offset) max_char_per_line)
        line ← fill_line s.display_string bytes
        some (Drawn.unchanged, record s { display_string = line }))
      else some (Drawn.hidden, s)

unfoldable pub ui_details_blue_prepro : Blue → ℕ → Option (Drawn × Blue)
unfolding details_line nth text
ui_details_blue_prepro s userid = if userid == 0 then some (Drawn.unchanged, s) else (do
  index ← s.details
  title ← nth s.detail_captions index
  content ← nth s.detail_values index
  if userid == 1
      then (do
        line ← strcpy s.display_string 0 (text title)
        some (Drawn.unchanged, record s { display_string = line }))
      else details_line s content (bit_and userid 0xf * max_char_per_line))

-- A tap on a detail whose value is too wide for its line: `true` where the details' screen opens.
unfoldable pub ui_approval_show_details : Blue → ℕ → Option (Bool × Blue)
unfolding nth
ui_approval_show_details s userid = do
  let index = bit_and userid 0xf
  value ← nth s.detail_values index
  len ← strlen value
  some (if leb 160 (len * avg_width) then (true, record s { details = some index }) else (false, s))

-- A text of an array that begins with its end, or not.
unfoldable pub has_text : List (List ℕ) → ℕ → Option Bool
unfolding nth
has_text rows i = do row ← nth rows i; some (not (get_or row 0 0 == 0))

unfoldable pub ui_approval_blue_prepro : Library → Blue → ℕ → ℕ → Option Drawn
unfolding has_text nth text
ui_approval_blue_prepro library s type userid =
    if is_none library type then some Drawn.unchanged else (do
      let group = bit_and userid 0xf0
      let index = bit_and userid 0xf
      caption ← has_text s.detail_captions index
      value ← has_text s.detail_values index
      next_caption ← has_text s.detail_captions (index + 1)
      next_value ← has_text s.detail_values (index + 1)
      shown_caption ← nth s.detail_captions index
      shown_value ← nth s.detail_values index
      len ← strlen shown_value
      let has_details = caption && value
      let has_next_details = next_caption && next_value
      let is_detail_overflow = leb 160 (len * avg_width)
      some (
          if group == 0x00
          then (if userid == 0x01
              then (if ltb 0 s.current_screen then Drawn.unchanged else Drawn.hidden)
              else if userid == 0x02
              then (if ltb s.current_screen s.app.tx.op_count
                  then Drawn.unchanged
                  else Drawn.hidden)
              else Drawn.unchanged)
          else if group == 0x70
          then (if has_details then Drawn.with_text (text shown_caption) 0 else Drawn.hidden)
          else if group == 0x10
          then (if has_details
              then Drawn.with_text (text shown_value) (if is_detail_overflow then 18 else 0)
              else Drawn.hidden)
          else if group == 0x20
          then (if is_detail_overflow then Drawn.unchanged else Drawn.hidden)
          else if group == 0x30
          then (if ltb index 5 && has_next_details then Drawn.unchanged else Drawn.hidden)
          else Drawn.unchanged))
