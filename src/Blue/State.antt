-- ===== src/Blue/State.antt =====
-- The globals of the Blue's screens (eos_ux_blue.c) and the formatters of eos_format_blue.c.
use ledger_app_eos.Prelude.{ℕ, zero, suc, Option, none, some, List, [], ◌∷◌, replicate}
use ledger_app_eos.Memory
use ledger_app_eos.Types.{TxContext}
use ledger_app_eos.Text.{print_binary_summary}
use ledger_app_eos.Text.Buffer.{codes, strcpy}
use ledger_app_eos.Format.State.{Formatter, Display}
use ledger_app_eos.Context.{App}

-- The globals of eos_ux_blue.c beside those of the app. detailsTitle and detailsContent point to the
-- caption and the value of one detail, whose index is kept; before the first tap they are NULL.
pub record Blue : Type 0 where
  pub app : App
  pub title_caption : List ℕ
  pub subtitle_caption : List ℕ
  pub detail_captions : List (List ℕ)
  pub detail_values : List (List ℕ)
  pub display_string : List ℕ
  pub current_screen : ℕ
  pub offsets : List ℕ
  pub details : Option ℕ

-- A row of an array of texts with a text in it.
unfoldable pub put_text : List (List ℕ) → ℕ → List ℕ → Option (List (List ℕ))
put_text [] i s = none
put_text (row ∷ rows) zero s = Memory.◌>>=◌ (strcpy row 0 s) λ row. some (row ∷ rows)
put_text (row ∷ rows) (suc i) s = Memory.◌>>=◌ (put_text rows i s) λ rows. some (row ∷ rows)

-- An entry of an array of numbers.
unfoldable pub put : List ℕ → ℕ → ℕ → Option (List ℕ)
put [] i n = none
put (x ∷ xs) zero n = some (n ∷ xs)
put (x ∷ xs) (suc i) n = Memory.◌>>=◌ (put xs i n) λ xs. some (x ∷ xs)

abbrev pub no_captions : List (List ℕ)
no_captions = replicate 7 (replicate 20 0)

abbrev pub no_values : List (List ℕ)
no_values = replicate 7 (replicate 67 0)

-- The formatters of eos_format_blue.c. The one of a transaction's details has no body there.
unfoldable pub run_blue : TxContext → Formatter → Display → Option Display
run_blue t Formatter.confirm_operation d = some d
run_blue t Formatter.confirm_transaction d = some d
run_blue t Formatter.confirm_hash_detail d =
    Memory.◌>>=◌ (strcpy d.detail_caption 0 (codes "Hash")) λ detail_caption.
      Memory.◌>>=◌ (print_binary_summary t.hash d.detail_value 32) λ detail_value. some (record d {
        detail_caption = detail_caption;
        detail_value = detail_value;
        formatter = some Formatter.confirm_hash;
      })
run_blue t Formatter.confirm_hash_warning d =
    Memory.◌>>=◌ (strcpy d.detail_caption 0 (codes "WARNING")) λ detail_caption.
      Memory.◌>>=◌ (strcpy d.detail_value 0 (codes "No details available")) λ detail_value.
        some (record d {
          detail_caption = detail_caption;
          detail_value = detail_value;
          formatter = some Formatter.confirm_hash_detail;
        })
run_blue t Formatter.confirm_hash d =
    some (record d { formatter = some Formatter.confirm_hash_warning })
run_blue t _ d = none

abbrev pub on_display : (Display → Display) → Blue → Blue
on_display f s = record s { app = record s.app { display = f s.app.display } }

-- The two MEMCLEAR of the loop.
abbrev pub clear_details : Display → Display
clear_details d = record d { detail_caption = replicate 20 0; detail_value = replicate 89 0 }
