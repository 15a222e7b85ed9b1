-- ===== src/Format/Walk.antt =====
-- The screens that follow each other while the pointer `formatter` is set: what each of them shows.
use ledger_app_eos.Prelude.{
  ℕ, zero, suc, ◌≡◌, refl, sym, ap, ◌∙◌, Option, none, some, List, [], ◌∷◌, replicate,
}
use ledger_app_eos.Memory.{◌>>=◌}
use ledger_app_eos.Types.{TxContext}
use ledger_app_eos.Text.{Frame, print_summary}
use ledger_app_eos.Text.Buffer.{text, strcpy}
use ledger_app_eos.Format.State.{Formatter, Display}
use ledger_app_eos.Format.Values.{show}
use ledger_app_eos.Format

-- The caption and the value of a screen.
abbrev pub Screen : Type 0
Screen = List ℕ × List ℕ

-- The display behind the three MEMCLEAR of ui_approve_tx_next_screen.
abbrev pub blank : ℕ → Option Formatter → Display
blank index f = record {
  op_caption = replicate 20 0;
  detail_caption = replicate 20 0;
  detail_value = replicate 89 0;
  current_producer_index = index;
  formatter = f;
}

-- A caption with a text, as far as the screen has room for it.
unfoldable pub field : List ℕ → Option (List ℕ) → Option Screen
field caption tmp = do
  t ← tmp
  value ← print_summary t (replicate 89 0) 6 6
  some (caption, text value)

-- Several of them in their order.
unfoldable pub all_fields : List (List ℕ × Option (List ℕ)) → Option (List Screen)
all_fields [] = some []
all_fields ((caption, tmp) ∷ fields) = do
  screen ← field caption tmp
  rest ← all_fields fields
  some (screen ∷ rest)

-- A caption that fits the screen's array.
abbrev pub IsCaption : List ℕ → Type 0
IsCaption caption =
    (buffer : List ℕ) × (strcpy (replicate 20 0) 0 caption ≡ some buffer) × (text buffer ≡ caption)

-- What `show` leaves of a blank display.
abbrev pub shown_then : List ℕ → ℕ → Option Formatter → Option (List ℕ) → Option Display
shown_then buffer index next value = do
  v ← value
  some (record {
    op_caption = replicate 20 0;
    detail_caption = buffer;
    detail_value = v;
    current_producer_index = index;
    formatter = next;
  })

abbrev pub summary : Option (List ℕ) → Option (List ℕ)
summary tmp = do t ← tmp; print_summary t (replicate 89 0) 6 6

pub show-blank :
    (caption : List ℕ) (tmp : Option (List ℕ)) (next f : Option Formatter) (index : ℕ)
    → (c : IsCaption caption)
    → show caption tmp next (blank index f) ≡ shown_then (c.0) index next (summary tmp)
unfolding show
show-blank caption none next f index (buffer, e, s) = refl
show-blank caption (some t) next f index (buffer, e, s) = rw e refl

field-summary :
    (caption : List ℕ) (tmp : Option (List ℕ))
    → field caption tmp ≡ (summary tmp >>= λ v. some (caption, text v))
unfolding field
field-summary caption none = refl
field-summary caption (some t) = refl

module _ (ripemd160 : List ℕ → List ℕ) (stale_olen : ℕ) (mem : List ℕ) (frame : Frame)
    (t : TxContext) where
  -- The screens from a formatter on, at most `rounds`.
  unfoldable pub walk : ℕ → ℕ → Option Formatter → Option (List Screen)
  walk zero index f = none
  walk (suc rounds) index none = some []
  walk (suc rounds) index (some f) = do
    d ← Format.run_formatter ripemd160 stale_olen mem frame t f (blank index (some f))
    rest ← walk rounds d.current_producer_index d.formatter
    some ((text d.detail_caption, text d.detail_value) ∷ rest)

  -- A screen that shows a field and sets the next formatter and the index.
  pub walk-shown :
      (rounds index index' : ℕ) (f : Formatter) (caption : List ℕ) (tmp : Option (List ℕ))
      (next : Option Formatter) (fields : List (List ℕ × Option (List ℕ)))
      → (c : IsCaption caption)
      → Format.run_formatter ripemd160 stale_olen mem frame t f (blank index (some f))
        ≡ shown_then (c.0) index' next (summary tmp)
      → walk rounds index' next ≡ all_fields fields
      → walk (suc rounds) index (some f) ≡ all_fields ((caption, tmp) ∷ fields)
  unfolding walk field all_fields
  walk-shown rounds index index' f caption tmp next fields c e later =
      ap go_on e
      ∙ shown (summary tmp)
      ∙ ap rest_of (sym (field-summary caption tmp))
      ∙ ap
          (λ (rest : Option (List Screen)).
            field caption tmp >>= λ screen. rest >>= λ rest. some (screen ∷ rest))
          later
    where
      go_on : Option Display → Option (List Screen)
      go_on display = display >>= λ d. walk rounds d.current_producer_index d.formatter >>= λ rest.
          some ((text d.detail_caption, text d.detail_value) ∷ rest)

      rest_of : Option Screen → Option (List Screen)
      rest_of screen = screen >>= λ s. walk rounds index' next >>= λ rest. some (s ∷ rest)

      shown :
          (value : Option (List ℕ))
          → go_on (shown_then (c.0) index' next value)
            ≡ rest_of (value >>= λ v. some (caption, text v))
      shown none = refl
      shown (some v) =
          ap (λ (s : List ℕ). walk rounds index' next >>= λ rest. some ((s, text v) ∷ rest)) (c.2)

  -- The screens that leave the index alone.
  pub walk-fields :
      (rounds index : ℕ) (f : Formatter) (caption : List ℕ) (tmp : Option (List ℕ))
      (next : Option Formatter) (fields : List (List ℕ × Option (List ℕ)))
      → IsCaption caption
      → Format.run_formatter ripemd160 stale_olen mem frame t f (blank index (some f))
        ≡ show caption tmp next (blank index (some f))
      → walk rounds index next ≡ all_fields fields
      → walk (suc rounds) index (some f) ≡ all_fields ((caption, tmp) ∷ fields)
  walk-fields rounds index f caption tmp next fields c e later =
      walk-shown rounds index index f caption tmp next fields c
        (e ∙ show-blank caption tmp next (some f) index c) later

  -- A screen that shows nothing.
  pub walk-blank :
      (rounds index : ℕ) (f : Formatter) (next : Option Formatter)
      → Format.run_formatter ripemd160 stale_olen mem frame t f (blank index (some f))
        ≡ some (blank index next)
      → walk (suc rounds) index (some f)
        ≡ (walk rounds index next >>= λ rest. some (([], []) ∷ rest))
  unfolding walk text
  walk-blank rounds index f next e =
      ap
        (λ (display : Option Display). display >>= λ d.
          walk rounds d.current_producer_index d.formatter >>= λ rest.
          some ((text d.detail_caption, text d.detail_value) ∷ rest))
        e
