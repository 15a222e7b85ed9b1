-- ===== src/Blue/Loop.antt =====
-- The loop of prepare_details on an operation's screen.
use ledger_app_eos.Prelude.{
  ℕ, zero, suc, ◌%◌, ◌^◌, ◌≡◌, refl, ap, ◌∙◌, Bool, false, Option, some, List, ◌∷◌,
}
use ledger_app_eos.Outcome.{
  Outcome, done, Command, ◌>>=◌, ◌>>◌, modify, reads, zoom, >>=-done, zoom-done,
}
use ledger_app_eos.Types.{TxContext}
use ledger_app_eos.Parser.{parse_tx}
use ledger_app_eos.Format.{nth}
use ledger_app_eos.Format.State.{Formatter}
use ledger_app_eos.Blue.{
  details_step, details_loop, operation_title, parse_operation, operation_details, show_operation,
  prepare_details, ui_approve_tx_init,
}
use ledger_app_eos.Blue.State.{
  Blue, put, run_blue, no_captions, no_values, on_display, clear_details,
}

-- A loop that has not ended after any number of rounds.
abbrev pub Waits : Outcome Blue Bool → Type 0
Waits o = (s : Blue) × (o ≡ done false s)

abbrev at_operation : Blue → Blue
at_operation = on_display (λ d. record d { formatter = some Formatter.confirm_operation })

-- The formatter of an operation sets neither a text nor the next formatter.
details_loop-Waits : (rounds : ℕ) (s : Blue) → Waits (details_loop rounds 0 (at_operation s))
unfolding details_loop details_step run_blue
details_loop-Waits zero s = (at_operation s, refl)
details_loop-Waits (suc rounds) s =
    let (s', w) = details_loop-Waits rounds (on_display clear_details s) in (s', w)

show_operation-Waits :
    (rounds : ℕ) (title : List ℕ) (s : Blue) → Waits (show_operation rounds title s)
unfolding show_operation
show_operation-Waits rounds title s =
    let start = record s { title_caption = title } in
    let (s', w) = details_loop-Waits rounds start in
    (s', >>=-done (details_loop rounds 0) _ (at_operation start) w)

-- What remains of prepare_details once the operation is parsed.
operation_details-Waits :
    (rounds : ℕ) (s s' : Blue) (title : List ℕ)
    → parse_operation s ≡ done tt s'
    → operation_title s'.app.tx s'.title_caption ≡ some title
    → Waits (operation_details rounds s)
unfolding operation_details
operation_details-Waits rounds s s' title e named =
    let (s'', w) = show_operation-Waits rounds title s' in
    (
      s'',
      >>=-done parse_operation _ s e
          ∙ ap (λ (title : Option (List ℕ)). (reads title >>= show_operation rounds) s') named
          ∙ w,
    )

-- The state behind the first lines of ui_approve_tx_init and of prepare_details.
abbrev at_start : List ℕ → Blue → Blue
at_start later s = record s {
  current_screen = 0;
  offsets = 0 ∷ later;
  detail_captions = no_captions;
  detail_values = no_values;
}

-- With the first action parsed, and the place of the second kept.
abbrev parsed : TxContext → ℕ → List ℕ → Blue → Blue
parsed t o later s = record s {
  app = record s.app { tx = t };
  current_screen = 0;
  offsets = 0 ∷ t.offset % 2 ^ 16 ∷ later;
  detail_captions = no_captions;
  detail_values = no_values;
}

parse_operation-first :
    (o : ℕ) (later : List ℕ) (s : Blue) (t : TxContext)
    → parse_tx s.app.tx.raw (record s.app.tx { offset = 0 }) ≡ done tt t
    → parse_operation (at_start (o ∷ later) s) ≡ done tt (parsed t o later s)
unfolding parse_operation nth put
parse_operation-first o later s t e =
    let begin = modify (λ (t : TxContext). record t { offset = 0 }) >> parse_tx s.app.tx.raw in
    >>=-done
      (zoom (λ (s : Blue). s.app.tx) (λ t s. record s { app = record s.app { tx = t } }) begin) _
      (at_start (o ∷ later) s)
      (zoom-done (λ (s : Blue). s.app.tx) (λ t s. record s { app = record s.app { tx = t } }) begin
        (at_start (o ∷ later) s) e)

-- On the Blue the screen of a transaction never comes: when its first action is parsed and its title
-- fits, ui_approve_tx_init is still in the loop of prepare_details after any number of rounds.
pub ui_approve_tx_init-Waits :
    (rounds o o' : ℕ) (later title : List ℕ) (s : Blue) (t : TxContext)
    → s.offsets ≡ o ∷ o' ∷ later
    → parse_tx s.app.tx.raw (record s.app.tx { offset = 0 }) ≡ done tt t
    → operation_title t s.title_caption ≡ some title
    → Waits (ui_approve_tx_init rounds s)
unfolding ui_approve_tx_init prepare_details put
ui_approve_tx_init-Waits rounds o o' later title s t places e named =
    let (s', w) =
      operation_details-Waits rounds (at_start (o' ∷ later) s) (parsed t o' later s) title
        (parse_operation-first o' later s t e) named in
    (
      s',
      ap (λ (offsets : Option (List ℕ)). (reads offsets >>= after_offsets) cleared)
            (ap (λ (offsets : List ℕ). put offsets 0 0) places)
          ∙ w,
    )
  where
    cleared : Blue
    cleared = record s { current_screen = 0 }

    after_offsets : List ℕ → Command Blue Bool
    after_offsets offsets = do
      modify (λ (s : Blue). record s { offsets = offsets })
      prepare_details rounds
