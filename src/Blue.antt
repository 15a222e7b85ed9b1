-- ===== src/Blue.antt =====
-- The screens of the other device, the Blue (eos_ux_blue.c, eos_format_blue.c). UX_DISPLAY,
-- UX_REDISPLAY_IDX and ui_idle only tell the SDK's display library what to draw.
pub mod State
pub mod Elements
pub mod Loop
pub mod Lines
pub mod Details
pub mod Hash
use ledger_app_eos.Prelude.{
  ℕ, zero, suc, ◌+◌, ◌-◌, ◌*◌, ◌%◌, ◌^◌, bit_and, Bool, true, false, ◌&&◌, not, Option, none, some,
  List, [], ◌∷◌, replicate, ltb, leb, ◌==◌, if◌then◌else◌,
}
use ledger_app_eos.Memory
use ledger_app_eos.Outcome.{
  Outcome, done, thrown, undefined, Command, ◌>>=◌, ◌>>◌, pure, modify, gets, reads, zoom,
}
use ledger_app_eos.Types.{TxContext, max_ops}
use ledger_app_eos.Parser.{parse_tx}
use ledger_app_eos.Text.{print_uint, print_binary, print_binary_summary}
use ledger_app_eos.Text.Buffer.{codes, get_or, strcpy, strcat, strlen, text, set}
use ledger_app_eos.Format.{nth}
use ledger_app_eos.Format.State.{Formatter, Display}
use ledger_app_eos.Device.{Device}
use ledger_app_eos.Context.{App}
use ledger_app_eos.Approval.{respond, clear_texts}
use State.{Blue, put_text, put, no_captions, no_values, run_blue, on_display, clear_details}

-- The body of the loop of prepare_details at detail `i`, and the index behind it.
unfoldable pub details_step : Formatter → ℕ → Command Blue ℕ
unfolding run_blue put_text text
details_step f i = do
  s ← gets (λ s. s)
  d ← reads (run_blue s.app.tx f (clear_details s.app.display))
  modify (on_display (λ _. d))
  if not (get_or d.detail_caption 0 0 == 0) && not (get_or d.detail_value 0 0 == 0)
      then (do
        captions ← reads (put_text s.detail_captions i (text d.detail_caption))
        values ← reads (put_text s.detail_values i (text d.detail_value))
        modify (λ (s : Blue). record s { detail_captions = captions; detail_values = values })
        pure ((i + 1) % 2 ^ 8))
      else pure i

-- That loop, at most `rounds` times. It returns whether it has ended.
unfoldable pub details_loop : ℕ → ℕ → Command Blue Bool
unfolding details_step
details_loop zero i = pure false
details_loop (suc rounds) i = do
  f ← gets (λ s. s.app.display.formatter)
  elim f [
    | none ↦ pure true
    | some f ↦ if ltb i 7 then (do i ← details_step f i; details_loop rounds i) else pure true
  ]

-- The titles of an operation's screen.
unfoldable pub operation_title : TxContext → List ℕ → Option (List ℕ)
unfolding print_uint
operation_title t title = Memory.◌>>=◌ (strcpy title 0 (codes "Operation ")) λ title.
    if ltb 1 t.op_count
    then (Memory.◌>>=◌ (strlen title) λ n. Memory.◌>>=◌ (print_uint t.op_idx title n) λ title.
        Memory.◌>>=◌ (strcat title (codes " of "))
          λ title. Memory.◌>>=◌ (strlen title) λ n. print_uint t.op_count title n)
    else some title

-- The first branch of prepare_details, behind the last operation.
unfoldable pub transaction_details : ℕ → Command Blue Bool
unfolding details_loop
transaction_details rounds = do
  s ← gets (λ s. s)
  title ← reads (strcpy s.title_caption 0 (codes "Transaction level details"))
  subtitle ← reads (strcpy s.subtitle_caption 0 [])
  modify (λ (s : Blue). record s { title_caption = title; subtitle_caption = subtitle })
  modify (on_display (λ d. record d { formatter = some Formatter.confirm_transaction_details }))
  details_loop rounds 0

-- The next operation is parsed, and where it ends is kept for the next screen.
unfoldable pub parse_operation : Command Blue (Unit {0})
unfolding parse_tx put nth
parse_operation = do
  s ← gets (λ s. s)
  offset ← reads (nth s.offsets s.current_screen)
  zoom (λ (s : Blue). s.app.tx) (λ t s. record s { app = record s.app { tx = t } })
      (do modify (λ (t : TxContext). record t { offset = offset }); parse_tx s.app.tx.raw)
  s ← gets (λ s. s)
  offsets ← reads (put s.offsets (s.current_screen + 1) (s.app.tx.offset % 2 ^ 16))
  modify (λ (s : Blue). record s { offsets = offsets })

-- The rest of the second branch behind its title.
unfoldable pub show_operation : ℕ → List ℕ → Command Blue Bool
unfolding details_loop text
show_operation rounds title = do
  modify (λ (s : Blue). record s { title_caption = title })
  modify (on_display (λ d. record d { formatter = some Formatter.confirm_operation }))
  ended ← details_loop rounds 0
  if ended
      then (do
        s ← gets (λ s. s)
        subtitle ← reads (strcpy s.subtitle_caption 0 (text s.app.display.op_caption))
        modify (λ (s : Blue). record s { subtitle_caption = subtitle })
        pure true)
      else pure false

-- The second branch.
unfoldable pub operation_details : ℕ → Command Blue Bool
unfolding parse_operation operation_title show_operation
operation_details rounds = do
  parse_operation
  s ← gets (λ s. s)
  title ← reads (operation_title s.app.tx s.title_caption)
  show_operation rounds title

-- prepare_details with at most `rounds` of its loop. It returns whether it has ended.
unfoldable pub prepare_details : ℕ → Command Blue Bool
unfolding transaction_details operation_details nth
prepare_details rounds = do
  modify (λ (s : Blue). record s { detail_captions = no_captions; detail_values = no_values })
  s ← gets (λ s. s)
  show_transaction_details ← reads (
      if ltb 0 s.current_screen
      then (Memory.◌>>=◌ (nth s.offsets s.current_screen) λ offset. some (offset == 0))
      else some false)
  if show_transaction_details then transaction_details rounds else operation_details rounds

unfoldable pub ui_approve_tx_init : ℕ → Command Blue Bool
unfolding prepare_details put
ui_approve_tx_init rounds = do
  modify (λ (s : Blue). record s { current_screen = 0 })
  s ← gets (λ s. s)
  offsets ← reads (put s.offsets 0 0)
  modify (λ (s : Blue). record s { offsets = offsets })
  prepare_details rounds

unfoldable pub ui_approve_tx_hash_init : Command Blue (Unit {0})
unfolding put_text print_binary
ui_approve_tx_hash_init = do
  s ← gets (λ s. s)
  captions ← reads (put_text no_captions 0 (codes "Hash"))
  value ← reads (print_binary s.app.tx.hash (replicate 67 0) 32)
  title ← reads (strcpy s.title_caption 0 (codes "WARNING"))
  subtitle ← reads (strcpy s.subtitle_caption 0 (codes "No details available"))
  modify (λ (s : Blue). record s {
    current_screen = 0;
    detail_captions = captions;
    detail_values = value ∷ replicate 6 (replicate 67 0);
    title_caption = title;
    subtitle_caption = subtitle;
  })

module _ (device : Device) where
  -- The exceptions of prepare_details are answered, and the screen is not drawn then.
  unfoldable pub ui_approval_show_screen : ℕ → Command Blue Bool
  unfolding prepare_details respond
  ui_approval_show_screen rounds s = elim (prepare_details rounds s) [
    | done ended s ↦ done ended s
    | thrown sw s ↦
        (do
          zoom (λ (s : Blue). s.app) (λ app s. record s { app = app }) (respond device sw 0)
          pure true)
          s
    | undefined ↦ undefined
  ]

  unfoldable pub ui_approval_prev : ℕ → Command Blue Bool
  unfolding ui_approval_show_screen
  ui_approval_prev rounds = do
    modify (λ (s : Blue). record s { current_screen = (s.current_screen + 255) % 2 ^ 8 })
    ui_approval_show_screen rounds

  unfoldable pub ui_approval_next : ℕ → Command Blue Bool
  unfolding ui_approval_show_screen
  ui_approval_next rounds = do
    modify (λ (s : Blue). record s { current_screen = (s.current_screen + 1) % 2 ^ 8 })
    ui_approval_show_screen rounds
