-- ===== src/Runs/Session.antt =====
-- Commands, ticks and signatures at a concrete device.
use ledger_app_eos.Prelude.{
  true, none, ◌≤◌, ◌*◌, ◌-◌, ℕ, zero, suc, ◌<◌, ◌≡◌, refl, arith, some, [], ◌∷◌, ◌++◌, drop,
  replicate, false,
}
use ledger_app_eos.Outcome.{done, Leaves}
use ledger_app_eos.Memory.{memcpy, read_uint}
use ledger_app_eos.Text.Buffer.{write}
use ledger_app_eos.Varint.{parse_varint32}
use ledger_app_eos.Events.{ui_approve_tx_nanos_button, ticker_event, u2f_tick}
use ledger_app_eos.Context.{App, cleared_tx}
use ledger_app_eos.Keys.{canonical_half, signature_to_encoded_base58}
use ledger_app_eos.Keys.Canonical.{IsHalf, compact, der, compact_signature, is_canonical_pair}
use ledger_app_eos.Approval.{ui_approve_tx_init, ui_approve_tx_next_screen}
use ledger_app_eos.Approval.Frame.{Keeps, Never, ui_approve_tx_next_screen-Keeps}
use ledger_app_eos.Requests.{
  handle_sign_tx, p1_first, p2_last, first_piece, start_request, read_bip32, bip32_loop, copy_raw,
  sign_data,
}
use ledger_app_eos.Requests.Sizes.{IsContext, cleared_tx-sizes, Keeps-refl}
use ledger_app_eos.Signing.{set_result_sign_tx}
use ledger_app_eos.Signing.Loop.{Signs, IsFirst, set_result_sign_tx-first}
use ledger_app_eos.Apdu.{try_apdu, status_word}
use ledger_app_eos.Apdu.Answers.{IsAppStatus, try_apdu-Leaves}
use ledger_app_eos.Events.Buttons.{Sends, ui_approve_tx_nanos_button-Sends}
use ledger_app_eos.Events.Timer.{ticks, with_timer, kept_alive, ticks-keep_alive}
use ledger_app_eos.System.Approved.{SignsHash, single, still, ticked, approved_hash}
use ledger_app_eos.Approval.Refused.{ui_approve_tx_next_screen-refused}
use ledger_app_eos.Parser.Wire.{header_bytes}
use ledger_app_eos.Parser.Head.{refused_header}
use ledger_app_eos.Parser.Errors.{parse_tx-too_many_actions}
use ledger_app_eos.Runs.{fresh_context, large_header, large_header-IsHeader}
use ledger_app_eos.Runs.Host.{
  behind, device, app, r_of, small_half, small_half-IsHalf, large_half-IsHalf,
}
use ledger_app_eos.Requests.Path.{path_bytes}
use ledger_app_eos.Runs.Upload.{path, path-IsPath}

compact_signature_example :
    signature_to_encoded_base58 (der small_half small_half ++ (0 ∷ [])) 164 1
    ≡ some (compact small_half small_half 1 ++ drop 65 (replicate 164 0), 65)
unfolding canonical_half
compact_signature_example =
    compact_signature small_half small_half small_half-IsHalf small_half-IsHalf (0 ∷ []) 1 refl refl
      refl

app-IsContext : IsContext app
app-IsContext = record {
  raw_size = cleared_tx-sizes.0;
  path_size = cleared_tx-sizes.1;
  padding_size = refl;
}

ui_approve_tx_next_screen-Keeps_example :
    Leaves (Keeps app) Never (ui_approve_tx_next_screen device app)
ui_approve_tx_next_screen-Keeps_example =
    ui_approve_tx_next_screen-Keeps device app app (Keeps-refl app)

try_apdu-Leaves_example :
    Leaves IsContext (λ sw. IsAppStatus sw × (status_word sw ≡ sw)) (try_apdu device app)
try_apdu-Leaves_example = try_apdu-Leaves device app app-IsContext

r_of-IsHalf : (n : ℕ) → IsHalf (r_of n)
r_of-IsHalf zero = large_half-IsHalf
r_of-IsHalf (suc n) = small_half-IsHalf

app-Signs : Signs device [] (replicate 32 0) r_of (λ n. small_half) (λ n. n)
app-Signs = record { r_half = r_of-IsHalf; s_half = λ n. small_half-IsHalf; signature = λ n. refl }

first-refused : (n : ℕ) → n < 1 → is_canonical_pair (r_of n) small_half ≡ false
unfolding canonical_half
first-refused zero h = refl
first-refused (suc n) h = absurd (omega (arith, h))

second-IsFirst : IsFirst r_of (λ n. small_half) 1
unfolding canonical_half
second-IsFirst = record { refused = first-refused; accepted = refl; r_full = refl; s_full = refl }

set_result_sign_tx-first_example :
    set_result_sign_tx device 2 app
    ≡ done 65 (record app { apdu = compact small_half small_half 1 ++ replicate 195 0 })
unfolding cleared_tx
set_result_sign_tx-first_example =
    set_result_sign_tx-first device r_of (λ n. small_half) (λ n. n) 1 2 app (omega arith) app-Signs
      second-IsFirst (omega arith) (omega arith)

-- An upload in a single request.
abbrev requested : App
unfolding handle_sign_tx
requested =
    behind
      (handle_sign_tx device p1_first p2_last (path_bytes path ++ ((1 ∷ 2 ∷ 3 ∷ []) ++ [])) 12 app)

approved_hash_example : SignsHash (device.sha256 (1 ∷ 2 ∷ 3 ∷ [])) (1 ∷ 2 ∷ 3 ∷ []) path requested
unfolding handle_sign_tx first_piece start_request read_bip32 bip32_loop cleared_tx copy_raw memcpy
    write sign_data ui_approve_tx_init parse_varint32 read_uint ticker_event u2f_tick
approved_hash_example =
    approved_hash device app requested requested path (1 ∷ 2 ∷ 3 ∷ [])
      (single path (1 ∷ 2 ∷ 3 ∷ []) [] path-IsPath (omega arith) refl)
      (ticked false false false still refl)

abbrev asked : App
asked = record app { u2f_timer = 28000 }

ticks-keep_alive_example :
    ((j : ℕ)
      → j ≤ 279
      → ticks device true j asked ≡ done tt (with_timer device ((280 - j) * 100) asked))
    × (ticks device true 280 asked ≡ done tt (kept_alive device asked))
ticks-keep_alive_example = ticks-keep_alive device true 279 asked refl (omega arith) (omega arith)

ui_approve_tx_nanos_button-Sends_example :
    Sends device
      (0x69 ∷ 0x85 ∷ [])
      app
      (ui_approve_tx_nanos_button device 2 device.released_left app)
    × Sends device
        (compact small_half small_half 1 ++ (0x90 ∷ 0x00 ∷ []))
        app
        (ui_approve_tx_nanos_button device 2 device.released_right app)
unfolding cleared_tx
ui_approve_tx_nanos_button-Sends_example =
    ui_approve_tx_nanos_button-Sends device r_of (λ n. small_half) (λ n. n) 1 2 app
      (λ e. absurd (omega (arith, e))) (omega arith) app-Signs second-IsFirst (omega arith)
      (omega arith)

-- A transaction that announces 300 actions.
abbrev too_many : App
too_many = record app { tx = record fresh_context { raw = header_bytes large_header [] } }

ui_approve_tx_next_screen-refused_example :
    (s' : App) × (ui_approve_tx_next_screen device too_many ≡ done tt s')
    × (s'.sent ≡ record { flags = 32; bytes = 0x6e ∷ 0x10 ∷ [] } ∷ [])
    × (s'.display.formatter ≡ none)
    × (s'.tx ≡ refused_header too_many.tx 44)
ui_approve_tx_next_screen-refused_example =
    ui_approve_tx_next_screen-refused device too_many 0x6e10 (refused_header too_many.tx 44) refl
      (parse_tx-too_many_actions (header_bytes large_header []) large_header [] too_many.tx refl
        large_header-IsHeader refl (omega arith)).0
      (omega arith)
