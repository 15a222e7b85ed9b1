-- ===== src/Events/Buttons.antt =====
-- What the host gets when the user presses a button on the screens of a transaction.
use ledger_app_eos.Prelude.{
  ℕ, ◌+◌, ◌/◌, ◌%◌, ◌≤◌, ◌<◌, ◌≡◌, ◌≢◌, refl, sym, ap, ◌∙◌, true, false, some, List, [], ◌∷◌, ◌++◌,
  length, drop, take, arith, ◌==◌, length-append, length-drop, append_assoc, take-append,
}
use ledger_app_eos.Outcome.{Outcome, done, >>=-done}
use ledger_app_eos.Types.{max_bip32_len}
use ledger_app_eos.Text.Buffer.{write}
use ledger_app_eos.Text.Summary.{write-over}
use ledger_app_eos.Keys.Canonical.{Half, compact, length-compact}
use ledger_app_eos.Device.{Device}
use ledger_app_eos.Context.{App, Reply}
use ledger_app_eos.Approval.{respond, put_status, exchange}
use ledger_app_eos.Signing.{set_result_sign_tx}
use ledger_app_eos.Signing.Loop.{Signs, IsFirst, set_result_sign_tx-first}
use ledger_app_eos.Events.{touch_tx_ok, touch_tx_cancel, ui_approve_tx_nanos_button}

put_status-done :
    (sw n : ℕ) (s : App) (apdu : List ℕ)
    → write s.apdu n (sw / 256 % 256 ∷ sw % 256 ∷ []) ≡ some apdu
    → put_status sw n s ≡ done tt (record s { apdu = apdu })
unfolding put_status
put_status-done sw n s apdu wrote = rw wrote refl

module _ (device : Device) where
  -- The next reply to the host is `bytes`.
  abbrev pub Sends : List ℕ → App → Outcome App (Unit {0}) → Type 0
  Sends bytes s o =
      (s' : App) × (o ≡ done tt s')
      × (s'.sent ≡ record { flags = device.io_return_after_tx; bytes = bytes } ∷ s.sent)

  reply : List ℕ → Reply
  reply bytes = record { flags = device.io_return_after_tx; bytes = bytes }

  -- The answer to `body` and a status word.
  pub respond-Sends :
      (sw : ℕ) (s : App) (body rest : List ℕ)
      → s.apdu ≡ body ++ rest
      → 2 ≤ length rest
      → Sends (body ++ (sw / 256 % 256 ∷ sw % 256 ∷ [])) s (respond device sw (length body) s)
  unfolding respond exchange reply
  respond-Sends sw s body rest e room =
      let word : List ℕ = sw / 256 % 256 ∷ sw % 256 ∷ [] in
      let wrote : write s.apdu (length body) word ≡ some (body ++ (word ++ drop 2 rest)) =
        ap (λ (apdu : List ℕ). write apdu (length body) word) e ∙ write-over body rest word room in
      let cut : take (length body + 2) (body ++ (word ++ drop 2 rest)) ≡ body ++ word =
        ap (λ (apdu : List ℕ). take (length body + 2) apdu)
          (sym (append_assoc body word (drop 2 rest)))
        ∙ ap (λ (n : ℕ). take n ((body ++ word) ++ drop 2 rest)) (sym (length-append body word))
        ∙ take-append (body ++ word) (drop 2 rest) in
      (
        record s {
          apdu = body ++ (word ++ drop 2 rest);
          sent =
              record {
                flags = device.io_return_after_tx;
                bytes = take (length body + 2) (body ++ (word ++ drop 2 rest));
              }
              ∷ s.sent;
        },
        >>=-done (put_status sw (length body)) _ s
            (put_status-done sw (length body) s (body ++ (word ++ drop 2 rest)) wrote),
        ap (λ (bytes : List ℕ). reply bytes ∷ s.sent) cut,
      )

module _ (device : Device) (r sh : ℕ → Half) (info : ℕ → ℕ) (k : ℕ) where
  -- On the screens of a transaction, with room for the reply: the left button sends 0x6985 and
  -- nothing else; the right button, with a path that fits its array and more rounds than the first
  -- canonical signature needs, sends the compact form of that signature and 0x9000. The SDK's
  -- signatures are DER of two numbers, each of more than one byte, and those of the first canonical one
  -- take 32 bytes: nothing is said of one with a shorter number, which the app does not return as it is.
  pub ui_approve_tx_nanos_button-Sends :
      (rounds : ℕ) (s : App)
      → device.released_left ≢ device.released_right
      → s.tx.bip32_len ≤ max_bip32_len
      → Signs device (device.derive_node (take s.tx.bip32_len s.tx.bip32)) s.tx.hash r sh info
      → IsFirst r sh k
      → k < rounds
      → 67 ≤ length s.apdu
      → Sends device
          (0x69 ∷ 0x85 ∷ [])
          s
          (ui_approve_tx_nanos_button device rounds device.released_left s)
        × Sends device
            (compact (r k) (sh k) (info k) ++ (0x90 ∷ 0x00 ∷ []))
            s
            (ui_approve_tx_nanos_button device rounds device.released_right s)
  unfolding ui_approve_tx_nanos_button touch_tx_ok touch_tx_cancel
  ui_approve_tx_nanos_button-Sends rounds s differ path h f enough room =
      let left : (device.released_left == device.released_left) ≡ true = ground arith in
      let right : (device.released_right == device.released_right) ≡ true = ground arith in
      let other : (device.released_right == device.released_left) ≡ false =
        ground (arith, differ) in
      let signed = compact (r k) (sh k) (info k) in
      let size : length signed ≡ 65 =
        length-compact (r k) (sh k) (h.r_half k) (h.s_half k) [] (info k) f.r_full f.s_full
          f.accepted in
      let s1 : App = record s { apdu = signed ++ drop 65 s.apdu } in
      let first =
        set_result_sign_tx-first device r sh info k rounds s path h f enough
          (omega (arith, room)) in
      let answered =
        respond-Sends device 0x9000 s1 signed (drop 65 s.apdu) refl
          (omega (arith, room, length-drop 65 s.apdu)) in
      (
        rw left (respond-Sends device 0x6985 s [] s.apdu refl (omega (arith, room))),
        rw (other, right)
            (
              answered.0,
              >>=-done (set_result_sign_tx device rounds) (λ n. respond device 0x9000 n) s first
                  ∙ ap (λ (n : ℕ). respond device 0x9000 n s1) (sym size)
                  ∙ answered.1,
              answered.2,
            ),
      )
