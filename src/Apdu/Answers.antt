-- ===== src/Apdu/Answers.antt =====
-- The exceptions of a command and the status words that the host gets for them.
use ledger_app_eos.Prelude.{ℕ, ◌≡◌, refl, Bool, true, ◌||◌, not, List, drop, arith, ◌==◌}
use ledger_app_eos.Outcome.{
  Leaves, Outcome, Command, done, thrown, undefined, throw_if, Leaves->>=, Leaves-reads,
  Leaves-mono, Leaves-throw_if, Leaves-if,
}
use ledger_app_eos.Device.{Device}
use ledger_app_eos.Context.{App}
use ledger_app_eos.Approval.{put_status}
use ledger_app_eos.Approval.Frame.{Never}
use ledger_app_eos.Requests.{handle_keep_alive}
use ledger_app_eos.Requests.Sizes.{
  IsContext, IsRequestStatus, is_request_status, handle_sign_tx-Leaves, handle_sign_tx_hash-Leaves,
}
use ledger_app_eos.Requests.Union.{
  handle_get_public_key-Leaves, handle_get_app_configuration-Leaves,
}
use ledger_app_eos.Apdu.{
  cla, status_word, report, catching, apdu_byte, dispatch, try_apdu, handle_apdu,
  u2f_request_timeout, ins_get_public_key, ins_sign_tx, ins_sign_tx_hash, ins_get_app_configuration,
  ins_keep_alive,
}

-- A status word of a request, 0x6d00 for an unknown instruction, 0x6e00 for another class.
abbrev pub is_app_status : ℕ → Bool
is_app_status sw = is_request_status sw || ((sw == 0x6d00) || (sw == 0x6e00))

abbrev pub IsAppStatus : ℕ → Type 0
IsAppStatus sw = is_app_status sw ≡ true

status_word-app : (sw : ℕ) → IsAppStatus sw → status_word sw ≡ sw
unfolding status_word
status_word-app sw h = ground arith

lift-Leaves :
    {A : Type 0} (o : Outcome App A)
    → Leaves IsContext IsRequestStatus o
    → Leaves IsContext IsAppStatus o
lift-Leaves o h =
    Leaves-mono IsContext IsContext IsRequestStatus IsAppStatus o (λ s c. c) (λ sw e. rw e refl) h

apdu_byte-Leaves : (i : ℕ) (s : App) → IsContext s → Leaves IsContext IsAppStatus (apdu_byte i s)
apdu_byte-Leaves i s c = Leaves-reads IsContext IsAppStatus _ s c

module _ (device : Device) where
  keep_alive-Leaves :
      (s : App) → IsContext s → Leaves IsContext IsAppStatus (handle_keep_alive device s)
  unfolding handle_keep_alive
  keep_alive-Leaves s c = ground arith

  dispatch-Leaves :
      (ins p1 p2 data_length : ℕ) (data_buffer : List ℕ) (s : App)
      → IsContext s
      → Leaves IsContext IsAppStatus (dispatch device ins p1 p2 data_length data_buffer s)
  unfolding dispatch
  dispatch-Leaves ins p1 p2 data_length data_buffer s c =
      let R = IsContext in
      let E = IsAppStatus in
      Leaves-if R E (ins == ins_get_public_key) _ _ s
        (lift-Leaves _ (handle_get_public_key-Leaves device p1 p2 data_buffer data_length s c))
        (Leaves-if R E (ins == ins_sign_tx) _ _ s
          (lift-Leaves _ (handle_sign_tx-Leaves device p1 p2 data_buffer data_length s c))
          (Leaves-if R E (ins == ins_sign_tx_hash) _ _ s
            (lift-Leaves _ (handle_sign_tx_hash-Leaves device data_buffer data_length s c))
            (Leaves-if R E (ins == ins_get_app_configuration) _ _ s
              (lift-Leaves _ (handle_get_app_configuration-Leaves s c))
              (Leaves-if R E (ins == ins_keep_alive) _ _ s (keep_alive-Leaves s c) (c, refl)))))

  try_apdu-IsContext : (s : App) → IsContext s → Leaves IsContext IsAppStatus (try_apdu device s)
  unfolding try_apdu
  try_apdu-IsContext s c =
      let R = IsContext in
      let E = IsAppStatus in
      Leaves->>= R E (apdu_byte 0) _ s (apdu_byte-Leaves 0 s c) λ class s1 c1.
        Leaves->>= R E (throw_if (not (class == cla)) 0x6e00) _ s1
          (Leaves-throw_if R E _ 0x6e00 s1 c1 refl)
          λ u s2 c2. Leaves->>= R E (apdu_byte 1) _ s2 (apdu_byte-Leaves 1 s2 c2) λ ins s3 c3.
            Leaves->>= R E (apdu_byte 2) _ s3 (apdu_byte-Leaves 2 s3 c3) λ p1 s4 c4.
              Leaves->>= R E (apdu_byte 3) _ s4 (apdu_byte-Leaves 3 s4 c4) λ p2 s5 c5.
                Leaves->>= R E (apdu_byte 4) _ s5 (apdu_byte-Leaves 4 s5 c5) λ data_length s6 c6.
                  let s7 : App = record s6 { u2f_timer = u2f_request_timeout } in
                  let c7 : IsContext s7 = ground arith in
                  dispatch-Leaves ins p1 p2 data_length (drop 5 s6.apdu) s7 c7

  -- However a command ends, the arrays of the context keep their sizes; and an exception that it
  -- throws is one of 0x9000, 0x6b00, 0x6a80, 0x6700, 0x6c66, 0x6d00 and 0x6e00, which the host gets as
  -- it is: the status words for internal errors are left to exceptions of the SDK.
  pub try_apdu-Leaves :
      (s : App)
      → IsContext s
      → Leaves IsContext (λ sw. IsAppStatus sw × (status_word sw ≡ sw)) (try_apdu device s)
  try_apdu-Leaves s c =
      Leaves-mono IsContext IsContext IsAppStatus (λ sw. IsAppStatus sw × (status_word sw ≡ sw))
        (try_apdu device s) (λ s' c'. c') (λ sw e. (e, status_word-app sw e))
        (try_apdu-IsContext s c)

  report-Leaves : (e : ℕ) (s : App) → IsContext s → Leaves IsContext Never (report e s)
  unfolding report put_status
  report-Leaves e s c = grind (arith)

  pub catching-Leaves :
      (body : Command App (Unit {0})) (E : ℕ → Type 0) (s : App)
      → Leaves IsContext E (body s)
      → Leaves IsContext Never (catching body s)
  catching-Leaves body E s h = caught (body s) h
    where
      caught :
          (o : Outcome App (Unit {0}))
          → Leaves IsContext E o
          → Leaves IsContext Never (elim o as (λ _. Outcome App (Unit {0})) [
            | done u s' ↦ done u s'
            | thrown e s' ↦ report e s'
            | undefined ↦ undefined
          ])
      caught (done u s') h = h
      caught (thrown e s') h = report-Leaves e s' (h.0)
      caught undefined h = tt

  pub handle_apdu-Leaves : (s : App) → IsContext s → Leaves IsContext Never (handle_apdu device s)
  unfolding handle_apdu
  handle_apdu-Leaves s c = catching-Leaves (try_apdu device) IsAppStatus s (try_apdu-IsContext s c)
