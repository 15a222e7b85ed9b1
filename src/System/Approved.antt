-- ===== src/System/Approved.antt =====
-- What the user approves: from the last piece of a transaction to the signature.
use ledger_app_eos.Prelude.{
  bit_or, sym, ◌∙◌, ℕ, ◌+◌, ◌≤◌, ◌≡◌, refl, Bool, some, List, ◌++◌, length, drop, arith,
  length-append, append_assoc, length-drop, take, take-append, ◌*◌,
}
use ledger_app_eos.Memory.{memcpy}
use ledger_app_eos.Memory.Words.{memcpy-eq}
use ledger_app_eos.Outcome.{Leaves, done, Leaves->>=, Leaves-mono, Leaves-done, >>=-done}
use ledger_app_eos.Types.{max_raw_tx}
use ledger_app_eos.Device.{Device}
use ledger_app_eos.Context.{App, cleared_tx}
use ledger_app_eos.Approval.{ui_approve_tx_init, exchange}
use ledger_app_eos.Approval.Frame.{
  Keeps, Never, ui_approve_tx_init-Keeps, ui_approve_tx_next_screen-Keeps,
}
use ledger_app_eos.Requests.{
  handle_sign_tx, sign_data, first_piece, more_piece, p1_first, p1_more, p2_last,
}
use ledger_app_eos.Requests.Upload.{with_piece, more_piece_lem}
use ledger_app_eos.Requests.Path.{path_bytes, IsPath, first_piece-path_bytes, first_context}
use ledger_app_eos.Requests.Protocol.{Represents, collecting}
use ledger_app_eos.Requests.Sizes.{Keeps-refl, cleared_tx-sizes}
use ledger_app_eos.Events.{ticker_event, u2f_tick, u2f_send_keep_alive}

-- The context is set up for the signature of `hash` with the key of `path`, and the screens read a raw
-- transaction that starts with `content`.
pub record SignsHash (hash content path : List ℕ) (s : App) : Type 0 where
  pub hashed : s.tx.hash ≡ hash
  pub shown :
      (behind : List ℕ) × (s.tx.raw ≡ content ++ behind)
      × (length content + length behind ≡ max_raw_tx)
  pub path_set : take s.tx.bip32_len s.tx.bip32 ≡ path

Keeps-SignsHash :
    (hash content path : List ℕ) (s s' : App)
    → SignsHash hash content path s
    → Keeps s s'
    → SignsHash hash content path s'
Keeps-SignsHash hash content path s s' h k = record {
  hashed = k.input.hash ∙ h.hashed;
  shown = (h.shown.0, k.input.raw ∙ h.shown.1, h.shown.2);
  path_set = rw (k.input.bip32, k.input.bip32_len) h.path_set;
}

module _ (device : Device) where
  -- Events of the clock, each of which ends normally.
  pub data Ticks (s : App) : App → Type 0 where
    still : Ticks s s
    ticked :
        {s' s'' : App} (u2f_media elapsed allowed : Bool)
        → Ticks s s'
        → ticker_event device u2f_media elapsed allowed s' ≡ done tt s''
        → Ticks s s''

  u2f_tick-Keeps :
      (s0 : App) (u2f_media : Bool) (s : App)
      → Keeps s0 s
      → Leaves (Keeps s0) Never (u2f_tick device u2f_media s)
  unfolding u2f_tick u2f_send_keep_alive exchange
  u2f_tick-Keeps s0 u2f_media s k = grind (arith)

  pub ticker_event-Keeps :
      (s0 : App) (u2f_media elapsed allowed : Bool) (s : App)
      → Keeps s0 s
      → Leaves (Keeps s0) Never (ticker_event device u2f_media elapsed allowed s)
  unfolding ticker_event
  ticker_event-Keeps s0 u2f_media elapsed allowed s k =
      Leaves->>= (Keeps s0) Never (u2f_tick device u2f_media) _ s (u2f_tick-Keeps s0 u2f_media s k)
        λ u s1 k1. grind (arith, ui_approve_tx_next_screen-Keeps)

  Ticks-Keeps : {s s' : App} → Ticks s s' → Keeps s s'
  Ticks-Keeps {s} still = Keeps-refl s
  Ticks-Keeps {s} (ticked {s'} u2f_media elapsed allowed r e) =
      Leaves-done (Keeps s) Never (ticker_event device u2f_media elapsed allowed s')
        (ticker_event-Keeps s u2f_media elapsed allowed s' (Ticks-Keeps r)) e

  -- The request that ends an upload of `content` with a path, and that returns to wait for the user: a
  -- single one with P1_FIRST and P2_LAST, or one with P1_MORE and P2_LAST behind the bytes that the
  -- context holds.
  pub data Requested (s s' : App) : List ℕ → List ℕ → Type 0 where
    single :
        (path content junk : List ℕ)
        → IsPath path
        → 1 + length path * 4 + length content ≤ 255
        → handle_sign_tx device p1_first p2_last
            (path_bytes path ++ (content ++ junk))
            (1 + length path * 4 + length content)
            s
          ≡ done tt s'
        → Requested s s' path content
    last :
        (path sent piece junk : List ℕ)
        → Represents (collecting path sent) s
        → length sent + length piece ≤ max_raw_tx
        → handle_sign_tx device p1_more p2_last (piece ++ junk) (length piece) s ≡ done tt s'
        → Requested s s' path (sent ++ piece)

  sign_data-SignsHash :
      (s : App) (content behind path : List ℕ)
      → memcpy s.tx.raw 0 s.tx.raw_length ≡ some content
      → s.tx.raw ≡ content ++ behind
      → length content + length behind ≡ max_raw_tx
      → take s.tx.bip32_len s.tx.bip32 ≡ path
      → Leaves (SignsHash (device.sha256 content) content path) Never (sign_data device p2_last s)
  unfolding sign_data
  sign_data-SignsHash s content behind path e raw room path_set =
      let hash = device.sha256 content in
      let s1 : App = record s { tx = record s.tx { hash = hash } } in
      let signs : SignsHash hash content path s1 = record {
        hashed = refl;
        shown = (behind, raw, room);
        path_set = path_set;
      } in
      let flagged : (s2 : App)
          → SignsHash hash content path s2
          → SignsHash hash content path
              (record s2 { flags = bit_or s2.flags device.io_asynch_reply }) =
        λ s2 h. record { hashed = h.hashed; shown = h.shown; path_set = h.path_set } in
      rw e (
        Leaves->>= (SignsHash hash content path) Never (ui_approve_tx_init device) _ s1
          (Leaves-mono (Keeps s1) (SignsHash hash content path) Never Never
            (ui_approve_tx_init device s1) (λ s2 k. Keeps-SignsHash hash content path s1 s2 signs k)
            (λ sw x. x) (ui_approve_tx_init-Keeps device s1 s1 (Keeps-refl s1)))
          λ u s2 h. flagged s2 h)

  -- A further piece: the hash is that of all the bytes, whatever the screens do then.
  more_request :
      (s : App) (path sent piece junk : List ℕ)
      → Represents (collecting path sent) s
      → length sent + length piece ≤ max_raw_tx
      → Leaves
          (SignsHash (device.sha256 (sent ++ piece)) (sent ++ piece) path)
          Never
          (handle_sign_tx device p1_more p2_last (piece ++ junk) (length piece) s)
  unfolding handle_sign_tx
  more_request s path sent piece junk ((rest, raw, room, len), path_set) fits =
      let behind = drop (length piece) rest in
      let s1 = with_piece s (sent ++ (piece ++ behind)) (length sent + length piece) in
      let whole : memcpy (sent ++ (piece ++ behind)) 0 (length sent + length piece)
          ≡ some (sent ++ piece) =
        rw (← length-append sent piece, ← append_assoc sent piece behind)
          (memcpy-eq 0 ((sent ++ piece) ++ behind) (sent ++ piece) behind refl) in
      let step =
        >>=-done (more_piece (piece ++ junk) (length piece)) (λ u. sign_data device p2_last) s
          (more_piece_lem s sent rest piece junk raw len room fits) in
      let size : length (sent ++ piece) + length behind ≡ max_raw_tx =
        omega (arith, fits, room, length-append sent piece, length-drop (length piece) rest) in
      rw step (
        sign_data-SignsHash s1 (sent ++ piece) behind path whole
          (sym (append_assoc sent piece behind)) size path_set)

  first_request :
      (s : App) (path content junk : List ℕ)
      → IsPath path
      → 1 + length path * 4 + length content ≤ 255
      → Leaves (SignsHash (device.sha256 content) content path) Never (
          handle_sign_tx device p1_first p2_last
            (path_bytes path ++ (content ++ junk))
            (1 + length path * 4 + length content)
            s)
  unfolding handle_sign_tx
  first_request s path content junk h fits =
      let behind = drop (length content) cleared_tx.raw in
      let step =
        >>=-done
          (first_piece (path_bytes path ++ (content ++ junk))
            (1 + length path * 4 + length content))
          (λ u. sign_data device p2_last) s
          (first_piece-path_bytes s path content junk h (omega (arith, fits))) in
      let size : length content + length behind ≡ max_raw_tx =
        omega (arith, length-drop (length content) cleared_tx.raw, cleared_tx-sizes.0, fits) in
      rw step (
        sign_data-SignsHash (first_context s path content) content behind path
          (memcpy-eq 0 (content ++ behind) content behind refl) refl size
          (take-append path (drop (length path) cleared_tx.bip32)))

  Requested-SignsHash :
      (s s' : App) (path content : List ℕ)
      → Requested s s' path content
      → SignsHash (device.sha256 content) content path s'
  Requested-SignsHash s s' path content (single _ _ junk h fits e) =
      Leaves-done (SignsHash (device.sha256 content) content path) Never _
        (first_request s path content junk h fits) e
  Requested-SignsHash s s' path content (last _ sent piece junk h fits e) =
      Leaves-done (SignsHash (device.sha256 (sent ++ piece)) (sent ++ piece) path) Never _
        (more_request s path sent piece junk h fits) e

  -- The request that ends an upload and returns, then the clock for as long as the user reads: what is
  -- set up for the signature is the hash of exactly the bytes that were sent, with the path that was
  -- sent, and the raw transaction that the screens read starts with the same bytes. The upload is one
  -- request with P1_FIRST and P2_LAST, or its last piece, with P1_MORE and P2_LAST, comes to a context
  -- that holds the path and the bytes of the earlier ones and has room for it.
  pub approved_hash :
      (s s' s'' : App) (path content : List ℕ)
      → Requested s s' path content
      → Ticks s' s''
      → SignsHash (device.sha256 content) content path s''
  approved_hash s s' s'' path content requested ticks =
      Keeps-SignsHash (device.sha256 content) content path s' s''
        (Requested-SignsHash s s' path content requested) (Ticks-Keeps ticks)
