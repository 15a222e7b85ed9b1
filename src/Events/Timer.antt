-- ===== src/Events/Timer.antt =====
-- The timer that keeps a U2F request alive.
use ledger_app_eos.Prelude.{
  ℕ, zero, suc, ◌+◌, ◌-◌, ◌*◌, ◌%◌, ◌^◌, ◌≤◌, ◌<◌, ◌≡◌, refl, ap, ◌∙◌, Bool, true, false, [], ◌∷◌,
  length, drop, arith, ltb, ◌==◌,
}
use ledger_app_eos.Outcome.{Command, done, ◌>>◌, pure, >>=-done}
use ledger_app_eos.Text.Summary.{write-over}
use ledger_app_eos.Device.{Device}
use ledger_app_eos.Context.{App}
use ledger_app_eos.Approval.{exchange}
use ledger_app_eos.Events.{u2f_tick, u2f_send_keep_alive, ticker_event}

module _ (device : Device) where
  -- Several ticker events while a U2F request waits and no screen's interval has passed.
  abbrev pub ticks : Bool → ℕ → Command App (Unit {0})
  ticks allowed zero = pure tt
  ticks allowed (suc n) = ticker_event device true false allowed >> ticks allowed n

  -- The context when the keep-alive is sent.
  abbrev pub kept_alive : App → App
  kept_alive s = record s {
    u2f_timer = 0;
    apdu = 0x6e ∷ 0x02 ∷ drop 2 s.apdu;
    sent = record { flags = device.io_return_after_tx; bytes = 0x6e ∷ 0x02 ∷ [] } ∷ s.sent;
  }

  abbrev pub with_timer : ℕ → App → App
  with_timer n s = record s { u2f_timer = n }

  send_lem : (s : App) → 2 ≤ length s.apdu → u2f_send_keep_alive device s ≡ done tt (kept_alive s)
  unfolding u2f_send_keep_alive exchange
  send_lem s room = rw (write-over [] s.apdu (0x6e ∷ 0x02 ∷ []) room) refl

  tick-quiet :
      (s : App) (n : ℕ)
      → s.u2f_timer ≡ n + 100
      → 0 < n
      → n + 100 < 2 ^ 16
      → u2f_tick device true s ≡ done tt (with_timer n s)
  unfolding u2f_tick
  tick-quiet s n e more few =
      let left : (n + 100 + (2 ^ 16 - 100)) % 2 ^ 16 ≡ n = omega (arith, few) in
      let runs : ltb 0 (n + 100) ≡ true = ground arith in
      let stays : (n == 0) ≡ false = ground (arith, more) in rw (e, left, runs, stays) refl

  tick-last :
      (s : App)
      → s.u2f_timer ≡ 100
      → 2 ≤ length s.apdu
      → u2f_tick device true s ≡ done tt (kept_alive s)
  unfolding u2f_tick
  tick-last s e room = rw (e, send_lem (with_timer 0 s) room) refl

  -- A tick without a screen's interval is the countdown alone.
  quiet_event :
      (allowed : Bool) (s s' : App)
      → u2f_tick device true s ≡ done tt s'
      → ticker_event device true false allowed s ≡ done tt s'
  unfolding ticker_event
  quiet_event allowed s s' e = >>=-done (u2f_tick device true) _ s e

  quiet_run :
      (allowed : Bool) (j n : ℕ) (s : App)
      → s.u2f_timer ≡ (n + j) * 100
      → 0 < n
      → (n + j) * 100 < 2 ^ 16
      → ticks allowed j s ≡ done tt (with_timer (n * 100) s)
  quiet_run allowed zero n s e more few =
      ap (λ (t : ℕ). done tt (with_timer t s)) (omega (arith, e))
  quiet_run allowed (suc j) n s e more few =
      >>=-done (ticker_event device true false allowed) (λ u. ticks allowed j) s
        (quiet_event allowed s (with_timer ((n + j) * 100) s) (
          tick-quiet s ((n + j) * 100) (omega (arith, e)) (omega (arith, more))
            (omega (arith, few))))
      ∙ quiet_run allowed j n (with_timer ((n + j) * 100) s) refl more (omega (arith, few))

  last_run :
      (allowed : Bool) (k : ℕ) (s : App)
      → s.u2f_timer ≡ suc k * 100
      → suc k * 100 < 2 ^ 16
      → 2 ≤ length s.apdu
      → ticks allowed (suc k) s ≡ done tt (kept_alive s)
  last_run allowed zero s e few room =
      >>=-done (ticker_event device true false allowed) (λ u. ticks allowed zero) s
        (quiet_event allowed s (kept_alive s) (tick-last s (omega (arith, e)) room))
  last_run allowed (suc k) s e few room =
      >>=-done (ticker_event device true false allowed) (λ u. ticks allowed (suc k)) s
        (quiet_event allowed s (with_timer (suc k * 100) s)
          (tick-quiet s (suc k * 100) (omega (arith, e)) (omega arith) (omega (arith, few))))
      ∙ last_run allowed k (with_timer (suc k * 100) s) refl (omega (arith, few)) room

  -- While a request came over U2F and no screen's interval has passed, a timer of k + 1 times 100
  -- counts down through k ticker events in silence, which change nothing but the timer, and at the next
  -- one the host gets 0x6e02 and the timer stops.
  pub ticks-keep_alive :
      (allowed : Bool) (k : ℕ) (s : App)
      → s.u2f_timer ≡ suc k * 100
      → suc k * 100 < 2 ^ 16
      → 2 ≤ length s.apdu
      → ((j : ℕ) → j ≤ k → ticks allowed j s ≡ done tt (with_timer ((suc k - j) * 100) s))
        × (ticks allowed (suc k) s ≡ done tt (kept_alive s))
  ticks-keep_alive allowed k s e few room = (
    λ j h.
        quiet_run allowed j (suc k - j) s (omega (arith, e, h)) (omega (arith, h))
          (omega (arith, few, h)),
    last_run allowed k s e few room,
  )
