-- ===== src/Parser/Head.antt =====
-- parse_header on a header in the wire format, for every count of actions.
use ledger_app_eos.Prelude.{
  ℕ, ◌+◌, ◌%◌, ◌^◌, ◌≡◌, refl, List, length, drop, arith, ltb, if◌then◌else◌,
}
use ledger_app_eos.Outcome.{done, thrown}
use ledger_app_eos.Types.{TxContext, max_ops}
use ledger_app_eos.Parser.{parse_header, cleared_tx_details}
use ledger_app_eos.Parser.Actions.{u16}
use ledger_app_eos.Parser.Wire.{Header, header_bytes, header_size, IsHeader}
use ledger_app_eos.Parser.ReadBack.{read_count, skip_bytes}

-- The state behind a header with the count `n`.
abbrev pub behind_header : TxContext → ℕ → TxContext
behind_header t n = record t { tx_details = cleared_tx_details; op_count = n; op_idx = 0 }

-- The state in which a count `n` above MAX_OPS is refused: `op_idx` is not yet reset.
abbrev pub refused_header : TxContext → ℕ → TxContext
refused_header t n = record t { tx_details = cleared_tx_details; op_count = n }

-- The header of a transaction: the count of actions is cut to eight bits before it is held against
-- MAX_OPS. A cut count above MAX_OPS throws 0x6e10 and keeps the offset; any other is kept, and the
-- offset leads to the first action.
pub parse_header-header_bytes :
    (mem : List ℕ) (h : Header) (rest : List ℕ) (t : TxContext)
    → IsHeader h
    → mem ≡ header_bytes h rest
    → (parse_header mem t ≡ (
        if ltb max_ops (h.count.value % 2 ^ 8)
        then thrown 0x6e10 (refused_header t (h.count.value % 2 ^ 8))
        else done (header_size h) (behind_header t (h.count.value % 2 ^ 8))))
      × (drop (header_size h) mem ≡ rest)
unfolding parse_header
parse_header-header_bytes mem h rest t v at =
    let a₀ = skip_bytes mem 0 42 h.head _ (omega (arith, v.head)) at in
    let o₁ = 42 + length h.net_usage_words.bytes in
    let (e₁, a₁) = read_count mem 42 h.net_usage_words o₁ _ v.net_usage_words refl a₀ in
    let o₂ = o₁ + length h.max_cpu_usage_ms.bytes in
    let (e₂, a₂) = read_count mem o₁ h.max_cpu_usage_ms o₂ _ v.max_cpu_usage_ms refl a₁ in
    let o₃ = o₂ + length h.delay_sec.bytes in
    let (e₃, a₃) = read_count mem o₂ h.delay_sec o₃ _ v.delay_sec refl a₂ in
    let o₄ = o₃ + length h.context_free.bytes in
    let (e₄, a₄) = read_count mem o₃ h.context_free o₄ _ v.context_free refl a₃ in
    let (e₅, a₅) = read_count mem o₄ h.count (header_size h) _ v.count refl a₄ in
    let s₁ : u16 o₁ ≡ o₁ = omega (arith, v.net_usage_words.1) in
    let s₂ : u16 o₂ ≡ o₂ = omega (arith, v.net_usage_words.1, v.max_cpu_usage_ms.1) in
    let s₃ : u16 o₃ ≡ o₃ =
      omega (arith, v.net_usage_words.1, v.max_cpu_usage_ms.1, v.delay_sec.1) in
    let s₄ : u16 o₄ ≡ o₄ =
      omega (arith, v.net_usage_words.1, v.max_cpu_usage_ms.1, v.delay_sec.1, v.context_free.1) in
    let s₅ : u16 (header_size h) ≡ header_size h = omega (
      arith, v.net_usage_words.1, v.max_cpu_usage_ms.1, v.delay_sec.1, v.context_free.1, v.count.1,
    ) in
    (rw (e₁, s₁, e₂, s₂, e₃, s₃, e₄, s₄, e₅, s₅) (ground arith), a₅)
