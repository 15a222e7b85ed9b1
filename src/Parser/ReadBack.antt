-- ===== src/Parser/ReadBack.antt =====
-- Each function of Actions on bytes laid out in the wire format: it stores the values that the
-- bytes hold, whatever follows them.
use ledger_app_eos.Prelude.{
  ℕ, ◌+◌, ◌*◌, ◌%◌, ◌^◌, ◌<◌, ◌≤◌, ◌≡◌, refl, ap, some, List, [], ◌∷◌, ◌++◌, length, drop, arith,
  append_assoc, length-append, ◌∙◌,
}
use ledger_app_eos.Memory.{read_uint, memcpy}
use ledger_app_eos.Memory.Words.{read_word, drop-add, memcpy-eq}
use ledger_app_eos.Types.{
  Asset, TransferAction, BuyramAction, BuyrambytesAction, SellramAction, DelegatebwAction,
  UndelegatebwAction,
}
use ledger_app_eos.Varint.{parse_varint32}
use ledger_app_eos.Varint.Decode.{parse_varint32-Encodes}
use ledger_app_eos.Parser.Actions.{
  u16, parse_asset, parse_transfer, parse_buyram, parse_buyrambytes, parse_sellram,
  parse_delegatebw, parse_undelegatebw, parse_voteproducer, parse_authority, parse_newaccount,
}
use ledger_app_eos.Parser.Wire.{
  IsU64, IsU32, u64_bytes, u32_bytes, bool_bytes, bool_and_behind, asset_bytes, IsAsset, Count,
  IsCount, AuthorityWire, IsAuthority, authority_bytes, authority_size, authority_of, Body,
  body_bytes, IsBody,
}

module _ (mem : List ℕ) where
  pub read_u64 :
      (p v q : ℕ) (rest : List ℕ)
      → IsU64 v
      → p + 8 ≡ q
      → drop p mem ≡ u64_bytes v rest
      → (read_uint mem p 8 ≡ some v) × (drop q mem ≡ rest)
  read_u64 p v q rest fits e h = read_word p 8 v q mem rest fits e h

  read_u32 :
      (p v q : ℕ) (rest : List ℕ)
      → IsU32 v
      → p + 4 ≡ q
      → drop p mem ≡ u32_bytes v rest
      → (read_uint mem p 4 ≡ some v) × (drop q mem ≡ rest)
  read_u32 p v q rest fits e h = read_word p 4 v q mem rest fits e h

  -- Four bytes are read where a bool stands.
  read_bool :
      (p v : ℕ) (rest : List ℕ)
      → 3 ≤ length rest
      → drop p mem ≡ bool_bytes v rest
      → read_uint mem p 4 ≡ some (bool_and_behind v rest)
  unfolding read_uint
  read_bool p v [] behind h = absurd (omega arith)
  read_bool p v (b ∷ []) behind h = absurd (omega arith)
  read_bool p v (b ∷ b' ∷ []) behind h = absurd (omega arith)
  read_bool p v (b ∷ b' ∷ b'' ∷ rest) behind h =
      rw (memcpy-eq p mem (v ∷ b ∷ b' ∷ b'' ∷ []) rest h) refl

  pub read_count :
      (p : ℕ) (c : Count) (q : ℕ) (rest : List ℕ)
      → IsCount c
      → p + length c.bytes ≡ q
      → drop p mem ≡ c.bytes ++ rest
      → (parse_varint32 mem p ≡ some (c.value, length c.bytes)) × (drop q mem ≡ rest)
  read_count p c q rest (enc, short, fits) e h =
      (parse_varint32-Encodes mem p rest h enc short fits, rw e at (drop-add p mem c.bytes h))

  read_asset :
      (p : ℕ) (a : Asset) (q : ℕ) (rest : List ℕ)
      → IsAsset a
      → p + 16 ≡ q
      → drop p mem ≡ asset_bytes a rest
      → (parse_asset mem p ≡ some (a, 16)) × (drop q mem ≡ rest)
  unfolding parse_asset
  read_asset p a q rest (ha, hs) e h =
      let (amount, h') = read_u64 p a.amount (p + 8) _ ha refl h in
      let (symbol, h'') = read_u64 (p + 8) a.symbol q rest hs (omega arith) h' in
      (rw (amount, symbol) refl, h'')

  pub parse_transfer-bytes :
      (p size : ℕ) (a : TransferAction) (rest : List ℕ)
      → IsBody (Body.transfer a)
      → drop p mem ≡ body_bytes (Body.transfer a) rest
      → parse_transfer mem p size ≡ some (a, u16 size)
  unfolding parse_transfer
  parse_transfer-bytes p size a rest (h₁, h₂, h₃) h =
      let (from, h') = read_u64 p a.from (p + 8) _ h₁ refl h in
      let (to, h'') = read_u64 (p + 8) a.to (p + 16) _ h₂ (omega arith) h' in
      let (quantity, _) = read_asset (p + 16) a.quantity (p + 32) rest h₃ (omega arith) h'' in
      rw (from, to, quantity) refl

  pub parse_buyram-bytes :
      (p size : ℕ) (a : BuyramAction) (rest : List ℕ)
      → IsBody (Body.buyram a)
      → drop p mem ≡ body_bytes (Body.buyram a) rest
      → parse_buyram mem p size ≡ some (a, u16 size)
  unfolding parse_buyram
  parse_buyram-bytes p size a rest (h₁, h₂, h₃) h =
      let (payer, h') = read_u64 p a.payer (p + 8) _ h₁ refl h in
      let (receiver, h'') = read_u64 (p + 8) a.receiver (p + 16) _ h₂ (omega arith) h' in
      let (quant, _) = read_asset (p + 16) a.quant (p + 32) rest h₃ (omega arith) h'' in
      rw (payer, receiver, quant) refl

  pub parse_buyrambytes-bytes :
      (p size : ℕ) (a : BuyrambytesAction) (rest : List ℕ)
      → IsBody (Body.buyrambytes a)
      → drop p mem ≡ body_bytes (Body.buyrambytes a) rest
      → parse_buyrambytes mem p size ≡ some (a, u16 size)
  unfolding parse_buyrambytes
  parse_buyrambytes-bytes p size a rest (h₁, h₂, h₃) h =
      let (payer, h') = read_u64 p a.payer (p + 8) _ h₁ refl h in
      let (receiver, h'') = read_u64 (p + 8) a.receiver (p + 16) _ h₂ (omega arith) h' in
      let (bytes, _) = read_u32 (p + 16) a.bytes (p + 20) rest h₃ (omega arith) h'' in
      rw (payer, receiver, bytes) refl

  pub parse_sellram-bytes :
      (p size : ℕ) (a : SellramAction) (rest : List ℕ)
      → IsBody (Body.sellram a)
      → drop p mem ≡ body_bytes (Body.sellram a) rest
      → parse_sellram mem p size ≡ some (a, u16 size)
  unfolding parse_sellram
  parse_sellram-bytes p size a rest (h₁, h₂) h =
      let (account, h') = read_u64 p a.account (p + 8) _ h₁ refl h in
      let (bytes, _) = read_u64 (p + 8) a.bytes (p + 16) rest h₂ (omega arith) h' in
      rw (account, bytes) refl

  pub parse_delegatebw-bytes :
      (p size : ℕ) (a : DelegatebwAction) (rest : List ℕ)
      → IsBody (Body.delegatebw a)
      → 3 ≤ length rest
      → drop p mem ≡ body_bytes (Body.delegatebw a) rest
      → parse_delegatebw mem p size
        ≡ some (record a { transfer = bool_and_behind a.transfer rest }, u16 size)
  unfolding parse_delegatebw
  parse_delegatebw-bytes p size a rest (h₁, h₂, h₃, h₄, h₅) behind h =
      let (from, a₁) = read_u64 p a.from (p + 8) _ h₁ refl h in
      let (receiver, a₂) = read_u64 (p + 8) a.receiver (p + 16) _ h₂ (omega arith) a₁ in
      let (net, a₃) = read_asset (p + 16) a.stake_net_quantity (p + 32) _ h₃ (omega arith) a₂ in
      let (cpu, a₄) = read_asset (p + 32) a.stake_cpu_quantity (p + 48) _ h₄ (omega arith) a₃ in
      let transfer = read_bool (p + 48) a.transfer rest behind a₄ in
      rw (from, receiver, net, cpu, transfer) refl

  pub parse_undelegatebw-bytes :
      (p size : ℕ) (a : UndelegatebwAction) (rest : List ℕ)
      → IsBody (Body.undelegatebw a)
      → drop p mem ≡ body_bytes (Body.undelegatebw a) rest
      → parse_undelegatebw mem p size ≡ some (a, u16 size)
  unfolding parse_undelegatebw
  parse_undelegatebw-bytes p size a rest (h₁, h₂, h₃, h₄) h =
      let (from, a₁) = read_u64 p a.from (p + 8) _ h₁ refl h in
      let (receiver, a₂) = read_u64 (p + 8) a.receiver (p + 16) _ h₂ (omega arith) a₁ in
      let (net, a₃) = read_asset (p + 16) a.unstake_net_quantity (p + 32) _ h₃ (omega arith) a₂ in
      let (cpu, _) = read_asset (p + 32) a.unstake_cpu_quantity (p + 48) rest h₄ (omega arith) a₃ in
      rw (from, receiver, net, cpu) refl

  pub parse_voteproducer-bytes :
      (p size voter proxy : ℕ) (count : Count) (producers rest : List ℕ)
      → IsBody (Body.voteproducer voter proxy count producers)
      → drop p mem ≡ body_bytes (Body.voteproducer voter proxy count producers) rest
      → parse_voteproducer mem p size
        ≡ some (
          record {
            voter = voter;
            proxy = proxy;
            num_producers = count.value;
            producers = p + (16 + length count.bytes);
          },
          u16 size,
        )
  unfolding parse_voteproducer
  parse_voteproducer-bytes p size voter proxy count producers rest (h₁, h₂, h₃, h₄) h =
      let (e₁, a₁) = read_u64 p voter (p + 8) _ h₁ refl h in
      let (e₂, a₂) = read_u64 (p + 8) proxy (p + 16) _ h₂ (omega arith) a₁ in
      let (e₃, a₃) = read_count (p + 16) count _ (producers ++ rest) h₃ refl a₂ in
      let short : u16 (16 + length count.bytes) ≡ 16 + length count.bytes = omega (arith, h₃.1) in
      rw (e₁, e₂, e₃, short) refl

  read_key :
      (p q : ℕ) (key weight rest : List ℕ)
      → length key ≡ 33
      → length weight ≡ 2
      → p + 35 ≡ q
      → drop p mem ≡ (key ++ weight) ++ rest
      → (memcpy mem p 33 ≡ some key) × (drop q mem ≡ rest)
  read_key p q key weight rest hk hw e h =
      let size : p + length (key ++ weight) ≡ q = omega (arith, length-append key weight) in
      (
        rw hk at (memcpy-eq p mem key (weight ++ rest) (h ∙ append_assoc key weight rest)),
        rw size at (drop-add p mem (key ++ weight) h),
      )

  pub skip_bytes :
      (p q : ℕ) (xs rest : List ℕ) → p + length xs ≡ q → drop p mem ≡ xs ++ rest → drop q mem ≡ rest
  skip_bytes p q xs rest e h = rw e at (drop-add p mem xs h)

  read_authority :
      (p : ℕ) (w : AuthorityWire) (q : ℕ) (rest : List ℕ)
      → IsAuthority w
      → authority_size w < 2 ^ 15
      → p + authority_size w ≡ q
      → drop p mem ≡ authority_bytes w rest
      → (parse_authority mem p ≡ some (authority_of w, authority_size w)) × (drop q mem ≡ rest)
  unfolding parse_authority
  read_authority p w q rest v fits e h =
      let (e₁, a₁) = read_u32 p w.threshold (p + 4) _ v.threshold refl h in
      let o₁ = 4 + length w.keys.bytes in
      let (e₂, a₂) = read_count (p + 4) w.keys (p + o₁) _ v.keys (omega arith) a₁ in
      let o₂ = o₁ + length w.key_type.bytes in
      let (e₃, a₃) = read_count (p + o₁) w.key_type (p + o₂) _ v.key_type (omega arith) a₂ in
      let o₃ = o₂ + 35 in
      let (e₄, a₄) =
        read_key (p + o₂) (p + o₃) w.public_key w.weight _ v.public_key v.weight (omega arith) a₃ in
      let o₄ = o₃ + length w.accounts.bytes in
      let (e₅, a₅) = read_count (p + o₃) w.accounts (p + o₄) _ v.accounts (omega arith) a₄ in
      let o₅ = o₄ + length w.account_bytes in
      let a₆ = skip_bytes (p + o₄) (p + o₅) w.account_bytes _ (omega arith) a₅ in
      let o₆ = o₅ + length w.waits.bytes in
      let (e₆, a₇) = read_count (p + o₅) w.waits (p + o₆) _ v.waits (omega arith) a₆ in
      let s₁ : u16 o₁ ≡ o₁ = omega arith in
      let s₂ : u16 o₂ ≡ o₂ = omega arith in
      let s₃ : u16 o₃ ≡ o₃ = omega arith in
      let s₅ : u16 (u16 o₄ + w.accounts.value * 18 % 2 ^ 32) ≡ o₅ =
        omega (arith, v.account_bytes) in
      let s₆ : u16 (u16 o₆ + w.waits.value * 6 % 2 ^ 32) ≡ authority_size w =
        omega (arith, v.wait_bytes) in
      (
        rw (e₁, e₂, s₁, e₃, s₂, e₄, s₃, e₅, s₅, e₆) (ap (λ (n : ℕ). some (authority_of w, n)) s₆),
        skip_bytes (p + o₆) q w.wait_bytes rest (omega arith) a₇,
      )

  pub parse_newaccount-bytes :
      (p size creator name : ℕ) (owner active : AuthorityWire) (rest : List ℕ)
      → IsBody (Body.newaccount creator name owner active)
      → drop p mem ≡ body_bytes (Body.newaccount creator name owner active) rest
      → parse_newaccount mem p size
        ≡ some (
          record {
            creator = creator;
            name = name;
            owner = authority_of owner;
            active = authority_of active;
          },
          u16 size,
        )
  unfolding parse_newaccount
  parse_newaccount-bytes p size creator name owner active rest (h₁, h₂, h₃, h₄, fits) h =
      let (e₁, a₁) = read_u64 p creator (p + 8) _ h₁ refl h in
      let (e₂, a₂) = read_u64 (p + 8) name (p + 16) _ h₂ (omega arith) a₁ in
      let o = 16 + authority_size owner in
      let (e₃, a₃) = read_authority (p + 16) owner (p + o) _ h₃ (omega arith) (omega arith) a₂ in
      let s : u16 o ≡ o = omega arith in
      let (e₄, _) = read_authority (p + o) active _ rest h₄ (omega arith) refl a₃ in
      rw (e₁, e₂, e₃, s, e₄) refl
