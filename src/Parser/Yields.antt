-- ===== src/Parser/Yields.antt =====
-- What the reads of the parser and its functions of single actions yield from bytes.
use ledger_app_eos.Prelude.{
  ℕ, zero, suc, ◌+◌, ◌^◌, ◌<◌, ◌≡◌, refl, arith, Option, none, some, List, [], ◌∷◌, length, drop,
  All, All-drop,
}
use native.Mathlib.Nat.{pow-suc}
use ledger_app_eos.Memory.{◌>>=◌, memcpy, take_exact, little_endian, read_uint}
use ledger_app_eos.Types.{Asset, Authority, Operation}
use ledger_app_eos.Varint.{varint_decode, parse_varint32}
use ledger_app_eos.Parser.Actions.{
  u16, parse_asset, parse_transfer, parse_buyram, parse_buyrambytes, parse_sellram,
  parse_delegatebw, parse_undelegatebw, parse_voteproducer, parse_authority, parse_newaccount,
}

abbrev pub AreBytes : List ℕ → Type 0
AreBytes mem = All (λ b. b < 256) mem

-- What a read that is defined yields.
abbrev pub Yields : {A : Type 0} → (A → Type 0) → Option A → Type 0
Yields P none = Unit {0}
Yields P (some a) = P a

pub Yields->>= :
    {A B : Type 0} (P : A → Type 0) (Q : B → Type 0) (o : Option A) (f : A → Option B)
    → Yields P o
    → ((a : A) → P a → Yields Q (f a))
    → Yields Q (o >>= f)
Yields->>= P Q none f h k = tt
Yields->>= P Q (some a) f h k = k a h

pub Yields-any : {A : Type 0} (o : Option A) → Yields (λ _. Unit {0}) o
Yields-any none = tt
Yields-any (some a) = tt

abbrev pub IsAsset : Asset → Type 0
IsAsset a = (a.amount < 2 ^ 64) × (a.symbol < 2 ^ 64)

abbrev pub IsAuthority : Authority → Type 0
IsAuthority a = (a.threshold < 2 ^ 32) × (length a.public_key ≡ 33) × AreBytes a.public_key

-- Every field within its type in the member of the union.
abbrev pub IsOperation : Operation → Type 0
IsOperation Operation.blank = Unit {0}
IsOperation (Operation.transfer a) = (a.from < 2 ^ 64) × (a.to < 2 ^ 64) × IsAsset a.quantity
IsOperation (Operation.buyram a) = (a.payer < 2 ^ 64) × (a.receiver < 2 ^ 64) × IsAsset a.quant
IsOperation (Operation.buyrambytes a) =
    (a.payer < 2 ^ 64) × (a.receiver < 2 ^ 64) × (a.bytes < 2 ^ 32)
IsOperation (Operation.sellram a) = (a.account < 2 ^ 64) × (a.bytes < 2 ^ 64)
IsOperation (Operation.delegatebw a) =
    (a.from < 2 ^ 64)
    × (a.receiver < 2 ^ 64)
    × IsAsset a.stake_net_quantity
    × IsAsset a.stake_cpu_quantity
    × (a.transfer < 2 ^ 32)
IsOperation (Operation.undelegatebw a) =
    (a.from < 2 ^ 64)
    × (a.receiver < 2 ^ 64)
    × IsAsset a.unstake_net_quantity
    × IsAsset a.unstake_cpu_quantity
IsOperation (Operation.voteproducer a) =
    (a.voter < 2 ^ 64) × (a.proxy < 2 ^ 64) × (a.num_producers < 2 ^ 32)
IsOperation (Operation.newaccount a) =
    (a.creator < 2 ^ 64) × (a.name < 2 ^ 64) × IsAuthority a.owner × IsAuthority a.active

little_endian-fits : (bytes : List ℕ) → AreBytes bytes → little_endian bytes < 256 ^ length bytes
unfolding little_endian
little_endian-fits [] h = omega arith
little_endian-fits (b ∷ bytes) (small, h) =
    omega (arith, little_endian-fits bytes h, pow-suc 256 (length bytes), small)

take_exact-Yields :
    (n : ℕ) (mem : List ℕ)
    → AreBytes mem
    → Yields (λ bytes. AreBytes bytes × (length bytes ≡ n)) (take_exact n mem)
unfolding take_exact
take_exact-Yields zero mem h = (tt, refl)
take_exact-Yields (suc n) [] h = tt
take_exact-Yields (suc n) (b ∷ mem) (small, h) =
    Yields->>= (λ bytes. AreBytes bytes × (length bytes ≡ n)) _ (take_exact n mem) _
      (take_exact-Yields n mem h) λ rest (bytes, e). ((small, bytes), (omega (arith, e)))

module _ (mem : List ℕ) (h : AreBytes mem) where
  pub memcpy-Yields :
      (p n : ℕ) → Yields (λ bytes. AreBytes bytes × (length bytes ≡ n)) (memcpy mem p n)
  unfolding memcpy
  memcpy-Yields p n = take_exact-Yields n (drop p mem) (All-drop (λ b. b < 256) p mem h)

  pub read_uint-Yields : (p n : ℕ) → Yields (λ v. v < 256 ^ n) (read_uint mem p n)
  unfolding read_uint
  read_uint-Yields p n =
      Yields->>= (λ bytes. AreBytes bytes × (length bytes ≡ n)) _ (memcpy mem p n) _
        (memcpy-Yields p n) λ bytes (small, e). rw (← e) (little_endian-fits bytes small)

  -- An integer of eight bytes, and what follows it.
  pub word-Yields :
      {B : Type 0} (Q : B → Type 0) (p : ℕ) (f : ℕ → Option B)
      → ((v : ℕ) → v < 2 ^ 64 → Yields Q (f v))
      → Yields Q (read_uint mem p 8 >>= f)
  word-Yields Q p f k =
      Yields->>= (λ v. v < 2 ^ 64) Q (read_uint mem p 8) f (read_uint-Yields p 8) k

  pub parse_asset-Yields : (p : ℕ) → Yields (λ (a, n). IsAsset a) (parse_asset mem p)
  unfolding parse_asset
  parse_asset-Yields p =
      word-Yields _ p _ λ amount small. word-Yields _ (p + 8) _ λ symbol small'. (small, small')

  pub varint-Yields : (p : ℕ) → Yields (λ (v, n). v < 2 ^ 32) (parse_varint32 mem p)
  unfolding parse_varint32
  varint-Yields p =
      Yields->>= (λ v. Unit {0}) _ (varint_decode mem p 4) _ (Yields-any (varint_decode mem p 4))
        λ (v, n) _. omega arith

  -- A count, and what follows it.
  pub count-Yields :
      {B : Type 0} (Q : B → Type 0) (p : ℕ) (f : ℕ × ℕ → Option B)
      → ((x : ℕ × ℕ) → Yields Q (f x))
      → Yields Q (parse_varint32 mem p >>= f)
  count-Yields Q p f k =
      Yields->>= (λ _. Unit {0}) Q (parse_varint32 mem p) f (Yields-any (parse_varint32 mem p))
        λ x _. k x

  pub parse_transfer-Yields :
      (p n : ℕ) → Yields (λ (a, n). IsOperation (Operation.transfer a)) (parse_transfer mem p n)
  unfolding parse_transfer
  parse_transfer-Yields p n = word-Yields _ p _ λ from small. word-Yields _ (p + 8) _ λ to small'.
      Yields->>= (λ (a, n). IsAsset a) _ (parse_asset mem (p + 16)) _ (parse_asset-Yields (p + 16))
        λ (quantity, n) asset. (small, small', asset)

  pub parse_buyram-Yields :
      (p n : ℕ) → Yields (λ (a, n). IsOperation (Operation.buyram a)) (parse_buyram mem p n)
  unfolding parse_buyram
  parse_buyram-Yields p n = word-Yields _ p _ λ payer small.
      word-Yields _ (p + 8) _ λ receiver small'.
        Yields->>= (λ (a, n). IsAsset a) _ (parse_asset mem (p + 16)) _
          (parse_asset-Yields (p + 16)) λ (quant, n) asset. (small, small', asset)

  pub parse_buyrambytes-Yields :
      (p n : ℕ)
      → Yields (λ (a, n). IsOperation (Operation.buyrambytes a)) (parse_buyrambytes mem p n)
  unfolding parse_buyrambytes
  parse_buyrambytes-Yields p n = word-Yields _ p _ λ payer small.
      word-Yields _ (p + 8) _ λ receiver small'.
        Yields->>= (λ v. v < 2 ^ 32) _ (read_uint mem (p + 16) 4) _ (read_uint-Yields (p + 16) 4)
          λ bytes small''. (small, small', small'')

  pub parse_sellram-Yields :
      (p n : ℕ) → Yields (λ (a, n). IsOperation (Operation.sellram a)) (parse_sellram mem p n)
  unfolding parse_sellram
  parse_sellram-Yields p n =
      word-Yields _ p _ λ account small. word-Yields _ (p + 8) _ λ bytes small'. (small, small')

  pub parse_delegatebw-Yields :
      (p n : ℕ) → Yields (λ (a, n). IsOperation (Operation.delegatebw a)) (parse_delegatebw mem p n)
  unfolding parse_delegatebw
  parse_delegatebw-Yields p n = word-Yields _ p _ λ from small.
      word-Yields _ (p + 8) _ λ receiver small'.
        Yields->>= (λ (a, n). IsAsset a) _ (parse_asset mem (p + 16)) _
          (parse_asset-Yields (p + 16))
          λ (net, n) asset.
            Yields->>= (λ (a, n). IsAsset a) _ (parse_asset mem (p + u16 (16 + n))) _
              (parse_asset-Yields (p + u16 (16 + n)))
              λ (cpu, n') asset'.
                Yields->>= (λ v. v < 2 ^ 32) _ (read_uint mem (p + u16 (u16 (16 + n) + n')) 4) _
                  (read_uint-Yields (p + u16 (u16 (16 + n) + n')) 4)
                  λ transfer small''. (small, small', asset, asset', small'')

  pub parse_undelegatebw-Yields :
      (p n : ℕ)
      → Yields (λ (a, n). IsOperation (Operation.undelegatebw a)) (parse_undelegatebw mem p n)
  unfolding parse_undelegatebw
  parse_undelegatebw-Yields p n = word-Yields _ p _ λ from small.
      word-Yields _ (p + 8) _ λ receiver small'.
        Yields->>= (λ (a, n). IsAsset a) _ (parse_asset mem (p + 16)) _
          (parse_asset-Yields (p + 16))
          λ (net, n) asset.
            Yields->>= (λ (a, n). IsAsset a) _ (parse_asset mem (p + u16 (16 + n))) _
              (parse_asset-Yields (p + u16 (16 + n)))
              λ (cpu, n') asset'. (small, small', asset, asset')

  pub parse_voteproducer-Yields :
      (p n : ℕ)
      → Yields (λ (a, n). IsOperation (Operation.voteproducer a)) (parse_voteproducer mem p n)
  unfolding parse_voteproducer
  parse_voteproducer-Yields p n = word-Yields _ p _ λ voter small.
      word-Yields _ (p + 8) _ λ proxy small'.
        Yields->>= (λ (v, n). v < 2 ^ 32) _ (parse_varint32 mem (p + 16)) _ (varint-Yields (p + 16))
          λ (num, n) few. (small, small', few)

  pub parse_authority-Yields : (p : ℕ) → Yields (λ (a, n). IsAuthority a) (parse_authority mem p)
  unfolding parse_authority
  parse_authority-Yields p =
      Yields->>= (λ v. v < 2 ^ 32) _ (read_uint mem p 4) _ (read_uint-Yields p 4)
        λ threshold small. count-Yields _ _ _ λ weights. count-Yields _ _ _ λ weight.
          Yields->>= (λ bytes. AreBytes bytes × (length bytes ≡ 33)) _ (memcpy mem _ 33) _
            (memcpy-Yields _ 33)
            λ key (bytes, size).
              count-Yields _ _ _ λ accounts. count-Yields _ _ _ λ waits. (small, size, bytes)

  pub parse_newaccount-Yields :
      (p n : ℕ) → Yields (λ (a, n). IsOperation (Operation.newaccount a)) (parse_newaccount mem p n)
  unfolding parse_newaccount
  parse_newaccount-Yields p n = word-Yields _ p _ λ creator small.
      word-Yields _ (p + 8) _ λ name small'.
        Yields->>= (λ (a, n). IsAuthority a) _ (parse_authority mem (p + 16)) _
          (parse_authority-Yields (p + 16))
          λ (owner, n) valid.
            Yields->>= (λ (a, n). IsAuthority a) _ (parse_authority mem (p + u16 (16 + n))) _
              (parse_authority-Yields (p + u16 (16 + n)))
              λ (active, n') valid'. (small, small', valid, valid')
