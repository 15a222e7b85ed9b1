-- ===== src/Keys/Canonical.antt =====
-- The canonical test and the compact form of a signature, on a DER signature laid out as the SDK
-- returns it: two numbers of two to 32 bytes, or of 33 where a zero stands before a set top bit.
use ledger_app_eos.Prelude.{
  ℕ, zero, both_true, suc, ◌+◌, ◌≤◌, ◌≡◌, ◌≢◌, refl, sym, ap, ◌∙◌, Bool, true, false, ◌&&◌, some,
  List, [], ◌∷◌, ◌++◌, length, drop, take, replicate, arith, bit_and, ◌==◌, ltb, if◌then◌else◌,
  length-append, append_assoc, take-drop,
}
use ledger_app_eos.Memory.{memcpy}
use ledger_app_eos.Memory.Words.{memcpy-eq, drop-add}
use ledger_app_eos.Text.Summary.{write-over}
use ledger_app_eos.Keys.{
  byte, canonical_half, halves, is_canonical, signature_to_encoded_base58, parity_odd,
}

byte-eq : (p b : ℕ) (mem rest : List ℕ) → drop p mem ≡ b ∷ rest → byte mem p ≡ some b
unfolding byte
byte-eq p b mem rest e = rw (memcpy-eq p mem (b ∷ []) rest e) refl

-- The bytes of a DER number: `lead` is the zero that stands before it when it has 33 bytes.
pub record Half : Type 0 where
  pub lead : List ℕ
  pub first : ℕ
  pub second : ℕ
  pub others : List ℕ

abbrev pub half_bytes : Half → List ℕ
half_bytes h = h.lead ++ (h.first ∷ h.second ∷ h.others)

-- Two to 32 bytes, or 33 of which the first is a zero and the second has its top bit set. The bytes
-- of DER that are not covered are one alone, for a number below 128.
pub record IsHalf (h : Half) : Type 0 where
  pub size : length h.others ≤ 30
  pub leading : length h.lead ≤ 1
  pub whole : length h.lead ≡ 1 → length h.others ≡ 30
  pub positive : length h.lead ≡ 1 → bit_and h.first 0x80 ≢ 0

-- 32 bytes, or 33: DER leaves out leading zeros, so that about one number in 256 is shorter.
abbrev pub IsFull : Half → Type 0
IsFull h = length h.others ≡ 30

-- The signature with the tags and lengths of DER.
abbrev pub der : Half → Half → List ℕ
der r s =
    0x30
    ∷ (length (half_bytes r) + length (half_bytes s) + 4)
    ∷ 0x02
    ∷ length (half_bytes r)
    ∷ (half_bytes r ++ (0x02 ∷ length (half_bytes s) ∷ half_bytes s))

abbrev pub is_canonical_pair : Half → Half → Bool
is_canonical_pair r s = canonical_half r.first r.second && canonical_half s.first s.second

memcpy-first_two :
    (p n b0 b1 : ℕ) (mem rest : List ℕ)
    → drop p mem ≡ b0 ∷ b1 ∷ rest
    → 2 ≤ n
    → n ≤ length rest + 2
    → (more : List ℕ) × (memcpy mem p n ≡ some (b0 ∷ b1 ∷ more))
memcpy-first_two p (suc (suc n)) b0 b1 mem rest e h k =
    let (split, size) = take-drop n rest (omega arith) in
    let whole : drop p mem ≡ (b0 ∷ b1 ∷ take n rest) ++ drop n rest =
      e ∙ ap (λ (r : List ℕ). b0 ∷ b1 ∷ r) split in
    (take n rest, rw size at (memcpy-eq p mem (b0 ∷ b1 ∷ take n rest) (drop n rest) whole))
memcpy-first_two p zero b0 b1 mem rest e h k = elim h [ ]
memcpy-first_two p (suc zero) b0 b1 mem rest e h k = absurd (omega arith)

nil_of_length : (xs : List ℕ) → length xs ≡ 0 → xs ≡ []
nil_of_length [] h = refl
nil_of_length (x ∷ xs) h = ground arith

-- A half with a zero before it is not canonical.
no_lead : (h : Half) → IsHalf h → canonical_half h.first h.second ≡ true → length h.lead ≡ 0
unfolding canonical_half
no_lead h i c = ground (arith, i.positive)

-- What the app returns: the recovery byte, r and s.
abbrev pub compact : Half → Half → ℕ → List ℕ
compact r s info =
    (if bit_and info parity_odd == 0 then 27 else 28) ∷ (half_bytes r ++ half_bytes s)

-- `sig` is a signature with `junk` behind it.
module _ (r s : Half) (hr : IsHalf r) (hs : IsHalf s) (junk : List ℕ) where
  abbrev sig : List ℕ
  sig = der r s ++ junk

  abbrev size_r : ℕ
  size_r = length (half_bytes r)

  abbrev size_s : ℕ
  size_s = length (half_bytes s)

  half_size : (h : Half) → IsHalf h → length (half_bytes h) ≡ length h.lead + 2 + length h.others
  half_size h i = omega (arith, length-append h.lead (h.first ∷ h.second ∷ h.others))

  skip_lead : (h : Half) → IsHalf h → (if length (half_bytes h) == 33 then 1 else 0) ≡ length h.lead
  skip_lead h i = ground (arith, half_size h i, i.leading, i.size, i.whole)

  -- Where r and s stand in the signature.
  from_r : drop 4 sig ≡ half_bytes r ++ (0x02 ∷ size_s ∷ (half_bytes s ++ junk))
  from_r = append_assoc (half_bytes r) (0x02 ∷ size_s ∷ half_bytes s) junk

  from_tag : drop (4 + size_r) sig ≡ 0x02 ∷ size_s ∷ (half_bytes s ++ junk)
  from_tag = drop-add 4 sig (half_bytes r) from_r

  from_size : drop (4 + size_r + 1) sig ≡ size_s ∷ (half_bytes s ++ junk)
  from_size = drop-add (4 + size_r) sig (0x02 ∷ []) from_tag

  from_s : drop (4 + size_r + 2) sig ≡ half_bytes s ++ junk
  from_s = drop-add (4 + size_r) sig (0x02 ∷ size_s ∷ []) from_tag

  at_r :
      drop (4 + length r.lead) sig
      ≡ r.first ∷ r.second ∷ (r.others ++ (0x02 ∷ size_s ∷ (half_bytes s ++ junk)))
  at_r = drop-add 4 sig r.lead (
      from_r
      ∙ append_assoc r.lead (r.first ∷ r.second ∷ r.others)
          (0x02 ∷ size_s ∷ (half_bytes s ++ junk)))

  at_s : drop (4 + size_r + 2 + length s.lead) sig ≡ s.first ∷ s.second ∷ (s.others ++ junk)
  at_s =
      drop-add (4 + size_r + 2) sig s.lead
        (from_s ∙ append_assoc s.lead (s.first ∷ s.second ∷ s.others) junk)

  halves-der :
      halves sig ≡ some ((4 + length r.lead, size_r), (4 + size_r + 2 + length s.lead, size_s))
  unfolding halves
  halves-der =
      rw
        (
          byte-eq 3 size_r sig (half_bytes r ++ (0x02 ∷ size_s ∷ half_bytes s) ++ junk) refl,
          byte-eq (4 + size_r + 1) size_s sig (half_bytes s ++ junk) from_size,
          skip_lead r hr,
          skip_lead s hs,
        )
        refl

  pub is_canonical-der : 1 ≤ length junk → is_canonical sig ≡ some (is_canonical_pair r s)
  unfolding is_canonical
  is_canonical-der room =
      let copy_r =
        memcpy-first_two (4 + length r.lead) size_r r.first r.second sig
          (r.others ++ (0x02 ∷ size_s ∷ (half_bytes s ++ junk))) at_r
          (omega (arith, half_size r hr))
          (omega (
            arith,
            half_size r hr,
            hr.size,
            hr.leading,
            length-append r.others (0x02 ∷ size_s ∷ (half_bytes s ++ junk)),
          )) in
      let copy_s =
        memcpy-first_two (4 + size_r + 2 + length s.lead) size_s s.first s.second sig
          (s.others ++ junk) at_s (omega (arith, half_size s hs))
          (omega (arith, half_size s hs, hs.size, hs.leading, room, length-append s.others junk)) in
      let (more_r, er) = copy_r in
      let (more_s, es) = copy_s in
      let fits_r : ltb 33 size_r ≡ false = ground (arith, half_size r hr, hr.leading, hr.size) in
      let fits_s : ltb 33 size_s ≡ false = ground (arith, half_size s hs, hs.leading, hs.size) in
      rw
        (
          halves-der,
          fits_r,
          fits_s,
          er,
          es,
          byte-eq 0 r.first (r.first ∷ r.second ∷ more_r) (r.second ∷ more_r) refl,
          byte-eq 1 r.second (r.first ∷ r.second ∷ more_r) more_r refl,
          byte-eq 0 s.first (s.first ∷ s.second ∷ more_s) (s.second ∷ more_s) refl,
          byte-eq 1 s.second (s.first ∷ s.second ∷ more_s) more_s refl,
        )
        refl

  half_size-canonical :
      (h : Half)
      → IsHalf h
      → IsFull h
      → canonical_half h.first h.second ≡ true
      → length (half_bytes h) ≡ 32
  half_size-canonical h i full c = omega (arith, half_size h i, no_lead h i c, full)

  pub length-compact :
      (info : ℕ)
      → IsFull r
      → IsFull s
      → is_canonical_pair r s ≡ true
      → length (compact r s info) ≡ 65
  length-compact info full_r full_s c =
      let (cr, cs) =
        both_true (canonical_half r.first r.second) (canonical_half s.first s.second) c in
      omega (
        arith,
        length-append (half_bytes r) (half_bytes s),
        half_size-canonical r hr full_r cr,
        half_size-canonical s hs full_s cs,
      )

  -- Of a canonical signature in DER whose two numbers take 32 bytes each, as they do when neither has
  -- a leading zero byte, eos_signature_to_encoded_base58 leaves the compact form: the recovery byte,
  -- the 32 bytes of r and the 32 bytes of s, then zeros; it returns 65. A number that takes fewer
  -- bytes, which DER allows and the canonical test passes, is not covered: the app then returns
  -- something else.
  pub compact_signature :
      (info : ℕ)
      → IsFull r
      → IsFull s
      → is_canonical_pair r s ≡ true
      → signature_to_encoded_base58 sig 164 info
        ≡ some (compact r s info ++ drop 65 (replicate 164 0), 65)
  unfolding signature_to_encoded_base58
  compact_signature info full_r full_s c =
      let (cr, cs) =
        both_true (canonical_half r.first r.second) (canonical_half s.first s.second) c in
      let lr = no_lead r hr cr in
      let ls = no_lead s hs cs in
      let r32 : size_r ≡ 32 = half_size-canonical r hr full_r cr in
      let s32 : size_s ≡ 32 = half_size-canonical s hs full_s cs in
      let r_at : 4 + length r.lead ≡ 4 = omega (arith, lr) in
      let s_at : 4 + size_r + 2 + length s.lead ≡ 4 + size_r + 2 = omega (arith, ls) in
      let copy_r : memcpy sig 4 32 ≡ some (half_bytes r) =
        ap (λ (n : ℕ). memcpy sig 4 n) (sym r32)
        ∙ memcpy-eq 4 sig (half_bytes r) (0x02 ∷ size_s ∷ (half_bytes s ++ junk)) from_r in
      let copy_s : memcpy sig (4 + size_r + 2) 32 ≡ some (half_bytes s) =
        ap (λ (n : ℕ). memcpy sig (4 + size_r + 2) n) (sym s32)
        ∙ memcpy-eq (4 + size_r + 2) sig (half_bytes s) junk from_s in
      let all = length-compact info full_r full_s c in
      rw (halves-der, r_at, s_at, copy_r, copy_s)
        (rw (write-over [] (replicate 164 0) (compact r s info) (omega (arith, all)), all) refl)
