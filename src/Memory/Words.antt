-- ===== src/Memory/Words.antt =====
-- Reading back what an encoder laid out: lemmas on reads at a pointer with known bytes behind it.
use ledger_app_eos.Prelude.{
  ℕ, zero, suc, ◌+◌, ◌/◌, ◌%◌, ◌^◌, ◌<◌, ◌≡◌, refl, some, List, [], ◌∷◌, ◌++◌, length, drop, arith,
  ap, drop-append,
}
use Prim.Native.Nat.add
use native.Mathlib.Nat.{pow-suc}
use ledger_app_eos.Memory.{take_exact, memcpy, little_endian, read_uint}

-- The `n` bytes of a number, lowest first.
unfoldable pub le_bytes : ℕ → ℕ → List ℕ
le_bytes zero v = []
le_bytes (suc n) v = (v % 256) ∷ le_bytes n (v / 256)

pub length-le_bytes : (n v : ℕ) → length (le_bytes n v) ≡ n
unfolding le_bytes
length-le_bytes zero v = refl
length-le_bytes (suc n) v = omega (arith, length-le_bytes n (v / 256))

little_endian-le_bytes : (n v : ℕ) → v < 256 ^ n → little_endian (le_bytes n v) ≡ v
unfolding little_endian le_bytes
little_endian-le_bytes zero v h = omega arith
little_endian-le_bytes (suc n) v h =
    let fits : v / 256 < 256 ^ n = omega (arith, pow-suc 256 n) in
    omega (arith, little_endian-le_bytes n (v / 256) fits)

take_exact-append : (xs ys : List ℕ) → take_exact (length xs) (xs ++ ys) ≡ some xs
unfolding take_exact
take_exact-append [] ys = refl
take_exact-append (x ∷ xs) ys = rw (take_exact-append xs ys)

drop_nil : (p : ℕ) → drop {A = ℕ} p [] ≡ []
drop_nil zero = refl
drop_nil (suc p) = refl

-- A pointer moves past bytes that are known.
pub drop-add :
    (p : ℕ) (mem xs : List ℕ) {ys : List ℕ} → drop p mem ≡ xs ++ ys → drop (p + length xs) mem ≡ ys
drop-add zero mem xs h = rw (h, add.zero) (drop-append xs _)
drop-add (suc p) [] [] h = rw (← h) (drop_nil _)
drop-add (suc p) [] (x ∷ xs) h = cc
drop-add (suc p) (m ∷ mem) xs h = rw add.suc (drop-add p mem xs h)

-- memcpy of known bytes.
pub memcpy-eq :
    (p : ℕ) (mem xs ys : List ℕ) → drop p mem ≡ xs ++ ys → memcpy mem p (length xs) ≡ some xs
unfolding memcpy
memcpy-eq p mem xs ys h = rw (h, take_exact-append xs)

-- An integer stored at a pointer is read back.
pub read_uint-eq :
    (p n v : ℕ) (mem rest : List ℕ)
    → v < 256 ^ n
    → drop p mem ≡ le_bytes n v ++ rest
    → read_uint mem p n ≡ some v
unfolding read_uint
read_uint-eq p n v mem rest fits h =
    let whole : memcpy mem p n ≡ some (le_bytes n v) =
      rw (length-le_bytes n v) at (memcpy-eq p mem (le_bytes n v) rest h) in
    rw whole (ap some (little_endian-le_bytes n v fits))

-- The pointer behind a stored integer.
pub drop-add_word :
    (p n v : ℕ) (mem : List ℕ) {rest : List ℕ}
    → drop p mem ≡ le_bytes n v ++ rest
    → drop (p + n) mem ≡ rest
drop-add_word p n v mem h = rw (length-le_bytes n v) at (drop-add p mem (le_bytes n v) h)

-- Reading one integer of a layout: its value, and what stands behind it.
pub read_word :
    (p n v q : ℕ) (mem rest : List ℕ)
    → v < 256 ^ n
    → p + n ≡ q
    → drop p mem ≡ le_bytes n v ++ rest
    → (read_uint mem p n ≡ some v) × (drop q mem ≡ rest)
read_word p n v q mem rest fits e h =
    (read_uint-eq p n v mem rest fits h, rw e at (drop-add_word p n v mem h))
