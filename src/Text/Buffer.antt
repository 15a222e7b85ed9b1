-- ===== src/Text/Buffer.antt =====
-- Char buffers: texts, writes, and the functions of string.h that the app uses.
use Prim.Native.Char.{code}
use Prim.Native.String.{String}
use ledger_app_eos.Prelude.{
  ℕ, zero, suc, Option, none, some, List, [], ◌∷◌, ◌++◌, ◌==◌, if◌then◌else◌,
}
use ledger_app_eos.Memory.{◌>>=◌}

-- The bytes of an ASCII literal, without its 0.
abbrev pub codes : String → List ℕ
codes String.[] = []
codes (String.◌∷◌ c s) = code c ∷ codes s

abbrev pub get_or : List ℕ → ℕ → ℕ → ℕ
get_or [] i d = d
get_or (x ∷ xs) zero d = x
get_or (x ∷ xs) (suc i) d = get_or xs i d

abbrev pub set : List ℕ → ℕ → ℕ → List ℕ
set [] i v = []
set (x ∷ xs) zero v = v ∷ xs
set (x ∷ xs) (suc i) v = x ∷ set xs i v

unfoldable pub write_here : List ℕ → List ℕ → Option (List ℕ)
write_here buffer [] = some buffer
write_here [] (b ∷ bytes) = none
write_here (x ∷ buffer) (b ∷ bytes) = do rest ← write_here buffer bytes; some (b ∷ rest)

-- The bytes stored at `buffer + p`.
unfoldable pub write : List ℕ → ℕ → List ℕ → Option (List ℕ)
unfolding write_here
write buffer zero bytes = write_here buffer bytes
write [] (suc p) bytes = none
write (x ∷ buffer) (suc p) bytes = do rest ← write buffer p bytes; some (x ∷ rest)

unfoldable pub strlen : List ℕ → Option ℕ
strlen [] = none
strlen (c ∷ s) = let more = (do n ← strlen s; some (suc n)) in if c == 0 then some 0 else more

-- The text that a buffer holds.
unfoldable pub text : List ℕ → List ℕ
text [] = []
text (c ∷ s) = let more = c ∷ text s in if c == 0 then [] else more

-- strcpy to `buffer + p` of a text.
abbrev pub strcpy : List ℕ → ℕ → List ℕ → Option (List ℕ)
strcpy buffer p s = write buffer p (s ++ (0 ∷ []))

-- strcpy behind the text that the buffer holds, as in `strcpy(out + strlen(out), s)`.
abbrev pub strcat : List ℕ → List ℕ → Option (List ℕ)
strcat buffer s = do n ← strlen buffer; strcpy buffer n s
