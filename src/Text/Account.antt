-- ===== src/Text/Account.antt =====
-- Account names of at most twelve characters, as parse_name shows them.
use ledger_app_eos.Prelude.{
  ℕ, zero, suc, ◌+◌, ◌*◌, ◌/◌, ◌^◌, ◌<◌, ◌≡◌, ◌≢◌, refl, sym, ap, ◌∙◌, Option, some, List, [], ◌∷◌,
  ◌++◌, length, arith, ◌==◌, ltb, if◌then◌else◌, bit_and, Bool, true, false, ◌&&◌, ◌||◌, not,
  Bool-cases, inl, inr, All, replicate, length-replicate, length-map, both_true, length-append,
}
use mathlib.Core.List.{reverse, reverse_aux, reverse_aux-eq, reverse-reverse, map, tail}
use ledger_app_eos.Prelude.Bits.{word_low_five}
use ledger_app_eos.Memory.{◌>>=◌}
use ledger_app_eos.Text.{Frame, charmap, rtrim_loop, rtrim, name_loop}
use ledger_app_eos.Text.Buffer.{get_or, set, text}
use ledger_app_eos.Text.Summary.{strlen-eq}
use ledger_app_eos.Text.Digits.{length-reverse}
use ledger_app_eos.Text.Name.{shown, name_shown, name_shown-eq}

-- The characters of a name as their places in the alphabet, the last one first.
abbrev pub symbols_value : List ℕ → ℕ
symbols_value [] = 0
symbols_value (d ∷ ds) = d + 32 * symbols_value ds

abbrev pub char_of : ℕ → ℕ
char_of d = get_or charmap d 0

abbrev pub AreSymbols : List ℕ → Type 0
AreSymbols ds = All (λ d. d < 32) ds

low_five : (d v : ℕ) → d < 32 → bit_and (d + 32 * v) 0x1f ≡ d
low_five d v h = omega (arith, word_low_five (d + 32 * v))

next_index : (i : ℕ) → (i + 1 == 0) ≡ false
next_index i = ground arith

name_loop-symbols :
    (ds : List ℕ) (i : ℕ) (str : List ℕ)
    → AreSymbols ds
    → (i == 0) ≡ false
    → name_loop (length ds) i (symbols_value ds) str ≡ reverse_aux (map char_of ds) str
unfolding name_loop
name_loop-symbols [] i str h e = refl
name_loop-symbols (d ∷ ds) i str (small, h) e =
    let rest : (d + 32 * symbols_value ds) / 2 ^ 5 ≡ symbols_value ds = omega (arith, small) in
    let v : ℕ = d + 32 * symbols_value ds in
    ap
      (λ (b : Bool).
        name_loop (length ds) (i + 1) (v / 2 ^ (if b then 4 else 5))
          (char_of (bit_and v (if b then 0x0f else 0x1f)) ∷ str))
      e
    ∙ ap (λ (c : ℕ). name_loop (length ds) (i + 1) (v / 2 ^ 5) (char_of c ∷ str))
        (low_five d (symbols_value ds) small)
    ∙ ap (λ (t : ℕ). name_loop (length ds) (i + 1) t (char_of d ∷ str)) rest
    ∙ name_loop-symbols ds (i + 1) (char_of d ∷ str) h (next_index i)

rtrim_loop-dots :
    (below z d : ℕ) (more : List ℕ)
    → (char_of d == b'.') ≡ false
    → rtrim_loop below b'.' (map char_of (replicate z 0 ++ (d ∷ more))) ≡ some (length more + 1)
unfolding rtrim_loop
rtrim_loop-dots below zero d more e = rw e (ap (λ (n : ℕ). some (n + 1)) (length-map char_of more))
rtrim_loop-dots below (suc z) d more e = rtrim_loop-dots below z d more e

pub text-eq : (t rest : List ℕ) → All (λ c. 0 < c) t → text (t ++ (0 ∷ rest)) ≡ t
unfolding text
text-eq [] rest h = refl
text-eq (zero ∷ t) rest (p, h) = elim p [ ]
text-eq (suc c ∷ t) rest (p, h) =
    let some_char : (suc c == 0) ≡ false = ground arith in rw (text-eq t rest h, some_char) refl

set-append : (xs rest : List ℕ) (y v : ℕ) → set (xs ++ (y ∷ rest)) (length xs) v ≡ xs ++ (v ∷ rest)
set-append [] rest y v = refl
set-append (x ∷ xs) rest y v = ap (λ r. x ∷ r) (set-append xs rest y v)

shown-text : (t rest : List ℕ) → All (λ c. 0 < c) t → shown (t ++ (0 ∷ rest)) ≡ some (t, length t)
unfolding shown
shown-text t rest h = rw (strlen-eq t rest h, text-eq t rest h) refl

-- A test of all places of the alphabet.
unfoldable pub all_below : (ℕ → Bool) → ℕ → Bool
all_below test zero = true
all_below test (suc n) = test n && all_below test n

pub all_below_sound : (test : ℕ → Bool) (n d : ℕ) → all_below test n ≡ true → d < n → test d ≡ true
unfolding all_below
all_below_sound test zero d e h = absurd (omega (arith, h))
all_below_sound test (suc n) d e h =
    let (here, below) = both_true (test n) (all_below test n) e in
    elim (Bool-cases (d == n)) [
      | inl same ↦ let same' : d ≡ n = ground (arith, same) in rw same' here
      | inr other ↦ all_below_sound test n d below (ground (arith, other, h))
    ]

char_of-positive : (d : ℕ) → d < 32 → 0 < char_of d
unfolding all_below
char_of-positive d h =
    let e : ltb 0 (char_of d) ≡ true = all_below_sound (λ d. ltb 0 (char_of d)) 32 d refl h in
    ground (arith, e)

char_of-letter : (d : ℕ) → d < 32 → d ≢ 0 → (char_of d == b'.') ≡ false
unfolding all_below
char_of-letter d h some_letter =
    let e : ((d == 0) || not (char_of d == b'.')) ≡ true =
      all_below_sound (λ d. (d == 0) || not (char_of d == b'.')) 32 d refl h in
    ground (arith, e, some_letter)

positive-symbols : (ds : List ℕ) → AreSymbols ds → All (λ c. 0 < c) (map char_of ds)
positive-symbols [] h = tt
positive-symbols (d ∷ ds) (small, h) = (char_of-positive d small, positive-symbols ds h)

All-reverse_aux :
    (ds r : List ℕ) → All (λ c. 0 < c) ds → All (λ c. 0 < c) r → All (λ c. 0 < c) (reverse_aux ds r)
All-reverse_aux [] r h k = k
All-reverse_aux (d ∷ ds) r (p, h) k = All-reverse_aux ds (d ∷ r) h (p, k)

reverse_aux-dots :
    (z : ℕ) (ds r : List ℕ)
    → reverse_aux (map char_of (replicate z 0 ++ ds)) r
      ≡ reverse_aux (map char_of ds) (reverse_aux (map char_of (replicate z 0)) r)
reverse_aux-dots zero ds r = refl
reverse_aux-dots (suc z) ds r = reverse_aux-dots z ds (char_of 0 ∷ r)

reverse_aux-cons :
    (xs r : List ℕ) (y : ℕ) → (y' : ℕ) × (r' : List ℕ) × (reverse_aux xs (y ∷ r) ≡ y' ∷ r')
reverse_aux-cons [] r y = (y, r, refl)
reverse_aux-cons (x ∷ xs) r y = reverse_aux-cons xs (y ∷ r) x

-- The value of a name with `letters` as its first characters, the last one first, and with `z` dots and
-- the thirteenth character `low` behind them.
abbrev pub name_value : ℕ → List ℕ → ℕ → ℕ
name_value z letters low = symbols_value (replicate z 0 ++ letters) * 16 + low

dots-AreSymbols : (z : ℕ) (ds : List ℕ) → AreSymbols ds → AreSymbols (replicate z 0 ++ ds)
dots-AreSymbols zero ds h = h
dots-AreSymbols (suc z) ds h = (omega arith, dots-AreSymbols z ds h)

name_loop-letters :
    (z low : ℕ) (letters : List ℕ)
    → AreSymbols letters
    → z + length letters ≡ 12
    → low < 16
    → (c : ℕ) × (name_loop 13 0 (name_value z letters low) []
        ≡ reverse_aux (map char_of (replicate z 0 ++ letters)) (c ∷ []))
unfolding name_loop
name_loop-letters z low letters h twelve small =
    let ds = replicate z 0 ++ letters in
    let rest : (symbols_value ds * 16 + low) / 2 ^ 4 ≡ symbols_value ds = omega (arith, small) in
    let c = char_of (bit_and (name_value z letters low) 0x0f) in
    let size : length ds ≡ 12 =
      omega (arith, twelve, length-append (replicate z 0) letters, length-replicate z 0) in
    (
      c,
      ap (λ (v : ℕ). name_loop 12 1 v (c ∷ [])) rest
          ∙ ap (λ (n : ℕ). name_loop n 1 (symbols_value ds) (c ∷ [])) (sym size)
          ∙ name_loop-symbols ds 1 (c ∷ []) (dots-AreSymbols z letters h) refl,
    )

-- The buffer of a name, when the 0 is written behind its last letter.
set_behind-letters :
    (xs rest : List ℕ) (y : ℕ)
    → set (reverse_aux xs (y ∷ rest)) (length xs) 0 ≡ reverse xs ++ (0 ∷ rest)
set_behind-letters xs rest y =
    ap (λ (s : List ℕ). set s (length xs) 0) (reverse_aux-eq xs (y ∷ rest))
    ∙ ap (λ (n : ℕ). set (reverse xs ++ (y ∷ rest)) n 0) (sym (length-reverse xs))
    ∙ set-append (reverse xs) rest y 0

tail-reverse : (xs : List ℕ) (c : ℕ) → tail (reverse (reverse_aux xs (c ∷ []))) ≡ xs
tail-reverse xs c = ap tail (reverse-reverse (c ∷ xs))

rtrim-end :
    (frame : Frame) (str : List ℕ) (end : ℕ)
    → frame.above ≡ 0
    → rtrim_loop frame.below b'.' (tail (reverse str)) ≡ some end
    → rtrim frame str b'.' ≡ some (set str end 0)
unfolding rtrim
rtrim-end frame str end e loop = rw (loop, e) refl

-- Where the byte past the array of 13 chars, at which strlen stops, is 0: a name of at most twelve
-- characters, of which the last one is not a dot, is shown as it is, whatever its thirteenth character.
pub parse_name-letters :
    (frame : Frame) (z d low : ℕ) (more : List ℕ)
    → frame.above ≡ 0
    → AreSymbols (d ∷ more)
    → d ≢ 0
    → z + length (d ∷ more) ≡ 12
    → low < 16
    → name_shown frame (name_value z (d ∷ more) low)
      ≡ some (reverse (map char_of (d ∷ more)), length (d ∷ more))
parse_name-letters frame z d low more ends h letter twelve small =
    let letters : List ℕ = d ∷ more in
    let (c, buffer) = name_loop-letters z low letters h twelve small in
    let symbols : List ℕ = map char_of (replicate z 0 ++ letters) in
    let (y, rest, split) = reverse_aux-cons (map char_of (replicate z 0)) [] c in
    let positive = All-reverse_aux (map char_of letters) [] (positive-symbols letters h) tt in
    let str : List ℕ = reverse_aux symbols (c ∷ []) in
    let end : ℕ = length more + 1 in
    let characters : List ℕ = map char_of letters in
    let trimmed : rtrim frame str b'.' ≡ some (set str end 0) = rtrim-end frame str end ends (
      ap (λ (s : List ℕ). rtrim_loop frame.below b'.' s) (tail-reverse symbols c)
      ∙ rtrim_loop-dots frame.below z d more (char_of-letter d (h.0) letter)) in
    let behind : str ≡ reverse_aux characters (y ∷ rest) =
      reverse_aux-dots z letters (c ∷ []) ∙ ap (reverse_aux characters) split in
    let at_end : end ≡ length characters = omega (arith, length-map char_of more) in
    let ended : set str end 0 ≡ reverse characters ++ (0 ∷ rest) =
      ap (λ (s : List ℕ). set s end 0) behind
      ∙ ap (λ (n : ℕ). set (reverse_aux characters (y ∷ rest)) n 0) at_end
      ∙ set_behind-letters characters rest y in
    let size : length (reverse characters) ≡ length letters =
      length-reverse characters ∙ length-map char_of letters in
    name_shown-eq frame (name_value z letters low)
    ∙ ap (λ (s : List ℕ). rtrim frame s b'.' >>= shown) buffer
    ∙ ap (λ (o : Option (List ℕ)). o >>= shown) trimmed
    ∙ ap shown ended
    ∙ shown-text (reverse characters) rest positive
    ∙ ap (λ (n : ℕ). some (reverse characters, n)) size
