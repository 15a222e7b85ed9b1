-- ===== src/Format/Asset.antt =====
-- The text of an asset: what format_asset leaves in its buffer.
use ledger_app_eos.Prelude.{
  ℕ, zero, suc, ◌+◌, ◌-◌, ◌*◌, ◌/◌, ◌%◌, ◌^◌, ◌≤◌, ◌<◌, ◌≡◌, refl, sym, ap, ◌∙◌, Option, some,
  false, List, [], ◌∷◌, ◌++◌, length, drop, All, length-append, append_assoc, arith, ◌==◌,
}
use ledger_app_eos.Memory.{◌>>=◌, memcpy, little_endian}
use ledger_app_eos.Memory.Words.{memcpy-eq}
use ledger_app_eos.Text.{Frame, local_array, print_int}
use ledger_app_eos.Text.Buffer.{write, strlen, strcpy, strcat, text}
use ledger_app_eos.Text.Summary.{strlen-eq}
use ledger_app_eos.Text.Account.{text-eq}
use ledger_app_eos.Text.Append.{strcpy-eq, strcat-eq, write-before}
use ledger_app_eos.Text.Digits.{IsDigit}
use ledger_app_eos.Text.Fraction.{fraction, length-fraction, fraction-IsDigit, print_int-fraction}
use ledger_app_eos.Format.Values.{name_bytes, name, format_fraction, format_symbol}

abbrev pub IsChar : ℕ → Type 0
IsChar c = (0 < c) × (c < 256)

little_endian-positive : (c : ℕ) (cs : List ℕ) → 0 < c → (little_endian (c ∷ cs) == 0) ≡ false
unfolding little_endian
little_endian-positive c cs h = ground (arith, h)

-- The chars of a symbol that has no 0 among them.
name_bytes-chars :
    (left : ℕ) (cs : List ℕ)
    → All IsChar cs
    → length cs ≤ left
    → name_bytes left (little_endian cs) ≡ cs
unfolding name_bytes little_endian
name_bytes-chars zero [] h fits = refl
name_bytes-chars zero (c ∷ cs) h fits = absurd (omega (arith, fits))
name_bytes-chars (suc left) [] h fits = refl
name_bytes-chars (suc left) (c ∷ cs) ((pos, small), h) fits =
    let low : (c + 256 * little_endian cs) % 2 ^ 8 ≡ c = omega (arith, small) in
    let high : (c + 256 * little_endian cs) / 2 ^ 8 ≡ little_endian cs = omega (arith, small) in
    rw
      (little_endian-positive c cs pos, low, high, name_bytes-chars left cs h (omega (arith, fits)))
      refl

pub positive_chars : (cs : List ℕ) → All IsChar cs → All (λ c. 0 < c) cs
positive_chars [] h = tt
positive_chars (c ∷ cs) ((pos, small), h) = (pos, positive_chars cs h)

module _ (frame : Frame) where
  -- The steps of format_symbol behind those of name, of strlen and of the copy.
  abbrev behind_name : List ℕ → Option (List ℕ) → Option (List ℕ)
  behind_name out buffer = do
    buffer ← buffer
    n ← strlen buffer
    moved ← memcpy buffer 0 (n + 1)
    buffer ← write buffer 1 moved
    buffer ← write buffer 0 (b' ' ∷ [])
    strcat out (text buffer)

  abbrev behind_length : List ℕ → List ℕ → Option ℕ → Option (List ℕ)
  behind_length out buffer n = do
    n ← n
    moved ← memcpy buffer 0 (n + 1)
    buffer ← write buffer 1 moved
    buffer ← write buffer 0 (b' ' ∷ [])
    strcat out (text buffer)

  abbrev behind_copy : List ℕ → List ℕ → Option (List ℕ) → Option (List ℕ)
  behind_copy out buffer moved = do
    moved ← moved
    buffer ← write buffer 1 moved
    buffer ← write buffer 0 (b' ' ∷ [])
    strcat out (text buffer)

  -- The name of a symbol, behind the text that the buffer holds.
  pub format_symbol-chars :
      (p : ℕ) (cs s rest : List ℕ)
      → p < 256
      → All IsChar cs
      → length cs ≤ 7
      → All (λ c. 0 < c) s
      → length cs < length rest
      → (rest' : List ℕ) × (format_symbol frame (p + 256 * little_endian cs) (s ++ (0 ∷ rest))
          ≡ some ((s ++ (b' ' ∷ cs)) ++ (0 ∷ rest')))
  unfolding format_symbol name
  format_symbol-chars p cs s rest small h fits positive room =
      let array = local_array frame 17 in
      let symbol : (p + 256 * little_endian cs) / 2 ^ 8 ≡ little_endian cs = omega (arith, small) in
      let (junk, stored, size) = strcpy-eq array cs (omega (arith, fits)) in
      let buffer = cs ++ (0 ∷ junk) in
      let ended = cs ++ (0 ∷ []) in
      let size' : length ended ≡ length cs + 1 = length-append cs (0 ∷ []) in
      let moved : memcpy buffer 0 (length cs + 1) ≡ some ended =
        ap (memcpy buffer 0) (sym size')
        ∙ memcpy-eq 0 buffer ended junk (sym (append_assoc cs (0 ∷ []) junk)) in
      let junk' = drop (suc (length ended)) buffer in
      let (rest', appended, _) = strcat-eq s rest (b' ' ∷ cs) positive (omega (arith, room)) in
      let out = s ++ (0 ∷ rest) in
      (
        rest',
        ap (λ (symbol : ℕ). behind_name out (strcpy array 0 (name_bytes 8 symbol))) symbol
            ∙ ap (λ (chars : List ℕ). behind_name out (strcpy array 0 chars))
                (name_bytes-chars 8 cs h (omega (arith, fits)))
            ∙ ap (behind_name out) stored
            ∙ ap (behind_length out buffer) (strlen-eq cs junk (positive_chars cs h))
            ∙ ap (behind_copy out buffer) moved
            ∙ write-before buffer ended b' ' (λ buffer. strcat out (text buffer))
                (omega (arith, size', size, fits, length-append cs (0 ∷ junk)))
            ∙ ap (λ (buffer : List ℕ). strcat out (text (b' ' ∷ buffer)))
                (append_assoc cs (0 ∷ []) junk')
            ∙ ap (strcat out) (text-eq (b' ' ∷ cs) junk' (omega arith, positive_chars cs h))
            ∙ appended,
      )

  -- The end of format_fraction.
  cut_out : List ℕ → List ℕ → Option (List ℕ)
  cut_out out frac_str = do n ← strlen frac_str; ptr ← memcpy frac_str 1 (n - 1); strcat out ptr

  cut_out-digits :
      (fs junk out : List ℕ)
      → All (λ c. 0 < c) fs
      → cut_out out ((b'1' ∷ b'.' ∷ fs) ++ (0 ∷ junk)) ≡ strcat out (b'.' ∷ fs)
  unfolding cut_out
  cut_out-digits fs junk out h =
      let frac_str = (b'1' ∷ b'.' ∷ fs) ++ (0 ∷ junk) in
      let shorter : length (b'1' ∷ b'.' ∷ fs) - 1 ≡ length (b'.' ∷ fs) = omega arith in
      ap (λ (n : Option ℕ). n >>= λ n. memcpy frac_str 1 (n - 1) >>= λ ptr. strcat out ptr)
        (strlen-eq (b'1' ∷ b'.' ∷ fs) junk (omega arith, (omega arith, h)))
      ∙ ap (λ (n : ℕ). memcpy frac_str 1 n >>= λ ptr. strcat out ptr) shorter
      ∙ ap (λ (ptr : Option (List ℕ)). ptr >>= λ ptr. strcat out ptr)
          (memcpy-eq 1 frac_str (b'.' ∷ fs) (0 ∷ junk) refl)

  -- The steps of format_fraction behind print_int.
  behind_print : List ℕ → Option (List ℕ) → Option (List ℕ)
  unfolding cut_out
  behind_print out frac_str = do
    frac_str ← frac_str
    moved ← memcpy frac_str 1 5
    frac_str ← write frac_str 2 moved
    frac_str ← write frac_str 1 (b'.' ∷ [])
    cut_out out frac_str

  behind_print-digits :
      (fs out : List ℕ)
      → All (λ c. 0 < c) fs
      → 0 < length fs
      → length fs ≤ 4
      → behind_print out (write (local_array frame 10) 0 (b'1' ∷ (fs ++ (0 ∷ []))))
        ≡ strcat out (b'.' ∷ fs)
  unfolding behind_print write memcpy
  behind_print-digits [] out h some_digit few = absurd (omega (arith, some_digit))
  behind_print-digits (a ∷ []) out h some_digit few = cut_out-digits (a ∷ []) _ out h
  behind_print-digits (a ∷ b ∷ []) out h some_digit few = cut_out-digits (a ∷ b ∷ []) _ out h
  behind_print-digits (a ∷ b ∷ c ∷ []) out h some_digit few =
      cut_out-digits (a ∷ b ∷ c ∷ []) _ out h
  behind_print-digits (a ∷ b ∷ c ∷ d ∷ []) out h some_digit few =
      cut_out-digits (a ∷ b ∷ c ∷ d ∷ []) _ out h
  behind_print-digits (a ∷ b ∷ c ∷ d ∷ e ∷ fs) out h some_digit few = absurd (omega (arith, few))

  pub positive_digits : (ds : List ℕ) → All IsDigit ds → All (λ c. 0 < c) ds
  positive_digits [] h = tt
  positive_digits (d ∷ ds) ((low, high), h) = (omega (arith, low), positive_digits ds h)

  -- The digits of a fraction, with a point before them.
  pub format_fraction-digits :
      (p f : ℕ) (out : List ℕ)
      → 0 < p
      → p ≤ 4
      → f < 10 ^ p
      → 10 ^ p + f < 2 ^ 63
      → format_fraction frame (10 ^ p) f out ≡ strcat out (b'.' ∷ fraction p f)
  unfolding format_fraction behind_print cut_out
  format_fraction-digits p f out pos few small fits =
      let whole : (10 ^ p + f) % 2 ^ 64 ≡ 10 ^ p + f = omega (arith, fits) in
      let size = length-fraction p f in
      ap (λ (n : ℕ). behind_print out (print_int n (local_array frame 10))) whole
      ∙ ap (behind_print out)
          (print_int-fraction p f (local_array frame 10) (omega (arith, few)) small fits)
      ∙ behind_print-digits (fraction p f) out
          (positive_digits (fraction p f) (fraction-IsDigit p f)) (omega (arith, size, pos))
          (omega (arith, size, few))
