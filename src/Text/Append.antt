-- ===== src/Text/Append.antt =====
-- Texts that grow in their buffer: what strcat and a memmove by one place leave.
use ledger_app_eos.Prelude.{
  ℕ, suc, ◌+◌, ◌-◌, ◌≤◌, ◌<◌, ◌≡◌, sym, ap, ◌∙◌, Option, some, List, [], ◌∷◌, ◌++◌, length, drop,
  All, length-append, length-drop, append_assoc, arith,
}
use ledger_app_eos.Memory.{◌>>=◌}
use ledger_app_eos.Text.Buffer.{write, strcpy, strcat}
use ledger_app_eos.Text.Summary.{write-over, strlen-eq}

-- A text stored at the start of a buffer.
pub strcpy-eq :
    (buffer s : List ℕ)
    → length s < length buffer
    → (rest : List ℕ) × (strcpy buffer 0 s ≡ some (s ++ (0 ∷ rest)))
      × (length rest ≡ length buffer - length s - 1)
strcpy-eq buffer s h =
    let n : length (s ++ (0 ∷ [])) ≡ length s + 1 = omega (arith, length-append s (0 ∷ [])) in
    let rest = drop (length (s ++ (0 ∷ []))) buffer in
    (
      rest,
      write-over [] buffer (s ++ (0 ∷ [])) (omega (arith, h, n))
          ∙ ap some (append_assoc s (0 ∷ []) rest),
      omega (arith, n, length-drop (length (s ++ (0 ∷ []))) buffer),
    )

-- A text stored behind another one.
pub strcat-eq :
    (s rest t : List ℕ)
    → All (λ c. 0 < c) s
    → length t ≤ length rest
    → (rest' : List ℕ) × (strcat (s ++ (0 ∷ rest)) t ≡ some ((s ++ t) ++ (0 ∷ rest')))
      × (length rest' ≡ length rest - length t)
strcat-eq s rest t h fits =
    let n : length (t ++ (0 ∷ [])) ≡ length t + 1 = omega (arith, length-append t (0 ∷ [])) in
    let rest' = drop (length (t ++ (0 ∷ []))) (0 ∷ rest) in
    (
      rest',
      ap (λ (n : Option ℕ). n >>= λ n. strcpy (s ++ (0 ∷ rest)) n t) (strlen-eq s rest h)
          ∙ write-over s (0 ∷ rest) (t ++ (0 ∷ [])) (omega (arith, fits, n))
          ∙ ap (λ (r : List ℕ). some (s ++ r)) (append_assoc t (0 ∷ []) rest')
          ∙ ap some (sym (append_assoc s t (0 ∷ rest'))),
      omega (arith, n, length-drop (length (t ++ (0 ∷ []))) (0 ∷ rest)),
    )

-- Bytes stored at the second place, a char before them, and what goes on from there.
pub write-before :
    {B : Type 0} (buffer bytes : List ℕ) (c : ℕ) (k : List ℕ → Option B)
    → length bytes < length buffer
    → (write buffer 1 bytes >>= λ buffer. write buffer 0 (c ∷ []) >>= k)
      ≡ k (c ∷ (bytes ++ drop (suc (length bytes)) buffer))
unfolding write
write-before [] bytes c k h = absurd (omega (arith, h))
write-before (b ∷ buffer) bytes c k h =
    ap
      (λ (rest : Option (List ℕ)).
        (rest >>= λ rest. some (b ∷ rest)) >>= λ buffer. write buffer 0 (c ∷ []) >>= k)
      (write-over [] buffer bytes (omega (arith, h)))
