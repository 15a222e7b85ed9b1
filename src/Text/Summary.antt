-- ===== src/Text/Summary.antt =====
-- What print_summary leaves in a cleared buffer.
use ledger_app_eos.Prelude.{
  ℕ, zero, suc, ◌+◌, ◌-◌, ◌%◌, ◌^◌, ◌≤◌, ◌<◌, ◌≡◌, refl, ap, ◌∙◌, some, List, [], ◌∷◌, ◌++◌, length,
  drop, replicate, All, take, take-drop, length-append, drop-append, append_assoc, arith, ltb, ◌==◌,
  true, false,
}
use Prim.Native.Nat.add
use ledger_app_eos.Memory.{memcpy}
use ledger_app_eos.Memory.Words.{memcpy-eq}
use ledger_app_eos.Text.{print_summary}
use ledger_app_eos.Text.Buffer.{codes, write, write_here, strlen}

write_here-eq :
    (mid bytes suf : List ℕ)
    → length mid ≡ length bytes
    → write_here (mid ++ suf) bytes ≡ some (bytes ++ suf)
unfolding write_here
write_here-eq [] [] suf e = refl
write_here-eq [] (b ∷ bytes) suf e = ground (arith, e)
write_here-eq (x ∷ mid) [] suf e = ground (arith, e)
write_here-eq (x ∷ mid) (b ∷ bytes) suf e = rw (write_here-eq mid bytes suf (omega (arith, e))) refl

-- A write over as many bytes.
pub write-eq :
    (pre mid bytes suf : List ℕ)
    → length mid ≡ length bytes
    → write (pre ++ (mid ++ suf)) (length pre) bytes ≡ some (pre ++ (bytes ++ suf))
unfolding write
write-eq [] mid bytes suf e = write_here-eq mid bytes suf e
write-eq (x ∷ pre) mid bytes suf e = rw (write-eq pre mid bytes suf e) refl

-- A write over the beginning of what stands there.
pub write-over :
    (sent rest data' : List ℕ)
    → length data' ≤ length rest
    → write (sent ++ rest) (length sent) data' ≡ some (sent ++ (data' ++ drop (length data') rest))
write-over sent rest data' h =
    let (e, l) = take-drop (length data') rest h in
    ap (λ (r : List ℕ). write (sent ++ r) (length sent) data') e
    ∙ write-eq sent (take (length data') rest) data' (drop (length data') rest) l

nonzero : (n : ℕ) → (suc n == 0) ≡ false
nonzero n = ground arith

pub strlen-eq : (t rest : List ℕ) → All (λ c. 0 < c) t → strlen (t ++ (0 ∷ rest)) ≡ some (length t)
unfolding strlen
strlen-eq [] rest h = refl
strlen-eq (zero ∷ t) rest (p, h) = elim p [ ]
strlen-eq (suc c ∷ t) rest (p, h) = rw (strlen-eq t rest h, nonzero c) refl

replicate-add : (m n : ℕ) → replicate {A = ℕ} (m + n) 0 ≡ replicate m 0 ++ replicate n 0
replicate-add zero n = rw add.zero refl
replicate-add (suc m) n = rw add.suc (ap (λ r. 0 ∷ r) (replicate-add m n))

length-replicate : (m : ℕ) → length (replicate {A = ℕ} m 0) ≡ m
length-replicate zero = refl
length-replicate (suc m) = ap suc (length-replicate m)

short_length : (n : ℕ) → n ≤ 14 → ltb 14 (n % 2 ^ 16) ≡ false
short_length n h = ground arith

long_length : (n : ℕ) → 14 < n → n < 2 ^ 16 → ltb 14 (n % 2 ^ 16) ≡ true
long_length n h k = ground arith

-- A text of at most fourteen characters is shown whole on a cleared screen.
pub print_summary-whole :
    (t rest : List ℕ)
    → All (λ c. 0 < c) t
    → length t ≤ 14
    → print_summary (t ++ (0 ∷ rest)) (replicate 89 0) 6 6 ≡ some (t ++ replicate (89 - length t) 0)
unfolding print_summary
print_summary-whole t rest h k =
    let n = length t in
    let cleared : replicate {A = ℕ} 89 0 ≡ replicate n 0 ++ replicate (89 - n) 0 =
      let split : 89 ≡ n + (89 - n) = omega arith in
      ap (λ (r : ℕ). replicate {A = ℕ} r 0) split ∙ replicate-add n (89 - n) in
    let small : n % 2 ^ 16 ≡ n = omega arith in
    let written : write (replicate n 0 ++ replicate (89 - n) 0) 0 t
        ≡ some (t ++ replicate (89 - n) 0) =
      write-eq [] (replicate n 0) t (replicate (89 - n) 0) (length-replicate n) in
    rw
      (
        strlen-eq t rest h,
        short_length n k,
        small,
        memcpy-eq 0 (t ++ (0 ∷ rest)) t (0 ∷ rest) refl,
        cleared,
      )
      written

-- A longer text is shown as its first six characters, two dots and its last six.
pub print_summary-ends :
    (a b c d e f u v w x y z : ℕ) (middle rest : List ℕ)
    → All (λ c. 0 < c) ((a ∷ b ∷ c ∷ d ∷ e ∷ f ∷ []) ++ (middle ++ (u ∷ v ∷ w ∷ x ∷ y ∷ z ∷ [])))
    → 2 < length middle
    → length middle < 2 ^ 15
    → print_summary
        (((a ∷ b ∷ c ∷ d ∷ e ∷ f ∷ []) ++ (middle ++ (u ∷ v ∷ w ∷ x ∷ y ∷ z ∷ []))) ++ (0 ∷ rest))
        (replicate 89 0)
        6
        6
      ≡ some (
          (a ∷ b ∷ c ∷ d ∷ e ∷ f ∷ [])
          ++ (codes ".." ++ ((u ∷ v ∷ w ∷ x ∷ y ∷ z ∷ []) ++ replicate 75 0)))
unfolding print_summary write write_here
print_summary-ends a b c d e f u v w x y z middle rest h k l =
    let left : List ℕ = a ∷ b ∷ c ∷ d ∷ e ∷ f ∷ [] in
    let right : List ℕ = u ∷ v ∷ w ∷ x ∷ y ∷ z ∷ [] in
    let t = left ++ (middle ++ right) in
    let n = length t in
    let sum : n ≡ 12 + length middle = omega (arith, length-append middle right) in
    let small : n % 2 ^ 16 ≡ n = omega (arith, sum) in
    let front : memcpy (t ++ (0 ∷ rest)) 0 6 ≡ some left =
      memcpy-eq 0 (t ++ (0 ∷ rest)) left ((middle ++ right) ++ (0 ∷ rest)) refl in
    let at_right : drop (n - 6) (t ++ (0 ∷ rest)) ≡ right ++ (0 ∷ rest) =
      let position : n - 6 ≡ length (left ++ middle) =
        omega (arith, sum, length-append left middle) in
      ap (λ (p : ℕ). drop p (t ++ (0 ∷ rest))) position
      ∙ ap (λ (s : List ℕ). drop (length (left ++ middle)) (left ++ s))
          (append_assoc middle right (0 ∷ rest))
      ∙ drop-append (left ++ middle) (right ++ (0 ∷ rest)) in
    let back : memcpy (t ++ (0 ∷ rest)) (n - 6) 6 ≡ some right =
      memcpy-eq (n - 6) (t ++ (0 ∷ rest)) right (0 ∷ rest) at_right in
    rw
      (
        strlen-eq t rest h,
        long_length n (omega (arith, sum)) (omega (arith, sum)),
        small,
        front,
        back,
      )
      refl
