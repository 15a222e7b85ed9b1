-- ===== src/Text/Name.antt =====
-- The names that parse_name writes.
use ledger_app_eos.Prelude.{
  ℕ, zero, suc, ◌+◌, ◌/◌, ◌^◌, ◌≤◌, ◌≡◌, refl, sym, ap, ◌∙◌, Option, none, some, List, [], ◌∷◌,
  ◌++◌, length, append_assoc, arith, ◌==◌, if◌then◌else◌, bit_and, Bool, true, false,
}
use mathlib.Core.List.{reverse, reverse-append}
use ledger_app_eos.Memory.{◌>>=◌}
use ledger_app_eos.Text.{Frame, charmap, rtrim_loop, rtrim, name_loop, parse_name}
use ledger_app_eos.Text.Buffer.{get_or, set, strlen, text}
use ledger_app_eos.Text.Digits.{length-reverse}

-- The text in a buffer, and its length.
unfoldable pub shown : List ℕ → Option (List ℕ × ℕ)
unfolding text
shown out = do n ← strlen out; some (text out, n)

-- The text and the length that a caller of parse_name sees.
unfoldable pub name_shown : Frame → ℕ → Option (List ℕ × ℕ)
unfolding parse_name text
name_shown frame value = do (out, n) ← parse_name frame value; some (text out, n)

name_loop-append :
    (left i tmp : ℕ) (str : List ℕ) → name_loop left i tmp str ≡ name_loop left i tmp [] ++ str
unfolding name_loop
name_loop-append zero i tmp str = refl
name_loop-append (suc left) i tmp str =
    let t = tmp / 2 ^ (if i == 0 then 4 else 5) in
    let c = get_or charmap (bit_and tmp (if i == 0 then 0x0f else 0x1f)) 0 in
    name_loop-append left (i + 1) t (c ∷ str)
    ∙ sym (append_assoc (name_loop left (i + 1) t []) (c ∷ []) str)
    ∙ ap (λ (r : List ℕ). r ++ str) (sym (name_loop-append left (i + 1) t (c ∷ [])))

rtrim_loop-≤ :
    (below junk : ℕ) (lower : List ℕ) (end : ℕ)
    → rtrim_loop below junk lower ≡ some end
    → end ≤ length lower
unfolding rtrim_loop
rtrim_loop-≤ below junk [] end e = ground arith
rtrim_loop-≤ below junk (c ∷ lower) end e = grind (arith, rtrim_loop-≤ below junk lower end)

-- Two buffers whose last bytes alone differ hold the same text up to a 0 written into them.
text-set_last :
    (xs : List ℕ) (c c' i : ℕ)
    → i ≤ length xs
    → text (set (xs ++ (c ∷ [])) i 0) ≡ text (set (xs ++ (c' ∷ [])) i 0)
unfolding text
text-set_last [] c c' zero h = refl
text-set_last [] c c' (suc i) h = elim h [ ]
text-set_last (x ∷ xs) c c' zero h = refl
text-set_last (x ∷ xs) c c' (suc i) h =
    ap (λ t. if x == 0 then [] else x ∷ t) (text-set_last xs c c' i (omega arith))

strlen-set_last :
    (xs : List ℕ) (c c' i : ℕ)
    → i ≤ length xs
    → strlen (set (xs ++ (c ∷ [])) i 0) ≡ strlen (set (xs ++ (c' ∷ [])) i 0)
unfolding strlen
strlen-set_last [] c c' zero h = refl
strlen-set_last [] c c' (suc i) h = elim h [ ]
strlen-set_last (x ∷ xs) c c' zero h = refl
strlen-set_last (x ∷ xs) c c' (suc i) h =
    ap (λ t. if x == 0 then some 0 else (do n ← t; some (suc n)))
      (strlen-set_last xs c c' i (omega arith))

shown-set_last :
    (xs : List ℕ) (c c' i : ℕ)
    → i ≤ length xs
    → shown (set (xs ++ (c ∷ [])) i 0) ≡ shown (set (xs ++ (c' ∷ [])) i 0)
unfolding shown
shown-set_last xs c c' i h = rw (text-set_last xs c c' i h, strlen-set_last xs c c' i h) refl

-- rtrim does not look at the last byte, and the text that it leaves does not show it.
rtrim-last :
    (frame : Frame) (xs : List ℕ) (c c' : ℕ)
    → (rtrim frame (xs ++ (c ∷ [])) 46 >>= shown) ≡ (rtrim frame (xs ++ (c' ∷ [])) 46 >>= shown)
unfolding rtrim
rtrim-last frame xs c c' =
    rw (reverse-append xs (c ∷ []), reverse-append xs (c' ∷ []))
      (at_end (rtrim_loop frame.below 46 (reverse xs))
        λ end e. omega (arith, rtrim_loop-≤ frame.below 46 (reverse xs) end e, length-reverse xs))
  where
    at_end :
        (m : Option ℕ)
        → ((end : ℕ) → m ≡ some end → end ≤ length xs)
        → ((m >>= λ end. if frame.above == 0 then some (set (xs ++ (c ∷ [])) end 0) else none)
            >>= shown)
          ≡ ((m >>= λ end. if frame.above == 0 then some (set (xs ++ (c' ∷ [])) end 0) else none)
              >>= shown)
    at_end none h = refl
    at_end (some end) h = shown_or_not (frame.above == 0) end (h end refl)
      where
        shown_or_not :
            (b : Bool) (end : ℕ)
            → end ≤ length xs
            → ((if b then some (set (xs ++ (c ∷ [])) end 0) else none) >>= shown)
              ≡ ((if b then some (set (xs ++ (c' ∷ [])) end 0) else none) >>= shown)
        shown_or_not true end h = shown-set_last xs c c' end h
        shown_or_not false end h = refl

pub name_shown-eq :
    (frame : Frame) (v : ℕ) → name_shown frame v ≡ (rtrim frame (name_loop 13 0 v []) 46 >>= shown)
unfolding name_shown shown
name_shown-eq frame v = again (rtrim frame (name_loop 13 0 v []) 46)
  where
    finish : List ℕ → Option (List ℕ × ℕ)
    finish out = do n ← strlen out; some (out, n)

    label : List ℕ × ℕ → Option (List ℕ × ℕ)
    label r = some (text (r.0), r.1)

    pair : List ℕ → ℕ → Option (List ℕ × ℕ)
    pair out n = some (out, n)

    ends : (out : List ℕ) (m : Option ℕ) → ((m >>= pair out) >>= label) ≡ (m >>= pair (text out))
    ends out none = refl
    ends out (some n) = refl

    again : (m : Option (List ℕ)) → ((m >>= finish) >>= label) ≡ (m >>= shown)
    again none = refl
    again (some out) = ends out (strlen out)

-- An account name is shown without its thirteenth character: names that differ there alone look the
-- same.
pub parse_name-thirteenth :
    (frame : Frame) (v w : ℕ) → v / 16 ≡ w / 16 → name_shown frame v ≡ name_shown frame w
unfolding name_loop
parse_name-thirteenth frame v w e =
    let c = get_or charmap (bit_and v 0x0f) 0 in
    let c' = get_or charmap (bit_and w 0x0f) 0 in
    rw
      (
        name_shown-eq frame v,
        name_shown-eq frame w,
        name_loop-append 12 1 (v / 2 ^ 4) (c ∷ []),
        name_loop-append 12 1 (w / 2 ^ 4) (c' ∷ []),
        e,
      )
      (rtrim-last frame (name_loop 12 1 (w / 2 ^ 4) []) c c')
