-- ===== src/Blue/Lines.antt =====
-- The lines that a long text is drawn in.
use Prim.Native.Nat.{min}
use ledger_app_eos.Prelude.{
  ℕ, ◌-◌, ◌≤◌, ◌<◌, ◌≡◌, refl, sym, ap, ◌∙◌, Bool, true, false, Option, some, List, [], ◌∷◌, ◌++◌,
  length, take, drop, replicate, All, All-drop, length-drop, length-append, length-replicate,
  append_assoc, arith, leb, if◌then◌else◌,
}
use ledger_app_eos.Prelude.Cuts.{
  drop-zeros, drop-append_more, drop_beyond, length-take, All-take, take-drop-append,
}
use ledger_app_eos.Memory.{◌>>=◌, memcpy}
use ledger_app_eos.Memory.Words.{memcpy-eq}
use ledger_app_eos.Text.Buffer.{write, text}
use ledger_app_eos.Text.Summary.{write-over, strlen-eq}
use ledger_app_eos.Text.Account.{text-eq}
use ledger_app_eos.Blue.State.{Blue}
use ledger_app_eos.Blue.Elements.{Drawn, fill_line, details_line}

-- A line of at most 28 chars in the cleared array.
fill_line-text :
    (line bytes : List ℕ)
    → 29 ≤ length line
    → length bytes ≤ 28
    → All (λ c. 0 < c) bytes
    → (line' : List ℕ) × (fill_line line bytes ≡ some line')
      × (text line' ≡ bytes)
      × (29 ≤ length line')
unfolding fill_line
fill_line-text line bytes room few h =
    let zeros : List ℕ = replicate 29 0 in
    let rest = drop 29 line in
    let behind = replicate (28 - length bytes) 0 ++ rest in
    (
      bytes ++ (0 ∷ behind),
      ap (λ (line : Option (List ℕ)). line >>= λ line. write line 0 bytes)
            (write-over [] line zeros (omega (arith, room)))
          ∙ write-over [] (zeros ++ rest) bytes (omega (arith, few, length-append zeros rest))
          ∙ ap (λ (r : List ℕ). some (bytes ++ r)) (drop-zeros (length bytes) 28 rest few),
      text-eq bytes behind h,
      omega (
        arith,
        few,
        length-append bytes (0 ∷ behind),
        length-append (replicate (28 - length bytes) 0) rest,
        length-replicate (28 - length bytes) 0,
      ),
    )

-- What stands in the line that is drawn, and nothing where the element is hidden.
abbrev pub drawn_text : Option (Drawn × Blue) → Option (List ℕ)
drawn_text drawn = do
  (element, s) ← drawn
  elim element [
    | Drawn.hidden ↦ some []
    | Drawn.unchanged ↦ some (text s.display_string)
    | Drawn.with_text shown moved ↦ some shown
  ]

-- The copy of at most a line of a text from a place in it.
memcpy-line :
    (t rest : List ℕ) (offset : ℕ)
    → offset ≤ length t
    → memcpy (t ++ (0 ∷ rest)) offset (min (length t - offset) 28) ≡ some (take 28 (drop offset t))
memcpy-line t rest offset h =
    let bytes = take 28 (drop offset t) in
    let later = drop 28 (drop offset t) in
    let size : length bytes ≡ min (length t - offset) 28 =
      omega (arith, length-take 28 (drop offset t), length-drop offset t) in
    ap (memcpy (t ++ (0 ∷ rest)) offset) (sym size)
    ∙ memcpy-eq offset (t ++ (0 ∷ rest)) bytes (later ++ (0 ∷ rest)) (
        drop-append_more offset t (0 ∷ rest) h
        ∙ ap (λ (r : List ℕ). r ++ (0 ∷ rest)) (sym (take-drop-append 28 (drop offset t)))
        ∙ append_assoc bytes later (0 ∷ rest))

-- The steps of details_line behind strlen, and behind the copy.
abbrev with_line : Blue → Option (List ℕ) → Option (Drawn × Blue)
with_line s line = do line ← line; some (Drawn.unchanged, record s { display_string = line })

abbrev with_bytes : Blue → Option (List ℕ) → Option (Drawn × Blue)
with_bytes s bytes = do bytes ← bytes; with_line s (fill_line s.display_string bytes)

abbrev with_length : Blue → List ℕ → ℕ → Bool → ℕ → Option (Drawn × Blue)
with_length s content offset reaches len =
    if reaches
    then with_bytes s (memcpy content offset (min (len - offset) 28))
    else some (Drawn.hidden, s)

-- What a callback drew: the state that it left beside the text.
abbrev pub Draws : Blue → Option (Drawn × Blue) → List ℕ → Type 0
Draws s drawn shown =
    (element : Drawn) × (line : List ℕ) × (drawn
      ≡ some (element, record s { display_string = line }))
    × (29 ≤ length line)
    × (drawn_text (some (element, record s { display_string = line })) ≡ some shown)

module _ (s : Blue) (t rest : List ℕ) (h : All (λ c. 0 < c) t)
    (room : 29 ≤ length s.display_string) where
  reaching-Draws :
      (offset : ℕ)
      → offset ≤ length t
      → Draws s (with_length s (t ++ (0 ∷ rest)) offset true (length t)) (take 28 (drop offset t))
  reaching-Draws offset reaches =
      let bytes = take 28 (drop offset t) in
      let (line, filled, shown, room') =
        fill_line-text s.display_string bytes room (omega (arith, length-take 28 (drop offset t)))
          (All-take (λ c. 0 < c) 28 (drop offset t) (All-drop (λ c. 0 < c) offset t h)) in
      (
        Drawn.unchanged,
        line,
        ap (with_bytes s) (memcpy-line t rest offset reaches) ∙ ap (with_line s) filled,
        room',
        ap some shown,
      )

  hidden-Draws :
      (offset : ℕ)
      → length t ≤ offset
      → Draws s (with_length s (t ++ (0 ∷ rest)) offset false (length t)) (take 28 (drop offset t))
  hidden-Draws offset beyond = (
    Drawn.hidden,
    s.display_string,
    refl,
    room,
    ap (λ (r : List ℕ). some (take 28 r)) (sym (drop_beyond offset t beyond)),
  )

  decided-Draws :
      (offset : ℕ) (reaches : Bool)
      → leb offset (length t) ≡ reaches
      → Draws s
          (with_length s (t ++ (0 ∷ rest)) offset reaches (length t))
          (take 28 (drop offset t))
  decided-Draws offset true e = reaching-Draws offset (ground (arith, e))
  decided-Draws offset false e = hidden-Draws offset (ground (arith, e))

  -- A line of the details' screen shows the chars of the text from its place on, at most 28.
  pub details_line-Draws :
      (offset : ℕ) → Draws s (details_line s (t ++ (0 ∷ rest)) offset) (take 28 (drop offset t))
  unfolding details_line
  details_line-Draws offset =
      let (element, line, e, room', shown) = decided-Draws offset (leb offset (length t)) refl in
      (
        element,
        line,
        ap
              (λ (len : Option ℕ).
                len >>= λ len. with_length s (t ++ (0 ∷ rest)) offset (leb offset len) len)
              (strlen-eq t rest h)
            ∙ e,
        room',
        shown,
      )
