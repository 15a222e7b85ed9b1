-- ===== src/Blue/Details.antt =====
-- The lines of a detail that was tapped, drawn one after the other.
use ledger_app_eos.Prelude.{
  ℕ, ◌*◌, ◌≤◌, ◌<◌, ◌≡◌, refl, sym, ap, ◌∙◌, Bool, false, Option, some, List, [], ◌∷◌, ◌++◌, length,
  take, drop, All, length-drop, append-nil, bit_and, arith, ◌==◌, if◌then◌else◌,
}
use ledger_app_eos.Prelude.Cuts.{take_beyond, drop-drop, take-drop-append}
use ledger_app_eos.Blue.Lines.{drawn_text, details_line-Draws}
use ledger_app_eos.Memory.{◌>>=◌}
use ledger_app_eos.Text.Buffer.{strcpy, text}
use ledger_app_eos.Blue.State.{Blue}
use ledger_app_eos.Blue.Elements.{Drawn, details_line, ui_details_blue_prepro}
use ledger_app_eos.Format.{nth}

-- Three lines of a text make it up.
three_lines :
    (t : List ℕ) → length t ≤ 84 → take 28 t ++ (take 28 (drop 28 t) ++ take 28 (drop 56 t)) ≡ t
three_lines t h =
    ap (λ (r : List ℕ). take 28 t ++ r)
      (ap (λ (r : List ℕ). take 28 (drop 28 t) ++ r)
          (take_beyond 28 (drop 56 t) (omega (arith, length-drop 56 t, h))
            ∙ sym (drop-drop 28 28 56 t (omega arith)))
        ∙ take-drop-append 28 (drop 28 t))
    ∙ take-drop-append 28 t

-- The elements with these ids drawn one after the other, and what they show.
unfoldable pub draw : Blue → List ℕ → Option (List ℕ)
unfolding ui_details_blue_prepro
draw s [] = some []
draw s (userid ∷ userids) = do
  (element, s') ← ui_details_blue_prepro s userid
  shown ← drawn_text (some (element, s'))
  later ← draw s' userids
  some (shown ++ later)

-- The callback on a line of a detail that was tapped.
prepro-line :
    (s : Blue) (i userid : ℕ) (title content : List ℕ)
    → s.details ≡ some i
    → nth s.detail_captions i ≡ some title
    → nth s.detail_values i ≡ some content
    → (userid == 0) ≡ false
    → (userid == 1) ≡ false
    → ui_details_blue_prepro s userid ≡ details_line s content (bit_and userid 0xf * 28)
unfolding ui_details_blue_prepro
prepro-line s i userid title content at caption value not_0 not_1 =
    ap
      (λ (b : Bool). if b then some (Drawn.unchanged, s) else (do
        index ← s.details
        title ← nth s.detail_captions index
        content ← nth s.detail_values index
        behind_content title content (userid == 1)))
      not_0
    ∙ ap
        (λ (index : Option ℕ). index >>= λ index. nth s.detail_captions index >>= λ title.
          nth s.detail_values index >>= λ content. behind_content title content (userid == 1))
        at
    ∙ ap
        (λ (title : Option (List ℕ)). title >>= λ title.
          nth s.detail_values i >>= λ content. behind_content title content (userid == 1))
        caption
    ∙ ap
        (λ (content : Option (List ℕ)).
          content >>= λ content. behind_content title content (userid == 1))
        value
    ∙ ap (behind_content title content) not_1
  where
    behind_content : List ℕ → List ℕ → Bool → Option (Drawn × Blue)
    behind_content title content is_title =
        if is_title
        then (strcpy s.display_string 0 (text title) >>= λ line.
            some (Drawn.unchanged, record s { display_string = line }))
        else details_line s content (bit_and userid 0xf * 28)

draw-line :
    (s : Blue) (i userid : ℕ) (userids title t rest later : List ℕ)
    → s.details ≡ some i
    → nth s.detail_captions i ≡ some title
    → nth s.detail_values i ≡ some (t ++ (0 ∷ rest))
    → (userid == 0) ≡ false
    → (userid == 1) ≡ false
    → All (λ c. 0 < c) t
    → 29 ≤ length s.display_string
    → ((line : List ℕ)
        → 29 ≤ length line
        → draw (record s { display_string = line }) userids ≡ some later)
    → draw s (userid ∷ userids) ≡ some (take 28 (drop (bit_and userid 0xf * 28) t) ++ later)
unfolding draw
draw-line s i userid userids title t rest later at caption value not_0 not_1 h room k =
    let (element, line, e, room', shown) =
      details_line-Draws s t rest h room (bit_and userid 0xf * 28) in
    let s' = record s { display_string = line } in
    ap behind_prepro
      (prepro-line s i userid title (t ++ (0 ∷ rest)) at caption value not_0 not_1 ∙ e)
    ∙ ap
        (λ (shown : Option (List ℕ)).
          shown >>= λ shown. draw s' userids >>= λ later. some (shown ++ later))
        shown
    ∙ ap
        (λ (later : Option (List ℕ)).
          later >>= λ later. some (take 28 (drop (bit_and userid 0xf * 28) t) ++ later))
        (k line room')
  where
    behind_prepro : Option (Drawn × Blue) → Option (List ℕ)
    behind_prepro drawn = drawn >>= λ drawn. drawn_text (some drawn) >>= λ shown.
        draw (drawn.1) userids >>= λ later. some (shown ++ later)

-- The three lines of the details' screen, drawn one after the other for a detail that was tapped, show
-- its whole value, whatever its length up to 84 chars, and whatever the line's array held before.
pub draw-whole_value :
    (s : Blue) (i : ℕ) (title t rest : List ℕ)
    → s.details ≡ some i
    → nth s.detail_captions i ≡ some title
    → nth s.detail_values i ≡ some (t ++ (0 ∷ rest))
    → All (λ c. 0 < c) t
    → length t ≤ 84
    → 29 ≤ length s.display_string
    → draw s (0x10 ∷ 0x11 ∷ 0x12 ∷ []) ≡ some t
unfolding draw
draw-whole_value s i title t rest at caption value h few room =
    let third : (line : List ℕ)
        → 29 ≤ length line
        → draw (record s { display_string = line }) (0x12 ∷ []) ≡ some (take 28 (drop 56 t) ++ []) =
      λ line room.
        draw-line (record s { display_string = line }) i 0x12 [] title t rest [] at caption value
          refl refl h room (λ line room. refl) in
    let second : (line : List ℕ)
        → 29 ≤ length line
        → draw (record s { display_string = line }) (0x11 ∷ 0x12 ∷ [])
          ≡ some (take 28 (drop 28 t) ++ (take 28 (drop 56 t) ++ [])) =
      λ line room.
        draw-line (record s { display_string = line }) i 0x11 (0x12 ∷ []) title t rest
          (take 28 (drop 56 t) ++ []) at caption value refl refl h room third in
    draw-line s i 0x10 (0x11 ∷ 0x12 ∷ []) title t rest
      (take 28 (drop 28 t) ++ (take 28 (drop 56 t) ++ [])) at caption value refl refl h room second
    ∙ ap (λ (r : List ℕ). some (take 28 t ++ (take 28 (drop 28 t) ++ r)))
        (append-nil (take 28 (drop 56 t)))
    ∙ ap some (three_lines t few)
