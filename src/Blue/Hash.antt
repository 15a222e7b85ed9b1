-- ===== src/Blue/Hash.antt =====
-- The screen on which a hash alone is approved.
use ledger_app_eos.Prelude.{
  ℕ, ◌*◌, ◌/◌, ◌%◌, ◌<◌, ◌≡◌, refl, sym, ap, ◌∙◌, true, Option, some, List, [], ◌∷◌, ◌++◌, length,
  replicate, All, append-nil, arith, ltb, ◌-◌, ◌+◌, ◌==◌, not, ◌&&◌, ◌||◌, if◌then◌else◌, Bool,
}
use ledger_app_eos.Memory
use ledger_app_eos.Outcome.{done}
use ledger_app_eos.Memory.Words.{memcpy-eq}
use ledger_app_eos.Text.{hex_digits, hex_alphabet, print_binary}
use ledger_app_eos.Text.Buffer.{codes, get_or, write, text}
use ledger_app_eos.Text.Account.{text-eq, all_below, all_below_sound}
use ledger_app_eos.Text.Append.{strcpy-eq}
use ledger_app_eos.Format.{nth}
use ledger_app_eos.Blue.{ui_approve_tx_hash_init}
use ledger_app_eos.Blue.State.{Blue, put_text}

-- The caption and the value of a detail.
abbrev pub shown_detail : Blue → ℕ → Option (List ℕ × List ℕ)
shown_detail s i =
    Memory.◌>>=◌ (nth s.detail_captions i)
      λ caption. Memory.◌>>=◌ (nth s.detail_values i) λ value. some (text caption, text value)

digit-positive : (d : ℕ) → d < 16 → 0 < get_or hex_alphabet d 0
unfolding all_below
digit-positive d h =
    let e : ltb 0 (get_or hex_alphabet d 0) ≡ true =
      all_below_sound (λ d. ltb 0 (get_or hex_alphabet d 0)) 16 d refl h in
    ground (arith, e)

hex_digits-positive :
    (bytes : List ℕ) → All (λ b. b < 256) bytes → All (λ c. 0 < c) (hex_digits bytes)
unfolding hex_digits
hex_digits-positive [] h = tt
hex_digits-positive (b ∷ bytes) (small, h) = (
  digit-positive (b / 16) (omega (arith, small)),
  (digit-positive (b % 16) (omega arith), hex_digits-positive bytes h),
)

length-hex_digits : (bytes : List ℕ) → length (hex_digits bytes) ≡ 2 * length bytes
unfolding hex_digits
length-hex_digits [] = refl
length-hex_digits (b ∷ bytes) = omega (arith, length-hex_digits bytes)

-- The value of a digit, and the bytes of which the digits are given, the higher one first.
abbrev pub digit_value : ℕ → ℕ
digit_value c = if ltb c b'A' then c - b'0' else c - b'A' + 10

abbrev pub bytes_of_digits : List ℕ → List ℕ
bytes_of_digits [] = []
bytes_of_digits (c ∷ []) = []
bytes_of_digits (c ∷ c' ∷ cs) = (digit_value c * 16 + digit_value c') ∷ bytes_of_digits cs

-- 0 to 9 and A to F.
abbrev pub is_hex_digit : ℕ → Bool
is_hex_digit c = (not (ltb c b'0') && not (ltb b'9' c)) || (not (ltb c b'A') && not (ltb b'F' c))

digit-value : (d : ℕ) → d < 16 → digit_value (get_or hex_alphabet d 0) ≡ d
unfolding all_below
digit-value d h =
    let e : (digit_value (get_or hex_alphabet d 0) == d) ≡ true =
      all_below_sound (λ d. digit_value (get_or hex_alphabet d 0) == d) 16 d refl h in
    ground (arith, e)

digit-is_hex : (d : ℕ) → d < 16 → is_hex_digit (get_or hex_alphabet d 0) ≡ true
unfolding all_below
digit-is_hex d h = all_below_sound (λ d. is_hex_digit (get_or hex_alphabet d 0)) 16 d refl h

hex_digits-is_hex :
    (bytes : List ℕ)
    → All (λ b. b < 256) bytes
    → All (λ c. is_hex_digit c ≡ true) (hex_digits bytes)
unfolding hex_digits
hex_digits-is_hex [] h = tt
hex_digits-is_hex (b ∷ bytes) (small, h) = (
  digit-is_hex (b / 16) (omega (arith, small)),
  (digit-is_hex (b % 16) (omega arith), hex_digits-is_hex bytes h),
)

bytes_of_digits-hex_digits :
    (bytes : List ℕ) → All (λ b. b < 256) bytes → bytes_of_digits (hex_digits bytes) ≡ bytes
unfolding hex_digits
bytes_of_digits-hex_digits [] h = refl
bytes_of_digits-hex_digits (b ∷ bytes) (small, h) =
    let high = digit-value (b / 16) (omega (arith, small)) in
    let low = digit-value (b % 16) (omega arith) in
    let byte : digit_value (get_or hex_alphabet (b / 16) 0) * 16
          + digit_value (get_or hex_alphabet (b % 16) 0)
        ≡ b =
      omega (arith, high, low) in
    ap (λ (v : ℕ). v ∷ bytes_of_digits (hex_digits bytes)) byte
    ∙ ap (λ (bs : List ℕ). b ∷ bs) (bytes_of_digits-hex_digits bytes h)

-- The text of a hash, and the array that print_binary leaves.
abbrev hash_text : List ℕ → List ℕ
hash_text hash = codes "0x" ++ hex_digits hash

print_binary-hash :
    (hash : List ℕ)
    → length hash ≡ 32
    → (rest : List ℕ) × (print_binary hash (replicate 67 0) 32
        ≡ some (hash_text hash ++ (0 ∷ rest)))
unfolding print_binary
print_binary-hash hash size =
    let all : Memory.memcpy hash 0 32 ≡ some hash =
      ap (Memory.memcpy hash 0) (sym size) ∙ memcpy-eq 0 hash hash [] (sym (append-nil hash)) in
    let (rest, e, _) =
      strcpy-eq (replicate 67 0) (hash_text hash) (omega (arith, size, length-hex_digits hash)) in
    (
      rest,
      ap
            (λ (all : Option (List ℕ)).
              Memory.◌>>=◌ all
                λ all. write (replicate 67 0) 0 (codes "0x" ++ hex_digits all ++ (0 ∷ [])))
            all
          ∙ e,
    )

-- The screen on which a hash of 32 bytes is approved shows the whole of it: the caption Hash, and 0x
-- with 64 digits from 0 to 9 and A to F, which read in pairs, the higher one first, are its bytes. Its
-- title and subtitle are WARNING and No details available, and the app's context stays as it is.
pub ui_approve_tx_hash_init-shown :
    (s : Blue)
    → length s.app.tx.hash ≡ 32
    → All (λ b. b < 256) s.app.tx.hash
    → length s.title_caption ≡ 26
    → length s.subtitle_caption ≡ 21
    → (s' : Blue) × (ui_approve_tx_hash_init s ≡ done tt s')
      × (digits : List ℕ) × (shown_detail s' 0 ≡ some (codes "Hash", codes "0x" ++ digits))
      × (length digits ≡ 64)
      × All (λ c. is_hex_digit c ≡ true) digits
      × (bytes_of_digits digits ≡ s.app.tx.hash)
      × (text s'.title_caption ≡ codes "WARNING")
      × (text s'.subtitle_caption ≡ codes "No details available")
      × (s'.app ≡ s.app)
unfolding ui_approve_tx_hash_init put_text nth text write
ui_approve_tx_hash_init-shown s size bytes title subtitle =
    let (rest, printed) = print_binary-hash s.app.tx.hash size in
    let (rest', titled, _) = strcpy-eq s.title_caption (codes "WARNING") (omega (arith, title)) in
    let (rest'', named, _) =
      strcpy-eq s.subtitle_caption (codes "No details available") (omega (arith, subtitle)) in
    (
      record s {
        current_screen = 0;
        detail_captions = (codes "Hash" ++ replicate 16 0) ∷ replicate 6 (replicate 20 0);
        detail_values = (hash_text s.app.tx.hash ++ (0 ∷ rest)) ∷ replicate 6 (replicate 67 0);
        title_caption = codes "WARNING" ++ (0 ∷ rest');
        subtitle_caption = codes "No details available" ++ (0 ∷ rest'');
      },
      rw (printed, titled, named) refl,
      hex_digits s.app.tx.hash,
      ap (λ (value : List ℕ). some (codes "Hash", value))
          (text-eq (hash_text s.app.tx.hash) rest
            (omega arith, (omega arith, hex_digits-positive s.app.tx.hash bytes))),
      omega (arith, size, length-hex_digits s.app.tx.hash),
      hex_digits-is_hex s.app.tx.hash bytes,
      bytes_of_digits-hex_digits s.app.tx.hash bytes,
      text-eq (codes "WARNING") rest' (omega arith),
      text-eq (codes "No details available") rest'' (omega arith),
      refl,
    )
