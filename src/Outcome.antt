-- ===== src/Outcome.antt =====
-- Code that changes a state and may leave by THROW, as a function from the state to an outcome.
-- What the state held when the exception was thrown stays.
use ledger_app_eos.Prelude.{ℕ, ◌≡◌, Option, none, some, Bool, true, false, if◌then◌else◌}

pub data Outcome (S A : Type 0) : Type 0 where
  done : A → S → Outcome S A
  thrown : ℕ → S → Outcome S A
  -- behaviour that C leaves undefined
  undefined : Outcome S A

abbrev pub Command : Type 0 → Type 0 → Type 0
Command S A = S → Outcome S A

infixl 5 ◌>>=◌ ◌>>◌
abbrev pub ◌>>=◌ : {S A B : Type 0} → Command S A → (A → Command S B) → Command S B
◌>>=◌ m f s = elim (m s) [
  | done a s' ↦ f a s'
  | thrown sw s' ↦ thrown sw s'
  | undefined ↦ undefined
]

abbrev pub ◌>>◌ : {S B : Type 0} → Command S (Unit {0}) → Command S B → Command S B
m >> k = m >>= λ _. k

abbrev pub pure : {S A : Type 0} → A → Command S A
pure a s = done a s

-- THROW(sw)
abbrev pub throw : {S A : Type 0} → ℕ → Command S A
throw sw s = thrown sw s

abbrev pub modify : {S : Type 0} → (S → S) → Command S (Unit {0})
modify f s = done tt (f s)

abbrev pub gets : {S A : Type 0} → (S → A) → Command S A
gets f s = done (f s) s

-- THROW(sw) where the test holds.
abbrev pub throw_if : {S : Type 0} → Bool → ℕ → Command S (Unit {0})
throw_if true sw = throw sw
throw_if false sw = pure tt

-- A read of memory, which changes no state.
abbrev pub reads : {S A : Type 0} → Option A → Command S A
reads none s = undefined
reads (some a) s = done a s

-- A command on a part of the state, which `set` writes back.
abbrev pub zoom : {S T A : Type 0} → (S → T) → (T → S → S) → Command T A → Command S A
zoom get set m s = elim (m (get s)) [
  | done a t ↦ done a (set t s)
  | thrown sw t ↦ thrown sw (set t s)
  | undefined ↦ undefined
]

-- Running a sequence one step at a time.
pub >>=-done :
    {S A B : Type 0} (m : Command S A) (f : A → Command S B) (s : S) {a : A} {s' : S}
    → m s ≡ done a s'
    → (m >>= f) s ≡ f a s'
>>=-done m f s e = rw (e, ◌>>=◌)

pub zoom-done :
    {S T A : Type 0} (get : S → T) (set : T → S → S) (m : Command T A) (s : S) {a : A} {t : T}
    → m (get s) ≡ done a t
    → zoom get set m s ≡ done a (set t s)
zoom-done get set m s e = rw (e, zoom)

-- Whatever way a command ends, `R` holds of the state that it leaves and `E` of the exception that
-- it throws.
abbrev pub Leaves : {S A : Type 0} → (S → Type 0) → (ℕ → Type 0) → Outcome S A → Type 0
Leaves R E (done a s) = R s
Leaves R E (thrown sw s) = R s × E sw
Leaves R E undefined = Unit {0}

pub >>=-thrown :
    {S A B : Type 0} (m : Command S A) (f : A → Command S B) (s : S) {sw : ℕ} {s' : S}
    → m s ≡ thrown sw s'
    → (m >>= f) s ≡ thrown sw s'
>>=-thrown m f s e = rw (e, ◌>>=◌)

pub zoom-thrown :
    {S T A : Type 0} (get : S → T) (set : T → S → S) (m : Command T A) (s : S) {sw : ℕ} {t : T}
    → m (get s) ≡ thrown sw t
    → zoom get set m s ≡ thrown sw (set t s)
zoom-thrown get set m s e = rw (e, zoom)

-- The rule for a sequence.
pub Leaves->>= :
    {S A B : Type 0} (R : S → Type 0) (E : ℕ → Type 0) (m : Command S A) (f : A → Command S B)
    (s : S)
    → Leaves R E (m s)
    → ((a : A) (s' : S) → R s' → Leaves R E (f a s'))
    → Leaves R E ((m >>= f) s)
Leaves->>= {S} {A} {B} R E m f s h k = step (m s) h
  where
    step :
        (o : Outcome S A)
        → Leaves R E o
        → Leaves R E (elim o as (λ _. Outcome S B) [
          | done a s' ↦ f a s'
          | thrown sw s' ↦ thrown sw s'
          | undefined ↦ undefined
        ])
    step (done a s') h = k a s' h
    step (thrown sw s') h = h
    step undefined h = tt

pub Leaves-reads :
    {S A : Type 0} (R : S → Type 0) (E : ℕ → Type 0) (o : Option A) (s : S)
    → R s
    → Leaves R E (reads o s)
Leaves-reads R E none s h = tt
Leaves-reads R E (some a) s h = h

pub Leaves-mono :
    {S A : Type 0} (R R' : S → Type 0) (E E' : ℕ → Type 0) (o : Outcome S A)
    → ((s : S) → R s → R' s)
    → ((sw : ℕ) → E sw → E' sw)
    → Leaves R E o
    → Leaves R' E' o
Leaves-mono R R' E E' (done a s) f g h = f s h
Leaves-mono R R' E E' (thrown sw s) f g (h, e) = (f s h, g sw e)
Leaves-mono R R' E E' undefined f g h = tt

pub Leaves-throw_if :
    {S : Type 0} (R : S → Type 0) (E : ℕ → Type 0) (b : Bool) (sw : ℕ) (s : S)
    → R s
    → E sw
    → Leaves R E (throw_if b sw s)
Leaves-throw_if R E true sw s r e = (r, e)
Leaves-throw_if R E false sw s r e = r

pub Leaves-if :
    {S A : Type 0} (R : S → Type 0) (E : ℕ → Type 0) (b : Bool) (m k : Command S A) (s : S)
    → Leaves R E (m s)
    → Leaves R E (k s)
    → Leaves R E ((if b then m else k) s)
Leaves-if R E true m k s h h' = h
Leaves-if R E false m k s h h' = h'

-- What a run that ended normally left.
pub Leaves-done :
    {S A : Type 0} (R : S → Type 0) (E : ℕ → Type 0) (o : Outcome S A) {a : A} {s : S}
    → Leaves R E o
    → o ≡ done a s
    → R s
Leaves-done R E o h e = rw e at h
