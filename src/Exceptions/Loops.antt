-- ===== src/Exceptions/Loops.antt =====
-- `for x in xs:` over a state, left by the first error, and the rules for it.
use mathlib.Core.Path.{subst}
use oorvashee_backend.Prelude.{◌≡◌, refl, Bool, true, false, Option, none, some, List, [], ◌∷◌}
use oorvashee_backend.Exceptions.{AppError, Result, ok, err, raise_if, or_raise, ◌>>=◌, ◌>>◌}

unfoldable pub for_each {ℓ κ} :
    {A : Type ℓ} {S : Type κ} → (A → S → Result S) → List A → S → Result S
for_each body [] s = ok s
for_each body (x ∷ xs) s = body x s >>= λ s'. for_each body xs s'

-- A postcondition of a fallible step: `P` of what it returns, `E` of what it raises.
abbrev pub Ends {ℓ κ} : {A : Type ℓ} → (A → Type κ) → (AppError → Type κ) → Result A → Type κ
Ends P E (ok a) = P a
Ends P E (err e) = E e

ok-injective {ℓ} : {A : Type ℓ} {a b : A} → ok a ≡ ok b → a ≡ b
ok-injective e = cc

pub err-injective {ℓ} : {A : Type ℓ} {d e : AppError} → ◌≡◌ {A = Result A} (err d) (err e) → d ≡ e
err-injective p = cc

pub Ends-any {ℓ} : {A : Type ℓ} (r : Result A) → Ends (λ _. Unit {0}) (λ _. Unit {0}) r
Ends-any (ok a) = tt
Ends-any (err e) = tt

-- A weaker postcondition.
pub Ends-weaken {ℓ κ} :
    {A : Type ℓ} (P : A → Type κ) (Q : A → Type κ) (E : AppError → Type κ) (r : Result A)
    → ((a : A) → P a → Q a)
    → Ends P E r
    → Ends Q E r
Ends-weaken P Q E (ok a) f h = f a h
Ends-weaken P Q E (err e) f h = h

pub Ends-blame {ℓ κ} :
    {A : Type ℓ} (P : A → Type κ) {E F : AppError → Type κ} (r : Result A)
    → ((e : AppError) → E e → F e)
    → Ends P E r
    → Ends P F r
Ends-blame P (ok a) f h = h
Ends-blame P (err e) f h = f e h

-- Two steps with an intermediate fact.
pub Ends-then {ℓ κ ν} :
    {A : Type ℓ} {B : Type κ} (Q : B → Type ν) (E : AppError → Type ν) (r : Result A)
    (f : A → Result B)
    → ((e : AppError) → r ≡ err e → E e)
    → ((a : A) → r ≡ ok a → Ends Q E (f a))
    → Ends Q E (r >>= f)
Ends-then Q E (ok a) f h k = k a refl
Ends-then Q E (err e) f h k = h e refl

-- And where nothing is said of what is raised.
pub Ends-ok {ℓ κ ν} :
    {A : Type ℓ} {B : Type κ} (Q : B → Type ν) (r : Result A) (f : A → Result B)
    → ((a : A) → r ≡ ok a → Ends Q (λ _. Unit {ν}) (f a))
    → Ends Q (λ _. Unit {ν}) (r >>= f)
Ends-ok Q (ok a) f k = k a refl
Ends-ok Q (err e) f k = tt

-- What an outcome says of the value that was returned.
pub Ends-of_ok {ℓ κ} :
    {A : Type ℓ} (P : A → Type κ) (E : AppError → Type κ) (r : Result A) (a : A)
    → Ends P E r
    → r ≡ ok a
    → P a
Ends-of_ok P E (ok b) a h e = subst P (ok-injective e) h
Ends-of_ok P E (err x) a h e = cc

-- And of what was raised.
pub Ends-of_err {ℓ κ} :
    {A : Type ℓ} (P : A → Type κ) (E : AppError → Type κ) (r : Result A) (e : AppError)
    → Ends P E r
    → r ≡ err e
    → E e
Ends-of_err P E (ok a) e h p = cc
Ends-of_err P E (err x) e h p = subst E (err-injective p) h

module _ {κ μ} {S : Type κ} (P : S → Type μ) (E : AppError → Type μ) where
  pub Ends-bind :
      (r : Result S) (f : S → Result S)
      → Ends P E r
      → ((s : S) → P s → Ends P E (f s))
      → Ends P E (r >>= f)
  Ends-bind (ok s) f h k = k s h
  Ends-bind (err e) f h k = h

  -- A guard is taken or passed.
  pub Ends-raise_if :
      (b : Bool) (e : AppError) (r : Result S)
      → (b ≡ true → E e)
      → (b ≡ false → Ends P E r)
      → Ends P E (raise_if b e >> r)
  Ends-raise_if true e r h k = h refl
  Ends-raise_if false e r h k = k refl

  pub Ends-guard :
      (g : Result (Unit {0})) (r : Result S)
      → ((e : AppError) → g ≡ err e → E e)
      → Ends P E r
      → Ends P E (g >> r)
  Ends-guard (ok _) r h k = k
  Ends-guard (err e) r h k = h e refl

  pub Ends-or_raise {ℓ} :
      {A : Type ℓ} (o : Option A) (e : AppError) (f : A → Result S)
      → (o ≡ none → E e)
      → ((a : A) → o ≡ some a → Ends P E (f a))
      → Ends P E (or_raise o e >>= f)
  Ends-or_raise none e f h k = h refl
  Ends-or_raise (some a) e f h k = k a refl

  -- The invariant rule: a body that keeps `P`, or raises within `E`, makes a loop that does.
  pub for_each-Ends {ℓ} :
      {A : Type ℓ} (body : A → S → Result S)
      → ((x : A) (s : S) → P s → Ends P E (body x s))
      → (xs : List A) (s : S) → P s
      → Ends P E (for_each body xs s)
  unfolding for_each
  for_each-Ends body step [] s h = h
  for_each-Ends body step (x ∷ xs) s h =
      Ends-bind (body x s) (for_each body xs) (step x s h) (for_each-Ends body step xs)
