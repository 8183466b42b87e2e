-- ===== src/Schemas/Changes.antt =====
-- The body of a PATCH: `model_dump(exclude_unset=True)` of a schema of app/schemas.
use oorvashee_backend.Prelude.{Bool, true, false, Option, none, some}

-- A field of the request: left out, or given, and then perhaps as null.
abbrev pub Change {ℓ} : Type ℓ → Type ℓ
Change A = Option (Option A)

abbrev pub is_set {ℓ} : {A : Type ℓ} → Change A → Bool
is_set none = false
is_set (some v) = true

-- `changes.get(field, old)`.
abbrev pub changed {ℓ} : {A : Type ℓ} → Change A → Option A → Option A
changed none old = old
changed (some v) old = v

-- `changes.get(field)`.
abbrev pub given {ℓ} : {A : Type ℓ} → Change A → Option A
given none = none
given (some v) = v
