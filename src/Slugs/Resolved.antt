-- ===== src/Slugs/Resolved.antt =====
-- `_resolve_unique_slug`: the slug that is found.
use oorvashee_backend.Prelude.{
  ℕ, zero, suc, ◌+◌, ◌≤◌, ◌<◌, ◌≡◌, refl, inl, inr, Bool, true, false, eq_or_ne, [], ◌∷◌, arith,
  length, length-append, Bool-cases,
}
use oorvashee_backend.Exceptions.{AppError}
use oorvashee_backend.Exceptions.Loops.{Ends, Ends-blame}
use oorvashee_backend.Slugs.{
  Text, SlugLimits, take, attempt, decimal, try_numbers, resolve_unique_slug, hyphen, lower, strip,
}

-- A slug that no row has, within the column.
pub record IsFree (limits : SlugLimits) (exists : Text → Bool) (slug : Text) : Type 0 where
  pub free : exists slug ≡ false
  pub fits : length slug ≤ limits.slug

length-take : (n : ℕ) (text : Text) → length (take n text) ≤ n
unfolding take
length-take zero text = omega arith
length-take (suc n) [] = omega arith
length-take (suc n) (c ∷ text) = omega (arith, length-take n text)

length-decimal : (n : ℕ) → length (decimal n) ≤ 2
length-decimal n = ground arith

length-attempt :
    (limits : SlugLimits) (candidate : Text) (i : ℕ)
    → limits.stem + 3 ≤ limits.slug
    → length (attempt limits candidate i) ≤ limits.slug
unfolding attempt
length-attempt limits candidate i room = omega (
  arith,
  length-append (take limits.stem candidate) (hyphen ∷ decimal i),
  length-take limits.stem candidate,
  length-decimal i,
)

-- The slug is taken, and so are the attempts with the numbers from `first` to `last`.
abbrev pub IsTaken : SlugLimits → (Text → Bool) → Text → ℕ → ℕ → Type 0
IsTaken limits exists candidate first last =
    (i : ℕ) → first ≤ i → i ≤ last → exists (attempt limits candidate i) ≡ true

-- The error that says that all numbers of two digits are used up.
abbrev pub IsExhausted : SlugLimits → (Text → Bool) → Text → AppError → Type 0
IsExhausted limits exists candidate e =
    (e ≡ AppError.slug_collision_exhausted)
    × (exists candidate ≡ true)
    × IsTaken limits exists candidate 2 99

-- The candidate as it is looked up first.
abbrev pub cut_slug : SlugLimits → Text → Text
cut_slug limits candidate = take limits.slug (strip (lower candidate))

module _ (limits : SlugLimits) (exists : Text → Bool) (room : limits.stem + 3 ≤ limits.slug) where
  try_numbers-IsFree :
      (candidate : Text) (rounds i : ℕ)
      → Ends
          (IsFree limits exists)
          (λ e.
            (e ≡ AppError.slug_collision_exhausted)
            × ((j : ℕ) → i ≤ j → j < i + rounds → exists (attempt limits candidate j) ≡ true))
          (try_numbers limits exists candidate rounds i)
  unfolding try_numbers
  try_numbers-IsFree candidate zero i = (refl, λ j low high. absurd (omega arith))
  try_numbers-IsFree candidate (suc rounds) i =
      elim (Bool-cases (exists (attempt limits candidate i))) [
        | inl taken ↦ rw taken (
            Ends-blame _ (try_numbers limits exists candidate rounds (i + 1))
              (λ e h. (
                h.0,
                λ j low high. elim (eq_or_ne i j) [
                  | inl same ↦ rw (← same) taken
                  | inr other ↦ h.1 j (omega arith) (omega arith)
                ],
              ))
              (try_numbers-IsFree candidate rounds (i + 1)))
        | inr free ↦ rw free (record { free = free; fits = length-attempt limits candidate i room })
      ]

  -- Where the limits leave room for a hyphen and two digits, a slug that is resolved belongs to no row
  -- and fits the column; an error is raised only where the candidate and its versions with each number
  -- from 2 to 99 belong to rows, and is then the one that says so.
  pub resolve_unique_slug-IsFree :
      (candidate : Text)
      → Ends
          (IsFree limits exists)
          (IsExhausted limits exists (cut_slug limits candidate))
          (resolve_unique_slug limits exists candidate)
  unfolding resolve_unique_slug
  resolve_unique_slug-IsFree candidate = elim (Bool-cases (exists (cut_slug limits candidate))) [
    | inl taken ↦ rw taken (
        Ends-blame _ (try_numbers limits exists (cut_slug limits candidate) 98 2)
          (λ e h. (h.0, taken, λ i low high. h.1 i low (omega arith)))
          (try_numbers-IsFree (cut_slug limits candidate) 98 2))
    | inr free ↦
        rw free (record { free = free; fits = length-take limits.slug (strip (lower candidate)) })
  ]
