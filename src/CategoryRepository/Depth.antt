-- ===== src/CategoryRepository/Depth.antt =====
-- `get_depth` of app/repositories/category_repo.py: the rounds of its walk.
use oorvashee_backend.Prelude.{
  ℕ, zero, suc, ◌+◌, ◌≤◌, ◌<◌, ◌≡◌, ◌≢◌, refl, inl, inr, false, not, Option, none, some, List, [],
  ◌∷◌, arith, elem, length, count_if, Bool-cases, Option-cases,
}
use oorvashee_backend.Models.Category.{Category}
use oorvashee_backend.CategoryRepository.{get_category, parent_of, deeper, depth_from, get_depth}

-- How many rows have not been met.
abbrev pub unmet : List ℕ → List Category → ℕ
unmet seen rows = count_if (λ c. not (elem c.id seen)) rows

pub unmet-le : (seen : List ℕ) (rows : List Category) → unmet seen rows ≤ length rows
unmet-le seen [] = omega arith
unmet-le seen (c ∷ rows) = ground (arith, unmet-le seen rows)

pub unmet-more :
    (x : ℕ) (seen : List ℕ) (rows : List Category) → unmet (x ∷ seen) rows ≤ unmet seen rows
unmet-more x seen [] = omega arith
unmet-more x seen (c ∷ rows) = ground (arith, unmet-more x seen rows)

-- A row that is met for the first time.
pub unmet-found :
    (x : ℕ) (seen : List ℕ) (rows : List Category)
    → get_category x rows ≢ none
    → elem x seen ≡ false
    → unmet (x ∷ seen) rows < unmet seen rows
unfolding get_category
unmet-found x seen [] h new = absurd (h refl)
unmet-found x seen (c ∷ rows) h new =
    ground (arith, unmet-found x seen rows, unmet-more x seen rows)

depth_from_ends :
    (rounds : ℕ) (rows : List Category) (depth : ℕ) (o : Option ℕ) (seen : List ℕ)
    → unmet seen rows + 1 < rounds
    → (d : ℕ) × (depth_from rounds rows depth o seen ≡ some d)
unfolding depth_from
depth_from_ends rounds rows depth none seen h = (depth, refl)
depth_from_ends zero rows depth (some current) seen h = absurd (omega arith)
depth_from_ends (suc rounds) rows depth (some current) seen h =
    elim (Bool-cases (elem current seen)) [
      | inl met ↦ (depth, rw met refl)
      | inr new ↦ rw new (elim (Option-cases (get_category current rows)) [
        | inl gone ↦ (depth, rw gone refl)
        | inr (c, found) ↦
            depth_from_ends rounds rows (deeper depth (parent_of current rows))
              (parent_of current rows) (current ∷ seen)
              (omega (arith, unmet-found current seen rows (λ n. cc) new))
      ])
    ]

-- `get_depth` ends within as many rounds as the table has rows, and two more, even where the parents
-- of the table form a cycle.
pub get_depth_ends : (id : ℕ) (rows : List Category) → (d : ℕ) × (get_depth id rows ≡ some d)
unfolding get_depth
get_depth_ends id rows =
    depth_from_ends (length rows + 2) rows 0 (some id) [] (omega (arith, unmet-le [] rows))
