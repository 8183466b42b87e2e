-- ===== src/Pagination.antt =====
-- The pages of a listing by page number, in app/core/pagination.py. A query yields the rows in its
-- ORDER BY, the same for every page.
pub mod Pages
use oorvashee_backend.Prelude.{
  ℕ, zero, suc, ◌-◌, ◌*◌, Bool, Option, none, some, List, [], ◌∷◌, if◌then◌else◌, length,
}

-- LIMIT.
unfoldable pub first_rows {ℓ} : {A : Type ℓ} → ℕ → List A → List A
first_rows zero rows = []
first_rows (suc n) [] = []
first_rows (suc n) (r ∷ rows) = r ∷ first_rows n rows

-- OFFSET.
unfoldable pub skip_rows {ℓ} : {A : Type ℓ} → ℕ → List A → List A
skip_rows zero rows = rows
skip_rows (suc n) [] = []
skip_rows (suc n) (r ∷ rows) = skip_rows n rows

-- `(page - 1) * page_size`; a page is 1 at least.
abbrev pub offset : ℕ → ℕ → ℕ
offset page page_size = (page - 1) * page_size

-- The rows of a page, with the number of all rows where it is asked for.
unfoldable pub paginate_offset {ℓ} : {A : Type ℓ} → Bool → ℕ → ℕ → List A → List A × Option ℕ
unfolding first_rows skip_rows
paginate_offset include_total page page_size rows = (
  first_rows page_size (skip_rows (offset page page_size) rows),
  if include_total then some (length rows) else none,
)
