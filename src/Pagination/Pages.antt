-- ===== src/Pagination/Pages.antt =====
-- A client that reads the pages of app/core/pagination.py one after the other, from the first.
use oorvashee_backend.Prelude.{ℕ, zero, suc, Bool, List, [], ◌++◌}
use oorvashee_backend.Pagination.{paginate_offset}

-- The rows of the pages from 1 to `pages`.
unfoldable pub read_pages {ℓ} : {A : Type ℓ} → Bool → ℕ → ℕ → List A → List A
read_pages include_total zero page_size rows = []
read_pages include_total (suc pages) page_size rows =
    read_pages include_total pages page_size rows
    ++ (paginate_offset include_total (suc pages) page_size rows).0
