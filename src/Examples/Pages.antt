-- ===== src/Examples/Pages.antt =====
-- The theorem on app/core/pagination.py, on three rows and two pages.
use oorvashee_backend.Prelude.{ℕ, List, [], ◌∷◌}

abbrev listing : List ℕ
listing = 9 ∷ 7 ∷ 4 ∷ []
