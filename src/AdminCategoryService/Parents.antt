-- ===== src/AdminCategoryService/Parents.antt =====
-- `_validate_parent` of app/services/admin_category_service.py.
use oorvashee_backend.Prelude.{ℕ, ◌+◌, Option, none, some, List, leb, elem, same_id?}
use oorvashee_backend.Models.Category.{Category}
use oorvashee_backend.Exceptions.{AppError, Result, ok, ◌>>=◌, ◌>>◌, raise_if, or_raise}
use oorvashee_backend.CategoryRepository.{get_category, descendant_ids, get_depth}

abbrev pub max_depth : ℕ
max_depth = 3

-- The candidate is no descendant of the category that moves.
unfoldable pub guard_cycle : ℕ → Option ℕ → List Category → Result (Unit {0})
unfolding descendant_ids
guard_cycle candidate none rows = ok tt
guard_cycle candidate (some moving) rows = do
  descendants ← or_raise (descendant_ids moving rows) AppError.did_not_end
  raise_if (elem candidate descendants) AppError.invalid_parent_cycle

unfoldable pub validate_parent : ℕ → Option ℕ → List Category → Result (Unit {0})
unfolding guard_cycle get_category get_depth
validate_parent candidate moving rows = do
  raise_if (same_id? moving (some candidate)) AppError.invalid_parent_self
  parent ← or_raise (get_category candidate rows) AppError.parent_not_found
  raise_if parent.deleted AppError.parent_not_found
  guard_cycle candidate moving rows
  depth ← or_raise (get_depth candidate rows) AppError.did_not_end
  raise_if (leb max_depth (depth + 1)) AppError.hierarchy_depth_exceeded

-- A parent that is given is validated.
unfoldable pub validate_new_parent : Option ℕ → Option ℕ → List Category → Result (Unit {0})
unfolding validate_parent
validate_new_parent none moving rows = ok tt
validate_new_parent (some candidate) moving rows = validate_parent candidate moving rows
