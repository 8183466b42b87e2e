-- ===== src/CategoryRepository.antt =====
-- app/repositories/category_repo.py: the lookups of the hierarchy. The two walks are `while` loops: they
-- are given as many rounds as the table has rows, and two more, and `none` says that these ran out.
pub mod Depth
pub mod Descendants
use oorvashee_backend.Prelude.{
  ℕ, zero, suc, ◌+◌, Bool, true, false, ◌&&◌, ◌||◌, not, Option, none, some, List, [], ◌∷◌, ◌++◌,
  ◌==◌, if◌then◌else◌, elem, length,
}
use oorvashee_backend.Prelude.{same_text}
use oorvashee_backend.Models.Category.{Category}
use oorvashee_backend.Slugs.{Text}

-- `session.get(Category, id)`.
unfoldable pub get_category : ℕ → List Category → Option Category
get_category id [] = none
get_category id (c ∷ rows) = if c.id == id then some c else get_category id rows

unfoldable pub put_category : Category → List Category → List Category
put_category c [] = []
put_category c (q ∷ rows) = if q.id == c.id then c ∷ rows else q ∷ put_category c rows

-- A deleted row still counts.
unfoldable pub slug_exists : List Category → Text → Bool
slug_exists [] slug = false
slug_exists (c ∷ rows) slug = same_text c.slug slug || slug_exists rows slug

abbrev pub parent_column : Option Category → Option ℕ
parent_column none = none
parent_column (some c) = c.parent_id

-- `select(Category.parent_id).where(Category.id == id)`: nothing where there is no row, or no parent.
abbrev pub parent_of : ℕ → List Category → Option ℕ
parent_of id rows = parent_column (get_category id rows)

-- `if current is not None: depth += 1`.
abbrev pub deeper : ℕ → Option ℕ → ℕ
deeper depth none = depth
deeper depth (some p) = depth + 1

-- `get_depth`, from the variables of its loop.
unfoldable pub depth_from : ℕ → List Category → ℕ → Option ℕ → List ℕ → Option ℕ
unfolding get_category
depth_from rounds rows depth none seen = some depth
depth_from zero rows depth (some current) seen = none
depth_from (suc rounds) rows depth (some current) seen =
    let up =
      depth_from rounds rows (deeper depth (parent_of current rows)) (parent_of current rows)
        (current ∷ seen) in
    if elem current seen then some depth else up

unfoldable pub get_depth : ℕ → List Category → Option ℕ
unfolding depth_from
get_depth id rows = depth_from (length rows + 2) rows 0 (some id) []

abbrev pub elem? : Option ℕ → List ℕ → Bool
elem? none ids = false
elem? (some p) ids = elem p ids

-- `Category.parent_id.in_(frontier)`.
abbrev pub is_child_of : List ℕ → Category → Bool
is_child_of frontier c = elem? c.parent_id frontier

-- The children of a frontier that were not met before, and are not the root.
unfoldable pub new_children : ℕ → List ℕ → List ℕ → List Category → List ℕ
new_children root result frontier [] = []
new_children root result frontier (c ∷ rows) =
    let rest = new_children root result frontier rows in
    if is_child_of frontier c && not (elem c.id result) && not (c.id == root)
    then c.id ∷ rest
    else rest

-- `descendant_ids`, from the variables of its loop; a set is a list.
unfoldable pub descend : ℕ → List Category → ℕ → List ℕ → List ℕ → Option (List ℕ)
unfolding new_children
descend rounds rows root result [] = some result
descend zero rows root result (f ∷ frontier) = none
descend (suc rounds) rows root result (f ∷ frontier) =
    let children = new_children root result (f ∷ frontier) rows in
    descend rounds rows root (children ++ result) children

unfoldable pub descendant_ids : ℕ → List Category → Option (List ℕ)
unfolding descend
descendant_ids root rows = descend (length rows + 2) rows root [] (root ∷ [])
