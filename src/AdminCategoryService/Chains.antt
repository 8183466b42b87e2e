-- ===== src/AdminCategoryService/Chains.antt =====
-- What a write to the table of categories does to the chains of parents
-- (app/services/admin_category_service.py).
use oorvashee_backend.Prelude.{
  ℕ, ◌≡◌, ◌≢◌, refl, sym, ap, ◌∙◌, inl, inr, Option, none, some, List, [], ◌∷◌, ◌++◌, arith,
  eq_or_ne,
}
use oorvashee_backend.Models.Category.{Category, CategoryField}
use oorvashee_backend.Exceptions.{ok}
use oorvashee_backend.CategoryRepository.{get_category, put_category, parent_of, parent_column}
use oorvashee_backend.CategoryRepository.Descendants.{Below}
use oorvashee_backend.AdminCategoryService.{Catalogue, require_category, validate_new_parent}
use oorvashee_backend.AdminCategoryService.Forest.{
  IsForest, parent_of-put_self, parent_of-put_ne, moved-IsForest, detached-IsForest, same-Grounded,
  validated-apart, validated-found,
}
use oorvashee_backend.Schemas.Changes.{Change, changed, given}
use oorvashee_backend.AdminCategoryService.Update.{audit_diff}

pub get_category-id :
    (id : ℕ) (rows : List Category) (c : Category) → get_category id rows ≡ some c → c.id ≡ id
unfolding get_category
get_category-id id [] c h = cc
get_category-id id (q ∷ rows) c h = ground (arith, get_category-id id rows c)

pub require_category-found :
    (id : ℕ) (rows : List Category) (c : Category)
    → require_category id rows ≡ ok c
    → get_category id rows ≡ some c
unfolding require_category
require_category-found id rows c h = ground (arith)

-- The row that is written back is a row of the table, under its own id.
pub found_again :
    (id : ℕ) (rows : List Category) (c : Category)
    → require_category id rows ≡ ok c
    → get_category c.id rows ≡ some c
found_again id rows c h =
    let found = require_category-found id rows c h in
    ap (λ i. get_category i rows) (get_category-id id rows c found) ∙ found

-- A row that keeps its parent.
pub put-IsForest :
    (c d : Category) (rows : List Category)
    → get_category d.id rows ≡ some c
    → d.parent_id ≡ c.parent_id
    → IsForest rows
    → IsForest (put_category d rows)
put-IsForest c d rows found same h x =
    same-Grounded rows (put_category d rows)
      (λ y. elim (eq_or_ne d.id y) [
        | inl e ↦
            sym (ap (λ i. parent_of i (put_category d rows)) e)
            ∙ parent_of-put_self d rows (λ n. cc)
            ∙ same
            ∙ sym (ap parent_column found)
            ∙ ap (λ i. parent_of i rows) e
        | inr n ↦ parent_of-put_ne d rows y n
      ])
      (h x)

-- A row whose parent is changed the way an update may.
pub put_changed-IsForest :
    (change : Change ℕ) (c d : Category) (rows : List Category)
    → get_category d.id rows ≡ some c
    → d.parent_id ≡ changed change c.parent_id
    → validate_new_parent (given change) (some d.id) rows ≡ ok tt
    → IsForest rows
    → IsForest (put_category d rows)
unfolding validate_new_parent
put_changed-IsForest none c d rows found e v = put-IsForest c d rows found e
put_changed-IsForest (some none) c d rows found e v =
    detached-IsForest rows (put_category d rows) d.id (parent_of-put_ne d rows)
      (parent_of-put_self d rows (λ n. cc) ∙ e)
put_changed-IsForest (some (some q)) c d rows found e v =
    let (apart, above) = validated-apart q d.id rows v in
    moved-IsForest rows (put_category d rows) d.id (parent_of-put_ne d rows) q
      (parent_of-put_self d rows (λ n. cc) ∙ e) apart above

pub audit_diff-categories :
    (id actor : ℕ) (fields : List CategoryField) (t : Catalogue)
    → (audit_diff id actor fields t).categories ≡ t.categories
audit_diff-categories id actor [] t = refl
audit_diff-categories id actor (f ∷ fields) t = refl

-- A new id is an id of no row and of no row's parent.
abbrev pub IsFresh : ℕ → List Category → Type 0
IsFresh id rows = (get_category id rows ≡ none) × ((x : ℕ) → parent_of x rows ≢ some id)

pub fresh-above : (rows : List Category) (id : ℕ) {q : ℕ} → IsFresh id rows → ¬ (Below rows id q)
fresh-above rows id fresh (Below.child e) = fresh.1 _ e
fresh-above rows id fresh (Below.deeper e b) = fresh-above rows id fresh b

pub get_category-append_ne :
    (rows : List Category) (c : Category) (x : ℕ)
    → c.id ≢ x
    → get_category x (rows ++ c ∷ []) ≡ get_category x rows
unfolding get_category
get_category-append_ne [] c x n = ground (arith)
get_category-append_ne (q ∷ rows) c x n = ground (arith, get_category-append_ne rows c x n)

pub get_category-append_self :
    (rows : List Category) (c : Category)
    → get_category c.id rows ≡ none
    → get_category c.id (rows ++ c ∷ []) ≡ some c
unfolding get_category
get_category-append_self [] c n = ground (arith)
get_category-append_self (q ∷ rows) c n = ground (arith, get_category-append_self rows c)

-- A row is added under a validated parent.
pub added-IsForest :
    (rows : List Category) (c : Category) (parent : Option ℕ)
    → IsFresh c.id rows
    → c.parent_id ≡ parent
    → validate_new_parent parent none rows ≡ ok tt
    → IsForest rows
    → IsForest (rows ++ c ∷ [])
unfolding validate_new_parent
added-IsForest rows c none fresh e v =
    detached-IsForest rows (rows ++ c ∷ []) c.id
      (λ x n. ap parent_column (get_category-append_ne rows c x n))
      (ap parent_column (get_category-append_self rows c fresh.0) ∙ e)
added-IsForest rows c (some q) fresh e v =
    moved-IsForest rows (rows ++ c ∷ []) c.id
      (λ x n. ap parent_column (get_category-append_ne rows c x n)) q
      (ap parent_column (get_category-append_self rows c fresh.0) ∙ e)
      (λ same. validated-found q none rows v (ap (λ i. get_category i rows) (sym same) ∙ fresh.0))
      (fresh-above rows c.id fresh)
