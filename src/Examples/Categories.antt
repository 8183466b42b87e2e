-- ===== src/Examples/Categories.antt =====
-- The theorems on app/services/admin_category_service.py, on three categories: silk stands under sarees.
use mathlib.Core.Path.{subst}
use oorvashee_backend.Prelude.{
  ℕ, ◌≡◌, refl, inl, inr, true, false, some, none, List, [], ◌∷◌, ◌==◌, ◌||◌, arith, elem, eq_or_ne,
}
use oorvashee_backend.Models.Category.{Category, CategoryKind}
use oorvashee_backend.Exceptions.Loops.{Ends}
use oorvashee_backend.Slugs.{resolve_unique_slug}
use oorvashee_backend.Slugs.Resolved.{IsFree, IsExhausted, cut_slug, resolve_unique_slug-IsFree}
use oorvashee_backend.CategoryRepository.{get_category, slug_exists, descendant_ids}
use oorvashee_backend.CategoryRepository.Descendants.{Below, descendant_ids_ends}
use oorvashee_backend.AdminCategoryService.{Catalogue, category_slugs}
use oorvashee_backend.AdminCategoryService.Update.{AdminCategoryUpdate, update_category}
use oorvashee_backend.AdminCategoryService.Requests.{Request, handle}
use oorvashee_backend.AdminCategoryService.Forest.{Grounded, IsForest}
use oorvashee_backend.AdminCategoryService.Kept.{IsOrderly, handle-IsForest}
use oorvashee_backend.AdminCategoryService.Images.{Swaps, update-Swaps, url_only}

abbrev sarees : Category
sarees = record {
  id = 1;
  slug = b's' ∷ [];
  name = b'S' ∷ [];
  kind = CategoryKind.fabric;
  description = none;
  image_url = some 70;
  image_public_id = some 71;
  parent_id = none;
  display_order = 0;
  is_active = true;
  deleted = false;
  seo_title = none;
  seo_description = none;
}

abbrev silk : Category
silk = record sarees { id = 2; slug = b't' ∷ []; parent_id = some 1 }

abbrev cotton : Category
cotton = record sarees { id = 3; slug = b'c' ∷ []; image_url = none; image_public_id = none }

abbrev three : List Category
three = sarees ∷ silk ∷ cotton ∷ []

abbrev catalogue : Catalogue
catalogue = record { categories = three; audits = [] }

three-IsForest : IsForest three
unfolding get_category
three-IsForest x = elim (eq_or_ne 2 x) [
  | inl e ↦ subst (Grounded three) e (Grounded.under {p = 1} refl (Grounded.top refl))
  | inr n ↦ Grounded.top (ground arith)
]

-- Cotton is moved under silk.
abbrev move : AdminCategoryUpdate
move = record (url_only 72) { image_url = none; parent_id = some (some 2) }

handle-IsForest_example :
    Ends IsOrderly (λ _. Unit {0}) (handle (Request.update 3 9 move) catalogue)
handle-IsForest_example = handle-IsForest (Request.update 3 9 move) catalogue tt three-IsForest

abbrev swap : AdminCategoryUpdate
swap = record (url_only 72) { image_public_id = some (some 73) }

update-Swaps_example : Ends (Swaps 1 swap) (λ _. Unit {0}) (update_category 1 9 swap catalogue)
unfolding get_category
update-Swaps_example = update-Swaps 1 9 swap catalogue (λ id c found. ground arith)

descendant_ids_ends_example :
    (ids : List ℕ) × (descendant_ids 1 three ≡ some ids)
    × ((x : ℕ) → Below three 1 x → (elem x ids || x == 1) ≡ true)
descendant_ids_ends_example = descendant_ids_ends three 1

resolve_unique_slug-IsFree_example :
    Ends
      (IsFree category_slugs (slug_exists three))
      (IsExhausted category_slugs (slug_exists three) (cut_slug category_slugs (b's' ∷ [])))
      (resolve_unique_slug category_slugs (slug_exists three) (b's' ∷ []))
resolve_unique_slug-IsFree_example =
    resolve_unique_slug-IsFree category_slugs (slug_exists three) (omega arith) (b's' ∷ [])
