-- ===== src/AdminCategoryService/Images.antt =====
-- The images of app/services/admin_category_service.py: URLs, public ids, and the
-- asset that an update lets go of.
use mathlib.Core.Path.{subst}
use oorvashee_backend.Prelude.{
  ℕ, ◌≡◌, ◌≢◌, ◌⊎◌, refl, sym, ap, ◌∙◌, inl, inr, true, false, ◌||◌, not, Option, none, some, List,
  [], ◌∷◌, ◌==◌, arith, Bool-cases, same_id?,
}
use oorvashee_backend.Models.Category.{Category}
use oorvashee_backend.Exceptions.{AppError, ok, raise_if}
use oorvashee_backend.Exceptions.Loops.{Ends, Ends-ok}
use oorvashee_backend.CategoryRepository.{get_category, put_category}
use oorvashee_backend.AdminCategoryService.{
  Catalogue, require_category, validate_new_parent, is_half,
}
use oorvashee_backend.AdminCategoryService.Chains.{
  get_category-id, require_category-found, found_again, audit_diff-categories,
}
use oorvashee_backend.Schemas.Changes.{Change, changed, given, is_set}
use oorvashee_backend.AdminCategoryService.Update.{
  AdminCategoryUpdate, Updated, check_images, changed_name, apply_changes, diff, audit_diff,
  is_no_change, swapped_public_id, update_category,
}

abbrev pub HasPair : Category → Type 0
HasPair c = is_half c.image_url c.image_public_id ≡ false

-- Each category has both halves of an image or none.
abbrev pub HasPairs : List Category → Type 0
HasPairs rows = (id : ℕ) (c : Category) → get_category id rows ≡ some c → HasPair c

get-put :
    (c : Category) (rows : List Category) (id : ℕ) (d : Category)
    → get_category id (put_category c rows) ≡ some d
    → (d ≡ c) ⊎ (get_category id rows ≡ some d)
unfolding get_category put_category
get-put c [] id d h = inr h
get-put c (q ∷ rows) id d h = ground (arith, get-put c rows id d)

put-HasPairs :
    (c : Category) (rows : List Category)
    → HasPair c
    → HasPairs rows
    → HasPairs (put_category c rows)
put-HasPairs c rows h all id d found = elim (get-put c rows id d found) [
  | inl e ↦ subst HasPair (sym e) h
  | inr old ↦ all id d old
]

-- An image that no field of the request names stays.
unchanged-is_half :
    (url id : Change ℕ) (old_url old_id : Option ℕ)
    → is_set url || is_set id ≡ false
    → is_half (changed url old_url) (changed id old_id) ≡ is_half old_url old_id
unchanged-is_half none none old_url old_id h = refl
unchanged-is_half none (some _) old_url old_id h = cc
unchanged-is_half (some _) id old_url old_id h = cc

checked-HasPair :
    (u : AdminCategoryUpdate) (c : Category) (name : List ℕ)
    → check_images u c ≡ ok tt
    → HasPair c
    → HasPair (apply_changes u name c)
checked-HasPair u c name v h = elim (Bool-cases (is_set u.image_url || is_set u.image_public_id)) [
  | inl set ↦ ground (arith)
  | inr not ↦ unchanged-is_half u.image_url u.image_public_id c.image_url c.image_public_id not ∙ h
]

given-gone :
    (change : Change ℕ) (old : Option ℕ) (p : ℕ)
    → is_set change ≡ true
    → same_id? old (given change) ≡ false
    → old ≡ some p
    → changed change old ≢ some p
given-gone none old p set other e = cc
given-gone (some none) old p set other e = λ h. cc
given-gone (some (some q)) old p set other e = λ h. ground (arith)

-- An asset is destroyed only where the row lets go of it, as far as the request gives a public id.
swapped-gone :
    (u : AdminCategoryUpdate) (c : Category) (p : ℕ)
    → swapped_public_id u c ≡ some p
    → is_set u.image_public_id ≡ true
    → changed u.image_public_id c.image_public_id ≢ some p
unfolding swapped_public_id
swapped-gone u c p h set = ground (arith, given-gone u.image_public_id c.image_public_id p)

put-found :
    (d : Category) (rows : List Category)
    → get_category d.id rows ≢ none
    → get_category d.id (put_category d rows) ≡ some d
unfolding get_category put_category
put-found d [] h = absurd (h refl)
put-found d (q ∷ rows) h = ground (arith, put-found d rows)

-- The rows have their pairs, and the asset that is destroyed is no longer the row's, where the
-- request gives a public id.
abbrev pub Releases : ℕ → AdminCategoryUpdate → Option ℕ → List Category → Type 0
Releases id u destroyed rows =
    HasPairs rows
    × ((p : ℕ) (d : Category)
        → destroyed ≡ some p
        → is_set u.image_public_id ≡ true
        → get_category id rows ≡ some d
        → d.image_public_id ≢ some p)

abbrev pub Swaps : ℕ → AdminCategoryUpdate → Updated → Type 0
Swaps id u w = Releases id u w.destroyed w.catalogue.categories

abbrev pub public_id_of : Option Category → Option ℕ
public_id_of none = none
public_id_of (some c) = c.image_public_id

update-writes :
    (u : AdminCategoryUpdate) (c : Category) (name : List ℕ) (rows : List Category)
    → get_category c.id rows ≡ some c
    → check_images u c ≡ ok tt
    → HasPairs rows
    → Releases c.id u (swapped_public_id u c) (put_category (apply_changes u name c) rows)
update-writes u c name rows found v h = (
  put-HasPairs (apply_changes u name c) rows (checked-HasPair u c name v (h c.id c found)) h,
  λ p d gone set e still. swapped-gone u c p gone set (
      sym (ap public_id_of (put-found (apply_changes u name c) rows (λ n. cc)))
      ∙ ap public_id_of e
      ∙ still),
)

-- An update keeps URL and public id in pairs, and an asset that it destroys is no longer the
-- category's, where the request gives a public id; or it raises.
pub update-Swaps :
    (id actor : ℕ) (u : AdminCategoryUpdate) (t : Catalogue)
    → HasPairs t.categories
    → Ends (Swaps id u) (λ _. Unit {0}) (update_category id actor u t)
unfolding update_category
update-Swaps id actor u t h = Ends-ok (Swaps id u) (require_category id t.categories) _ (λ c found.
    Ends-ok (Swaps id u) (raise_if (is_no_change u) AppError.invalid_request) _ (λ _ _.
      Ends-ok (Swaps id u) (validate_new_parent (given u.parent_id) (some c.id) t.categories) _
        (λ _ _. Ends-ok (Swaps id u) (check_images u c) _ (λ _ v.
          Ends-ok (Swaps id u) (changed_name u.name c.name) _ (λ name _.
            subst
              (λ i.
                Releases i u (swapped_public_id u c)
                  (audit_diff c.id actor (diff u c (apply_changes u name c)) (record t {
                    categories = put_category (apply_changes u name c) t.categories;
                  })).categories)
              (get_category-id id t.categories c (require_category-found id t.categories c found))
              (subst (Releases c.id u (swapped_public_id u c))
                (sym (
                  audit_diff-categories c.id actor (diff u c (apply_changes u name c))
                    (record t { categories = put_category (apply_changes u name c) t.categories })))
                (update-writes u c name t.categories (found_again id t.categories c found) v
                  h)))))))

-- A request that gives only a new URL: the asset of the public id that the row keeps is destroyed.
abbrev pub url_only : ℕ → AdminCategoryUpdate
url_only url = record {
  name = none;
  description = none;
  image_url = some (some url);
  image_public_id = none;
  parent_id = none;
  seo_title = none;
  seo_description = none;
}

abbrev with_url : ℕ → Category → Category
with_url url c = apply_changes (url_only url) c.name c

some-none : {c : Category} → ¬ (some c ≡ none)
some-none h = cc

abbrev url_only_result : ℕ → ℕ → Catalogue → Category → Updated
url_only_result actor url t c = record {
  catalogue =
      audit_diff c.id actor (diff (url_only url) c (apply_changes (url_only url) c.name c))
        (record t {
          categories = put_category (apply_changes (url_only url) c.name c) t.categories;
        });
  destroyed = swapped_public_id (url_only url) c;
}

pub url_only_destroys :
    (id actor url p : ℕ) (t : Catalogue) (c : Category)
    → require_category id t.categories ≡ ok c
    → c.image_public_id ≡ some p
    → (p == 0) ≡ false
    → (w : Updated) × (update_category id actor (url_only url) t ≡ ok w)
      × (w.destroyed ≡ some p)
      × (public_id_of (get_category id w.catalogue.categories) ≡ some p)
unfolding update_category is_no_change swapped_public_id validate_new_parent
url_only_destroys id actor url p t c found e nz = (
  url_only_result actor url t c,
  rw found (rw e refl),
  rw e (rw nz refl),
  ap (λ rows. public_id_of (get_category id rows))
        (audit_diff-categories c.id actor (diff (url_only url) c (with_url url c))
          (record t { categories = put_category (with_url url c) t.categories }))
      ∙ ap public_id_of (
          subst
            (λ i.
              get_category i (put_category (with_url url c) t.categories) ≡ some (with_url url c))
            (get_category-id id t.categories c (require_category-found id t.categories c found))
            (put-found (with_url url c) t.categories
              (λ n. some-none (sym (found_again id t.categories c found) ∙ n))))
      ∙ e,
)
