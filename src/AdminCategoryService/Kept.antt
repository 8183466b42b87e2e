-- ===== src/AdminCategoryService/Kept.antt =====
-- What the requests of app/services/admin_category_service.py do to the hierarchy.
use mathlib.Core.Path.{subst}
use oorvashee_backend.Prelude.{
  ℕ, refl, sym, inl, inr, true, false, none, some, [], ◌∷◌, ◌++◌, ◌==◌, Bool-cases,
}
use oorvashee_backend.Exceptions.{AppError, Result, ok, ◌>>◌, raise_if}
use oorvashee_backend.Exceptions.Loops.{Ends, Ends-ok, Ends-of_ok}
use oorvashee_backend.Models.Audit.{Metadata}
use oorvashee_backend.Models.Enums.{AuditAction}
use oorvashee_backend.Slugs.{Text, resolve_unique_slug}
use oorvashee_backend.CategoryRepository.{slug_exists, put_category}
use oorvashee_backend.AdminCategoryService.{
  Catalogue, AdminCategoryCreate, create_category, new_category, audit, is_half, slug_candidate,
  category_slugs, save, require_category, validate_parent, validate_new_parent, write_order,
}
use oorvashee_backend.AdminCategoryService
use oorvashee_backend.AdminCategoryService.Forest.{IsForest}
use oorvashee_backend.Schemas.Changes.{given}
use oorvashee_backend.AdminCategoryService.Update.{
  AdminCategoryUpdate, check_images, changed_name, is_no_change, apply_changes, update_category,
  diff, Updated,
}
use oorvashee_backend.AdminCategoryService.Requests.{Request, handle}
use oorvashee_backend.AdminCategoryService.Chains.{
  found_again, put-IsForest, put_changed-IsForest, audit_diff-categories, IsFresh, added-IsForest,
}

-- What a request needs of the ids that are drawn for it.
abbrev pub Draws : Request → Catalogue → Type 0
Draws (Request.create new_id actor body) t = IsFresh new_id t.categories
Draws (Request.update id actor body) t = Unit {0}
Draws (Request.archive id actor) t = Unit {0}
Draws (Request.unarchive id actor) t = Unit {0}
Draws (Request.reorder id actor display_order) t = Unit {0}

abbrev pub IsOrderly : Catalogue → Type 0
IsOrderly t = IsForest t.categories

abbrev chosen_slug : AdminCategoryCreate → Catalogue → Result Text
chosen_slug body t =
    resolve_unique_slug category_slugs (slug_exists t.categories) (slug_candidate body)

abbrev created : ℕ → ℕ → AdminCategoryCreate → Catalogue → Text → Catalogue
created id actor body t slug = record {
  categories = t.categories ++ new_category id slug body ∷ [];
  audits = audit AuditAction.create id actor (Metadata.category_created body.parent_id) t.audits;
}

abbrev filed : ℕ → ℕ → AdminCategoryCreate → Catalogue → Text → Result Catalogue
filed id actor body t slug =
    validate_new_parent body.parent_id none t.categories >> ok (created id actor body t slug)

create-IsForest :
    (id actor : ℕ) (body : AdminCategoryCreate) (t : Catalogue)
    → IsFresh id t.categories
    → IsOrderly t
    → Ends IsOrderly (λ _. Unit {0}) (create_category id actor body t)
unfolding create_category
create-IsForest id actor body t fresh h =
    elim (Bool-cases (is_half body.image_url body.image_public_id)) [
      | inl half ↦ rw half tt
      | inr pair ↦ rw pair (
          Ends-ok {A = Text} IsOrderly (chosen_slug body t) (filed id actor body t) (λ slug free.
            Ends-ok IsOrderly (validate_new_parent body.parent_id none t.categories)
              (λ _. ok (created id actor body t slug))
              (λ u v.
                added-IsForest t.categories (new_category id slug body) body.parent_id fresh refl v
                  h)))
    ]

archive-IsForest :
    (id actor : ℕ) (t : Catalogue)
    → IsOrderly t
    → Ends IsOrderly (λ _. Unit {0}) (AdminCategoryService.archive id actor t)
unfolding AdminCategoryService.archive
archive-IsForest id actor t h = Ends-ok IsOrderly (require_category id t.categories) _ (λ c found.
    elim (Bool-cases c.is_active) [
      | inl e ↦ rw e (
          put-IsForest c (record c { is_active = false }) t.categories
            (found_again id t.categories c found) refl h)
      | inr e ↦ rw e tt
    ])

unarchive-IsForest :
    (id actor : ℕ) (t : Catalogue)
    → IsOrderly t
    → Ends IsOrderly (λ _. Unit {0}) (AdminCategoryService.unarchive id actor t)
unfolding AdminCategoryService.unarchive
unarchive-IsForest id actor t h = Ends-ok IsOrderly (require_category id t.categories) _ (λ c found.
    elim (Bool-cases c.is_active) [
      | inl e ↦ rw e tt
      | inr e ↦ rw e (
          put-IsForest c (record c { is_active = true }) t.categories
            (found_again id t.categories c found) refl h)
    ])

reorder-IsForest :
    (id display_order actor : ℕ) (t : Catalogue)
    → IsOrderly t
    → Ends IsOrderly (λ _. Unit {0}) (AdminCategoryService.reorder id display_order actor t)
unfolding AdminCategoryService.reorder write_order
reorder-IsForest id display_order actor t h =
    Ends-ok IsOrderly (require_category id t.categories) _ (λ c found.
      elim (Bool-cases (c.display_order == display_order)) [
        | inl e ↦ rw e h
        | inr e ↦ rw e (
            put-IsForest c (record c { display_order = display_order }) t.categories
              (found_again id t.categories c found) refl h)
      ])

abbrev Saves : Updated → Type 0
Saves w = IsOrderly w.catalogue

update-IsForest :
    (id actor : ℕ) (u : AdminCategoryUpdate) (t : Catalogue)
    → IsOrderly t
    → Ends Saves (λ _. Unit {0}) (update_category id actor u t)
unfolding update_category
update-IsForest id actor u t h = Ends-ok Saves (require_category id t.categories) _ (λ c found.
    Ends-ok Saves (raise_if (is_no_change u) AppError.invalid_request) _ (λ _ _.
      Ends-ok Saves (validate_new_parent (given u.parent_id) (some c.id) t.categories) _ (λ _ v.
        Ends-ok Saves (check_images u c) _ (λ _ _.
          Ends-ok Saves (changed_name u.name c.name) _ (λ name _.
            subst IsForest
              (sym (
                audit_diff-categories c.id actor (diff u c (apply_changes u name c))
                  (record t { categories = put_category (apply_changes u name c) t.categories })))
              (put_changed-IsForest u.parent_id c (apply_changes u name c) t.categories
                (found_again id t.categories c found) refl v h))))))

-- The requests of the administration keep the categories a forest: the chain of parents of every
-- category ends, where the ids that are drawn are fresh; or they raise.
pub handle-IsForest :
    (request : Request) (t : Catalogue)
    → Draws request t
    → IsOrderly t
    → Ends IsOrderly (λ _. Unit {0}) (handle request t)
unfolding handle
handle-IsForest (Request.create new_id actor body) t fresh h =
    create-IsForest new_id actor body t fresh h
handle-IsForest (Request.update id actor body) t _ h =
    Ends-ok IsOrderly (update_category id actor body t) _ (λ w done.
      Ends-of_ok Saves (λ _. Unit {0}) (update_category id actor body t) w
        (update-IsForest id actor body t h) done)
handle-IsForest (Request.archive id actor) t _ h = archive-IsForest id actor t h
handle-IsForest (Request.unarchive id actor) t _ h = unarchive-IsForest id actor t h
handle-IsForest (Request.reorder id actor display_order) t _ h =
    reorder-IsForest id display_order actor t h
