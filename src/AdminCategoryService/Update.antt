-- ===== src/AdminCategoryService/Update.antt =====
-- `update_category` of app/services/admin_category_service.py.
use oorvashee_backend.Prelude.{
  ℕ, Bool, true, false, ◌&&◌, ◌||◌, not, Option, none, some, List, [], ◌∷◌, ◌==◌, if◌then◌else◌,
  same_id?,
}
use oorvashee_backend.Prelude.{same_text}
use oorvashee_backend.Models.Enums.{AuditAction}
use oorvashee_backend.Models.Category.{Category, CategoryField}
use oorvashee_backend.Models.Audit.{Metadata}
use oorvashee_backend.Exceptions.{AppError, Result, ok, err, ◌>>=◌, ◌>>◌, raise_if}
use oorvashee_backend.Schemas.Changes.{Change, is_set, changed, given}
use oorvashee_backend.Slugs.{Text}
use oorvashee_backend.CategoryRepository.{put_category}
use oorvashee_backend.AdminCategoryService.{
  Catalogue, audit, require_category, validate_new_parent, strip_spaces, is_half,
}

pub record AdminCategoryUpdate : Type 0 where
  pub name : Change Text
  pub description : Change ℕ
  pub image_url : Change ℕ
  pub image_public_id : Change ℕ
  pub parent_id : Change ℕ
  pub seo_title : Change ℕ
  pub seo_description : Change ℕ

unfoldable pub is_no_change : AdminCategoryUpdate → Bool
is_no_change u =
    not (is_set u.name)
    && not (is_set u.description)
    && not (is_set u.image_url)
    && not (is_set u.image_public_id)
    && not (is_set u.parent_id)
    && not (is_set u.seo_title)
    && not (is_set u.seo_description)

-- The image's public id, where it is not an empty text.
abbrev pub truthy : Option ℕ → Bool
truthy none = false
truthy (some n) = not (n == 0)

-- The asset whose removal is scheduled.
unfoldable pub swapped_public_id : AdminCategoryUpdate → Category → Option ℕ
swapped_public_id u c =
    if (is_set u.image_url || is_set u.image_public_id)
      && truthy c.image_public_id
      && not (same_id? c.image_public_id (given u.image_public_id))
    then c.image_public_id
    else none

abbrev pub check_images : AdminCategoryUpdate → Category → Result (Unit {0})
check_images u c =
    raise_if
      ((is_set u.image_url || is_set u.image_public_id)
        && is_half (changed u.image_url c.image_url) (changed u.image_public_id c.image_public_id))
      AppError.image_pair_inconsistent

-- A name that is given as null violates the column.
abbrev pub changed_name : Change Text → Text → Result Text
changed_name none old = ok old
changed_name (some none) old = err AppError.not_null_violation
changed_name (some (some name)) old = ok (strip_spaces name)

abbrev pub apply_changes : AdminCategoryUpdate → Text → Category → Category
apply_changes u name c = record c {
  name = name;
  description = changed u.description c.description;
  image_url = changed u.image_url c.image_url;
  image_public_id = changed u.image_public_id c.image_public_id;
  parent_id = changed u.parent_id c.parent_id;
  seo_title = changed u.seo_title c.seo_title;
  seo_description = changed u.seo_description c.seo_description;
}

abbrev pub field_if : Bool → CategoryField → List CategoryField → List CategoryField
field_if true field fields = field ∷ fields
field_if false field fields = fields

-- The fields of the request whose value in the snapshot has changed.
unfoldable pub diff : AdminCategoryUpdate → Category → Category → List CategoryField
diff u before after =
    field_if (is_set u.name && not (same_text before.name after.name)) CategoryField.name (
      field_if (is_set u.description && not (same_id? before.description after.description))
        CategoryField.description
        (field_if (is_set u.image_url && not (same_id? before.image_url after.image_url))
          CategoryField.image_url
          (field_if
            (is_set u.image_public_id
              && not (same_id? before.image_public_id after.image_public_id))
            CategoryField.image_public_id
            (field_if (is_set u.parent_id && not (same_id? before.parent_id after.parent_id))
              CategoryField.parent_id
              (field_if (is_set u.seo_title && not (same_id? before.seo_title after.seo_title))
                CategoryField.seo_title
                (field_if
                  (is_set u.seo_description
                    && not (same_id? before.seo_description after.seo_description))
                  CategoryField.seo_description []))))))

abbrev pub audit_diff : ℕ → ℕ → List CategoryField → Catalogue → Catalogue
audit_diff id actor [] t = t
audit_diff id actor (f ∷ fields) t = record t {
  audits = audit AuditAction.update id actor (Metadata.category_changed (f ∷ fields)) t.audits;
}

-- What is saved, and the asset that is destroyed when it is.
pub record Updated : Type 0 where
  pub catalogue : Catalogue
  pub destroyed : Option ℕ

unfoldable pub update_category : ℕ → ℕ → AdminCategoryUpdate → Catalogue → Result Updated
unfolding require_category is_no_change validate_new_parent swapped_public_id put_category diff
    strip_spaces
update_category id actor u t = do
  c ← require_category id t.categories
  raise_if (is_no_change u) AppError.invalid_request
  validate_new_parent (given u.parent_id) (some c.id) t.categories
  check_images u c
  name ← changed_name u.name c.name
  let after = apply_changes u name c
  ok (record {
    catalogue =
        audit_diff c.id actor (diff u c after)
          (record t { categories = put_category after t.categories });
    destroyed = swapped_public_id u c;
  })
