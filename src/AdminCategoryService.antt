-- ===== src/AdminCategoryService.antt =====
-- app/services/admin_category_service.py: the operations on the categories. The update is in `Update`.
mod Parents
mod Fields
pub mod Update
pub mod Requests
pub mod Forest
pub mod Chains
pub mod Kept
pub mod Images
unfoldable pub use Parents.*
unfoldable pub use Fields.*
use oorvashee_backend.Prelude.{
  ℕ, Bool, true, false, ◌||◌, not, Option, none, some, List, [], ◌∷◌, ◌++◌, ◌==◌, if◌then◌else◌,
}
use oorvashee_backend.Models.Enums.{AuditAction}
use oorvashee_backend.Models.Category.{Category, CategoryKind}
use oorvashee_backend.Models.Audit.{AuditLog, Metadata}
use oorvashee_backend.Exceptions.{AppError, Result, ok, err, ◌>>=◌, ◌>>◌, raise_if, or_raise}
use oorvashee_backend.Slugs.{Text, SlugLimits, slugify, resolve_unique_slug, or_else}
use oorvashee_backend.CategoryRepository.{get_category, put_category, slug_exists}

pub record AdminCategoryCreate : Type 0 where
  pub name : Text
  pub kind : CategoryKind
  pub slug : Option Text
  pub description : Option ℕ
  pub image_url : Option ℕ
  pub image_public_id : Option ℕ
  pub parent_id : Option ℕ
  pub display_order : ℕ
  pub seo_title : Option ℕ
  pub seo_description : Option ℕ
  pub is_active : Bool

-- The limits of a category's slug.
abbrev pub category_slugs : SlugLimits
category_slugs = record {
  slug = 160;
  stem = 156;
  fallback = b'c' ∷ b'a' ∷ b't' ∷ b'e' ∷ b'g' ∷ b'o' ∷ b'r' ∷ b'y' ∷ [];
}

-- `body.slug or _slugify(body.name)`.
abbrev pub slug_candidate : AdminCategoryCreate → Text
slug_candidate body = elim body.slug [
  | none ↦ slugify category_slugs body.name
  | some slug ↦ or_else slug (slugify category_slugs body.name)
]

-- The two tables that the service writes; the newest audit row stands first.
pub record Catalogue : Type 0 where
  pub categories : List Category
  pub audits : List AuditLog

abbrev pub audit : AuditAction → ℕ → ℕ → Metadata → List AuditLog → List AuditLog
audit action id actor metadata audits =
    record { action = action; entity_id = id; actor_user_id = some actor; metadata = metadata }
    ∷ audits

abbrev pub new_category : ℕ → Text → AdminCategoryCreate → Category
new_category id slug body = record {
  id = id;
  slug = slug;
  name = strip_spaces body.name;
  kind = body.kind;
  description = body.description;
  image_url = body.image_url;
  image_public_id = body.image_public_id;
  parent_id = body.parent_id;
  display_order = body.display_order;
  is_active = body.is_active;
  deleted = false;
  seo_title = body.seo_title;
  seo_description = body.seo_description;
}

-- The schema refuses an image of which only one half is given.
unfoldable pub create_category : ℕ → ℕ → AdminCategoryCreate → Catalogue → Result Catalogue
unfolding slugify resolve_unique_slug slug_exists validate_new_parent strip_spaces
create_category new_id actor body t = do
  raise_if (is_half body.image_url body.image_public_id) AppError.invalid_request
  slug ← resolve_unique_slug category_slugs (slug_exists t.categories) (slug_candidate body)
  validate_new_parent body.parent_id none t.categories
  ok (record {
    categories = t.categories ++ new_category new_id slug body ∷ [];
    audits =
        audit AuditAction.create new_id actor (Metadata.category_created body.parent_id) t.audits;
  })

-- A category that is there and not deleted.
unfoldable pub require_category : ℕ → List Category → Result Category
unfolding get_category
require_category id rows = do
  c ← or_raise (get_category id rows) AppError.not_found
  raise_if c.deleted AppError.not_found
  ok c

abbrev pub save : Category → AuditAction → ℕ → Metadata → Catalogue → Catalogue
save c action actor metadata t = record {
  categories = put_category c t.categories;
  audits = audit action c.id actor metadata t.audits;
}

unfoldable pub archive : ℕ → ℕ → Catalogue → Result Catalogue
unfolding require_category put_category
archive id actor t = do
  c ← require_category id t.categories
  raise_if (not c.is_active) AppError.status_unchanged
  ok (
      save (record c { is_active = false }) AuditAction.status_changed actor
        (Metadata.category_active true false) t)

unfoldable pub unarchive : ℕ → ℕ → Catalogue → Result Catalogue
unfolding require_category put_category
unarchive id actor t = do
  c ← require_category id t.categories
  raise_if c.is_active AppError.status_unchanged
  ok (
      save (record c { is_active = true }) AuditAction.status_changed actor
        (Metadata.category_active false true) t)

unfoldable pub write_order : Category → ℕ → ℕ → Catalogue → Result Catalogue
unfolding put_category
write_order c display_order actor t =
    if c.display_order == display_order
    then ok t
    else ok (
        save (record c { display_order = display_order }) AuditAction.update actor
          (Metadata.category_order c.display_order display_order) t)

unfoldable pub reorder : ℕ → ℕ → ℕ → Catalogue → Result Catalogue
unfolding require_category write_order
reorder id display_order actor t = do
  c ← require_category id t.categories
  write_order c display_order actor t
