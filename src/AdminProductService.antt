-- ===== src/AdminProductService.antt =====
-- app/services/admin_product_service.py: the lifecycle of a product. Its variants are in `Variants`; the
-- creation and the update of a product, its categories and the lists are left out.
pub mod Variants
pub mod Requests
pub mod Moves
pub mod Lifecycle
pub mod Counts
pub mod Defaults
pub mod Tidies
pub mod Updates
pub mod Kept
use oorvashee_backend.Prelude.{
  ℕ, Bool, true, false, ◌&&◌, ◌||◌, not, Option, none, some, List, [], ◌∷◌, ◌==◌,
}
use oorvashee_backend.Models.Enums.{AuditAction}
use oorvashee_backend.Models.Enums.ProductStatus
use oorvashee_backend.Models.Enums.ProductStatus.{ProductStatus}
use oorvashee_backend.Models.Catalog.{Product, ProductVariant}
use oorvashee_backend.Models.Audit.{AuditLog, Metadata}
use oorvashee_backend.Exceptions.{AppError, Result, ok, err, ◌>>=◌, ◌>>◌, raise_if, or_raise}
use oorvashee_backend.Database.{Db}
use oorvashee_backend.InventoryService.Availability.{get_product, put_product}

-- `_ADMIN_LIFECYCLE_TARGETS`.
abbrev pub is_lifecycle_target : ProductStatus → Bool
is_lifecycle_target ProductStatus.draft = true
is_lifecycle_target ProductStatus.published = true
is_lifecycle_target ProductStatus.archived = true
is_lifecycle_target ProductStatus.unavailable = false

-- `_assert_transition_allowed`.
unfoldable pub assert_transition_allowed : ProductStatus → ProductStatus → Result (Unit {0})
assert_transition_allowed current target = do
  raise_if (not (is_lifecycle_target target)) AppError.invalid_status_target
  raise_if (ProductStatus.is current target) AppError.status_unchanged
  raise_if
      (ProductStatus.is current ProductStatus.archived
        && ProductStatus.is target ProductStatus.published)
      AppError.invalid_status_transition

-- `_require_product`.
unfoldable pub require_product : ℕ → Db → Result Product
unfolding get_product
require_product id db = or_raise (get_product id db.products) AppError.not_found

-- `_has_active_variants`.
unfoldable pub has_active_variants : ℕ → List ProductVariant → Bool
has_active_variants id [] = false
has_active_variants id (v ∷ variants) =
    (v.product_id == id && v.is_active) || has_active_variants id variants

abbrev pub log_row : AuditAction → ℕ → ℕ → Metadata → AuditLog
log_row action id actor_user_id metadata = record {
  action = action;
  entity_id = id;
  actor_user_id = some actor_user_id;
  metadata = metadata;
}

-- The row is written, and its change of status recorded.
unfoldable pub change_status : ℕ → ProductStatus → Product → Db → Db
unfolding put_product
change_status actor_user_id before product db = record db {
  products = put_product product db.products;
  audits =
      log_row AuditAction.status_changed product.id actor_user_id
        (Metadata.product_status before product.status)
      ∷ db.audits;
}

-- Only the first publication sets the time.
abbrev pub first_published : ℕ → Option ℕ → Option ℕ
first_published utc_now none = some utc_now
first_published utc_now (some t) = some t

unfoldable pub publish : ℕ → ℕ → ℕ → Db → Result Db
unfolding require_product assert_transition_allowed has_active_variants change_status
publish utc_now id actor_user_id db = do
  product ← require_product id db
  assert_transition_allowed product.status ProductStatus.published
  raise_if (not (has_active_variants id db.variants)) AppError.product_has_no_variants
  ok (
      change_status actor_user_id product.status
        (record product {
          status = ProductStatus.published;
          published_at = first_published utc_now product.published_at;
        })
        db)

unfoldable pub unpublish : ℕ → ℕ → Db → Result Db
unfolding require_product assert_transition_allowed change_status
unpublish id actor_user_id db = do
  product ← require_product id db
  assert_transition_allowed product.status ProductStatus.draft
  ok (
      change_status actor_user_id product.status (record product { status = ProductStatus.draft })
        db)

unfoldable pub archive : ℕ → ℕ → Db → Result Db
unfolding require_product assert_transition_allowed change_status
archive id actor_user_id db = do
  product ← require_product id db
  assert_transition_allowed product.status ProductStatus.archived
  ok (
      change_status actor_user_id product.status
        (record product { status = ProductStatus.archived }) db)

-- Back to a draft.
unfoldable pub unarchive : ℕ → ℕ → Db → Result Db
unfolding require_product change_status
unarchive id actor_user_id db = do
  product ← require_product id db
  raise_if (not (ProductStatus.is product.status ProductStatus.archived))
      AppError.invalid_status_transition
  ok (
      change_status actor_user_id product.status (record product { status = ProductStatus.draft })
        db)
