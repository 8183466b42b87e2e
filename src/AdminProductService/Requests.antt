-- ===== src/AdminProductService/Requests.antt =====
-- The requests on products and variants that app/services/admin_product_service.py serves.
use oorvashee_backend.Prelude.{ℕ}
use oorvashee_backend.Exceptions.{Result}
use oorvashee_backend.Database.{Db}
use oorvashee_backend.AdminProductService
use oorvashee_backend.AdminProductService.Variants
use oorvashee_backend.AdminProductService.Variants.{AdminVariantCreate, AdminVariantUpdate}

pub data ProductRequest : Type 0 where
  publish unpublish archive unarchive : (product_id : ℕ) → ProductRequest
  add_variant : (new_id product_id : ℕ) (payload : AdminVariantCreate) → ProductRequest
  update_variant : (product_id id : ℕ) (payload : AdminVariantUpdate) → ProductRequest
  deactivate_variant : (product_id id : ℕ) → ProductRequest

unfoldable pub handle_product : ℕ → ℕ → ProductRequest → Db → Result Db
handle_product utc_now actor (ProductRequest.publish id) db =
    AdminProductService.publish utc_now id actor db
handle_product utc_now actor (ProductRequest.unpublish id) db =
    AdminProductService.unpublish id actor db
handle_product utc_now actor (ProductRequest.archive id) db =
    AdminProductService.archive id actor db
handle_product utc_now actor (ProductRequest.unarchive id) db =
    AdminProductService.unarchive id actor db
handle_product utc_now actor (ProductRequest.add_variant new_id product_id payload) db =
    Variants.add_variant new_id product_id payload actor db
handle_product utc_now actor (ProductRequest.update_variant product_id id payload) db =
    Variants.update_variant product_id id payload actor db
handle_product utc_now actor (ProductRequest.deactivate_variant product_id id) db =
    Variants.deactivate_variant product_id id actor db
