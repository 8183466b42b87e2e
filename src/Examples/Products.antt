-- ===== src/Examples/Products.antt =====
-- The theorems on app/services/admin_product_service.py, on the example shop.
use oorvashee_backend.Prelude.{refl, true, none, some}
use oorvashee_backend.Exceptions.Loops.{Ends}
use oorvashee_backend.AdminProductService.Variants.{AdminVariantCreate, defaults_unique}
use oorvashee_backend.AdminProductService.Requests.{ProductRequest, handle_product}
use oorvashee_backend.AdminProductService.Moves.{Moves}
use oorvashee_backend.AdminProductService.Lifecycle.{handle_product-Moves}
use oorvashee_backend.AdminProductService.Defaults.{brings_taken_sku}
use oorvashee_backend.AdminProductService.Tidies.{Tidies}
use oorvashee_backend.AdminProductService.Kept.{handle_product-Tidies}
use oorvashee_backend.Examples.{shop}

-- A second variant, which becomes the default one.
abbrev red : AdminVariantCreate
red = record {
  sku = 502;
  color = some 3;
  fabric = none;
  size = none;
  price_override = none;
  weight_grams = none;
  is_default = true;
  is_active = true;
  initial_stock = 4;
  low_stock_threshold = 2;
}

handle_product-Moves_example :
    Ends (Moves shop) (λ _. Unit {0}) (handle_product 101 9 (ProductRequest.unpublish 20) shop)
handle_product-Moves_example = handle_product-Moves 101 9 (ProductRequest.unpublish 20) shop

handle_product-Tidies_example :
    Tidies
      (brings_taken_sku (ProductRequest.add_variant 2 20 red) shop)
      (handle_product 101 9 (ProductRequest.add_variant 2 20 red) shop)
unfolding defaults_unique
handle_product-Tidies_example =
    handle_product-Tidies 101 9 (ProductRequest.add_variant 2 20 red) shop (refl, tt) refl
