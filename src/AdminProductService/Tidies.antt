-- ===== src/AdminProductService/Tidies.antt =====
-- The default variant under the requests that app/services/admin_product_service.py serves.
use mathlib.Core.Path.{subst}
use oorvashee_backend.Prelude.{ℕ, ◌≡◌, refl, sym, Bool, true, false, List, arith}
use oorvashee_backend.Models.Catalog.{Product, ProductVariant}
use oorvashee_backend.Exceptions.{AppError, Result, ok, err}
use oorvashee_backend.Exceptions.Loops.{Ends, Ends-then, Ends-of_err, Ends-of_ok}
use oorvashee_backend.Database.{Db}
use oorvashee_backend.InventoryService.{flush}
use oorvashee_backend.AdminProductService.{require_product}
use oorvashee_backend.AdminProductService.Counts.{
  default_count, unique-count, count_unique, clear-count, clear-sku,
}
use oorvashee_backend.AdminProductService.Variants.{
  AdminVariantCreate, create_variant, add_variant, insert_variant, new_variant, new_inventory,
  with_inventory, clear_default_if, clear_default, defaults_unique, sku_taken,
}
use oorvashee_backend.AdminProductService.Defaults.{
  HasOneDefault, Blames, insert_variant_unique, flush-Blames,
}

-- What a request leaves of the variants, and what it raises.
abbrev pub Tidies : Bool → Result Db → Type 0
Tidies taken r = Ends HasOneDefault (Blames taken) r

pub create_variant-Tidies :
    (new_id product_id : ℕ) (payload : AdminVariantCreate) (db : Db)
    → (payload.is_default ≡ true → default_count product_id db.variants ≡ 0)
    → HasOneDefault db
    → Tidies (sku_taken payload.sku db.variants) (create_variant new_id product_id payload db)
unfolding create_variant
create_variant-Tidies new_id product_id payload db new u =
    Ends-then HasOneDefault (Blames (sku_taken payload.sku db.variants))
      (insert_variant (new_variant new_id product_id payload) db.variants) _
      (λ e.
        Ends-of_err (λ rows. defaults_unique rows ≡ true)
          (Blames (sku_taken payload.sku db.variants)) _ e
          (insert_variant_unique (new_variant new_id product_id payload) db.variants new u))
      (λ variants h.
        Ends-then HasOneDefault (Blames (sku_taken payload.sku db.variants))
          (flush (with_inventory (new_inventory new_id payload) db.stock))
          (λ stock. ok (record db { variants = variants; stock = stock }))
          (flush-Blames (sku_taken payload.sku db.variants)
            (with_inventory (new_inventory new_id payload) db.stock))
          (λ stock _.
            Ends-of_ok (λ rows. defaults_unique rows ≡ true)
              (Blames (sku_taken payload.sku db.variants)) _ variants
              (insert_variant_unique (new_variant new_id product_id payload) db.variants new u) h))

pub clear_unique :
    (id : ℕ) (variants : List ProductVariant)
    → defaults_unique variants ≡ true
    → defaults_unique (clear_default id variants) ≡ true
clear_unique id variants u =
    count_unique (clear_default id variants)
      (λ p. ground (arith, clear-count id p variants, unique-count variants u p))

pub cleared-none :
    (id : ℕ) (variants : List ProductVariant) → default_count id (clear_default id variants) ≡ 0
cleared-none id variants = ground (arith, clear-count id id variants)

-- A guard's error is nobody's violation.
pub not_found-Blames : (taken : Bool) → Blames taken AppError.not_found
not_found-Blames taken = ((λ e. cc), (λ e. cc))

pub require_product-Blames :
    (taken : Bool) (id : ℕ) (db : Db) (e : AppError)
    → require_product id db ≡ err e
    → Blames taken e
unfolding require_product
require_product-Blames taken id db e h = subst (Blames taken) (sym missing) (not_found-Blames taken)
  where
    missing : e ≡ AppError.not_found
    missing = ground (arith)

-- What clearing leaves, where a new default is to come.
pub cleared_if :
    (flag : Bool) (id sku : ℕ) (variants : List ProductVariant)
    → defaults_unique variants ≡ true
    → (defaults_unique (clear_default_if flag id variants) ≡ true)
      × (flag ≡ true → default_count id (clear_default_if flag id variants) ≡ 0)
      × (sku_taken sku (clear_default_if flag id variants) ≡ sku_taken sku variants)
cleared_if true id sku variants u =
    (clear_unique id variants u, (λ _. cleared-none id variants), clear-sku id sku variants)
cleared_if false id sku variants u = (u, (λ h. cc), refl)

pub add_variant-Tidies :
    (new_id product_id actor : ℕ) (payload : AdminVariantCreate) (db : Db)
    → HasOneDefault db
    → Tidies (sku_taken payload.sku db.variants) (add_variant new_id product_id payload actor db)
unfolding add_variant
add_variant-Tidies new_id product_id actor payload db u =
    Ends-then HasOneDefault (Blames taken) (require_product product_id db) _
      (require_product-Blames taken product_id db)
      (λ product _.
        Ends-then HasOneDefault (Blames taken)
          (create_variant new_id product.id payload (cleared product)) _
          (λ e. Ends-of_err HasOneDefault (Blames taken) _ e (created product))
          (λ after. Ends-of_ok HasOneDefault (Blames taken) _ after (created product)))
  where
    taken : Bool
    taken = sku_taken payload.sku db.variants

    cleared : Product → Db
    cleared product = record db {
      variants = clear_default_if payload.is_default product.id db.variants;
    }

    created :
        (product : Product)
        → Tidies taken (create_variant new_id product.id payload (cleared product))
    created product =
        let (unique, none_left, same) =
          cleared_if payload.is_default product.id payload.sku db.variants u in
        subst (λ t. Tidies t (create_variant new_id product.id payload (cleared product))) same
          (create_variant-Tidies new_id product.id payload (cleared product) none_left unique)
