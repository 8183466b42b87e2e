-- ===== src/AdminProductService/Variants.antt =====
-- The variants of app/services/admin_product_service.py. Colour, fabric and size are numbers, and so is
-- a SKU, which stands for the stripped text.
use oorvashee_backend.Prelude.{
  ℕ, Bool, true, false, ◌&&◌, ◌||◌, not, Option, none, some, List, [], ◌∷◌, ◌++◌, ◌==◌,
  if◌then◌else◌, same_id?,
}
use oorvashee_backend.Prelude.Int.{pos}
use oorvashee_backend.Models.Enums.{AuditAction}
use oorvashee_backend.Models.Catalog.{ProductVariant, VariantField}
use oorvashee_backend.Models.Stock.{Inventory, Stock}
use oorvashee_backend.Models.Audit.{Metadata}
use oorvashee_backend.Exceptions.{AppError, Result, ok, err, ◌>>=◌, ◌>>◌, raise_if}
use oorvashee_backend.Schemas.Changes.{Change, is_set, changed, given}
use oorvashee_backend.Database.{Db}
use oorvashee_backend.InventoryService.{flush}
use oorvashee_backend.AdminProductService.{require_product, log_row}

pub record AdminVariantCreate : Type 0 where
  pub sku : ℕ
  pub color : Option ℕ
  pub fabric : Option ℕ
  pub size : Option ℕ
  pub price_override : Option ℕ
  pub weight_grams : Option ℕ
  pub is_default : Bool
  pub is_active : Bool
  pub initial_stock : ℕ
  pub low_stock_threshold : ℕ

pub record AdminVariantUpdate : Type 0 where
  pub color : Change ℕ
  pub fabric : Change ℕ
  pub size : Change ℕ
  pub price_override : Change ℕ
  pub weight_grams : Change ℕ
  pub is_default : Change Bool
  pub is_active : Change Bool

-- The partial unique index: one default variant of a product at most.
unfoldable pub has_default : ℕ → List ProductVariant → Bool
has_default id [] = false
has_default id (v ∷ variants) = (v.product_id == id && v.is_default) || has_default id variants

unfoldable pub defaults_unique : List ProductVariant → Bool
unfolding has_default
defaults_unique [] = true
defaults_unique (v ∷ variants) =
    not (v.is_default && has_default v.product_id variants) && defaults_unique variants

unfoldable pub sku_taken : ℕ → List ProductVariant → Bool
sku_taken sku [] = false
sku_taken sku (v ∷ variants) = v.sku == sku || sku_taken sku variants

-- `_clear_default_on_other_variants`.
unfoldable pub clear_default : ℕ → List ProductVariant → List ProductVariant
clear_default id [] = []
clear_default id (v ∷ variants) =
    (if v.product_id == id && v.is_default then record v { is_default = false } else v)
    ∷ clear_default id variants

abbrev pub clear_default_if : Bool → ℕ → List ProductVariant → List ProductVariant
clear_default_if true id variants = clear_default id variants
clear_default_if false id variants = variants

-- `_require_variant`: of the product.
unfoldable pub require_variant : ℕ → ℕ → List ProductVariant → Result ProductVariant
require_variant product_id id [] = err AppError.not_found
require_variant product_id id (v ∷ variants) =
    if v.id == id && v.product_id == product_id
    then ok v
    else require_variant product_id id variants

unfoldable pub put_variant : ProductVariant → List ProductVariant → List ProductVariant
put_variant v [] = []
put_variant v (w ∷ variants) = if w.id == v.id then v ∷ variants else w ∷ put_variant v variants

abbrev pub new_variant : ℕ → ℕ → AdminVariantCreate → ProductVariant
new_variant new_id product_id payload = record {
  id = new_id;
  product_id = product_id;
  sku = payload.sku;
  is_default = payload.is_default;
  is_active = payload.is_active;
  price_override = payload.price_override;
  color = payload.color;
  fabric = payload.fabric;
  size = payload.size;
  weight_grams = payload.weight_grams;
}

abbrev pub new_inventory : ℕ → AdminVariantCreate → Inventory
new_inventory new_id payload = record {
  variant_id = new_id;
  stock = pos payload.initial_stock;
  reserved = pos 0;
  low_stock_threshold = payload.low_stock_threshold;
  sold_quantity = 0;
}

-- Any constraint that the new row violates is taken for its SKU's.
unfoldable pub insert_variant : ProductVariant → List ProductVariant → Result (List ProductVariant)
unfolding sku_taken defaults_unique
insert_variant v variants =
    if sku_taken v.sku variants || not (defaults_unique (variants ++ v ∷ []))
    then err AppError.sku_already_exists
    else ok (variants ++ v ∷ [])

abbrev pub with_inventory : Inventory → Stock → Stock
with_inventory inv stock = record stock { inventory = stock.inventory ++ inv ∷ [] }

-- `_create_variant`. The variants are those that the transaction has left so far.
unfoldable pub create_variant : ℕ → ℕ → AdminVariantCreate → Db → Result Db
unfolding insert_variant flush
create_variant new_id product_id payload db = do
  variants ← insert_variant (new_variant new_id product_id payload) db.variants
  stock ← flush (with_inventory (new_inventory new_id payload) db.stock)
  ok (record db { variants = variants; stock = stock })

unfoldable pub add_variant : ℕ → ℕ → AdminVariantCreate → ℕ → Db → Result Db
unfolding require_product clear_default create_variant
add_variant new_id product_id payload actor_user_id db = do
  product ← require_product product_id db
  after ←
      create_variant new_id product.id payload
        (record db { variants = clear_default_if payload.is_default product.id db.variants })
  ok (record after {
    audits =
        log_row AuditAction.create new_id actor_user_id
          (Metadata.variant_created product.id payload.sku payload.initial_stock)
        ∷ after.audits;
  })

abbrev pub is_no_change : AdminVariantUpdate → Bool
is_no_change u =
    not (is_set u.color)
    && not (is_set u.fabric)
    && not (is_set u.size)
    && not (is_set u.price_override)
    && not (is_set u.weight_grams)
    && not (is_set u.is_default)
    && not (is_set u.is_active)

-- A flag that is given as null violates its column.
abbrev pub changed_flag : Change Bool → Bool → Result Bool
changed_flag none old = ok old
changed_flag (some none) old = err AppError.not_null_violation
changed_flag (some (some flag)) old = ok flag

-- `changes.get("is_default") is True`.
abbrev pub is_true : Option Bool → Bool
is_true none = false
is_true (some flag) = flag

abbrev pub apply_changes : AdminVariantUpdate → Bool → Bool → ProductVariant → ProductVariant
apply_changes u is_default is_active v = record v {
  color = changed u.color v.color;
  fabric = changed u.fabric v.fabric;
  size = changed u.size v.size;
  price_override = changed u.price_override v.price_override;
  weight_grams = changed u.weight_grams v.weight_grams;
  is_default = is_default;
  is_active = is_active;
}

abbrev pub differs : Bool → Bool → Bool
differs a b = (a && not b) || (b && not a)

abbrev pub variant_field_if : Bool → VariantField → List VariantField → List VariantField
variant_field_if true field fields = field ∷ fields
variant_field_if false field fields = fields

-- The fields whose value has changed; one that the request does not give stays.
unfoldable pub variant_diff : ProductVariant → ProductVariant → List VariantField
variant_diff before after =
    variant_field_if (not (same_id? before.color after.color)) VariantField.color (
      variant_field_if (not (same_id? before.fabric after.fabric)) VariantField.fabric (
        variant_field_if (not (same_id? before.size after.size)) VariantField.size (
          variant_field_if (not (same_id? before.price_override after.price_override))
            VariantField.price_override
            (variant_field_if (not (same_id? before.weight_grams after.weight_grams))
              VariantField.weight_grams
              (variant_field_if (differs before.is_default after.is_default) VariantField.is_default
                (variant_field_if (differs before.is_active after.is_active) VariantField.is_active
                  []))))))

abbrev pub audit_variant : ℕ → ℕ → ℕ → List VariantField → Db → Db
audit_variant id product_id actor_user_id [] db = db
audit_variant id product_id actor_user_id (f ∷ fields) db = record db {
  audits =
      log_row AuditAction.update id actor_user_id (Metadata.variant_changed product_id (f ∷ fields))
      ∷ db.audits;
}

-- The flush of the variants' rows, under the partial unique index.
unfoldable pub flush_variants : List ProductVariant → Result (List ProductVariant)
unfolding defaults_unique
flush_variants variants =
    if defaults_unique variants then ok variants else err AppError.unique_violation

-- A variant that becomes the default one is the only one.
abbrev pub cleared_for :
    ℕ → AdminVariantUpdate → ProductVariant → List ProductVariant → List ProductVariant
cleared_for product_id u v variants =
    clear_default_if (is_true (given u.is_default) && not v.is_default) product_id variants

unfoldable pub update_variant : ℕ → ℕ → AdminVariantUpdate → ℕ → Db → Result Db
unfolding require_variant clear_default put_variant flush_variants variant_diff
update_variant product_id id u actor_user_id db = do
  v ← require_variant product_id id db.variants
  raise_if (is_no_change u) AppError.invalid_request
  is_default ← changed_flag u.is_default v.is_default
  is_active ← changed_flag u.is_active v.is_active
  let after = apply_changes u is_default is_active v
  variants ← flush_variants (put_variant after (cleared_for product_id u v db.variants))
  ok (
      audit_variant v.id product_id actor_user_id (variant_diff v after)
        (record db { variants = variants }))

abbrev pub deactivated : ProductVariant → ProductVariant
deactivated v = record v { is_active = false; is_default = false }

-- A variant that is already inactive is left alone.
abbrev pub deactivate_found : ℕ → ℕ → ProductVariant → Db → Result Db
deactivate_found product_id actor_user_id v db =
    if v.is_active
    then (flush_variants (put_variant (deactivated v) db.variants) >>= λ variants. ok (record db {
      variants = variants;
      audits =
          log_row AuditAction.update v.id actor_user_id (Metadata.variant_deactivated product_id)
          ∷ db.audits;
    }))
    else ok db

unfoldable pub deactivate_variant : ℕ → ℕ → ℕ → Db → Result Db
unfolding require_variant flush_variants put_variant
deactivate_variant product_id id actor_user_id db = do
  v ← require_variant product_id id db.variants
  deactivate_found product_id actor_user_id v db
