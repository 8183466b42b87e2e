-- ===== src/Models/Catalog.antt =====
-- app/models/product.py, app/models/product_variant.py and app/models/cart.py: the columns that
-- the checkout reads. Prices are counted in paise.
use oorvashee_backend.Prelude.{ℕ, Bool, Option}
use oorvashee_backend.Models.Enums.ProductStatus.{ProductStatus}

pub record Product : Type 0 where
  pub id : ℕ
  pub status : ProductStatus
  pub base_price : ℕ
  pub published_at : Option ℕ

-- The fields of a variant that an update may change.
pub data VariantField : Type 0 where
  color fabric size price_override weight_grams is_default is_active : VariantField

pub record ProductVariant : Type 0 where
  pub id : ℕ
  pub product_id : ℕ
  pub sku : ℕ
  pub is_default : Bool
  pub is_active : Bool
  pub price_override : Option ℕ
  pub color : Option ℕ
  pub fabric : Option ℕ
  pub size : Option ℕ
  pub weight_grams : Option ℕ

-- A row of `cart_items`, by the user that owns its cart.
pub record CartItem : Type 0 where
  pub id : ℕ
  pub user_id : ℕ
  pub variant_id : ℕ
  pub quantity : ℕ
