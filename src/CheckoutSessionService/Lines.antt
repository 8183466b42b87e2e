-- ===== src/CheckoutSessionService/Lines.antt =====
-- `_load_cart_lines` of app/services/checkout_session_service.py, with the lookups of the catalogue.
use oorvashee_backend.Prelude.{
  ℕ, Bool, false, ◌&&◌, Option, none, some, List, [], ◌∷◌, ◌==◌, if◌then◌else◌,
}
use oorvashee_backend.Models.Enums.ProductStatus
use oorvashee_backend.Models.Catalog.{Product, ProductVariant, CartItem}
use oorvashee_backend.Exceptions.{AppError, Result, ok, err}
use oorvashee_backend.Database.{Db}
use oorvashee_backend.CartService.Items.{list_items}

-- `_Line`: a cart line with a variant, and whether that is active and its product published.
pub record Line : Type 0 where
  pub variant_id : ℕ
  pub quantity : ℕ
  pub buyable : Bool

unfoldable pub product_of : ℕ → List Product → Option Product
product_of p [] = none
product_of p (r ∷ rows) = if r.id == p then some r else product_of p rows

unfoldable pub variant_of : ℕ → List ProductVariant → Option ProductVariant
variant_of v [] = none
variant_of v (r ∷ rows) = if r.id == v then some r else variant_of v rows

abbrev pub is_published : Option Product → Bool
is_published none = false
is_published (some p) = ProductStatus.is p.status ProductStatus.published

abbrev line_of : List Product → CartItem → Option ProductVariant → List Line → List Line
line_of products item none lines = lines
line_of products item (some v) lines =
    record {
      variant_id = v.id;
      quantity = item.quantity;
      buyable = v.is_active && is_published (product_of v.product_id products);
    }
    ∷ lines

unfoldable pub lines_of : Db → List CartItem → List Line
unfolding product_of variant_of
lines_of db [] = []
lines_of db (item ∷ items) =
    line_of db.products item (variant_of item.variant_id db.variants) (lines_of db items)

abbrev non_empty : List Line → Result (List Line)
non_empty [] = err AppError.cart_empty
non_empty (l ∷ lines) = ok (l ∷ lines)

-- The lines come with the newest first, as the repository lists them. A user without a cart has none.
unfoldable pub load_cart_lines : ℕ → Db → Result (List Line)
unfolding lines_of list_items
load_cart_lines user_id db = non_empty (lines_of db (list_items user_id db.cart_items))
