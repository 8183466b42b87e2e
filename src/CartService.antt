-- ===== src/CartService.antt =====
-- app/services/cart_service.py, with the queries of app/repositories/cart_repo.py. A cart is a row of
-- `carts` with its owner's id, and its lines are the owner's rows of `cart_items`. A variant has its
-- product, by a foreign key. The texts and the images of a line are left out.
pub mod Items
pub mod Merge
pub mod Requests
pub mod Uniqueness
pub mod Kept
pub mod Bounds
unfoldable pub use Items.*
use oorvashee_backend.Prelude.{
  ℕ, ◌+◌, ◌*◌, Bool, true, false, ◌&&◌, ◌||◌, not, Option, none, some, List, [], ◌∷◌, ◌++◌, ltb,
  leb, ◌==◌, map, if◌then◌else◌, keep_if, elem,
}
use oorvashee_backend.Prelude.Int.{ℤ, pos, ◌-ℤ◌, pos_part}
use oorvashee_backend.Models.Stock.{Inventory}
use oorvashee_backend.Models.Checkout.{CheckoutSession}
use oorvashee_backend.Models.Catalog.{Product, ProductVariant, CartItem}
use oorvashee_backend.Exceptions.{AppError, Result, ok, err, ◌>>=◌, ◌>>◌, raise_if, or_raise}
use oorvashee_backend.Database.{Db}
use oorvashee_backend.InventoryService.{inventory_of}
use oorvashee_backend.ReservationRepository.{
  active_reserved_for_variant, get_active_session_for_user,
}
use oorvashee_backend.CheckoutSessionService.{variant_of, product_of, is_published}

abbrev session_id_of : Option CheckoutSession → Option ℕ
session_id_of none = none
session_id_of (some s) = some s.id

-- One entry of `_reserved_map`: what the active reservations hold, but for the user's own.
unfoldable pub reserved_for : ℕ → ℕ → ℕ → Db → ℕ
unfolding active_reserved_for_variant get_active_session_for_user
reserved_for now user_id v db =
    active_reserved_for_variant now
      (session_id_of (get_active_session_for_user user_id db.sessions)) v db.reservations

-- `_available`: 0 without a row of the inventory.
abbrev pub available_of : Option Inventory → ℕ → ℕ
available_of none reserved = 0
available_of (some inv) reserved = pos_part (inv.stock -ℤ pos reserved)

unfoldable pub available : ℕ → ℕ → ℕ → Db → ℕ
unfolding reserved_for inventory_of
available now user_id v db =
    available_of (inventory_of v db.stock.inventory) (reserved_for now user_id v db)

pub record CartItemRead : Type 0 where
  pub id : ℕ
  pub variant_id : ℕ
  pub product_id : ℕ
  pub unit_price : ℕ
  pub quantity : ℕ
  pub line_total : ℕ
  pub available : Bool
  pub max_quantity : ℕ

pub record CartRead : Type 0 where
  pub exists : Bool
  pub items : List CartItemRead
  pub item_count : ℕ
  pub distinct_count : ℕ
  pub subtotal : ℕ
  pub has_unavailable_items : Bool

abbrev pub empty_cart : Bool → CartRead
empty_cart exists = record {
  exists = exists;
  items = [];
  item_count = 0;
  distinct_count = 0;
  subtotal = 0;
  has_unavailable_items = false;
}

-- `variant.price_override or product.base_price`: an override of 0 counts as none.
abbrev pub price_of : Option ℕ → Option Product → ℕ
price_of none none = 0
price_of none (some p) = p.base_price
price_of (some n) none = n
price_of (some n) (some p) = if n == 0 then p.base_price else n

unfoldable pub serialize_item : ℕ → ℕ → Db → CartItem → ProductVariant → CartItemRead
unfolding available product_of
serialize_item now user_id db item variant =
    let product = product_of variant.product_id db.products in
    let price = price_of variant.price_override product in
    let stock = available now user_id variant.id db in
    record {
      id = item.id;
      variant_id = variant.id;
      product_id = variant.product_id;
      unit_price = price;
      quantity = item.quantity;
      line_total = price * item.quantity;
      available = is_published product && variant.is_active && leb item.quantity stock;
      max_quantity = stock;
    }

-- A line more.
abbrev pub count_line : CartItemRead → CartRead → CartRead
count_line row cart = record {
  exists = cart.exists;
  items = row ∷ cart.items;
  item_count = row.quantity + cart.item_count;
  distinct_count = 1 + cart.distinct_count;
  subtotal = row.line_total + cart.subtotal;
  has_unavailable_items = not row.available || cart.has_unavailable_items;
}

-- The join of a line and its variant.
abbrev pub serialize_line : ℕ → ℕ → Db → CartItem → Option ProductVariant → CartRead → CartRead
serialize_line now user_id db item none cart = cart
serialize_line now user_id db item (some variant) cart =
    count_line (serialize_item now user_id db item variant) cart

unfoldable pub serialize_items : ℕ → ℕ → Db → List CartItem → CartRead
unfolding serialize_item variant_of
serialize_items now user_id db [] = empty_cart true
serialize_items now user_id db (item ∷ items) =
    serialize_line now user_id db item (variant_of item.variant_id db.variants)
      (serialize_items now user_id db items)

-- `_serialize`, of the lines with the newest first.
unfoldable pub serialize : ℕ → ℕ → Db → CartRead
unfolding serialize_items list_items
serialize now user_id db = serialize_items now user_id db (list_items user_id db.cart_items)

unfoldable pub get_cart : ℕ → ℕ → Db → CartRead
unfolding serialize
get_cart now user_id db =
    if elem user_id db.carts then serialize now user_id db else empty_cart false

-- `_guard_quantity`.
abbrev pub guard_quantity : ℕ → Result (Unit {0})
guard_quantity quantity = raise_if (ltb quantity 1 || ltb 99 quantity) AppError.invalid_request

abbrev pub buyable_variant : ProductVariant → Option Product → Result ProductVariant
buyable_variant variant product =
    if not variant.is_active
    then err AppError.not_found
    else if is_published product
    then ok variant
    else err AppError.product_unavailable

-- `_require_buyable_variant`.
unfoldable pub require_buyable_variant : ℕ → Db → Result ProductVariant
unfolding variant_of product_of
require_buyable_variant v db = do
  variant ← or_raise (variant_of v db.variants) AppError.not_found
  buyable_variant variant (product_of variant.product_id db.products)

-- `_guard_stock`.
unfoldable pub guard_stock : ℕ → ℕ → ℕ → ℕ → Db → Result (Unit {0})
unfolding available
guard_stock now user_id v requested db =
    raise_if (ltb (available now user_id v db) requested) AppError.out_of_stock

abbrev pub max_distinct_items : ℕ
max_distinct_items = 50

-- `_guard_cart_capacity`.
unfoldable pub guard_cart_capacity : ℕ → List CartItem → Result (Unit {0})
unfolding count_items
guard_cart_capacity user_id items =
    raise_if (leb max_distinct_items (count_items user_id items)) AppError.invalid_request

-- A new line, or the quantity of the line that is there.
abbrev pub put_line : ℕ → ℕ → ℕ → ℕ → Option CartItem → List CartItem → Result (List CartItem)
put_line new_id user_id v quantity none items =
    guard_cart_capacity user_id items >> ok (add_line new_id user_id v quantity items)
put_line new_id user_id v quantity (some item) items =
    ok (set_quantity item.id (item.quantity + quantity) items)

unfoldable pub add_item : ℕ → ℕ → ℕ → ℕ → ℕ → Db → Result (CartRead × Db)
unfolding require_buyable_variant get_item_by_variant guard_stock guard_cart_capacity add_line
    set_quantity serialize
add_item now new_id user_id v quantity db = do
  guard_quantity quantity
  variant ← require_buyable_variant v db
  let carts = get_or_create user_id db.carts
  let existing = get_item_by_variant user_id v db.cart_items
  guard_stock now user_id variant.id (quantity_of existing + quantity) db
  items ← put_line new_id user_id v quantity existing db.cart_items
  let after = record db { carts = carts; cart_items = items }
  ok (serialize now user_id after, after)

-- The product is tested, and not whether the variant is active.
unfoldable pub guard_item : ℕ → ℕ → ℕ → CartItem → Db → Result (Unit {0})
unfolding variant_of product_of guard_stock
guard_item now user_id quantity item db = do
  variant ← or_raise (variant_of item.variant_id db.variants) AppError.not_found
  raise_if (not (is_published (product_of variant.product_id db.products)))
      AppError.product_unavailable
  guard_stock now user_id variant.id quantity db

unfoldable pub update_item : ℕ → ℕ → ℕ → ℕ → Db → Result (CartRead × Db)
unfolding get_item guard_item set_quantity serialize
update_item now user_id item_id quantity db = do
  guard_quantity quantity
  raise_if (not (elem user_id db.carts)) AppError.not_found
  item ← or_raise (get_item user_id item_id db.cart_items) AppError.not_found
  guard_item now user_id quantity item db
  let after = record db { cart_items = set_quantity item.id quantity db.cart_items }
  ok (serialize now user_id after, after)

abbrev pub delete_found : ℕ → ℕ → ℕ → Option CartItem → Db → Result (CartRead × Db)
delete_found now user_id item_id none db = err AppError.not_found
delete_found now user_id item_id (some item) db =
    let after = record db { cart_items = delete_item user_id item_id db.cart_items } in
    ok (serialize now user_id after, after)

-- Without a cart there is nothing to remove, and no error.
unfoldable pub remove_item : ℕ → ℕ → ℕ → Db → Result (CartRead × Db)
unfolding get_item delete_item serialize
remove_item now user_id item_id db =
    if elem user_id db.carts
    then delete_found now user_id item_id (get_item user_id item_id db.cart_items) db
    else ok (empty_cart false, db)

unfoldable pub clear : ℕ → Db → CartRead × Db
unfolding clear_items
clear user_id db =
    if elem user_id db.carts
    then (empty_cart true, record db { cart_items = clear_items user_id db.cart_items })
    else (empty_cart false, db)
