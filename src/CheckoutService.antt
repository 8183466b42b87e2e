-- ===== src/CheckoutService.antt =====
-- app/services/checkout_service.py: the quote of a list of lines, and the direct placement of an order,
-- which reserves by the stored counter (Razorpay) or takes the stock at once (cash on delivery).
pub mod Placed
pub mod Cash
pub mod Quote
use oorvashee_backend.Prelude.{
  ℕ, ◌+◌, ◌*◌, Bool, true, false, ◌&&◌, ◌||◌, not, Option, none, some, List, [], ◌∷◌, ◌++◌, map,
  if◌then◌else◌,
}
use oorvashee_backend.Prelude.Int.{ℤ, pos, ◌-ℤ◌, ltb_ℤ, leb_ℤ, max_ℤ}
use oorvashee_backend.Models.Enums.{PaymentMethod, StockMovementReason}
use oorvashee_backend.Models.Enums.OrderStatus
use oorvashee_backend.Models.Enums.PaymentStatus
use oorvashee_backend.Models.Enums.PaymentStatus.{PaymentStatus}
use oorvashee_backend.Models.Stock.{Inventory}
use oorvashee_backend.Models.Order.{Order, OrderItem}
use oorvashee_backend.Models.Catalog.{Product, ProductVariant}
use oorvashee_backend.Exceptions.{AppError, Result, ok, err, ◌>>=◌, ◌>>◌, raise_if, or_raise}
use oorvashee_backend.Database.{Db}
use oorvashee_backend.InventoryService.{StockRequirement, inventory_of, reserve, decrement}
use oorvashee_backend.CheckoutSessionService.{product_of, variant_of, is_published}
use oorvashee_backend.CheckoutPaymentService.{NewIds, unit_price, subtotal_of, initiate_razorpay}

-- A line of a request.
pub record QuoteLine : Type 0 where
  pub variant_id : ℕ
  pub quantity : ℕ

abbrev stock_left : Option Inventory → ℤ
stock_left none = pos 0
stock_left (some inv) = max_ℤ (inv.stock -ℤ inv.reserved) (pos 0)

-- `_available_stock`.
unfoldable pub available_stock : Db → ProductVariant → ℤ
unfolding inventory_of
available_stock db v = stock_left (inventory_of v.id db.stock.inventory)

-- A variant's product exists, by its foreign key: the error of the lookup is never raised.
abbrev pub product_of_variant : Db → ProductVariant → Result Product
product_of_variant db v = or_raise (product_of v.product_id db.products) AppError.not_found

pub record QuoteLineRead : Type 0 where
  pub variant_id : ℕ
  pub unit_price : ℕ
  pub quantity : ℕ
  pub line_total : ℕ
  pub available : Bool
  pub available_stock : ℤ

unfoldable pub quote_line : Db → QuoteLine → Result QuoteLineRead
unfolding variant_of product_of available_stock
quote_line db line = do
  variant ← or_raise (variant_of line.variant_id db.variants) AppError.invalid_request
  product ← product_of_variant db variant
  ok (record {
    variant_id = variant.id;
    unit_price = unit_price variant product;
    quantity = line.quantity;
    line_total = unit_price variant product * line.quantity;
    available =
        is_published (some product)
        && variant.is_active
        && leb_ℤ (pos line.quantity) (available_stock db variant);
    available_stock = available_stock db variant;
  })

unfoldable pub quote_lines : Db → List QuoteLine → Result (List QuoteLineRead)
unfolding quote_line
quote_lines db [] = ok []
quote_lines db (l ∷ lines) = do
  read ← quote_line db l
  reads ← quote_lines db lines
  ok (read ∷ reads)

abbrev pub total_of : List QuoteLineRead → ℕ
total_of [] = 0
total_of (r ∷ reads) = r.line_total + total_of reads

abbrev pub any_unavailable : List QuoteLineRead → Bool
any_unavailable [] = false
any_unavailable (r ∷ reads) = not r.available || any_unavailable reads

-- Shipping, tax and discount are zero.
pub record CheckoutQuoteRead : Type 0 where
  pub items : List QuoteLineRead
  pub subtotal : ℕ
  pub total : ℕ
  pub has_unavailable_items : Bool

unfoldable pub quote : Db → List QuoteLine → Result CheckoutQuoteRead
unfolding quote_lines
quote db lines = do
  items ← quote_lines db lines
  ok (record {
    items = items;
    subtotal = total_of items;
    total = total_of items;
    has_unavailable_items = any_unavailable items;
  })

abbrev pub active_variant : Option ProductVariant → Result ProductVariant
active_variant none = err AppError.invalid_request
active_variant (some v) = raise_if (not v.is_active) AppError.invalid_request >> ok v

-- One pass of the loop of `_build_order`.
unfoldable pub order_item : Db → QuoteLine → Result OrderItem
unfolding variant_of product_of available_stock
order_item db line = do
  variant ← active_variant (variant_of line.variant_id db.variants)
  product ← product_of_variant db variant
  raise_if (not (is_published (some product))) AppError.product_unavailable
  raise_if (ltb_ℤ (available_stock db variant) (pos line.quantity)) AppError.out_of_stock
  ok (record {
    product_id = product.id;
    variant_id = variant.id;
    unit_price = unit_price variant product;
    quantity = line.quantity;
    line_total = unit_price variant product * line.quantity;
  })

unfoldable pub order_items : Db → List QuoteLine → Result (List OrderItem)
unfolding order_item
order_items db [] = ok []
order_items db (l ∷ lines) = do
  item ← order_item db l
  items ← order_items db lines
  ok (item ∷ items)

abbrev pub initial_status : PaymentMethod → PaymentStatus
initial_status PaymentMethod.razorpay = PaymentStatus.pending
initial_status PaymentMethod.cod = PaymentStatus.cod_pending

abbrev pub new_order : NewIds → Option ℕ → PaymentMethod → List OrderItem → Order
new_order new user_id payment_method items = record {
  id = new.order_id;
  order_number = new.order_number;
  user_id = user_id;
  status = OrderStatus.placed;
  payment_status = initial_status payment_method;
  payment_method = payment_method;
  subtotal = subtotal_of items;
  total = subtotal_of items;
  checkout_session_id = none;
  items = items;
  shipment = none;
  placed_at = none;
  packed_at = none;
  shipped_at = none;
  delivered_at = none;
  cancelled_at = none;
}

abbrev pub line_requirement : QuoteLine → StockRequirement
line_requirement line = record { variant_id = line.variant_id; quantity = line.quantity }

-- The branch on the method of payment.
abbrev pub hit_inventory : PaymentMethod → ℕ → Option ℕ → List StockRequirement → Db → Result Db
hit_inventory PaymentMethod.razorpay order_id user_id requirements db = do
  stock ← reserve order_id user_id requirements db.stock
  ok (record db { stock = stock })
hit_inventory PaymentMethod.cod order_id user_id requirements db = do
  stock ← decrement order_id user_id StockMovementReason.order_placed requirements db.stock
  ok (record db { stock = stock })

abbrev pub is_no_line : List QuoteLine → Bool
is_no_line [] = true
is_no_line (l ∷ lines) = false

-- The savepoint: the order and what its method takes of the inventory.
unfoldable pub create_order_row :
    NewIds → Option ℕ → PaymentMethod → List QuoteLine → Db → Result (Order × Db)
unfolding order_items reserve decrement
create_order_row new user_id payment_method lines db = do
  items ← order_items db lines
  let order = new_order new user_id payment_method items
  db' ← hit_inventory payment_method new.order_id user_id (map line_requirement lines) db
  ok (order, record db' { orders = db'.orders ++ order ∷ [] })

abbrev hand_off : PaymentMethod → (ℕ → Result ℕ) → NewIds → Order → Db → Result (Option ℕ × Db)
hand_off PaymentMethod.razorpay create_order new order db =
    initiate_razorpay create_order new order db >>= λ paid. ok (some paid.0, paid.1)
hand_off PaymentMethod.cod create_order new order db = ok (none, db)

-- The result is the order, the gateway's order id if there is one, and the tables.
unfoldable pub place_order :
    (ℕ → Result ℕ)
    → NewIds
    → Option ℕ
    → PaymentMethod
    → List QuoteLine
    → Db
    → Result ((Order × Option ℕ) × Db)
unfolding create_order_row initiate_razorpay
place_order create_order new user_id payment_method lines db = do
  raise_if (is_no_line lines) AppError.invalid_request
  created ← create_order_row new user_id payment_method lines db
  paid ← hand_off payment_method create_order new created.0 created.1
  ok ((created.0, paid.0), paid.1)
