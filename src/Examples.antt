-- ===== src/Examples.antt =====
-- The theorems and the code of the services on concrete tables: a shop with one product, of which one
-- shopper holds four units and another is about to check out three.
mod Stocks
mod Checkouts
mod Payments
mod Orders
mod Cash
mod Adjustments
mod Imports
mod Categories
mod Keys
mod Carts
mod Products
mod Pages
use oorvashee_backend.Prelude.{ℕ, some, none, [], ◌∷◌, true, false}
use oorvashee_backend.Prelude.Int.{pos, negsuc}
use oorvashee_backend.Models.Enums.{PaymentMethod, StockMovementReason}
use oorvashee_backend.Models.Enums.OrderStatus.{OrderStatus}
use oorvashee_backend.Models.Enums.PaymentStatus.{PaymentStatus}
use oorvashee_backend.Models.Enums.RazorpayPaymentStatus.{RazorpayPaymentStatus}
use oorvashee_backend.Models.Enums.CheckoutSessionStatus.{CheckoutSessionStatus}
use oorvashee_backend.Models.Enums.ReservationStatus.{ReservationStatus}
use oorvashee_backend.Models.Enums.ProductStatus.{ProductStatus}
use oorvashee_backend.Models.Stock.{Inventory, StockMovement, Stock}
use oorvashee_backend.Models.Checkout.{Reservation, CheckoutSession}
use oorvashee_backend.Models.Order.{Order, OrderItem, Payment}
use oorvashee_backend.Models.Catalog.{Product, ProductVariant, CartItem}
use oorvashee_backend.Database.{Db, Clock}

abbrev pub necklace : Inventory
necklace = record {
  variant_id = 1;
  stock = pos 10;
  reserved = pos 2;
  low_stock_threshold = 3;
  sold_quantity = 5;
}

abbrev pub shelf : Stock
shelf = record { inventory = necklace ∷ []; movements = [] }

abbrev pub session_5 : CheckoutSession
session_5 = record { id = 5; user_id = 8; status = CheckoutSessionStatus.active; expires_at = 500 }

abbrev pub hold_5 : Reservation
hold_5 = record {
  checkout_session_id = 5;
  variant_id = 1;
  user_id = 8;
  quantity = 4;
  status = ReservationStatus.reserved;
  expires_at = 500;
}

abbrev pub product_20 : Product
product_20 = record {
  id = 20;
  status = ProductStatus.published;
  base_price = 150000;
  published_at = none;
}

abbrev pub variant_1 : ProductVariant
variant_1 = record {
  id = 1;
  product_id = 20;
  sku = 501;
  is_default = true;
  is_active = true;
  price_override = some 120000;
  color = none;
  fabric = none;
  size = none;
  weight_grams = none;
}

abbrev pub shop : Db
shop = record {
  stock = shelf;
  reservations = hold_5 ∷ [];
  sessions = session_5 ∷ [];
  orders = [];
  payments = [];
  audits = [];
  products = product_20 ∷ [];
  variants = variant_1 ∷ [];
  carts = 7 ∷ [];
  cart_items = record { id = 71; user_id = 7; variant_id = 1; quantity = 3 } ∷ [];
}

abbrev pub clock : Clock
clock = record { db_now = 100; utc_now = 101 }

-- The order of session 5, waiting for its payment.
abbrev pub order_31 : Order
order_31 = record {
  id = 31;
  order_number = 1031;
  user_id = some 8;
  status = OrderStatus.placed;
  payment_status = PaymentStatus.pending;
  payment_method = PaymentMethod.razorpay;
  subtotal = 480000;
  total = 480000;
  checkout_session_id = some 5;
  items =
      record {
        product_id = 20;
        variant_id = 1;
        unit_price = 120000;
        quantity = 4;
        line_total = 480000;
      }
      ∷ [];
  shipment = none;
  placed_at = none;
  packed_at = none;
  shipped_at = none;
  delivered_at = none;
  cancelled_at = none;
}

abbrev pub payment_41 : Payment
payment_41 = record {
  id = 41;
  order_id = 31;
  razorpay_order_id = 900;
  razorpay_payment_id = none;
  razorpay_signature = none;
  webhook_event_id = none;
  amount = 480000;
  status = RazorpayPaymentStatus.created;
  failure_reason = none;
  raw_response = none;
  captured_at = none;
}

-- The shop once session 5 has started its payment.
abbrev pub paying : Db
paying = record shop {
  reservations =
      record hold_5 { status = ReservationStatus.payment_processing; expires_at = 1001 } ∷ [];
  sessions =
      record session_5 { status = CheckoutSessionStatus.payment_processing; expires_at = 1001 }
      ∷ [];
  orders = order_31 ∷ [];
  payments = payment_41 ∷ [];
}
