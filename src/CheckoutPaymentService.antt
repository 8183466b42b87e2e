-- ===== src/CheckoutPaymentService.antt =====
-- app/services/checkout_payment_service.py: a reserved session becomes a pending order and a payment.
pub mod Held
use oorvashee_backend.Prelude.{
  ℕ, ◌+◌, ◌*◌, Bool, true, false, ◌&&◌, not, Option, none, some, List, [], ◌∷◌, ◌++◌, map, leb, ltb,
  ◌==◌, if◌then◌else◌,
}
use oorvashee_backend.Prelude.Int.{ℤ, pos, ltb_ℤ, max_ℤ}
use oorvashee_backend.Models.Enums.{PaymentMethod}
use oorvashee_backend.Models.Enums.CheckoutSessionStatus
use oorvashee_backend.Models.Enums.ReservationStatus
use oorvashee_backend.Models.Enums.OrderStatus
use oorvashee_backend.Models.Enums.PaymentStatus
use oorvashee_backend.Models.Enums.RazorpayPaymentStatus
use oorvashee_backend.Models.Checkout.{Reservation, CheckoutSession}
use oorvashee_backend.Models.Order.{Order, OrderItem}
use oorvashee_backend.Models.Catalog.{Product, ProductVariant}
use oorvashee_backend.Exceptions.{
  AppError, Result, ok, err, ◌>>=◌, ◌>>◌, raise_if, or_raise, CheckoutLineResult, LineReason,
}
use oorvashee_backend.Database.{Db, Clock}
use oorvashee_backend.InventoryService.{inventory_of, stock_at}
use oorvashee_backend.ReservationRepository.{
  get_session_for_update, list_reserved_for_session, is_reserved_of,
}
use oorvashee_backend.CheckoutSessionService.{product_of, variant_of, is_published, put_session}

unfoldable pub load_payable_session : Clock → ℕ → ℕ → List CheckoutSession → Result CheckoutSession
unfolding get_session_for_update
load_payable_session clock session_id user_id sessions = do
  s ← or_raise (get_session_for_update session_id sessions) AppError.not_found
  raise_if (not (s.user_id == user_id)) AppError.not_found
  raise_if (CheckoutSessionStatus.is s.status CheckoutSessionStatus.payment_processing)
      AppError.payment_in_progress
  raise_if (not (CheckoutSessionStatus.is s.status CheckoutSessionStatus.active))
      AppError.reservation_expired
  raise_if (leb s.expires_at clock.utc_now) AppError.reservation_expired
  ok s

-- `variant.price_override or product.base_price`: an override of 0 is falsy, and is passed over.
abbrev pub unit_price : ProductVariant → Product → ℕ
unit_price v p = elim v.price_override [
  | none ↦ p.base_price
  | some price ↦ if price == 0 then p.base_price else price
]

abbrev item_of : ProductVariant → Product → ℕ → OrderItem
item_of v p quantity = record {
  product_id = p.id;
  variant_id = v.id;
  unit_price = unit_price v p;
  quantity = quantity;
  line_total = unit_price v p * quantity;
}

abbrev pub failed_line : Reservation → ℤ → LineReason → CheckoutLineResult
failed_line r stock reason = record {
  variant_id = r.variant_id;
  requested = r.quantity;
  available = max_ℤ (pos 0) stock;
  reserved = false;
  reason = reason;
}

abbrev pub product_for : Db → Option ProductVariant → Option Product
product_for db none = none
product_for db (some v) = product_of v.product_id db.products

abbrev pub is_active : Option ProductVariant → Bool
is_active none = false
is_active (some v) = v.is_active

-- One pass of the loop of `_build_order`: the item of the order, or the line that failed.
pub data Built : Type 0 where
  item : OrderItem → Built
  failure : CheckoutLineResult → Built

abbrev pub build_item : Option ProductVariant → Option Product → Reservation → ℤ → Built
build_item (some v) (some p) r stock = item (item_of v p r.quantity)
build_item (some v) none r stock = failure (failed_line r stock LineReason.unavailable)
build_item none _ r stock = failure (failed_line r stock LineReason.unavailable)

unfoldable pub build_line : Db → Reservation → Built
unfolding variant_of product_of inventory_of
build_line db r =
    let variant = variant_of r.variant_id db.variants in
    let product = product_for db variant in
    let stock = stock_at (inventory_of r.variant_id db.stock.inventory) in
    if not (is_active variant && is_published product)
    then failure (failed_line r stock LineReason.unavailable)
    else if ltb_ℤ stock (pos r.quantity)
    then failure (failed_line r stock LineReason.out_of_stock)
    else build_item variant product r stock

abbrev pub add_built :
    Built → List OrderItem × List CheckoutLineResult → List OrderItem × List CheckoutLineResult
add_built (item i) (items, failures) = (i ∷ items, failures)
add_built (failure f) (items, failures) = (items, f ∷ failures)

unfoldable pub build_lines : Db → List Reservation → List OrderItem × List CheckoutLineResult
unfolding build_line
build_lines db [] = ([], [])
build_lines db (r ∷ rows) = add_built (build_line db r) (build_lines db rows)

abbrev pub subtotal_of : List OrderItem → ℕ
subtotal_of [] = 0
subtotal_of (i ∷ items) = i.line_total + subtotal_of items

abbrev pub has_failures : List CheckoutLineResult → Bool
has_failures [] = false
has_failures (f ∷ failures) = true

-- The identifiers that the database and `generate_order_number` choose.
pub record NewIds : Type 0 where
  pub order_id : ℕ
  pub order_number : ℕ
  pub payment_id : ℕ

-- Shipping, tax and discount are zero.
unfoldable pub build_order : Db → NewIds → CheckoutSession → List Reservation → ℕ → Result Order
unfolding build_lines
build_order db new s reservations user_id =
    let (items, failures) = build_lines db reservations in
    do
      raise_if (has_failures failures) (AppError.reservation_conflict failures)
      ok (record {
        id = new.order_id;
        order_number = new.order_number;
        user_id = some user_id;
        status = OrderStatus.placed;
        payment_status = PaymentStatus.pending;
        payment_method = PaymentMethod.razorpay;
        subtotal = subtotal_of items;
        total = subtotal_of items;
        checkout_session_id = some s.id;
        items = items;
        shipment = none;
        placed_at = none;
        packed_at = none;
        shipped_at = none;
        delivered_at = none;
        cancelled_at = none;
      })

-- The UPDATE of the session's RESERVED rows: held for the payment, to the new expiry.
abbrev pub to_payment : ℕ → ℕ → Reservation → Reservation
to_payment session_id new_expiry r =
    if is_reserved_of session_id r
    then record r { status = ReservationStatus.payment_processing; expires_at = new_expiry }
    else r

abbrev pub is_empty : List Reservation → Bool
is_empty [] = true
is_empty (r ∷ rows) = false

-- Phase A. `ttl` is the setting `reservation_payment_ttl_seconds`.
unfoldable pub prepare_order : Clock → ℕ → NewIds → ℕ → ℕ → Db → Result (Order × Db)
unfolding load_payable_session list_reserved_for_session build_order put_session
prepare_order clock ttl new session_id user_id db = do
  s ← load_payable_session clock session_id user_id db.sessions
  let reservations = list_reserved_for_session session_id db.reservations
  raise_if (is_empty reservations) AppError.reservation_expired
  order ← build_order db new s reservations user_id
  let new_expiry = clock.utc_now + ttl
  ok (
    order,
    record db {
      orders = db.orders ++ order ∷ [];
      reservations = map (to_payment session_id new_expiry) db.reservations;
      sessions =
          put_session
            (record s {
              status = CheckoutSessionStatus.payment_processing;
              expires_at = new_expiry;
            })
            db.sessions;
    },
  )

-- `inr_to_paise`: the gateway takes no order below one rupee.
unfoldable pub inr_to_paise : ℕ → Result ℕ
inr_to_paise amount = if ltb amount 100 then err AppError.integration else ok amount

-- Phase B. `create_order` is the gateway's answer to an amount: its order id, or an error of the
-- client. The error leaves the function, so the request's transaction, phase A included, rolls back.
unfoldable pub initiate_razorpay : (ℕ → Result ℕ) → NewIds → Order → Db → Result (ℕ × Db)
unfolding inr_to_paise
initiate_razorpay create_order new order db = do
  paise ← inr_to_paise order.total
  razorpay_order_id ← create_order paise
  ok (
    razorpay_order_id,
    record db {
      payments =
          db.payments
          ++ record {
            id = new.payment_id;
            order_id = order.id;
            razorpay_order_id = razorpay_order_id;
            razorpay_payment_id = none;
            razorpay_signature = none;
            webhook_event_id = none;
            amount = order.total;
            status = RazorpayPaymentStatus.created;
            failure_reason = none;
            raw_response = none;
            captured_at = none;
          }
            ∷ [];
    },
  )

unfoldable pub start_payment :
    (ℕ → Result ℕ) → Clock → ℕ → NewIds → ℕ → ℕ → Db → Result ((Order × ℕ) × Db)
unfolding prepare_order initiate_razorpay
start_payment create_order clock ttl new session_id user_id db =
    prepare_order clock ttl new session_id user_id db >>= λ prepared.
    initiate_razorpay create_order new prepared.0 prepared.1 >>= λ paid.
    ok ((prepared.0, paid.0), paid.1)
