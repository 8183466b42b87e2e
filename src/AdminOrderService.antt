-- ===== src/AdminOrderService.antt =====
-- app/services/admin_order_service.py: what an administrator does to an order. Each call reads the order
-- and writes it back; lists, timelines and the mapping to a response change no state.
pub mod GivesBack
pub mod Actions
pub mod Lifecycle
pub mod Requests
use oorvashee_backend.Prelude.{
  ℕ, Bool, true, false, ◌&&◌, ◌||◌, not, Option, none, some, List, [], ◌∷◌, length, ◌==◌,
  if◌then◌else◌, elem,
}
use mathlib.Core.Bool.{cond}
use oorvashee_backend.Models.Enums.{PaymentMethod, is_cod, AuditAction, StockMovementReason}
use oorvashee_backend.Models.Enums.OrderStatus
use oorvashee_backend.Models.Enums.OrderStatus.{OrderStatus}
use oorvashee_backend.Models.Enums.PaymentStatus
use oorvashee_backend.Models.Order.{Order, OrderItem, Shipment}
use oorvashee_backend.Models.Audit.{AuditLog, Metadata}
use oorvashee_backend.Exceptions.{AppError, Result, ok, err, ◌>>=◌, ◌>>◌, raise_if, or_raise}
use oorvashee_backend.Database.{Db}
use oorvashee_backend.InventoryService.{restock}
use oorvashee_backend.InventoryService.Availability.{recompute_product_availability}
use oorvashee_backend.ReservationLifecycleService.{requirements_of, cancel_for_order}
use oorvashee_backend.OrderRepository.{get_order, put_order}

-- The table of `_assert_transition`.
abbrev valid_targets : OrderStatus → List OrderStatus
valid_targets OrderStatus.placed = OrderStatus.packed ∷ OrderStatus.cancelled ∷ []
valid_targets OrderStatus.packed = OrderStatus.shipped ∷ OrderStatus.cancelled ∷ []
valid_targets OrderStatus.shipped = OrderStatus.delivered ∷ OrderStatus.cancelled ∷ []
valid_targets OrderStatus.delivered = []
valid_targets OrderStatus.cancelled = []

abbrev pub is_terminal : OrderStatus → Bool
is_terminal status =
    OrderStatus.is status OrderStatus.delivered || OrderStatus.is status OrderStatus.cancelled

abbrev status_in : OrderStatus → List OrderStatus → Bool
status_in status [] = false
status_in status (s ∷ statuses) = OrderStatus.is status s || status_in status statuses

unfoldable pub assert_transition : OrderStatus → OrderStatus → Result (Unit {0})
assert_transition current target = do
  raise_if (is_terminal current) AppError.invalid_status_transition
  raise_if (not (status_in target (valid_targets current))) AppError.invalid_status_transition

abbrev pub admin_audit : AuditAction → ℕ → ℕ → Metadata → AuditLog
admin_audit action actor_user_id order_id metadata = record {
  action = action;
  entity_id = order_id;
  actor_user_id = some actor_user_id;
  metadata = metadata;
}

-- The flush of an order with its audit row.
unfoldable pub save : AuditAction → ℕ → Metadata → Order → Db → Db
unfolding put_order
save action actor metadata order db = record db {
  orders = put_order order db.orders;
  audits = admin_audit action actor order.id metadata ∷ db.audits;
}

-- The gate of `mark_packed`.
abbrev pub payment_gate : PaymentMethod → Order → Result (Unit {0})
payment_gate PaymentMethod.razorpay order =
    raise_if (not (PaymentStatus.is order.payment_status PaymentStatus.paid))
      AppError.payment_not_captured
payment_gate PaymentMethod.cod order =
    raise_if
      (not (
        PaymentStatus.is order.payment_status PaymentStatus.cod_pending
        || PaymentStatus.is order.payment_status PaymentStatus.paid))
      AppError.invalid_payment_state

unfoldable pub pack : ℕ → ℕ → Order → Db → Result Db
unfolding assert_transition save
pack now actor order db = do
  assert_transition order.status OrderStatus.packed
  payment_gate order.payment_method order
  ok (
      save AuditAction.status_changed actor (Metadata.transition order.status OrderStatus.packed)
        (record order { status = OrderStatus.packed; packed_at = some now }) db)

unfoldable pub mark_packed : ℕ → ℕ → ℕ → Db → Result Db
unfolding get_order pack
mark_packed now actor order_id db = do
  order ← or_raise (get_order order_id db.orders) AppError.not_found
  cond (OrderStatus.is order.status OrderStatus.packed) (ok db) (pack now actor order db)

-- A text of the request: 0 is the empty one.
pub record ShipmentUpdateRequest : Type 0 where
  pub courier_name : Option ℕ
  pub tracking_id : Option ℕ
  pub tracking_url : Option ℕ

abbrev is_falsy : Option ℕ → Bool
is_falsy none = true
is_falsy (some text) = text == 0

abbrev shipment_or_new : Option Shipment → Shipment
shipment_or_new none = record {
  courier_name = none;
  tracking_id = none;
  tracking_url = none;
  shipped_at = none;
  delivered_at = none;
}
shipment_or_new (some shipment) = shipment

-- `_get_or_create_shipment`.
abbrev pub shipment_of : Order → Shipment
shipment_of order = shipment_or_new order.shipment

abbrev pub metadata_gate : ShipmentUpdateRequest → Result (Unit {0})
metadata_gate body =
    raise_if (is_falsy body.courier_name || is_falsy body.tracking_id)
      AppError.shipment_metadata_required

abbrev pub shipped_order : ℕ → ShipmentUpdateRequest → Order → Order
shipped_order now body order = record order {
  status = OrderStatus.shipped;
  shipped_at = some now;
  shipment = some (record (shipment_of order) {
    courier_name = body.courier_name;
    tracking_id = body.tracking_id;
    tracking_url = body.tracking_url;
    shipped_at = some now;
  });
}

unfoldable pub ship : ℕ → ℕ → ShipmentUpdateRequest → Order → Db → Result Db
unfolding assert_transition save
ship now actor body order db = do
  assert_transition order.status OrderStatus.shipped
  metadata_gate body
  ok (
      save AuditAction.status_changed actor (Metadata.transition order.status OrderStatus.shipped)
        (shipped_order now body order) db)

unfoldable pub mark_shipped : ℕ → ℕ → ShipmentUpdateRequest → ℕ → Db → Result Db
unfolding get_order ship
mark_shipped now actor body order_id db = do
  order ← or_raise (get_order order_id db.orders) AppError.not_found
  cond (OrderStatus.is order.status OrderStatus.shipped) (ok db) (ship now actor body order db)

abbrev pub is_cod_pending : Order → Bool
is_cod_pending order =
    is_cod order.payment_method && PaymentStatus.is order.payment_status PaymentStatus.cod_pending

-- Cash on delivery is paid when the parcel is handed over.
abbrev pub delivered_order : ℕ → Order → Order
delivered_order now order = record order {
  status = OrderStatus.delivered;
  delivered_at = some now;
  shipment = some (record (shipment_of order) { delivered_at = some now });
  payment_status = if is_cod_pending order then PaymentStatus.paid else order.payment_status;
}

unfoldable pub deliver : ℕ → ℕ → Order → Db → Result Db
unfolding assert_transition save
deliver now actor order db = do
  assert_transition order.status OrderStatus.delivered
  ok (
      save AuditAction.status_changed actor (Metadata.transition order.status OrderStatus.delivered)
        (delivered_order now order) db)

unfoldable pub mark_delivered : ℕ → ℕ → ℕ → Db → Result Db
unfolding get_order deliver
mark_delivered now actor order_id db = do
  order ← or_raise (get_order order_id db.orders) AppError.not_found
  cond (OrderStatus.is order.status OrderStatus.delivered) (ok db) (deliver now actor order db)
