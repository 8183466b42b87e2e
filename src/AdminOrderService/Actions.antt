-- ===== src/AdminOrderService/Actions.antt =====
-- `cancel_order`, `mark_cod_paid`, `update_shipment` and `add_note` of
-- app/services/admin_order_service.py.
use oorvashee_backend.Prelude.{
  ℕ, Bool, true, false, ◌&&◌, ◌||◌, not, Option, none, some, List, [], ◌∷◌, length, ◌==◌,
  if◌then◌else◌, elem,
}
use mathlib.Core.Bool.{cond}
use oorvashee_backend.Models.Enums.{is_cod, AuditAction, StockMovementReason}
use oorvashee_backend.Models.Enums.OrderStatus
use oorvashee_backend.Models.Enums.OrderStatus.{OrderStatus}
use oorvashee_backend.Models.Enums.PaymentStatus
use oorvashee_backend.Models.Order.{Order, OrderItem, Shipment}
use oorvashee_backend.Models.Audit.{Metadata}
use oorvashee_backend.Exceptions.{AppError, Result, ok, ◌>>=◌, ◌>>◌, raise_if, or_raise}
use oorvashee_backend.Database.{Db}
use oorvashee_backend.InventoryService.{restock}
use oorvashee_backend.InventoryService.Availability.{recompute_product_availability}
use oorvashee_backend.ReservationLifecycleService.{requirements_of, cancel_for_order}
use oorvashee_backend.OrderRepository.{get_order, put_order}
use oorvashee_backend.AdminOrderService.{save, admin_audit, shipment_of, ShipmentUpdateRequest}

-- Stock left at the capture, or at the placement of a cash order.
abbrev pub stock_was_decremented : Order → Bool
stock_was_decremented order =
    PaymentStatus.is order.payment_status PaymentStatus.paid || is_cod order.payment_method

abbrev pub has_items : List OrderItem → Bool
has_items [] = false
has_items (i ∷ items) = true

-- The goods go back to the stock, or the reservations are let go.
unfoldable pub give_back : ℕ → Order → Db → Result Db
unfolding restock cancel_for_order
give_back actor order db =
    cond (stock_was_decremented order && has_items order.items)
      (restock order.id (some actor) StockMovementReason.order_cancelled (requirements_of order)
          db.stock
        >>= λ stock. ok (record db { stock = stock }))
      (ok (cancel_for_order order db))

-- The set of the products of an order, taken in the order of its items.
unfoldable pub product_ids : List OrderItem → List ℕ
product_ids [] = []
product_ids (i ∷ items) =
    let rest = product_ids items in if elem i.product_id rest then rest else i.product_id ∷ rest

unfoldable pub recompute_all : ℕ → List ℕ → Db → Db
unfolding recompute_product_availability
recompute_all actor [] db = db
recompute_all actor (id ∷ ids) db =
    recompute_all actor ids (recompute_product_availability (some actor) id db).1

abbrev pub cancelled_order : ℕ → Order → Order
cancelled_order now order = record order { status = OrderStatus.cancelled; cancelled_at = some now }

abbrev pub cancellation_of : Order → Metadata
cancellation_of order =
    Metadata.cancellation order.status order.payment_status
      (PaymentStatus.is order.payment_status PaymentStatus.paid) (length order.items)

unfoldable pub call_off : ℕ → ℕ → Order → Db → Result Db
unfolding give_back save product_ids recompute_all
call_off now actor order db = do
  raise_if (OrderStatus.is order.status OrderStatus.delivered) AppError.cannot_cancel_delivered
  db' ← give_back actor order db
  ok (
      recompute_all actor (product_ids order.items) (
        save AuditAction.status_changed actor (cancellation_of order) (cancelled_order now order)
          db'))

unfoldable pub cancel_order : ℕ → ℕ → ℕ → Db → Result Db
unfolding get_order call_off
cancel_order now actor order_id db = do
  order ← or_raise (get_order order_id db.orders) AppError.not_found
  cond (OrderStatus.is order.status OrderStatus.cancelled) (ok db) (call_off now actor order db)

unfoldable pub record_cash : ℕ → Order → Db → Result Db
unfolding save
record_cash actor order db = do
  raise_if (not (PaymentStatus.is order.payment_status PaymentStatus.cod_pending))
      AppError.invalid_payment_state
  ok (
      save AuditAction.payment_captured actor
        (Metadata.cod_payment order.payment_status PaymentStatus.paid)
        (record order { payment_status = PaymentStatus.paid }) db)

unfoldable pub mark_cod_paid : ℕ → ℕ → Db → Result Db
unfolding get_order record_cash
mark_cod_paid actor order_id db = do
  order ← or_raise (get_order order_id db.orders) AppError.not_found
  raise_if (not (is_cod order.payment_method)) AppError.not_a_cod_order
  cond (PaymentStatus.is order.payment_status PaymentStatus.paid) (ok db)
      (record_cash actor order db)

-- `new_value is not None and new_value != getattr(shipment, field)`.
abbrev differs : Option ℕ → Option ℕ → Bool
differs none old = false
differs (some text) none = true
differs (some text) (some old) = not (text == old)

abbrev set_if : Option ℕ → Option ℕ → Option ℕ
set_if none old = old
set_if (some text) old = some text

abbrev pub changes : ShipmentUpdateRequest → Shipment → Bool
changes body s =
    differs body.courier_name s.courier_name
    || differs body.tracking_id s.tracking_id
    || differs body.tracking_url s.tracking_url

abbrev pub updated_shipment : ShipmentUpdateRequest → Shipment → Shipment
updated_shipment body s = record s {
  courier_name = set_if body.courier_name s.courier_name;
  tracking_id = set_if body.tracking_id s.tracking_id;
  tracking_url = set_if body.tracking_url s.tracking_url;
}

-- The shipment is created even where the request changes nothing, and whatever the order's status.
unfoldable pub update_shipment : ℕ → ShipmentUpdateRequest → ℕ → Db → Result Db
unfolding get_order put_order save
update_shipment actor body order_id db = do
  order ← or_raise (get_order order_id db.orders) AppError.not_found
  let shipment = shipment_of order
  let order' = record order { shipment = some (updated_shipment body shipment) }
  ok (
      if changes body shipment
      then save AuditAction.update actor Metadata.shipment_updated order' db
      else record db { orders = put_order order' db.orders })

unfoldable pub add_note : ℕ → ℕ → ℕ → Db → Result Db
unfolding get_order
add_note actor note order_id db = do
  order ← or_raise (get_order order_id db.orders) AppError.not_found
  ok (record db {
    audits = admin_audit AuditAction.update actor order.id (Metadata.admin_note note) ∷ db.audits;
  })
