-- ===== src/PaymentService.antt =====
-- app/services/payment_service.py: what a verified payment, and each webhook of the gateway, does to
-- the payment, the order, the reservations and the stock. The print of a bill changes no state.
pub mod Webhook
pub mod CapturedOnce
pub mod Writes
pub mod OtherOrders
pub mod Settled
pub mod Fulfilled
pub mod KeptPaid
pub mod Lifecycle
use oorvashee_backend.Prelude.{
  ℕ, Bool, true, false, ◌||◌, not, Option, none, some, List, ◌∷◌, ◌==◌, if◌then◌else◌,
}
use mathlib.Core.Bool.{cond}
use oorvashee_backend.Models.Enums.{StockMovementReason, AuditAction}
use oorvashee_backend.Models.Enums.OrderStatus
use oorvashee_backend.Models.Enums.PaymentStatus
use oorvashee_backend.Models.Enums.RazorpayPaymentStatus
use oorvashee_backend.Models.Stock.{Stock}
use oorvashee_backend.Models.Order.{Order, Payment, FailureReason}
use oorvashee_backend.Models.Audit.{AuditLog, CaptureSource, Metadata}
use oorvashee_backend.Exceptions.{AppError, Result, ok, err, ◌>>=◌, ◌>>◌, raise_if, or_raise}
use oorvashee_backend.Database.{Db}
use oorvashee_backend.InventoryService.{consume_reservation, release_reservation}
use oorvashee_backend.ReservationLifecycleService.{requirements_of, complete_sale, cancel_for_order}
use oorvashee_backend.OrderRepository.{
  get_order, get_by_number, put_order, get_by_razorpay_order_id, put_payment,
  get_by_webhook_event_id, payments_unique,
}

-- What the handler reads of an event. A text that is missing or empty is `none`; `event_id` is
-- `event.get("id") or event.get("event_id")`, and the other fields are of the payment entity.
pub data EventType : Type 0 where
  payment_captured payment_failed other_event : EventType

pub record WebhookEvent : Type 0 where
  pub event_id : Option ℕ
  pub event : EventType
  pub razorpay_order_id : Option ℕ
  pub razorpay_payment_id : Option ℕ
  pub error_description : Option ℕ
  pub raw : Option ℕ

pub data WebhookStatus : Type 0 where
  duplicate unknown_order already_captured captured_needs_refund : WebhookStatus
  captured failed_recorded ignored : WebhookStatus

-- `if x: field = x`.
abbrev pub if_given : Option ℕ → Option ℕ → Option ℕ
if_given none old = old
if_given (some x) old = some x

abbrev pub or_now : ℕ → Option ℕ → Option ℕ
or_now now none = some now
or_now now (some t) = some t

abbrev audit_of : AuditAction → ℕ → Metadata → AuditLog
audit_of action order_id metadata = record {
  action = action;
  entity_id = order_id;
  actor_user_id = none;
  metadata = metadata;
}

-- The flush of the payments table.
unfoldable pub flush_payments : Db → Result Db
unfolding payments_unique
flush_payments db = raise_if (not (payments_unique db.payments)) AppError.unique_violation >> ok db

-- How the stock leaves: a reservation-backed order completes its sale, any other consumes the stored
-- counter.
abbrev pub fulfil_by : Option ℕ → Order → Db → Result Db
fulfil_by (some session_id) order db = complete_sale order db
fulfil_by none order db = do
  stock ← consume_reservation order.id (requirements_of order) db.stock
  ok (record db { stock = stock })

unfoldable pub fulfil : Order → Db → Result Db
unfolding complete_sale consume_reservation
fulfil order db = fulfil_by order.checkout_session_id order db

-- What a capture is told.
pub record Capture : Type 0 where
  pub razorpay_payment_id : ℕ
  pub razorpay_signature : Option ℕ
  pub source : CaptureSource
  pub webhook_event_id : Option ℕ
  pub raw_response : Option ℕ

unfoldable pub captured_payment : ℕ → Capture → Payment → Payment
captured_payment now c payment = record payment {
  razorpay_payment_id = some c.razorpay_payment_id;
  razorpay_signature = if_given c.razorpay_signature payment.razorpay_signature;
  status = RazorpayPaymentStatus.captured;
  captured_at = some now;
  webhook_event_id = if_given c.webhook_event_id payment.webhook_event_id;
  raw_response = if_given c.raw_response payment.raw_response;
}

abbrev pub paid_order : ℕ → Order → Order
paid_order now order = record order {
  payment_status = PaymentStatus.paid;
  placed_at = or_now now order.placed_at;
}

-- What a capture writes.
unfoldable pub record_paid : ℕ → Capture → Payment → Order → Db → Db
unfolding captured_payment put_payment put_order
record_paid now c payment order db = record db {
  payments = put_payment (captured_payment now c payment) db.payments;
  orders = put_order (paid_order now order) db.orders;
  audits =
      audit_of AuditAction.payment_captured order.id
        (Metadata.payment_capture c.razorpay_payment_id payment.amount c.source)
      ∷ db.audits;
}

-- `_capture`. The audit row is flushed inside the savepoint, so a duplicate key leaves it as an error.
unfoldable pub capture : ℕ → Capture → Payment → Db → Result Db
unfolding get_order fulfil record_paid flush_payments
capture now c payment db = do
  order ← or_raise (get_order payment.order_id db.orders) AppError.not_found
  db' ← fulfil order db
  flush_payments (record_paid now c payment order db')

abbrev pub release_by : Option ℕ → Order → Db → Result Db
release_by (some session_id) order db = ok (cancel_for_order order db)
release_by none order db = do
  stock ←
      release_reservation order.id StockMovementReason.order_cancelled (requirements_of order)
        db.stock
  ok (record db { stock = stock })

abbrev pub failed_payment : Option ℕ → ℕ → Option ℕ → Payment → Payment
failed_payment event_id reason raw payment = record payment {
  status = RazorpayPaymentStatus.failed;
  failure_reason = some (FailureReason.reported reason);
  webhook_event_id = if_given event_id payment.webhook_event_id;
  raw_response = if_given raw payment.raw_response;
}

abbrev pub is_settled : Payment → Order → Bool
is_settled payment order =
    RazorpayPaymentStatus.is_captured payment.status
    || PaymentStatus.is order.payment_status PaymentStatus.paid

-- What a failure writes.
unfoldable pub record_failed : Option ℕ → ℕ → Option ℕ → Payment → Order → Db → Db
unfolding put_payment put_order
record_failed event_id reason raw payment order db = record db {
  payments = put_payment (failed_payment event_id reason raw payment) db.payments;
  orders = put_order (record order { payment_status = PaymentStatus.failed }) db.orders;
  audits =
      audit_of AuditAction.status_changed order.id
        (Metadata.payment_failure reason payment.razorpay_payment_id)
      ∷ db.audits;
}

unfoldable pub record_failure : Option ℕ → ℕ → Option ℕ → Payment → Order → Db → Result Db
unfolding cancel_for_order release_reservation record_failed flush_payments
record_failure event_id reason raw payment order db = do
  db' ← release_by order.checkout_session_id order db
  flush_payments (record_failed event_id reason raw payment order db')

-- `_mark_failed`: a failure after a capture is ignored.
unfoldable pub mark_failed : Option ℕ → ℕ → Option ℕ → Payment → Db → Result Db
unfolding get_order record_failure
mark_failed event_id reason raw payment db = do
  order ← or_raise (get_order payment.order_id db.orders) AppError.not_found
  cond (is_settled payment order) (ok db) (record_failure event_id reason raw payment order db)

abbrev pub refund_payment : ℕ → Capture → Payment → Payment
refund_payment now c payment = record payment {
  razorpay_payment_id = some c.razorpay_payment_id;
  status = RazorpayPaymentStatus.captured;
  captured_at = some now;
  webhook_event_id = if_given c.webhook_event_id payment.webhook_event_id;
  failure_reason = some FailureReason.captured_out_of_stock_needs_refund;
  raw_response = if_given c.raw_response payment.raw_response;
}

-- `_record_capture_unfulfillable`. On a duplicate key the whole transaction is rolled back; the log line
-- after it reads the order's number, which the rollback has expired, and raises.
unfoldable pub record_capture_unfulfillable : ℕ → Capture → Payment → Db → Result Db
unfolding get_order put_payment payments_unique
record_capture_unfulfillable now c payment db = do
  order ← or_raise (get_order payment.order_id db.orders) AppError.not_found
  let db' = record db {
    payments = put_payment (refund_payment now c payment) db.payments;
    audits =
        audit_of AuditAction.payment_captured order.id (Metadata.needs_refund c.razorpay_payment_id)
        ∷ db.audits;
  }
  if payments_unique db'.payments then ok db' else err AppError.missing_greenlet
