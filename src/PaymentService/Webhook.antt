-- ===== src/PaymentService/Webhook.antt =====
-- `handle_webhook` and `verify_and_capture` of app/services/payment_service.py.
use oorvashee_backend.Prelude.{ℕ, Bool, true, false, ◌&&◌, not, Option, none, some, List}
use mathlib.Core.Bool.{cond}
use oorvashee_backend.Models.Enums.OrderStatus
use oorvashee_backend.Models.Order.{Order, Payment}
use oorvashee_backend.Models.Enums.RazorpayPaymentStatus
use oorvashee_backend.Models.Audit.{CaptureSource}
use oorvashee_backend.Exceptions.{AppError, Result, ok, err, ◌>>=◌, ◌>>◌, raise_if, or_raise}
use oorvashee_backend.Database.{Db}
use oorvashee_backend.OrderRepository.{
  get_order, get_by_number, get_by_razorpay_order_id, put_payment, get_by_webhook_event_id,
}
use oorvashee_backend.PaymentService.{
  WebhookEvent, EventType, WebhookStatus, Capture, flush_payments, capture, mark_failed,
  record_capture_unfulfillable,
}

abbrev pub Reply : Type 0
Reply = Result (WebhookStatus × Db)

abbrev pub has : Option ℕ → Bool
has none = false
has (some x) = true

-- The event has been recorded on some payment.
abbrev pub is_some_payment : Option Payment → Bool
is_some_payment none = false
is_some_payment (some p) = true

unfoldable pub is_duplicate : Option ℕ → List Payment → Bool
unfolding get_by_webhook_event_id
is_duplicate none payments = false
is_duplicate (some id) payments = is_some_payment (get_by_webhook_event_id id payments)

-- The money was captured, and the order cannot be fulfilled.
unfoldable pub flag_refund : ℕ → Capture → Payment → Db → Reply
unfolding record_capture_unfulfillable
flag_refund now c payment db = record_capture_unfulfillable now c payment db >>= λ db'.
    ok (WebhookStatus.captured_needs_refund, db')

-- `except OutOfStockError`: the savepoint of the capture is rolled back, and the rest raises.
abbrev pub on_capture : ℕ → Capture → Payment → Db → Result Db → Reply
on_capture now c payment db (ok db') = ok (WebhookStatus.captured, db')
on_capture now c payment db (err AppError.out_of_stock) = flag_refund now c payment db
on_capture now c payment db (err e) = err e

-- The order was cancelled before the money arrived.
abbrev pub is_cancelled_checkout : Order → Bool
is_cancelled_checkout order =
    has order.checkout_session_id && OrderStatus.is order.status OrderStatus.cancelled

unfoldable pub capture_or_flag : ℕ → Capture → Payment → Db → Reply
unfolding get_order flag_refund capture
capture_or_flag now c payment db = do
  order ← or_raise (get_order payment.order_id db.orders) AppError.not_found
  cond (is_cancelled_checkout order) (flag_refund now c payment db)
      (on_capture now c payment db (capture now c payment db))

-- A capture of a payment that is captured only records the event.
unfoldable pub already_captured : Option ℕ → Payment → Db → Reply
unfolding put_payment flush_payments
already_captured event_id payment db =
    flush_payments (record db {
      payments = put_payment (record payment { webhook_event_id = event_id }) db.payments;
    })
    >>= λ db'. ok (WebhookStatus.already_captured, db')

abbrev pub webhook_capture : WebhookEvent → ℕ → Capture
webhook_capture event payment_id = record {
  razorpay_payment_id = payment_id;
  razorpay_signature = none;
  source = CaptureSource.webhook;
  webhook_event_id = event.event_id;
  raw_response = event.raw;
}

abbrev pub on_captured_payment : ℕ → WebhookEvent → ℕ → Db → Option Payment → Reply
on_captured_payment now event payment_id db none = ok (WebhookStatus.unknown_order, db)
on_captured_payment now event payment_id db (some payment) =
    cond (RazorpayPaymentStatus.is_captured payment.status)
      (already_captured event.event_id payment db)
      (capture_or_flag now (webhook_capture event payment_id) payment db)

-- The branch `payment.captured`.
unfoldable pub on_captured : ℕ → WebhookEvent → Db → Reply
unfolding get_by_razorpay_order_id already_captured capture_or_flag
on_captured now event db = do
  order_id ← or_raise event.razorpay_order_id AppError.integration
  payment_id ← or_raise event.razorpay_payment_id AppError.integration
  on_captured_payment now event payment_id db (get_by_razorpay_order_id order_id db.payments)

-- "Razorpay reported failure", where the event gives no reason.
abbrev pub default_reason : ℕ
default_reason = 0

abbrev pub given_or : Option ℕ → ℕ → ℕ
given_or none d = d
given_or (some x) d = x

abbrev pub find_payment : Option ℕ → List Payment → Option Payment
find_payment none payments = none
find_payment (some id) payments = get_by_razorpay_order_id id payments

abbrev pub on_failed_payment : WebhookEvent → Db → Option Payment → Reply
on_failed_payment event db none = ok (WebhookStatus.unknown_order, db)
on_failed_payment event db (some payment) =
    mark_failed event.event_id (given_or event.error_description default_reason) event.raw payment
      db
    >>= λ db'. ok (WebhookStatus.failed_recorded, db')

-- The branch `payment.failed`; no payment has the empty text for its order id.
unfoldable pub on_failed : WebhookEvent → Db → Reply
unfolding get_by_razorpay_order_id mark_failed
on_failed event db = on_failed_payment event db (find_payment event.razorpay_order_id db.payments)

abbrev pub by_type : ℕ → WebhookEvent → Db → EventType → Reply
by_type now event db EventType.payment_captured = on_captured now event db
by_type now event db EventType.payment_failed = on_failed event db
by_type now event db EventType.other_event = ok (WebhookStatus.ignored, db)

unfoldable pub handle_webhook : ℕ → Bool → WebhookEvent → Db → Reply
unfolding is_duplicate on_captured on_failed
handle_webhook now signature_ok event db = do
  raise_if (not signature_ok) AppError.authentication
  cond (is_duplicate event.event_id db.payments) (ok (WebhookStatus.duplicate, db))
      (by_type now event db event.event)

abbrev pub verify_capture : ℕ → ℕ → Capture
verify_capture payment_id signature = record {
  razorpay_payment_id = payment_id;
  razorpay_signature = some signature;
  source = CaptureSource.verify;
  webhook_event_id = none;
  raw_response = none;
}

-- The call of a browser after the widget: for a reservation-backed order it only reports. The result
-- is the state and the id of the order that is returned.
unfoldable pub verify_and_capture : ℕ → Bool → ℕ → ℕ → ℕ → ℕ → Db → Result (ℕ × Db)
unfolding get_by_razorpay_order_id get_by_number capture
verify_and_capture now signature_ok order_number razorpay_order_id payment_id signature db = do
  raise_if (not signature_ok) AppError.authentication
  payment ← or_raise (get_by_razorpay_order_id razorpay_order_id db.payments) AppError.not_found
  order ← or_raise (get_by_number order_number db.orders) AppError.not_found
  cond (has order.checkout_session_id) (ok (order.id, db)) (
      cond (RazorpayPaymentStatus.is_captured payment.status) (ok (order.id, db)) (
        capture now (verify_capture payment_id signature) payment db >>= λ db'.
        ok (payment.order_id, db')))
