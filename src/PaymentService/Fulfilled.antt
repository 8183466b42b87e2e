-- ===== src/PaymentService/Fulfilled.antt =====
-- What a capture does for an order that a checkout session backs: app/services/payment_service.py and,
-- below it, `complete_sale`.
use oorvashee_backend.Prelude.{ℕ, ◌≡◌, refl, ap, ◌∙◌, true, Option, none, some}
use oorvashee_backend.Models.Enums.PaymentStatus
use oorvashee_backend.Models.Enums.RazorpayPaymentStatus
use oorvashee_backend.Models.Order.{Order, Payment}
use oorvashee_backend.Exceptions.{AppError, Result, ok, err}
use oorvashee_backend.Exceptions.Loops.{Ends, Ends-then, Ends-guard, Ends-or_raise, Ends-of_ok}
use oorvashee_backend.Database.{Db}
use oorvashee_backend.InventoryService.{commit_sale}
use oorvashee_backend.InventoryService.Sale.{Sells, commit_sale-Sells}
use oorvashee_backend.ReservationLifecycleService.{
  requirements_of, complete_sale, transition_session,
}
use oorvashee_backend.OrderRepository.{get_order, put_payment, get_by_razorpay_order_id}
use oorvashee_backend.OrderRepository.Evolution.{get_order-id, get-put_self, cond-Ends}
use oorvashee_backend.PaymentService.{
  WebhookEvent, EventType, WebhookStatus, Capture, flush_payments, fulfil, fulfil_by, or_now,
  paid_order, record_paid, capture, record_capture_unfulfillable,
}
use oorvashee_backend.PaymentService.Webhook.{
  Reply, flag_refund, on_capture, capture_or_flag, is_cancelled_checkout, already_captured,
  on_captured, webhook_capture, is_duplicate, by_type, handle_webhook,
}

module _ (now sid : ℕ) (db : Db) (payment : Payment) (order : Order)
    (found : get_order payment.order_id db.orders ≡ some order)
    (linked : order.checkout_session_id ≡ some sid) where
  -- The goods have left the stock, and the order is paid.
  abbrev pub IsFulfilled : Db → Type 0
  IsFulfilled after =
      Sells (requirements_of order) db.stock after.stock
      × (get_order order.id after.orders
          ≡ some (record order {
            payment_status = PaymentStatus.paid;
            placed_at = or_now now order.placed_at;
          }))

  abbrev HasSold : Db → Type 0
  HasSold after = Sells (requirements_of order) db.stock after.stock × (after.orders ≡ db.orders)

  fulfil_by-HasSold :
      (session : Option ℕ)
      → session ≡ order.checkout_session_id
      → Ends HasSold (λ _. Unit {0}) (fulfil_by session order db)
  unfolding complete_sale transition_session
  fulfil_by-HasSold none e = cc
  fulfil_by-HasSold (some id) e = rw (← e) (
      Ends-then HasSold (λ _. Unit {0}) (commit_sale order.id (requirements_of order) db.stock) _
        (λ _ _. tt)
        (λ stock sold.
          (commit_sale-Sells order.id (requirements_of order) db.stock stock sold, refl)))

  record_paid-IsFulfilled :
      (c : Capture) (db' : Db) → HasSold db' → IsFulfilled (record_paid now c payment order db')
  unfolding record_paid
  record_paid-IsFulfilled c db' h = (
    h.0,
    get-put_self (paid_order now order) order db'.orders (
        ap (λ id. get_order id db'.orders) (get_order-id payment.order_id db.orders order found)
        ∙ ap (get_order payment.order_id) h.1
        ∙ found),
  )

  capture-IsFulfilled : (c : Capture) → Ends IsFulfilled (λ _. Unit {0}) (capture now c payment db)
  unfolding capture fulfil flush_payments
  capture-IsFulfilled c = rw found (
      Ends-then IsFulfilled (λ _. Unit {0}) (fulfil_by order.checkout_session_id order db) _
        (λ _ _. tt)
        λ db' e.
          Ends-guard IsFulfilled (λ _. Unit {0}) _ (ok (record_paid now c payment order db'))
            (λ _ _. tt)
            (record_paid-IsFulfilled c db' (
              Ends-of_ok HasSold (λ _. Unit {0}) _ db'
                (fulfil_by-HasSold order.checkout_session_id refl) e)))

  abbrev OnCapture : WebhookStatus × Db → Type 0
  OnCapture a = a.0 ≡ WebhookStatus.captured → IsFulfilled a.1

  abbrev FulfilsIn : Reply → Type 0
  FulfilsIn = Ends OnCapture (λ _. Unit {0})

  flag_refund-FulfilsIn : (c : Capture) → FulfilsIn (flag_refund now c payment db)
  unfolding flag_refund
  flag_refund-FulfilsIn c =
      Ends-then OnCapture (λ _. Unit {0}) (record_capture_unfulfillable now c payment db) _
        (λ _ _. tt) (λ _ _ never. cc)

  on_capture-FulfilsIn :
      (c : Capture) (r : Result Db)
      → Ends IsFulfilled (λ _. Unit {0}) r
      → FulfilsIn (on_capture now c payment db r)
  on_capture-FulfilsIn c (ok db') h = λ _. h
  on_capture-FulfilsIn c (err AppError.out_of_stock) h = flag_refund-FulfilsIn c
  on_capture-FulfilsIn c (err _) h = tt

  capture_or_flag-FulfilsIn : (c : Capture) → FulfilsIn (capture_or_flag now c payment db)
  unfolding capture_or_flag
  capture_or_flag-FulfilsIn c =
      Ends-or_raise OnCapture (λ _. Unit {0}) (get_order payment.order_id db.orders)
        AppError.not_found _ (λ _. tt)
        λ o _.
          cond-Ends OnCapture (is_cancelled_checkout o) (flag_refund now c payment db)
            (on_capture now c payment db (capture now c payment db)) (λ _. flag_refund-FulfilsIn c)
            (λ _. on_capture-FulfilsIn c (capture now c payment db) (capture-IsFulfilled c))

  already_captured-FulfilsIn :
      (event_id : Option ℕ) → FulfilsIn (already_captured event_id payment db)
  unfolding already_captured
  already_captured-FulfilsIn event_id =
      Ends-then OnCapture (λ _. Unit {0})
        (flush_payments (record db {
          payments = put_payment (record payment { webhook_event_id = event_id }) db.payments;
        }))
        _ (λ _ _. tt) (λ _ _ never. cc)

  on_captured-FulfilsIn :
      (event : WebhookEvent) (rid : ℕ)
      → event.razorpay_order_id ≡ some rid
      → get_by_razorpay_order_id rid db.payments ≡ some payment
      → FulfilsIn (on_captured now event db)
  unfolding on_captured
  on_captured-FulfilsIn event rid same listed = rw same (
      Ends-or_raise OnCapture (λ _. Unit {0}) event.razorpay_payment_id AppError.integration _
        (λ _. tt)
        λ payment_id _. rw listed (
          cond-Ends OnCapture (RazorpayPaymentStatus.is_captured payment.status)
            (already_captured event.event_id payment db)
            (capture_or_flag now (webhook_capture event payment_id) payment db)
            (λ _. already_captured-FulfilsIn event.event_id)
            (λ _. capture_or_flag-FulfilsIn (webhook_capture event payment_id))))

  handle_webhook-FulfilsIn :
      (event : WebhookEvent) (rid : ℕ)
      → event.event ≡ EventType.payment_captured
      → event.razorpay_order_id ≡ some rid
      → get_by_razorpay_order_id rid db.payments ≡ some payment
      → FulfilsIn (handle_webhook now true event db)
  unfolding handle_webhook
  handle_webhook-FulfilsIn event rid type same listed =
      cond-Ends OnCapture (is_duplicate event.event_id db.payments)
        (ok (WebhookStatus.duplicate, db)) (by_type now event db event.event) (λ _ never. cc)
        (λ _. rw type (on_captured-FulfilsIn event rid same listed))

  -- A webhook that answers `captured` for a reservation-backed order has sold exactly what the order
  -- asks for: the stock of every variant has fallen by the order's demand and its units sold have risen
  -- by it, and the order is paid and placed, and otherwise as it was.
  pub captured_sells :
      (event : WebhookEvent) (rid : ℕ) (db' : Db)
      → event.event ≡ EventType.payment_captured
      → event.razorpay_order_id ≡ some rid
      → get_by_razorpay_order_id rid db.payments ≡ some payment
      → handle_webhook now true event db ≡ ok (WebhookStatus.captured, db')
      → IsFulfilled db'
  captured_sells event rid db' type same listed h =
      Ends-of_ok OnCapture (λ _. Unit {0}) (handle_webhook now true event db)
        (WebhookStatus.captured, db') (handle_webhook-FulfilsIn event rid type same listed) h refl
