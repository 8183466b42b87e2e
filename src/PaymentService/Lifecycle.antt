-- ===== src/PaymentService/Lifecycle.antt =====
-- What the events of the gateway do to orders (app/services/payment_service.py).
use oorvashee_backend.Prelude.{
  ℕ, ◌≡◌, refl, Bool, false, not, Option, none, some, arith, Option-cases, inl, inr,
}
use oorvashee_backend.Models.Enums.{StockMovementReason}
use oorvashee_backend.Models.Enums.RazorpayPaymentStatus
use oorvashee_backend.Models.Enums.PaymentStatus
use oorvashee_backend.Models.Order.{Order, Payment}
use oorvashee_backend.Exceptions.{AppError, Result, ok, err}
use oorvashee_backend.Exceptions.Loops.{
  Ends, Ends-then, Ends-guard, Ends-raise_if, Ends-or_raise, Ends-of_ok, Ends-weaken,
}
use oorvashee_backend.Database.{Db}
use oorvashee_backend.InventoryService.{commit_sale, consume_reservation, release_reservation}
use oorvashee_backend.ReservationLifecycleService.{requirements_of, complete_sale, cancel_for_order}
use oorvashee_backend.PaymentService.KeptPaid.{
  IsKept, KeepsPaid, put-KeepsPaid, same_orders-KeepsPaid,
}
use oorvashee_backend.OrderRepository.{get_order, put_order, get_by_razorpay_order_id}
use oorvashee_backend.OrderRepository.Evolution.{Evolves, with_order-Ends, cond-Ends}
use oorvashee_backend.PaymentService.{
  WebhookEvent, EventType, WebhookStatus, Capture, flush_payments, fulfil, fulfil_by, record_paid,
  record_failed, paid_order, capture, release_by, record_failure, mark_failed, is_settled,
  record_capture_unfulfillable,
}
use oorvashee_backend.PaymentService.Webhook.{
  Reply, is_duplicate, flag_refund, on_capture, capture_or_flag, is_cancelled_checkout,
  already_captured, on_captured, on_captured_payment, webhook_capture, on_failed, on_failed_payment,
  find_payment, given_or, default_reason, by_type, handle_webhook,
}

abbrev SameOrders : Db → Db → Type 0
SameOrders db db' = db'.orders ≡ db.orders

fulfil_by-SameOrders :
    (session : Option ℕ) (order : Order) (db : Db)
    → session ≡ order.checkout_session_id
    → Ends (SameOrders db) (λ _. Unit {0}) (fulfil_by session order db)
unfolding complete_sale
fulfil_by-SameOrders none order db e =
    Ends-then (SameOrders db) (λ _. Unit {0})
      (consume_reservation order.id (requirements_of order) db.stock) _ (λ _ _. tt) (λ _ _. refl)
fulfil_by-SameOrders (some id) order db e = rw (← e) (
    Ends-then (SameOrders db) (λ _. Unit {0})
      (commit_sale order.id (requirements_of order) db.stock) _ (λ _ _. tt) (λ _ _. refl))

release_by-SameOrders :
    (session : Option ℕ) (order : Order) (db : Db)
    → session ≡ order.checkout_session_id
    → Ends (SameOrders db) (λ _. Unit {0}) (release_by session order db)
unfolding cancel_for_order
release_by-SameOrders none order db e =
    Ends-then (SameOrders db) (λ _. Unit {0})
      (release_reservation order.id StockMovementReason.order_cancelled (requirements_of order)
        db.stock)
      _ (λ _ _. tt) (λ _ _. refl)
release_by-SameOrders (some id) order db e = rw (← e) refl

flush-KeepsPaid :
    (db after : Db)
    → KeepsPaid db after
    → Ends (KeepsPaid db) (λ _. Unit {0}) (flush_payments after)
unfolding flush_payments
flush-KeepsPaid db after h = Ends-guard (KeepsPaid db) (λ _. Unit {0}) _ (ok after) (λ _ _. tt) h

-- The order that was found is written into a table of orders that has not changed since.
put_later :
    (id : ℕ) (order : Order) (db db' : Db)
    → get_order id db.orders ≡ some order
    → SameOrders db db'
    → (o : Order) → o.id ≡ order.id
    → IsKept order o
    → Evolves IsKept db.orders (put_order o db'.orders)
put_later id order db db' found same o e h = rw same (put-KeepsPaid id order db found o e h)

module _ (db : Db) (payment : Payment) where
  capture-KeepsPaid :
      (now : ℕ) (c : Capture) → Ends (KeepsPaid db) (λ _. Unit {0}) (capture now c payment db)
  unfolding capture fulfil record_paid
  capture-KeepsPaid now c =
      with_order-Ends (KeepsPaid db) payment.order_id db.orders _ λ order found.
        Ends-then (KeepsPaid db) (λ _. Unit {0}) (fulfil order db) _ (λ _ _. tt)
          λ db' e. flush-KeepsPaid db (record_paid now c payment order db') (
            put_later payment.order_id order db db' found
              (Ends-of_ok (SameOrders db) (λ _. Unit {0}) (fulfil order db) db'
                (fulfil_by-SameOrders order.checkout_session_id order db refl) e)
              (paid_order now order) refl (refl, λ p. refl))

  failed-IsKept :
      (order : Order)
      → is_settled payment order ≡ false
      → IsKept order (record order { payment_status = PaymentStatus.failed })
  failed-IsKept order unsettled = (refl, λ p. ground arith)

  record_failure-KeepsPaid :
      (event_id : Option ℕ) (reason : ℕ) (raw : Option ℕ) (order : Order)
      → get_order payment.order_id db.orders ≡ some order
      → is_settled payment order ≡ false
      → Ends (KeepsPaid db) (λ _. Unit {0}) (record_failure event_id reason raw payment order db)
  unfolding record_failure record_failed
  record_failure-KeepsPaid event_id reason raw order found unsettled =
      Ends-then (KeepsPaid db) (λ _. Unit {0}) (release_by order.checkout_session_id order db) _
        (λ _ _. tt)
        λ db' e. flush-KeepsPaid db (record_failed event_id reason raw payment order db') (
          put_later payment.order_id order db db' found
            (Ends-of_ok (SameOrders db) (λ _. Unit {0})
              (release_by order.checkout_session_id order db) db'
              (release_by-SameOrders order.checkout_session_id order db refl) e)
            (record order { payment_status = PaymentStatus.failed }) refl
            (failed-IsKept order unsettled))

  mark_failed-KeepsPaid :
      (event_id : Option ℕ) (reason : ℕ) (raw : Option ℕ)
      → Ends (KeepsPaid db) (λ _. Unit {0}) (mark_failed event_id reason raw payment db)
  unfolding mark_failed
  mark_failed-KeepsPaid event_id reason raw =
      with_order-Ends (KeepsPaid db) payment.order_id db.orders _ λ order found.
        cond-Ends (KeepsPaid db) (is_settled payment order) (ok db)
          (record_failure event_id reason raw payment order db)
          (λ _. same_orders-KeepsPaid db db refl)
          (record_failure-KeepsPaid event_id reason raw order found)

  -- An answer beside the same orders.
  answered-KeepsPaid :
      (r : Reply)
      → Ends (λ a. SameOrders db a.1) (λ _. Unit {0}) r
      → Ends (λ a. KeepsPaid db a.1) (λ _. Unit {0}) r
  answered-KeepsPaid r =
      Ends-weaken (λ a. SameOrders db a.1) (λ a. KeepsPaid db a.1) (λ _. Unit {0}) r
        (λ a. same_orders-KeepsPaid db a.1)

  flag_refund-KeepsPaid :
      (now : ℕ) (c : Capture)
      → Ends (λ a. KeepsPaid db a.1) (λ _. Unit {0}) (flag_refund now c payment db)
  unfolding flag_refund record_capture_unfulfillable
  flag_refund-KeepsPaid now c =
      answered-KeepsPaid _ (elim (Option-cases (get_order payment.order_id db.orders)) [
        | inl e ↦ rw e tt
        | inr (order, e) ↦ rw e (ground arith)
      ])

  on_capture-KeepsPaid :
      (now : ℕ) (c : Capture) (r : Result Db)
      → Ends (KeepsPaid db) (λ _. Unit {0}) r
      → Ends (λ r. KeepsPaid db r.1) (λ _. Unit {0}) (on_capture now c payment db r)
  on_capture-KeepsPaid now c (ok db') h = h
  on_capture-KeepsPaid now c (err AppError.out_of_stock) h = flag_refund-KeepsPaid now c
  on_capture-KeepsPaid now c (err _) h = tt

  capture_or_flag-KeepsPaid :
      (now : ℕ) (c : Capture)
      → Ends (λ r. KeepsPaid db r.1) (λ _. Unit {0}) (capture_or_flag now c payment db)
  unfolding capture_or_flag
  capture_or_flag-KeepsPaid now c =
      Ends-or_raise (λ a. KeepsPaid db a.1) (λ _. Unit {0}) (get_order payment.order_id db.orders)
        AppError.not_found _ (λ _. tt)
        λ order _.
          cond-Ends (λ a. KeepsPaid db a.1) (is_cancelled_checkout order)
            (flag_refund now c payment db) (on_capture now c payment db (capture now c payment db))
            (λ _. flag_refund-KeepsPaid now c)
            (λ _. on_capture-KeepsPaid now c (capture now c payment db) (capture-KeepsPaid now c))

  already_captured-KeepsPaid :
      (event_id : Option ℕ)
      → Ends (λ r. KeepsPaid db r.1) (λ _. Unit {0}) (already_captured event_id payment db)
  unfolding already_captured flush_payments
  already_captured-KeepsPaid event_id = answered-KeepsPaid _ (ground arith)

abbrev AnswersKept : Db → Reply → Type 0
AnswersKept db = Ends (λ a. KeepsPaid db a.1) (λ _. Unit {0})

module _ (db : Db) (event : WebhookEvent) where
  on_captured_payment-IsKept :
      (now payment_id : ℕ) (found : Option Payment)
      → AnswersKept db (on_captured_payment now event payment_id db found)
  on_captured_payment-IsKept now payment_id none = same_orders-KeepsPaid db db refl
  on_captured_payment-IsKept now payment_id (some payment) =
      cond-Ends (λ a. KeepsPaid db a.1) (RazorpayPaymentStatus.is_captured payment.status)
        (already_captured event.event_id payment db)
        (capture_or_flag now (webhook_capture event payment_id) payment db)
        (λ _. already_captured-KeepsPaid db payment event.event_id)
        (λ _. capture_or_flag-KeepsPaid db payment now (webhook_capture event payment_id))

  on_captured-IsKept : (now : ℕ) → AnswersKept db (on_captured now event db)
  unfolding on_captured
  on_captured-IsKept now =
      Ends-or_raise (λ a. KeepsPaid db a.1) (λ _. Unit {0}) event.razorpay_order_id
        AppError.integration _ (λ _. tt)
        λ order_id _.
          Ends-or_raise (λ a. KeepsPaid db a.1) (λ _. Unit {0}) event.razorpay_payment_id
            AppError.integration _ (λ _. tt)
            λ payment_id _.
              on_captured_payment-IsKept now payment_id
                (get_by_razorpay_order_id order_id db.payments)

  on_failed_payment-IsKept :
      (found : Option Payment) → AnswersKept db (on_failed_payment event db found)
  on_failed_payment-IsKept none = same_orders-KeepsPaid db db refl
  on_failed_payment-IsKept (some payment) =
      Ends-then (λ a. KeepsPaid db a.1) (λ _. Unit {0})
        (mark_failed event.event_id (given_or event.error_description default_reason) event.raw
          payment db)
        _ (λ _ _. tt)
        λ db' e.
          Ends-of_ok (KeepsPaid db) (λ _. Unit {0}) _ db'
            (mark_failed-KeepsPaid db payment event.event_id
              (given_or event.error_description default_reason) event.raw)
            e

  by_type-IsKept : (now : ℕ) (type : EventType) → AnswersKept db (by_type now event db type)
  unfolding on_failed
  by_type-IsKept now EventType.payment_captured = on_captured-IsKept now
  by_type-IsKept now EventType.payment_failed =
      on_failed_payment-IsKept (find_payment event.razorpay_order_id db.payments)
  by_type-IsKept now EventType.other_event = same_orders-KeepsPaid db db refl

  -- An event of the gateway, whatever its type, its signature and its time, leaves the status of every
  -- order as it is, and an order that is paid stays paid under it; or it raises.
  pub handle_webhook-KeepsPaid :
      (now : ℕ) (signature_ok : Bool) → AnswersKept db (handle_webhook now signature_ok event db)
  unfolding handle_webhook
  handle_webhook-KeepsPaid now signature_ok =
      Ends-raise_if (λ a. KeepsPaid db a.1) (λ _. Unit {0}) (not signature_ok)
        AppError.authentication _ (λ _. tt)
        λ _.
          cond-Ends (λ a. KeepsPaid db a.1) (is_duplicate event.event_id db.payments)
            (ok (WebhookStatus.duplicate, db)) (by_type now event db event.event)
            (λ _. same_orders-KeepsPaid db db refl) (λ _. by_type-IsKept now event.event)
