-- ===== src/PaymentService/Writes.antt =====
-- The one row of `payments` that an event writes (app/services/payment_service.py): the payment of its
-- gateway order, and no other.
use oorvashee_backend.Prelude.{
  ℕ, ◌≡◌, refl, ap, ◌⊎◌, inl, inr, Option, none, some, Bool-cases, Option-cases,
}
use oorvashee_backend.Models.Enums.{StockMovementReason}
use oorvashee_backend.Models.Order.{Order, Payment}
use oorvashee_backend.Exceptions.{AppError, Result, ok, err}
use oorvashee_backend.Exceptions.Loops.{Ends, Ends-then, Ends-or_raise, Ends-of_ok}
use oorvashee_backend.Database.{Db}
use oorvashee_backend.InventoryService.{release_reservation}
use oorvashee_backend.ReservationLifecycleService.{requirements_of, cancel_for_order}
use oorvashee_backend.OrderRepository.{get_order, put_payment, payments_unique}
use oorvashee_backend.OrderRepository.Evolution.{cond-Ends}
use oorvashee_backend.PaymentService.{
  Capture, flush_payments, fulfil, record_paid, captured_payment, failed_payment, refund_payment,
  record_failed, capture, release_by, record_failure, mark_failed, is_settled,
  record_capture_unfulfillable,
}
use oorvashee_backend.PaymentService.Webhook.{
  Reply, flag_refund, on_capture, capture_or_flag, is_cancelled_checkout, already_captured,
}
use oorvashee_backend.PaymentService.CapturedOnce.{fulfil-payments, flush_payments-Ends}

-- Nothing is written, or the payment of the gateway order.
abbrev pub Writes : ℕ → Db → Db → Type 0
Writes rid before after =
    (after.payments ≡ before.payments)
    ⊎ ((q : Payment) × (q.razorpay_order_id ≡ rid)
        × (after.payments ≡ put_payment q before.payments))

abbrev pub AnswersWriting : ℕ → Db → Reply → Type 0
AnswersWriting rid db = Ends (λ a. Writes rid db a.1) (λ _. Unit {0})

release_by-payments :
    (session : Option ℕ) (order : Order) (db : Db)
    → Ends (λ (d : Db). d.payments ≡ db.payments) (λ _. Unit {0}) (release_by session order db)
unfolding cancel_for_order
release_by-payments none order db =
    Ends-then (λ (d : Db). d.payments ≡ db.payments) (λ _. Unit {0})
      (release_reservation order.id StockMovementReason.order_cancelled (requirements_of order)
        db.stock)
      _ (λ _ _. tt) (λ _ _. refl)
release_by-payments (some id) order db = elim (Option-cases order.checkout_session_id) [
  | inl e ↦ rw e refl
  | inr (s, e) ↦ rw e refl
]

module _ (db : Db) (payment : Payment) where
  capture-Writes :
      (now : ℕ) (c : Capture)
      → Ends (Writes payment.razorpay_order_id db) (λ _. Unit {0}) (capture now c payment db)
  unfolding capture record_paid
  capture-Writes now c =
      Ends-or_raise (Writes payment.razorpay_order_id db) (λ _. Unit {0})
        (get_order payment.order_id db.orders) AppError.not_found _ (λ _. tt)
        λ order _.
          Ends-then (Writes payment.razorpay_order_id db) (λ _. Unit {0}) (fulfil order db) _
            (λ _ _. tt)
            λ db' e.
              flush_payments-Ends (Writes payment.razorpay_order_id db)
                (record_paid now c payment order db')
                (inr (
                  captured_payment now c payment,
                  refl,
                  ap (put_payment (captured_payment now c payment)) (
                      Ends-of_ok (λ (d : Db). d.payments ≡ db.payments) (λ _. Unit {0})
                        (fulfil order db) db' (fulfil-payments order db) e),
                ))

  record_failure-Writes :
      (event_id : Option ℕ) (reason : ℕ) (raw : Option ℕ) (order : Order)
      → Ends
          (Writes payment.razorpay_order_id db)
          (λ _. Unit {0})
          (record_failure event_id reason raw payment order db)
  unfolding record_failure record_failed
  record_failure-Writes event_id reason raw order =
      Ends-then (Writes payment.razorpay_order_id db) (λ _. Unit {0})
        (release_by order.checkout_session_id order db) _ (λ _ _. tt)
        λ db' e.
          flush_payments-Ends (Writes payment.razorpay_order_id db)
            (record_failed event_id reason raw payment order db')
            (inr (
              failed_payment event_id reason raw payment,
              refl,
              ap (put_payment (failed_payment event_id reason raw payment)) (
                  Ends-of_ok (λ (d : Db). d.payments ≡ db.payments) (λ _. Unit {0})
                    (release_by order.checkout_session_id order db) db'
                    (release_by-payments order.checkout_session_id order db) e),
            ))

  pub mark_failed-Writes :
      (event_id : Option ℕ) (reason : ℕ) (raw : Option ℕ)
      → Ends
          (Writes payment.razorpay_order_id db)
          (λ _. Unit {0})
          (mark_failed event_id reason raw payment db)
  unfolding mark_failed
  mark_failed-Writes event_id reason raw =
      Ends-or_raise (Writes payment.razorpay_order_id db) (λ _. Unit {0})
        (get_order payment.order_id db.orders) AppError.not_found _ (λ _. tt)
        λ order _.
          cond-Ends (Writes payment.razorpay_order_id db) (is_settled payment order) (ok db)
            (record_failure event_id reason raw payment order db) (λ _. inl refl)
            (λ _. record_failure-Writes event_id reason raw order)

  flag_refund-Writes :
      (now : ℕ) (c : Capture)
      → AnswersWriting payment.razorpay_order_id db (flag_refund now c payment db)
  unfolding flag_refund record_capture_unfulfillable
  flag_refund-Writes now c = elim (Option-cases (get_order payment.order_id db.orders)) [
    | inl e ↦ rw e tt
    | inr (order, e) ↦
        rw e
          (elim (Bool-cases
            (payments_unique (put_payment (refund_payment now c payment) db.payments))) [
              | inl u ↦ rw u (inr (refund_payment now c payment, refl, refl))
              | inr u ↦ rw u tt
            ])
  ]

  pub already_captured-Writes :
      (event_id : Option ℕ)
      → AnswersWriting payment.razorpay_order_id db (already_captured event_id payment db)
  unfolding already_captured
  already_captured-Writes event_id =
      Ends-then (λ a. Writes payment.razorpay_order_id db a.1) (λ _. Unit {0})
        (flush_payments after) _ (λ _ _. tt)
        λ d e.
          Ends-of_ok (Writes payment.razorpay_order_id db) (λ _. Unit {0}) (flush_payments after) d
            (flush_payments-Ends (Writes payment.razorpay_order_id db) after
              (inr (record payment { webhook_event_id = event_id }, refl, refl)))
            e
    where
      after : Db
      after = record db {
        payments = put_payment (record payment { webhook_event_id = event_id }) db.payments;
      }

  on_capture-Writes :
      (now : ℕ) (c : Capture) (r : Result Db)
      → Ends (Writes payment.razorpay_order_id db) (λ _. Unit {0}) r
      → AnswersWriting payment.razorpay_order_id db (on_capture now c payment db r)
  on_capture-Writes now c (ok db') h = h
  on_capture-Writes now c (err AppError.out_of_stock) h = flag_refund-Writes now c
  on_capture-Writes now c (err _) h = tt

  pub capture_or_flag-Writes :
      (now : ℕ) (c : Capture)
      → AnswersWriting payment.razorpay_order_id db (capture_or_flag now c payment db)
  unfolding capture_or_flag
  capture_or_flag-Writes now c =
      Ends-or_raise (λ a. Writes payment.razorpay_order_id db a.1) (λ _. Unit {0})
        (get_order payment.order_id db.orders) AppError.not_found _ (λ _. tt)
        λ order _.
          cond-Ends (λ a. Writes payment.razorpay_order_id db a.1) (is_cancelled_checkout order)
            (flag_refund now c payment db) (on_capture now c payment db (capture now c payment db))
            (λ _. flag_refund-Writes now c)
            (λ _. on_capture-Writes now c (capture now c payment db) (capture-Writes now c))
