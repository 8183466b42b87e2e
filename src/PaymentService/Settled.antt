-- ===== src/PaymentService/Settled.antt =====
-- Events that arrive for a payment that is captured already (app/services/payment_service.py).
use oorvashee_backend.Prelude.{
  ℕ, ◌≡◌, ◌≢◌, refl, ◌∙◌, ap, eq_or_ne, Bool, true, not, Option, some, Bool-cases, Option-cases,
  inl, inr,
}
use oorvashee_backend.Models.Enums.RazorpayPaymentStatus
use oorvashee_backend.Models.Order.{Payment}
use oorvashee_backend.Exceptions.{AppError, ok}
use oorvashee_backend.Exceptions.Loops.{
  Ends, Ends-then, Ends-raise_if, Ends-or_raise, Ends-of_ok, Ends-weaken,
}
use oorvashee_backend.Database.{Db}
use oorvashee_backend.OrderRepository.{get_order, get_by_razorpay_order_id, put_payment}
use oorvashee_backend.PaymentService.{
  WebhookEvent, EventType, WebhookStatus, flush_payments, mark_failed,
}
use oorvashee_backend.PaymentService.Webhook.{
  Reply, already_captured, on_captured, on_failed, on_failed_payment, is_duplicate, by_type,
  handle_webhook,
}
use oorvashee_backend.PaymentService.CapturedOnce.{
  IsCapturedIn, handle_webhook-CapturesIn, flush_payments-Ends, put-IsCapturedIn,
}
use oorvashee_backend.PaymentService.OtherOrders.{other-StaysCaptured}

-- Nothing that a capture moves has moved.
abbrev pub SameGoods : Db → Db → Type 0
SameGoods before after =
    (after.stock ≡ before.stock)
    × (after.reservations ≡ before.reservations)
    × (after.sessions ≡ before.sessions)
    × (after.orders ≡ before.orders)

-- A delivery moves nothing, does not answer `captured`, and leaves the payment captured.
abbrev pub IsInert : ℕ → Db → WebhookStatus × Db → Type 0
IsInert rid db r = SameGoods db r.1 × (r.0 ≢ WebhookStatus.captured) × IsCapturedIn rid r.1

abbrev StaysInert : ℕ → Db → Reply → Type 0
StaysInert rid db = Ends (IsInert rid db) (λ _. Unit {0})

unchanged-IsInert :
    (rid : ℕ) (status : WebhookStatus) (db : Db)
    → IsCapturedIn rid db
    → status ≢ WebhookStatus.captured
    → IsInert rid db (status, db)
unchanged-IsInert rid status db captured n = ((refl, refl, refl, refl), n, captured)

already_captured-StaysInert :
    (rid : ℕ) (event_id : Option ℕ) (payment : Payment) (db : Db)
    → get_by_razorpay_order_id rid db.payments ≡ some payment
    → RazorpayPaymentStatus.is_captured payment.status ≡ true
    → StaysInert rid db (already_captured event_id payment db)
unfolding already_captured
already_captured-StaysInert rid event_id payment db found done =
    Ends-then (IsInert rid db) (λ _. Unit {0}) (flush_payments after) _ (λ _ _. tt)
      (λ d e.
        let kept =
          Ends-of_ok (λ (d : Db). SameGoods db d × IsCapturedIn rid d) (λ _. Unit {0})
            (flush_payments after) d
            (flush_payments-Ends (λ (d : Db). SameGoods db d × IsCapturedIn rid d) after
              (
                (refl, refl, refl, refl),
                put-IsCapturedIn rid payment db found
                    (record payment { webhook_event_id = event_id }) db.payments refl refl done,
              ))
            e in
        (kept.0, (λ n. cc), kept.1))
  where
    after : Db
    after = record db {
      payments = put_payment (record payment { webhook_event_id = event_id }) db.payments;
    }

module _ (rid : ℕ) (event : WebhookEvent) (db : Db) (same : event.razorpay_order_id ≡ some rid)
    (captured : IsCapturedIn rid db) where
  captured_payment_of :
      (payment : Payment)
      → get_by_razorpay_order_id rid db.payments ≡ some payment
      → RazorpayPaymentStatus.is_captured payment.status ≡ true
  captured_payment_of payment e = rw e at captured

  on_captured-StaysInert : (now : ℕ) → StaysInert rid db (on_captured now event db)
  unfolding on_captured
  on_captured-StaysInert now = rw same (
      Ends-or_raise (IsInert rid db) (λ _. Unit {0}) event.razorpay_payment_id AppError.integration
        _ (λ _. tt)
        (λ payment_id _. elim (Option-cases (get_by_razorpay_order_id rid db.payments)) [
          | inl e ↦ rw e (unchanged-IsInert rid WebhookStatus.unknown_order db captured (λ n. cc))
          | inr (payment, e) ↦
              rw (e, captured_payment_of payment e)
                (already_captured-StaysInert rid event.event_id payment db e
                  (captured_payment_of payment e))
        ]))

  settled-StaysInert :
      (payment : Payment)
      → RazorpayPaymentStatus.is_captured payment.status ≡ true
      → StaysInert rid db (on_failed_payment event db (some payment))
  unfolding mark_failed
  settled-StaysInert payment done = elim (Option-cases (get_order payment.order_id db.orders)) [
    | inl e ↦ rw e tt
    | inr (order, e) ↦
        rw (e, done) (unchanged-IsInert rid WebhookStatus.failed_recorded db captured (λ n. cc))
  ]

  on_failed-StaysInert : StaysInert rid db (on_failed event db)
  unfolding on_failed
  on_failed-StaysInert = rw same (elim (Option-cases (get_by_razorpay_order_id rid db.payments)) [
    | inl e ↦ rw e (unchanged-IsInert rid WebhookStatus.unknown_order db captured (λ n. cc))
    | inr (payment, e) ↦ rw e (settled-StaysInert payment (captured_payment_of payment e))
  ])

  by_type-StaysInert : (now : ℕ) (type : EventType) → StaysInert rid db (by_type now event db type)
  by_type-StaysInert now EventType.payment_captured = on_captured-StaysInert now
  by_type-StaysInert now EventType.payment_failed = on_failed-StaysInert
  by_type-StaysInert now EventType.other_event =
      unchanged-IsInert rid WebhookStatus.ignored db captured (λ n. cc)

  handle_webhook-StaysInert :
      (now : ℕ) (signature_ok : Bool) → StaysInert rid db (handle_webhook now signature_ok event db)
  unfolding handle_webhook
  handle_webhook-StaysInert now signature_ok =
      Ends-raise_if (IsInert rid db) (λ _. Unit {0}) (not signature_ok) AppError.authentication _
        (λ _. tt)
        (λ _. elim (Bool-cases (is_duplicate event.event_id db.payments)) [
          | inl e ↦ rw e (unchanged-IsInert rid WebhookStatus.duplicate db captured (λ n. cc))
          | inr e ↦ rw e (by_type-StaysInert now event.event)
        ])

-- The tables after any number of deliveries of events, of whatever gateway orders. A delivery that
-- raises is rolled back, and leaves the tables as they are.
pub data Delivered (before : Db) : Db → Type 0 where
  none_yet : Delivered before before
  delivery :
      {db db' : Db}
      → Delivered before db
      → (now : ℕ) (signature_ok : Bool) (event : WebhookEvent) (status : WebhookStatus)
      → handle_webhook now signature_ok event db ≡ ok (status, db')
      → Delivered before db'

handle_webhook-StaysCaptured :
    (rid : ℕ) (event : WebhookEvent) (db : Db)
    → IsCapturedIn rid db
    → (now : ℕ) (signature_ok : Bool)
    → Ends (λ r. IsCapturedIn rid r.1) (λ _. Unit {0}) (handle_webhook now signature_ok event db)
handle_webhook-StaysCaptured rid event db captured now signature_ok =
    elim (Option-cases event.razorpay_order_id) [
      | inl e ↦ other-StaysCaptured rid db captured now signature_ok event (λ n. cc)
      | inr (other, e) ↦ elim (eq_or_ne other rid) [
        | inl same ↦
            Ends-weaken (IsInert rid db) (λ r. IsCapturedIn rid r.1) (λ _. Unit {0})
              (handle_webhook now signature_ok event db) (λ r k. k.2)
              (handle_webhook-StaysInert rid event db (e ∙ ap some same) captured now signature_ok)
        | inr n ↦ other-StaysCaptured rid db captured now signature_ok event (λ same. n cc)
      ]
    ]

Delivered-IsCapturedIn :
    (rid : ℕ) {before db : Db} → IsCapturedIn rid before → Delivered before db → IsCapturedIn rid db
Delivered-IsCapturedIn rid captured none_yet = captured
Delivered-IsCapturedIn rid captured (delivery {db} {db'} d now sig event status h) =
    Ends-of_ok (λ r. IsCapturedIn rid r.1) (λ _. Unit {0}) (handle_webhook now sig event db)
      (status, db')
      (handle_webhook-StaysCaptured rid event db (Delivered-IsCapturedIn rid captured d) now sig) h

-- After a webhook that answered `captured`, whatever events are delivered in between, of the same gateway
-- order or of others, of any type, id and time, and however many: an event of that order does not answer
-- `captured` again, and if it returns, it has left the stock, the reservations, the sessions and the
-- orders as it found them, and the payment is still captured. Nothing but events is served in between.
pub captured_once :
    (now later : ℕ) (event again : WebhookEvent) (db db' db'' : Db) (rid : ℕ) (signature_ok : Bool)
    → event.event ≡ EventType.payment_captured
    → event.razorpay_order_id ≡ some rid
    → again.razorpay_order_id ≡ some rid
    → handle_webhook now true event db ≡ ok (WebhookStatus.captured, db')
    → Delivered db' db''
    → Ends (IsInert rid db'') (λ _. Unit {0}) (handle_webhook later signature_ok again db'')
captured_once now later event again db db' db'' rid signature_ok type same same' h d =
    handle_webhook-StaysInert rid again db'' same' (Delivered-IsCapturedIn rid first d) later
      signature_ok
  where
    P : WebhookStatus × Db → Type 0
    P r = r.0 ≡ WebhookStatus.captured → IsCapturedIn rid r.1

    first : IsCapturedIn rid db'
    first =
        Ends-of_ok P (λ _. Unit {0}) (handle_webhook now true event db)
          (WebhookStatus.captured, db') (handle_webhook-CapturesIn rid now event db type same) h
          refl
