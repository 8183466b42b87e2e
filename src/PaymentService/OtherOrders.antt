-- ===== src/PaymentService/OtherOrders.antt =====
-- The events of other gateway orders, and a payment that is captured (app/services/payment_service.py).
use oorvashee_backend.Prelude.{
  ℕ, suc, ◌≡◌, ◌≢◌, refl, sym, ap, ◌∙◌, inl, inr, Bool, not, none, some, List, [], ◌∷◌, arith,
  Option-cases,
}
use oorvashee_backend.Models.Enums.RazorpayPaymentStatus
use oorvashee_backend.Models.Order.{Payment}
use oorvashee_backend.Exceptions.{AppError, ok}
use oorvashee_backend.Exceptions.Loops.{
  Ends, Ends-then, Ends-raise_if, Ends-or_raise, Ends-of_ok, Ends-weaken,
}
use oorvashee_backend.Database.{Db}
use oorvashee_backend.OrderRepository.{get_by_razorpay_order_id, put_payment}
use oorvashee_backend.OrderRepository.Evolution.{cond-Ends}
use oorvashee_backend.PaymentService.{WebhookEvent, EventType, WebhookStatus, mark_failed}
use oorvashee_backend.PaymentService.Webhook.{
  Reply, is_duplicate, capture_or_flag, already_captured, on_captured, webhook_capture, on_failed,
  on_failed_payment, given_or, default_reason, by_type, handle_webhook,
}
use oorvashee_backend.PaymentService.CapturedOnce.{IsCapturedIn, get-razorpay_order_id}
use oorvashee_backend.PaymentService.Writes.{
  Writes, AnswersWriting, mark_failed-Writes, already_captured-Writes, capture_or_flag-Writes,
}

module _ (db : Db) (event : WebhookEvent) (rid : ℕ)
    (same : event.razorpay_order_id ≡ some rid) where
  on_captured-Writes : (now : ℕ) → AnswersWriting rid db (on_captured now event db)
  unfolding on_captured
  on_captured-Writes now = rw same (
      Ends-or_raise (λ a. Writes rid db a.1) (λ _. Unit {0}) event.razorpay_payment_id
        AppError.integration _ (λ _. tt)
        (λ payment_id _. elim (Option-cases (get_by_razorpay_order_id rid db.payments)) [
          | inl e ↦ rw e (inl refl)
          | inr (payment, e) ↦
              rw (e, ← get-razorpay_order_id rid payment db.payments e)
                (cond-Ends (λ a. Writes payment.razorpay_order_id db a.1)
                  (RazorpayPaymentStatus.is_captured payment.status)
                  (already_captured event.event_id payment db)
                  (capture_or_flag now (webhook_capture event payment_id) payment db)
                  (λ _. already_captured-Writes db payment event.event_id)
                  (λ _. capture_or_flag-Writes db payment now (webhook_capture event payment_id)))
        ]))

  failed-Writes :
      (payment : Payment)
      → payment.razorpay_order_id ≡ rid
      → AnswersWriting rid db (on_failed_payment event db (some payment))
  failed-Writes payment e = rw (← e) (
      Ends-then (λ a. Writes payment.razorpay_order_id db a.1) (λ _. Unit {0})
        (mark_failed event.event_id (given_or event.error_description default_reason) event.raw
          payment db)
        _ (λ _ _. tt)
        λ db' done.
          Ends-of_ok (Writes payment.razorpay_order_id db) (λ _. Unit {0}) _ db'
            (mark_failed-Writes db payment event.event_id
              (given_or event.error_description default_reason) event.raw)
            done)

  on_failed-Writes : AnswersWriting rid db (on_failed event db)
  unfolding on_failed
  on_failed-Writes = rw same (elim (Option-cases (get_by_razorpay_order_id rid db.payments)) [
    | inl e ↦ rw e (inl refl)
    | inr (payment, e) ↦
        rw e (failed-Writes payment (get-razorpay_order_id rid payment db.payments e))
  ])

  by_type-Writes : (now : ℕ) (type : EventType) → AnswersWriting rid db (by_type now event db type)
  by_type-Writes now EventType.payment_captured = on_captured-Writes now
  by_type-Writes now EventType.payment_failed = on_failed-Writes
  by_type-Writes now EventType.other_event = inl refl

-- An event without a gateway order writes nothing.
by_type-unwritten :
    (rid now : ℕ) (db : Db) (event : WebhookEvent) (type : EventType)
    → event.razorpay_order_id ≡ none
    → AnswersWriting rid db (by_type now event db type)
unfolding on_captured on_failed
by_type-unwritten rid now db event EventType.payment_captured e = rw e tt
by_type-unwritten rid now db event EventType.payment_failed e = rw e (inl refl)
by_type-unwritten rid now db event EventType.other_event e = inl refl

get-put_other :
    (rid : ℕ) (q : Payment) (rows : List Payment)
    → q.razorpay_order_id ≢ rid
    → get_by_razorpay_order_id rid (put_payment q rows) ≡ get_by_razorpay_order_id rid rows
unfolding get_by_razorpay_order_id put_payment
get-put_other rid q [] n = refl
get-put_other rid q (r ∷ rows) n = ground (arith, get-put_other rid q rows n)

Writes-IsCapturedIn :
    (rid other : ℕ) (before after : Db)
    → other ≢ rid
    → IsCapturedIn rid before
    → Writes other before after
    → IsCapturedIn rid after
Writes-IsCapturedIn rid other before after n captured (inl e) = rw e captured
Writes-IsCapturedIn rid other before after n captured (inr (q, i, e)) =
    rw (e, get-put_other rid q before.payments (λ same. n (sym i ∙ same))) captured

module _ (rid : ℕ) (db : Db) (captured : IsCapturedIn rid db) where
  abbrev StaysCaptured : Reply → Type 0
  StaysCaptured = Ends (λ a. IsCapturedIn rid a.1) (λ _. Unit {0})

  by_type-StaysCaptured :
      (now other : ℕ) (event : WebhookEvent)
      → other ≢ rid
      → AnswersWriting other db (by_type now event db event.event)
      → StaysCaptured (by_type now event db event.event)
  by_type-StaysCaptured now other event n =
      Ends-weaken (λ a. Writes other db a.1) (λ a. IsCapturedIn rid a.1) (λ _. Unit {0})
        (by_type now event db event.event) (λ a. Writes-IsCapturedIn rid other db a.1 n captured)

  -- A captured payment stays so under the events of other gateway orders.
  pub other-StaysCaptured :
      (now : ℕ) (signature_ok : Bool) (event : WebhookEvent)
      → event.razorpay_order_id ≢ some rid
      → StaysCaptured (handle_webhook now signature_ok event db)
  unfolding handle_webhook
  other-StaysCaptured now signature_ok event n =
      Ends-raise_if (λ a. IsCapturedIn rid a.1) (λ _. Unit {0}) (not signature_ok)
        AppError.authentication _ (λ _. tt)
        λ _.
          cond-Ends (λ a. IsCapturedIn rid a.1) (is_duplicate event.event_id db.payments)
            (ok (WebhookStatus.duplicate, db)) (by_type now event db event.event) (λ _. captured)
            (λ _. elim (Option-cases event.razorpay_order_id) [
              | inl e ↦
                  by_type-StaysCaptured now (suc rid) event (λ same. omega (arith, same))
                    (by_type-unwritten (suc rid) now db event event.event e)
              | inr (other, e) ↦
                  by_type-StaysCaptured now other event (λ same. n (e ∙ ap some same))
                    (by_type-Writes db event other e now event.event)
            ])
