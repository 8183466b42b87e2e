-- ===== src/PaymentService/CapturedOnce.antt =====
-- A webhook that captures a payment (app/services/payment_service.py), and the payment it leaves.
use mathlib.Core.Bool.{cond}
use oorvashee_backend.Prelude.{
  ℕ, ◌≡◌, refl, ◌∙◌, Bool, true, false, Option, none, some, List, [], ◌∷◌, arith, Bool-cases,
  Option-cases, inl, inr,
}
use oorvashee_backend.Models.Enums.RazorpayPaymentStatus
use oorvashee_backend.Models.Order.{Order, Payment}
use oorvashee_backend.Exceptions.{AppError, Result, ok, err}
use oorvashee_backend.Exceptions.Loops.{Ends, Ends-then, Ends-guard, Ends-or_raise, Ends-of_ok}
use oorvashee_backend.Database.{Db}
use oorvashee_backend.InventoryService.{commit_sale, consume_reservation}
use oorvashee_backend.ReservationLifecycleService.{requirements_of}
use oorvashee_backend.OrderRepository.{get_order, get_by_razorpay_order_id, put_payment}
use oorvashee_backend.PaymentService.{
  record_paid, WebhookEvent, EventType, WebhookStatus, Capture, flush_payments, fulfil,
  captured_payment, capture, record_capture_unfulfillable,
}
use oorvashee_backend.PaymentService.Webhook.{
  Reply, flag_refund, capture_or_flag, already_captured, on_capture, is_cancelled_checkout,
  on_captured, on_captured_payment, webhook_capture, is_duplicate, handle_webhook,
}

abbrev pub is_captured_at : Option Payment → Bool
is_captured_at none = false
is_captured_at (some p) = RazorpayPaymentStatus.is_captured p.status

-- The payment of a gateway order is captured.
abbrev pub IsCapturedIn : ℕ → Db → Type 0
IsCapturedIn rid db = is_captured_at (get_by_razorpay_order_id rid db.payments) ≡ true

get-put_payment :
    (rid : ℕ) (p q : Payment) (rows : List Payment)
    → get_by_razorpay_order_id rid rows ≡ some q
    → p.razorpay_order_id ≡ rid
    → get_by_razorpay_order_id rid (put_payment p rows) ≡ some p
unfolding get_by_razorpay_order_id put_payment
get-put_payment rid p q [] e same = cc
get-put_payment rid p q (r ∷ rows) e same = ground (arith, get-put_payment rid p q rows)

pub get-razorpay_order_id :
    (rid : ℕ) (q : Payment) (rows : List Payment)
    → get_by_razorpay_order_id rid rows ≡ some q
    → q.razorpay_order_id ≡ rid
unfolding get_by_razorpay_order_id
get-razorpay_order_id rid q [] e = cc
get-razorpay_order_id rid q (r ∷ rows) e = ground (arith, get-razorpay_order_id rid q rows)

-- Taking the stock writes no payment.
pub fulfil-payments :
    (order : Order) (db : Db)
    → Ends (λ (d : Db). d.payments ≡ db.payments) (λ _. Unit {0}) (fulfil order db)
unfolding fulfil
fulfil-payments order db = elim (Option-cases order.checkout_session_id) [
  | inl e ↦ rw e (
      Ends-then (λ (d : Db). d.payments ≡ db.payments) (λ _. Unit {0})
        (consume_reservation order.id (requirements_of order) db.stock) _ (λ _ _. tt) (λ _ _. refl))
  | inr (id, e) ↦ rw e (
      Ends-then (λ (d : Db). d.payments ≡ db.payments) (λ _. Unit {0})
        (commit_sale order.id (requirements_of order) db.stock) _ (λ _ _. tt) (λ _ _. refl))
]

pub flush_payments-Ends :
    (P : Db → Type 0) (db : Db) → P db → Ends P (λ _. Unit {0}) (flush_payments db)
unfolding flush_payments
flush_payments-Ends P db h = Ends-guard P (λ _. Unit {0}) _ (ok db) (λ _ _. tt) h

module _ (rid : ℕ) (payment : Payment) (db : Db)
    (found : get_by_razorpay_order_id rid db.payments ≡ some payment) where
  pub put-IsCapturedIn :
      (p : Payment) (rows : List Payment)
      → rows ≡ db.payments
      → p.razorpay_order_id ≡ payment.razorpay_order_id
      → RazorpayPaymentStatus.is_captured p.status ≡ true
      → is_captured_at (get_by_razorpay_order_id rid (put_payment p rows)) ≡ true
  put-IsCapturedIn p rows same id status =
      rw
        (get-put_payment rid p payment rows (rw same found)
          (id ∙ get-razorpay_order_id rid payment db.payments found))
        status

  capture-IsCapturedIn :
      (now : ℕ) (c : Capture) → Ends (IsCapturedIn rid) (λ _. Unit {0}) (capture now c payment db)
  unfolding capture record_paid
  capture-IsCapturedIn now c =
      Ends-or_raise (IsCapturedIn rid) (λ _. Unit {0}) (get_order payment.order_id db.orders)
        AppError.not_found _ (λ _. tt)
        λ order _.
          Ends-then (IsCapturedIn rid) (λ _. Unit {0}) (fulfil order db) _ (λ _ _. tt)
            λ db' e. flush_payments-Ends (IsCapturedIn rid) (record_paid now c payment order db') (
              put-IsCapturedIn (captured_payment now c payment) db'.payments
                (Ends-of_ok (λ (d : Db). d.payments ≡ db.payments) (λ _. Unit {0}) (fulfil order db)
                  db' (fulfil-payments order db) e)
                refl refl)

-- A delivery that answers `captured` leaves the payment captured.
abbrev pub CapturesIn : ℕ → Reply → Type 0
CapturesIn rid = Ends (λ r. r.0 ≡ WebhookStatus.captured → IsCapturedIn rid r.1) (λ _. Unit {0})

flag_refund-CapturesIn :
    (rid now : ℕ) (c : Capture) (payment : Payment) (db : Db)
    → CapturesIn rid (flag_refund now c payment db)
unfolding flag_refund
flag_refund-CapturesIn rid now c payment db =
    Ends-then (λ r. r.0 ≡ WebhookStatus.captured → IsCapturedIn rid r.1) (λ _. Unit {0})
      (record_capture_unfulfillable now c payment db) _ (λ _ _. tt) (λ _ _ never. cc)

already_captured-CapturesIn :
    (rid : ℕ) (event_id : Option ℕ) (payment : Payment) (db : Db)
    → CapturesIn rid (already_captured event_id payment db)
unfolding already_captured
already_captured-CapturesIn rid event_id payment db =
    Ends-then {B = WebhookStatus × Db} (λ r. r.0 ≡ WebhookStatus.captured → IsCapturedIn rid r.1)
      (λ _. Unit {0})
      (flush_payments (record db {
        payments = put_payment (record payment { webhook_event_id = event_id }) db.payments;
      }))
      _ (λ _ _. tt) (λ _ _ never. cc)

capture_or_flag-CapturesIn :
    (rid now : ℕ) (c : Capture) (payment : Payment) (db : Db)
    → get_by_razorpay_order_id rid db.payments ≡ some payment
    → CapturesIn rid (capture_or_flag now c payment db)
unfolding capture_or_flag
capture_or_flag-CapturesIn rid now c payment db found =
    Ends-or_raise (λ r. r.0 ≡ WebhookStatus.captured → IsCapturedIn rid r.1) (λ _. Unit {0})
      (get_order payment.order_id db.orders) AppError.not_found _ (λ _. tt)
      (λ order _. by_order order (is_cancelled_checkout order))
  where
    by_result :
        (r : Result Db)
        → Ends (IsCapturedIn rid) (λ _. Unit {0}) r
        → CapturesIn rid (on_capture now c payment db r)
    by_result (ok db') h = λ _. h
    by_result (err AppError.out_of_stock) h = flag_refund-CapturesIn rid now c payment db
    by_result (err _) h = tt

    by_order :
        (order : Order) (b : Bool)
        → CapturesIn rid (
            cond b
              (flag_refund now c payment db)
              (on_capture now c payment db (capture now c payment db)))
    by_order order true = flag_refund-CapturesIn rid now c payment db
    by_order order false =
        by_result (capture now c payment db) (capture-IsCapturedIn rid payment db found now c)

on_captured-CapturesIn :
    (rid now : ℕ) (event : WebhookEvent) (db : Db)
    → event.razorpay_order_id ≡ some rid
    → CapturesIn rid (on_captured now event db)
unfolding on_captured
on_captured-CapturesIn rid now event db same = rw same (
    Ends-or_raise P (λ _. Unit {0}) event.razorpay_payment_id AppError.integration _ (λ _. tt)
      (λ payment_id _. elim (Option-cases (get_by_razorpay_order_id rid db.payments)) [
        | inl e ↦ rw e (λ never. cc)
        | inr (payment, e) ↦ rw e (by_status payment_id payment e)
      ]))
  where
    P : WebhookStatus × Db → Type 0
    P r = r.0 ≡ WebhookStatus.captured → IsCapturedIn rid r.1

    by_status :
        (payment_id : ℕ) (payment : Payment)
        → get_by_razorpay_order_id rid db.payments ≡ some payment
        → CapturesIn rid (on_captured_payment now event payment_id db (some payment))
    by_status payment_id payment e =
        elim (Bool-cases (RazorpayPaymentStatus.is_captured payment.status)) [
          | inl done ↦ rw done (already_captured-CapturesIn rid event.event_id payment db)
          | inr new ↦
              rw new
                (capture_or_flag-CapturesIn rid now (webhook_capture event payment_id) payment db e)
        ]

pub handle_webhook-CapturesIn :
    (rid now : ℕ) (event : WebhookEvent) (db : Db)
    → event.event ≡ EventType.payment_captured
    → event.razorpay_order_id ≡ some rid
    → CapturesIn rid (handle_webhook now true event db)
unfolding handle_webhook
handle_webhook-CapturesIn rid now event db type same =
    elim (Bool-cases (is_duplicate event.event_id db.payments)) [
      | inl e ↦ rw e (λ never. cc)
      | inr e ↦ rw (e, type) (on_captured-CapturesIn rid now event db same)
    ]
