-- ===== src/Examples/Payments.antt =====
-- The theorems on the payments, on the example shop.
use oorvashee_backend.Prelude.{◌≡◌, refl, some, none, [], ◌∷◌, true}
use oorvashee_backend.Prelude.Int.{pos, ◌-ℤ◌}
use oorvashee_backend.Models.Enums.{AuditAction, StockMovementReason}
use oorvashee_backend.Models.Enums.PaymentStatus.{PaymentStatus}
use oorvashee_backend.Models.Enums.RazorpayPaymentStatus.{RazorpayPaymentStatus}
use oorvashee_backend.Models.Enums.CheckoutSessionStatus.{CheckoutSessionStatus}
use oorvashee_backend.Models.Enums.ReservationStatus.{ReservationStatus}
use oorvashee_backend.Models.Audit.{CaptureSource, Metadata}
use oorvashee_backend.Exceptions.{ok}
use oorvashee_backend.Exceptions.Loops.{Ends}
use oorvashee_backend.Database.{Db}
use oorvashee_backend.InventoryService.{movement, minus, commit_sale}
use oorvashee_backend.InventoryService.Sale.{Sells}
use oorvashee_backend.ReservationLifecycleService.{requirements_of}
use oorvashee_backend.OrderRepository.{get_order, get_by_razorpay_order_id}
use oorvashee_backend.PaymentService.Fulfilled.{captured_sells}
use oorvashee_backend.PaymentService.{paid_order, WebhookEvent, EventType, WebhookStatus}
use oorvashee_backend.PaymentService.Webhook.{handle_webhook}
use oorvashee_backend.PaymentService.Settled.{IsInert, none_yet, delivery, captured_once}
use oorvashee_backend.Examples.{necklace, paying, session_5, hold_5, order_31, payment_41}

abbrev pub captured_event : WebhookEvent
captured_event = record {
  event_id = some 70;
  event = EventType.payment_captured;
  razorpay_order_id = some 900;
  razorpay_payment_id = some 901;
  error_description = none;
  raw = none;
}

abbrev pub failed_event : WebhookEvent
failed_event = record captured_event { event_id = some 71; event = EventType.payment_failed }

abbrev again_event : WebhookEvent
again_event = record captured_event { event_id = some 72 }

-- The shop once the capture of the payment is recorded.
abbrev pub paid : Db
paid = record paying {
  stock = record {
    inventory = record necklace { stock = pos 6; sold_quantity = 9 } ∷ [];
    movements = movement 1 (minus 4) StockMovementReason.order_placed (some 31) none ∷ [];
  };
  reservations = record hold_5 { status = ReservationStatus.completed; expires_at = 1001 } ∷ [];
  sessions = record session_5 { status = CheckoutSessionStatus.completed; expires_at = 1001 } ∷ [];
  orders = record order_31 { payment_status = PaymentStatus.paid; placed_at = some 300 } ∷ [];
  payments =
      record payment_41 {
        razorpay_payment_id = some 901;
        webhook_event_id = some 70;
        status = RazorpayPaymentStatus.captured;
        captured_at = some 300;
      }
      ∷ [];
  audits =
      record {
        action = AuditAction.payment_captured;
        entity_id = 31;
        actor_user_id = none;
        metadata = Metadata.payment_capture 901 480000 CaptureSource.webhook;
      }
      ∷ [];
}

captured_first : handle_webhook 300 true captured_event paying ≡ ok (WebhookStatus.captured, paid)
unfolding handle_webhook commit_sale ◌-ℤ◌
captured_first = refl

-- A failure is delivered after the capture, and ignored.
failed_after : handle_webhook 350 true failed_event paid ≡ ok (WebhookStatus.failed_recorded, paid)
unfolding handle_webhook
failed_after = refl

captured_once_example :
    Ends (IsInert 900 paid) (λ _. Unit {0}) (handle_webhook 400 true again_event paid)
captured_once_example =
    captured_once 300 400 captured_event again_event paying paid paid 900 true refl refl refl
      captured_first
      (delivery none_yet 350 true failed_event WebhookStatus.failed_recorded failed_after)

captured_sells_example :
    Sells (requirements_of order_31) paying.stock paid.stock
    × (get_order 31 paid.orders ≡ some (paid_order 300 order_31))
unfolding get_order get_by_razorpay_order_id
captured_sells_example =
    captured_sells 300 5 paying payment_41 order_31 refl refl captured_event 900 paid refl refl refl
      captured_first
