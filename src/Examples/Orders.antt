-- ===== src/Examples/Orders.antt =====
-- The theorems on the life of an order, on the example shop.
use oorvashee_backend.Prelude.{◌≡◌, refl, some, none, List, [], ◌∷◌, true}
use oorvashee_backend.Models.Enums.OrderStatus.{OrderStatus}
use oorvashee_backend.Models.Enums.PaymentStatus
use oorvashee_backend.Models.Order.{Order}
use oorvashee_backend.Exceptions.{err, AppError}
use oorvashee_backend.Exceptions.Loops.{Ends}
use oorvashee_backend.Database.{Db}
use oorvashee_backend.InventoryService.Availability.{
  recompute_product_availability, recompute_settles,
}
use oorvashee_backend.OrderLifecycle.{KeepsLaw}
use oorvashee_backend.OrderRepository.{get_order}
use oorvashee_backend.PaymentService.Webhook.{handle_webhook}
use oorvashee_backend.PaymentService.KeptPaid.{KeepsPaid}
use oorvashee_backend.PaymentService.Lifecycle.{handle_webhook-KeepsPaid}
use oorvashee_backend.AdminOrderService.{ShipmentUpdateRequest}
use oorvashee_backend.AdminOrderService.Actions.{cancel_order}
use oorvashee_backend.AdminOrderService.GivesBack.{GivesBack, cancel_order-GivesBack}
use oorvashee_backend.AdminOrderService.Requests.{
  Request, handle, serve, handle-KeepsLaw, serve_terminal,
}
use oorvashee_backend.Examples.{shop, paying, order_31}
use oorvashee_backend.Examples.Payments.{paid, failed_event}

-- An unpaid order is not packed.
unpaid_refused : handle (Request.packed 400 9 31) paying ≡ err AppError.payment_not_captured
unfolding handle
unpaid_refused = refl

handle-KeepsLaw_example :
    Ends (KeepsLaw paid) (λ _. Unit {0}) (handle (Request.packed 400 9 31) paid)
handle-KeepsLaw_example = handle-KeepsLaw paid (Request.packed 400 9 31)

handle_webhook-KeepsPaid_example :
    Ends (λ a. KeepsPaid paid a.1) (λ _. Unit {0}) (handle_webhook 400 true failed_event paid)
handle_webhook-KeepsPaid_example = handle_webhook-KeepsPaid paid failed_event 400 true

abbrev paid_31 : Order
paid_31 = record order_31 { payment_status = PaymentStatus.paid; placed_at = some 300 }

cancel_order-GivesBack_example :
    Ends (GivesBack paid_31 paid) (λ _. Unit {0}) (cancel_order 400 9 31 paid)
unfolding get_order
cancel_order-GivesBack_example = cancel_order-GivesBack 400 9 31 paid_31 paid refl

abbrev parcel : ShipmentUpdateRequest
parcel = record { courier_name = some 11; tracking_id = some 12; tracking_url = none }

-- The whole life of the paid order, and two requests that come too late.
abbrev delivered_shop : Db
delivered_shop =
    serve
      (Request.packed 400 9 31 ∷ Request.shipped 500 9 parcel 31 ∷ Request.delivered 600 9 31 ∷ [])
      paid

abbrev delivered_31 : Order
delivered_31 = record order_31 {
  status = OrderStatus.delivered;
  payment_status = PaymentStatus.paid;
  placed_at = some 300;
  packed_at = some 400;
  shipped_at = some 500;
  delivered_at = some 600;
  shipment = some (record {
    courier_name = some 11;
    tracking_id = some 12;
    tracking_url = none;
    shipped_at = some 500;
    delivered_at = some 600;
  });
}

delivered_found : get_order 31 delivered_shop.orders ≡ some delivered_31
unfolding serve
delivered_found = refl

abbrev too_late : List Request
too_late = Request.cancelled 700 9 31 ∷ Request.packed 700 9 31 ∷ []

serve_terminal_example :
    (o' : Order) × (get_order 31 (serve too_late delivered_shop).orders ≡ some o')
    × (o'.status ≡ OrderStatus.delivered)
serve_terminal_example = serve_terminal too_late delivered_shop 31 delivered_31 delivered_found refl

recompute_settles_example :
    let db' = (recompute_product_availability none 20 shop).1 in
    recompute_product_availability (some 9) 20 db' ≡ (none, db')
recompute_settles_example = recompute_settles none (some 9) 20 shop
