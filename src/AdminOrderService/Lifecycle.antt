-- ===== src/AdminOrderService/Lifecycle.antt =====
-- The calls of app/services/admin_order_service.py on one order, against the life of an order.
use oorvashee_backend.Prelude.{
  ℕ, ◌≡◌, refl, ◌∙◌, Bool, true, false, not, ◌&&◌, Option, some, List, [], ◌∷◌, arith, Bool-cases,
  inl, inr,
}
use oorvashee_backend.Models.Enums.{is_razorpay, PaymentMethod, AuditAction, StockMovementReason}
use oorvashee_backend.Models.Enums.OrderStatus
use oorvashee_backend.Models.Enums.OrderStatus.{OrderStatus}
use oorvashee_backend.Models.Enums.PaymentStatus
use oorvashee_backend.Models.Order.{Order}
use oorvashee_backend.Exceptions.{AppError, ok}
use oorvashee_backend.Exceptions.Loops.{Ends, Ends-then, Ends-raise_if, Ends-of_ok}
use oorvashee_backend.Database.{Db}
use oorvashee_backend.InventoryService.{restock}
use oorvashee_backend.InventoryService.Availability.{recompute_product_availability}
use oorvashee_backend.ReservationLifecycleService.{requirements_of, cancel_for_order}
use oorvashee_backend.OrderLifecycle.{
  Move, stay, packing, shipping, delivery, cancel_placed, cancel_packed, cancel_shipped,
  in_fulfilment, IsPaidFor, KeepsLaw, put-KeepsLaw,
}
use oorvashee_backend.OrderRepository.{get_order}
use oorvashee_backend.AdminOrderService.{
  assert_transition, save, payment_gate, pack, ShipmentUpdateRequest, ship, deliver, metadata_gate,
  shipped_order, delivered_order,
}
use oorvashee_backend.AdminOrderService.Actions.{
  give_back, cancelled_order, cancellation_of, product_ids, recompute_all, call_off, record_cash,
  stock_was_decremented, has_items,
}

-- `assert_transition` lets through the moves to its target.
pub assert_transition-Move :
    (current target : OrderStatus)
    → Ends (λ _. Move current target) (λ _. Unit {0}) (assert_transition current target)
unfolding assert_transition
assert_transition-Move OrderStatus.placed OrderStatus.packed = packing
assert_transition-Move OrderStatus.placed OrderStatus.cancelled = cancel_placed
assert_transition-Move OrderStatus.placed OrderStatus.placed = tt
assert_transition-Move OrderStatus.placed OrderStatus.shipped = tt
assert_transition-Move OrderStatus.placed OrderStatus.delivered = tt
assert_transition-Move OrderStatus.packed OrderStatus.shipped = shipping
assert_transition-Move OrderStatus.packed OrderStatus.cancelled = cancel_packed
assert_transition-Move OrderStatus.packed OrderStatus.placed = tt
assert_transition-Move OrderStatus.packed OrderStatus.packed = tt
assert_transition-Move OrderStatus.packed OrderStatus.delivered = tt
assert_transition-Move OrderStatus.shipped OrderStatus.delivered = delivery
assert_transition-Move OrderStatus.shipped OrderStatus.cancelled = cancel_shipped
assert_transition-Move OrderStatus.shipped OrderStatus.placed = tt
assert_transition-Move OrderStatus.shipped OrderStatus.packed = tt
assert_transition-Move OrderStatus.shipped OrderStatus.shipped = tt
assert_transition-Move OrderStatus.delivered target = tt
assert_transition-Move OrderStatus.cancelled target = tt

cancel-Move :
    (s : OrderStatus)
    → OrderStatus.is s OrderStatus.cancelled ≡ false
    → OrderStatus.is s OrderStatus.delivered ≡ false
    → Move s OrderStatus.cancelled
cancel-Move OrderStatus.placed h k = cancel_placed
cancel-Move OrderStatus.packed h k = cancel_packed
cancel-Move OrderStatus.shipped h k = cancel_shipped
cancel-Move OrderStatus.delivered h k = cc
cancel-Move OrderStatus.cancelled h k = cc

payment_gate-paid :
    (m : PaymentMethod) (o : Order)
    → Ends
        (λ _. is_razorpay m ≡ true → PaymentStatus.is o.payment_status PaymentStatus.paid ≡ true)
        (λ _. Unit {0})
        (payment_gate m o)
payment_gate-paid PaymentMethod.razorpay o = ground arith
payment_gate-paid PaymentMethod.cod o = ground arith

moved_on :
    (s t : OrderStatus) (online : Bool)
    → Move s t
    → OrderStatus.is t OrderStatus.packed ≡ false
    → (in_fulfilment t && online) ≡ true
    → (in_fulfilment s && online) ≡ true
moved_on s _ online stay n p = p
moved_on _ _ online packing n p = cc
moved_on _ _ online shipping n p = p
moved_on _ _ online delivery n p = p
moved_on _ _ online cancel_placed n p = cc
moved_on _ _ online cancel_packed n p = cc
moved_on _ _ online cancel_shipped n p = cc

-- Goods that go back, and products that come back on sale, change no order.
give_back-orders :
    (actor : ℕ) (order : Order) (db : Db)
    → Ends (λ (d : Db). d.orders ≡ db.orders) (λ _. Unit {0}) (give_back actor order db)
unfolding give_back cancel_for_order
give_back-orders actor order db =
    elim (Bool-cases (stock_was_decremented order && has_items order.items)) [
      | inl e ↦ rw e (
          Ends-then (λ (d : Db). d.orders ≡ db.orders) (λ _. Unit {0})
            (restock order.id (some actor) StockMovementReason.order_cancelled
              (requirements_of order) db.stock)
            _ (λ _ _. tt) (λ _ _. refl))
      | inr e ↦ rw e (ground arith)
    ]

recompute-orders :
    (actor : Option ℕ) (id : ℕ) (db : Db)
    → (recompute_product_availability actor id db).1.orders ≡ db.orders
unfolding recompute_product_availability
recompute-orders actor id db = ground arith

recompute_all-orders :
    (actor : ℕ) (ids : List ℕ) (db : Db) → (recompute_all actor ids db).orders ≡ db.orders
unfolding recompute_all
recompute_all-orders actor [] db = refl
recompute_all-orders actor (id ∷ ids) db =
    recompute_all-orders actor ids (recompute_product_availability (some actor) id db).1
    ∙ recompute-orders (some actor) id db

module _ (id : ℕ) (order : Order) (db : Db) (found : get_order id db.orders ≡ some order) where
  -- Past the check of the transition, the move is one of the machine's.
  advance :
      (target : OrderStatus) (a : Unit {0})
      → assert_transition order.status target ≡ ok a
      → Move order.status target
  advance target a =
      Ends-of_ok (λ _. Move order.status target) (λ _. Unit {0})
        (assert_transition order.status target) a (assert_transition-Move order.status target)

  -- An order that moves on from a state of fulfilment was paid for by then.
  fulfilled :
      (target : OrderStatus) (a : Unit {0})
      → assert_transition order.status target ≡ ok a
      → OrderStatus.is target OrderStatus.packed ≡ false
      → IsPaidFor order
      → (in_fulfilment target && is_razorpay order.payment_method) ≡ true
      → PaymentStatus.is order.payment_status PaymentStatus.paid ≡ true
  fulfilled target a e n h p =
      h (moved_on order.status target (is_razorpay order.payment_method) (advance target a e) n p)

  pub pack-KeepsLaw : (now actor : ℕ) → Ends (KeepsLaw db) (λ _. Unit {0}) (pack now actor order db)
  unfolding pack save
  pack-KeepsLaw now actor =
      Ends-then (KeepsLaw db) (λ _. Unit {0}) (assert_transition order.status OrderStatus.packed) _
        (λ _ _. tt)
        λ a e.
          Ends-then (KeepsLaw db) (λ _. Unit {0}) (payment_gate order.payment_method order) _
            (λ _ _. tt)
            λ b g.
              put-KeepsLaw id order db found
                (record order { status = OrderStatus.packed; packed_at = some now }) refl
                (
                  advance OrderStatus.packed a e,
                  λ _.
                      Ends-of_ok _ (λ _. Unit {0}) _ b
                        (payment_gate-paid order.payment_method order) g,
                )

  pub ship-KeepsLaw :
      (now actor : ℕ) (body : ShipmentUpdateRequest)
      → Ends (KeepsLaw db) (λ _. Unit {0}) (ship now actor body order db)
  unfolding ship save
  ship-KeepsLaw now actor body =
      Ends-then (KeepsLaw db) (λ _. Unit {0}) (assert_transition order.status OrderStatus.shipped) _
        (λ _ _. tt)
        λ a e.
          Ends-then (KeepsLaw db) (λ _. Unit {0}) (metadata_gate body) _ (λ _ _. tt)
            (λ _ _.
              put-KeepsLaw id order db found (shipped_order now body order) refl
                (advance OrderStatus.shipped a e, fulfilled OrderStatus.shipped a e refl))

  pub deliver-KeepsLaw :
      (now actor : ℕ) → Ends (KeepsLaw db) (λ _. Unit {0}) (deliver now actor order db)
  unfolding deliver save
  deliver-KeepsLaw now actor =
      Ends-then (KeepsLaw db) (λ _. Unit {0}) (assert_transition order.status OrderStatus.delivered)
        _ (λ _ _. tt)
        λ a e. put-KeepsLaw id order db found (delivered_order now order) refl (
          advance OrderStatus.delivered a e,
          λ h p. ground (arith, fulfilled OrderStatus.delivered a e refl h p),
        )

  pub call_off-KeepsLaw :
      (now actor : ℕ)
      → OrderStatus.is order.status OrderStatus.cancelled ≡ false
      → Ends (KeepsLaw db) (λ _. Unit {0}) (call_off now actor order db)
  unfolding call_off save
  call_off-KeepsLaw now actor fresh =
      Ends-raise_if (KeepsLaw db) (λ _. Unit {0})
        (OrderStatus.is order.status OrderStatus.delivered) AppError.cannot_cancel_delivered _
        (λ _. tt)
        λ undelivered.
          Ends-then (KeepsLaw db) (λ _. Unit {0}) (give_back actor order db) _ (λ _ _. tt)
            λ db' e.
              rw
                (
                  recompute_all-orders actor (product_ids order.items) (
                      save AuditAction.status_changed actor (cancellation_of order)
                        (cancelled_order now order) db'),
                  save,
                  Ends-of_ok (λ (d : Db). d.orders ≡ db.orders) (λ _. Unit {0}) _ db'
                      (give_back-orders actor order db) e,
                )
                (put-KeepsLaw id order db found (cancelled_order now order) refl
                  (cancel-Move order.status fresh undelivered, λ h p. cc))

  pub record_cash-KeepsLaw :
      (actor : ℕ) → Ends (KeepsLaw db) (λ _. Unit {0}) (record_cash actor order db)
  unfolding record_cash save
  record_cash-KeepsLaw actor =
      Ends-raise_if (KeepsLaw db) (λ _. Unit {0})
        (not (PaymentStatus.is order.payment_status PaymentStatus.cod_pending))
        AppError.invalid_payment_state _ (λ _. tt)
        λ _.
          put-KeepsLaw id order db found (record order { payment_status = PaymentStatus.paid }) refl
            (stay, λ h p. refl)
