-- ===== src/OrderLifecycle.antt =====
-- The life of an order across the services: which status may follow which, and when goods that are paid
-- for online may leave.
use oorvashee_backend.Prelude.{ℕ, ◌≡◌, ◌∙◌, Bool, true, false, ◌&&◌, some}
use oorvashee_backend.Models.Enums.{is_razorpay}
use oorvashee_backend.Models.Enums.OrderStatus.{OrderStatus}
use oorvashee_backend.Models.Enums.PaymentStatus
use oorvashee_backend.Models.Order.{Order}
use oorvashee_backend.Database.{Db}
use oorvashee_backend.OrderRepository.{get_order, put_order}
use oorvashee_backend.OrderRepository.Evolution.{Evolves, same-Evolves, put-Evolves, get_order-id}

-- The moves of an order, one step at a time; a cancellation comes from any state before the delivery.
pub data Move : OrderStatus → OrderStatus → Type 0 where
  stay : {s : OrderStatus} → Move s s
  packing : Move OrderStatus.placed OrderStatus.packed
  shipping : Move OrderStatus.packed OrderStatus.shipped
  delivery : Move OrderStatus.shipped OrderStatus.delivered
  cancel_placed : Move OrderStatus.placed OrderStatus.cancelled
  cancel_packed : Move OrderStatus.packed OrderStatus.cancelled
  cancel_shipped : Move OrderStatus.shipped OrderStatus.cancelled

abbrev pub in_fulfilment : OrderStatus → Bool
in_fulfilment OrderStatus.placed = false
in_fulfilment OrderStatus.packed = true
in_fulfilment OrderStatus.shipped = true
in_fulfilment OrderStatus.delivered = true
in_fulfilment OrderStatus.cancelled = false

-- An online order that is packed, shipped or delivered is paid.
abbrev pub IsPaidFor : Order → Type 0
IsPaidFor o =
    (in_fulfilment o.status && is_razorpay o.payment_method) ≡ true
    → PaymentStatus.is o.payment_status PaymentStatus.paid ≡ true

-- What a call may do to an order.
abbrev pub IsLawful : Order → Order → Type 0
IsLawful before after = Move before.status after.status × (IsPaidFor before → IsPaidFor after)

pub IsLawful-refl : (o : Order) → IsLawful o o
IsLawful-refl o = (stay, λ h. h)

abbrev pub KeepsLaw : Db → Db → Type 0
KeepsLaw db db' = Evolves IsLawful db.orders db'.orders

pub same_orders-KeepsLaw : (db db' : Db) → db'.orders ≡ db.orders → KeepsLaw db db'
same_orders-KeepsLaw db db' e = same-Evolves IsLawful IsLawful-refl db.orders db'.orders e

-- The row that was found is written back.
pub put-KeepsLaw :
    (id : ℕ) (order : Order) (db : Db)
    → get_order id db.orders ≡ some order
    → (o : Order) → o.id ≡ order.id
    → IsLawful order o
    → Evolves IsLawful db.orders (put_order o db.orders)
put-KeepsLaw id order db found o same h =
    put-Evolves IsLawful IsLawful-refl o order db.orders
      (rw (same ∙ get_order-id id db.orders order found) found) h
