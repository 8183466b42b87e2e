-- ===== src/PaymentService/KeptPaid.antt =====
-- What the events of the gateway may do to an order (app/services/payment_service.py).
use oorvashee_backend.Prelude.{ℕ, ◌≡◌, refl, ◌∙◌, true, some}
use oorvashee_backend.Models.Enums.PaymentStatus
use oorvashee_backend.Models.Order.{Order}
use oorvashee_backend.Database.{Db}
use oorvashee_backend.OrderRepository.{get_order, put_order}
use oorvashee_backend.OrderRepository.Evolution.{Evolves, same-Evolves, put-Evolves, get_order-id}

abbrev IsPaid : Order → Type 0
IsPaid o = PaymentStatus.is o.payment_status PaymentStatus.paid ≡ true

-- The order stands where it stood in its life, and is paid if it was.
abbrev pub IsKept : Order → Order → Type 0
IsKept before after = (after.status ≡ before.status) × (IsPaid before → IsPaid after)

IsKept-refl : (o : Order) → IsKept o o
IsKept-refl o = (refl, λ h. h)

abbrev pub KeepsPaid : Db → Db → Type 0
KeepsPaid db db' = Evolves IsKept db.orders db'.orders

pub same_orders-KeepsPaid : (db db' : Db) → db'.orders ≡ db.orders → KeepsPaid db db'
same_orders-KeepsPaid db db' e = same-Evolves IsKept IsKept-refl db.orders db'.orders e

-- The row that was found is written back.
pub put-KeepsPaid :
    (id : ℕ) (order : Order) (db : Db)
    → get_order id db.orders ≡ some order
    → (o : Order) → o.id ≡ order.id
    → IsKept order o
    → Evolves IsKept db.orders (put_order o db.orders)
put-KeepsPaid id order db found o same h =
    put-Evolves IsKept IsKept-refl o order db.orders
      (rw (same ∙ get_order-id id db.orders order found) found) h
