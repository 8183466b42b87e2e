-- ===== src/ReservationLifecycleService.antt =====
-- app/services/reservation_lifecycle.py: the terminal transitions of reservations and the two expiry
-- sweeps, with the tick of app/tasks/reservation_sweeper.py that runs them. Every UPDATE is set-based.
pub mod Settles
pub mod Shows
use oorvashee_backend.Prelude.{
  ℕ, Bool, false, ◌&&◌, Option, none, some, List, map, ltb, ◌==◌, if◌then◌else◌, keep_if, count_if,
  elem,
}
use oorvashee_backend.Models.Enums.CheckoutSessionStatus
use oorvashee_backend.Models.Enums.CheckoutSessionStatus.{CheckoutSessionStatus}
use oorvashee_backend.Models.Enums.ReservationStatus
use oorvashee_backend.Models.Enums.ReservationStatus.{ReservationStatus}
use oorvashee_backend.Models.Enums.PaymentStatus
use oorvashee_backend.Models.Checkout.{Reservation, CheckoutSession}
use oorvashee_backend.Models.Order.{Order, OrderItem}
use oorvashee_backend.Exceptions.{Result, ok, ◌>>=◌}
use oorvashee_backend.Database.{Db}
use oorvashee_backend.InventoryService.{StockRequirement, commit_sale}

abbrev pub requirement : OrderItem → StockRequirement
requirement item = record { variant_id = item.variant_id; quantity = item.quantity }

abbrev pub requirements_of : Order → List StockRequirement
requirements_of order = map requirement order.items

abbrev pub set_reservation : ℕ → ReservationStatus → Reservation → Reservation
set_reservation session_id status r =
    if r.checkout_session_id == session_id then record r { status = status } else r

abbrev pub set_session : ℕ → CheckoutSessionStatus → CheckoutSession → CheckoutSession
set_session session_id status s = if s.id == session_id then record s { status = status } else s

-- The two UPDATEs of a session and all of its reservations.
unfoldable pub transition_session : ℕ → CheckoutSessionStatus → ReservationStatus → Db → Db
transition_session session_id session_status reservation_status db = record db {
  reservations = map (set_reservation session_id reservation_status) db.reservations;
  sessions = map (set_session session_id session_status) db.sessions;
}

abbrev pub transition_if : Option ℕ → CheckoutSessionStatus → ReservationStatus → Db → Db
transition_if none session_status reservation_status db = db
transition_if (some id) session_status reservation_status db =
    transition_session id session_status reservation_status db

-- Confirmed payment: the stock leaves, and the session and its reservations are completed.
unfoldable pub complete_sale : Order → Db → Result Db
unfolding transition_session
complete_sale order db = do
  stock ← commit_sale order.id (requirements_of order) db.stock
  ok (
      transition_if order.checkout_session_id CheckoutSessionStatus.completed
        ReservationStatus.completed (record db { stock = stock }))

-- Payment failed: the session and its reservations are cancelled, and no stock changes.
unfoldable pub cancel_for_order : Order → Db → Db
unfolding transition_session
cancel_for_order order db =
    transition_if order.checkout_session_id CheckoutSessionStatus.cancelled
      ReservationStatus.cancelled db

-- How many rows each UPDATE of a sweep changed.
pub record SweepCounts : Type 0 where
  pub reservations : ℕ
  pub sessions : ℕ

-- `status == from AND expires_at < now()`.
abbrev pub lapsed_reservation : ℕ → ReservationStatus → Reservation → Bool
lapsed_reservation now from r = ReservationStatus.is r.status from && ltb r.expires_at now

abbrev pub lapsed_session : ℕ → CheckoutSessionStatus → CheckoutSession → Bool
lapsed_session now from s = CheckoutSessionStatus.is s.status from && ltb s.expires_at now

abbrev pub lapse_reservation : ℕ → ReservationStatus → ReservationStatus → Reservation → Reservation
lapse_reservation now from to r =
    if lapsed_reservation now from r then record r { status = to } else r

abbrev pub lapse_session :
    ℕ → CheckoutSessionStatus → CheckoutSessionStatus → CheckoutSession → CheckoutSession
lapse_session now from to s = if lapsed_session now from s then record s { status = to } else s

unfoldable pub sweep_expired_reservations : ℕ → Db → SweepCounts × Db
sweep_expired_reservations now db = (
  record {
    reservations = count_if (lapsed_reservation now ReservationStatus.reserved) db.reservations;
    sessions = count_if (lapsed_session now CheckoutSessionStatus.active) db.sessions;
  },
  record db {
    reservations =
        map (lapse_reservation now ReservationStatus.reserved ReservationStatus.expired)
          db.reservations;
    sessions =
        map (lapse_session now CheckoutSessionStatus.active CheckoutSessionStatus.expired)
          db.sessions;
  },
)

abbrev session_id : CheckoutSession → ℕ
session_id s = s.id

-- The subquery of the sessions that the backstop is about to cancel.
unfoldable pub expired_session_ids : ℕ → List CheckoutSession → List ℕ
expired_session_ids now sessions =
    map session_id (keep_if (lapsed_session now CheckoutSessionStatus.payment_processing) sessions)

abbrev in_sessions : Option ℕ → List ℕ → Bool
in_sessions none ids = false
in_sessions (some id) ids = elem id ids

abbrev pub fail_order : List ℕ → Order → Order
fail_order ids o =
    if in_sessions o.checkout_session_id ids
      && PaymentStatus.is o.payment_status PaymentStatus.pending
    then record o { payment_status = PaymentStatus.failed }
    else o

unfoldable pub sweep_payment_processing_backstop : ℕ → Db → SweepCounts × Db
unfolding expired_session_ids
sweep_payment_processing_backstop now db = (
  record {
    reservations =
        count_if (lapsed_reservation now ReservationStatus.payment_processing) db.reservations;
    sessions = count_if (lapsed_session now CheckoutSessionStatus.payment_processing) db.sessions;
  },
  record db {
    orders = map (fail_order (expired_session_ids now db.sessions)) db.orders;
    reservations =
        map (lapse_reservation now ReservationStatus.payment_processing ReservationStatus.cancelled)
          db.reservations;
    sessions =
        map
          (lapse_session now CheckoutSessionStatus.payment_processing
            CheckoutSessionStatus.cancelled)
          db.sessions;
  },
)

-- One tick of the sweeper. `got` says whether the advisory lock was won; a worker that did not win it
-- rolls back and reports nothing.
unfoldable pub run_sweep_once : Bool → ℕ → Db → Option (SweepCounts × SweepCounts) × Db
unfolding sweep_expired_reservations sweep_payment_processing_backstop
run_sweep_once got now db =
    let (expired, db') = sweep_expired_reservations now db in
    let (backstop, db'') = sweep_payment_processing_backstop now db' in
    if got then (some (expired, backstop), db'') else (none, db)
