-- ===== src/CheckoutSessionService/Release.antt =====
-- `cancel` of app/services/checkout_session_service.py.
use oorvashee_backend.Prelude.{
  ℕ, Bool, ◌&&◌, not, some, List, [], ◌∷◌, map, ◌==◌, if◌then◌else◌, same_id?,
}
use oorvashee_backend.Models.Enums.CheckoutSessionStatus
use oorvashee_backend.Models.Enums.CheckoutSessionStatus.{CheckoutSessionStatus}
use oorvashee_backend.Models.Enums.ReservationStatus
use oorvashee_backend.Models.Enums.OrderStatus
use oorvashee_backend.Models.Enums.PaymentStatus
use oorvashee_backend.Models.Checkout.{Reservation, CheckoutSession}
use oorvashee_backend.Models.Order.{Order}
use oorvashee_backend.Exceptions.{AppError, Result, ok, ◌>>=◌, ◌>>◌, raise_if, or_raise}
use oorvashee_backend.Database.{Db, Clock}
use oorvashee_backend.ReservationRepository.{get_session_for_update}
use oorvashee_backend.CheckoutSessionService.{put_session}

-- A reservation that still holds stock is cancelled.
abbrev pub cancel_reservation : ℕ → Reservation → Reservation
cancel_reservation session_id r =
    if r.checkout_session_id == session_id && ReservationStatus.holds_stock r.status
    then record r { status = ReservationStatus.cancelled }
    else r

abbrev is_pending_of : ℕ → Order → Bool
is_pending_of session_id o =
    same_id? o.checkout_session_id (some session_id)
    && PaymentStatus.is o.payment_status PaymentStatus.pending

-- `.scalars().first()`: the first order that fits, if any, is cancelled.
unfoldable pub cancel_first_pending : ℕ → ℕ → List Order → List Order
cancel_first_pending now session_id [] = []
cancel_first_pending now session_id (o ∷ orders) =
    if is_pending_of session_id o
    then record o {
      status = OrderStatus.cancelled;
      payment_status = PaymentStatus.failed;
      cancelled_at = some now;
    }
      ∷ orders
    else o ∷ cancel_first_pending now session_id orders

unfoldable pub release_session : Clock → CheckoutSession → Db → Db
unfolding cancel_first_pending put_session
release_session clock s db = record db {
  reservations = map (cancel_reservation s.id) db.reservations;
  sessions = put_session (record s { status = CheckoutSessionStatus.cancelled }) db.sessions;
  orders = cancel_first_pending clock.utc_now s.id db.orders;
}

-- A missing session and another user's are refused alike; a terminal one is left alone.
unfoldable pub cancel : Clock → ℕ → ℕ → Db → Result Db
unfolding get_session_for_update release_session
cancel clock session_id user_id db = do
  s ← or_raise (get_session_for_update session_id db.sessions) AppError.not_found
  raise_if (not (s.user_id == user_id)) AppError.not_found
  ok (if CheckoutSessionStatus.is_live s.status then release_session clock s db else db)
