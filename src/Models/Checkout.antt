-- ===== src/Models/Checkout.antt =====
-- app/models/reservation.py and app/models/checkout_session.py. Times are numbers.
use oorvashee_backend.Prelude.{ℕ}
use oorvashee_backend.Models.Enums.CheckoutSessionStatus.{CheckoutSessionStatus}
use oorvashee_backend.Models.Enums.ReservationStatus.{ReservationStatus}

pub record Reservation : Type 0 where
  pub checkout_session_id : ℕ
  pub variant_id : ℕ
  pub user_id : ℕ
  pub quantity : ℕ
  pub status : ReservationStatus
  pub expires_at : ℕ

pub record CheckoutSession : Type 0 where
  pub id : ℕ
  pub user_id : ℕ
  pub status : CheckoutSessionStatus
  pub expires_at : ℕ
