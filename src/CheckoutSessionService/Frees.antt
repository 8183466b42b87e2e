-- ===== src/CheckoutSessionService/Frees.antt =====
-- What `cancel` of app/services/checkout_session_service.py gives back.
use oorvashee_backend.Prelude.{
  ℕ, ◌+◌, ◌≡◌, ◌≢◌, true, false, ◌&&◌, some, List, [], ◌∷◌, ◌==◌, if◌then◌else◌,
}
use oorvashee_backend.Models.Enums.CheckoutSessionStatus
use oorvashee_backend.Models.Enums.CheckoutSessionStatus.{CheckoutSessionStatus}
use oorvashee_backend.Models.Enums.ReservationStatus
use oorvashee_backend.Models.Checkout.{Reservation, CheckoutSession}
use oorvashee_backend.Database.{Db}
use oorvashee_backend.ReservationRepository.{get_session_for_update}

-- The units of a variant that a session holds.
abbrev pub units_held : ℕ → ℕ → List Reservation → ℕ
units_held session_id v [] = 0
units_held session_id v (r ∷ rows) =
    let rest = units_held session_id v rows in
    if r.checkout_session_id == session_id
      && r.variant_id == v
      && ReservationStatus.holds_stock r.status
    then r.quantity + rest
    else rest

-- The session is the caller's. If it was live it is cancelled and holds nothing, and the other sessions
-- hold what they held; else nothing has changed.
pub record Frees (session_id user_id : ℕ) (before after : Db) : Type 0 where
  pub session : CheckoutSession
  pub found : get_session_for_update session_id before.sessions ≡ some session
  pub owned : session.user_id ≡ user_id
  pub closed :
      CheckoutSessionStatus.is_live session.status ≡ true
      → get_session_for_update session_id after.sessions
        ≡ some (record session { status = CheckoutSessionStatus.cancelled })
  pub freed :
      CheckoutSessionStatus.is_live session.status ≡ true
      → (v : ℕ) → units_held session_id v after.reservations ≡ 0
  pub kept :
      (other v : ℕ)
      → other ≢ session_id
      → units_held other v after.reservations ≡ units_held other v before.reservations
  pub untouched : CheckoutSessionStatus.is_live session.status ≡ false → after ≡ before
  pub in_stock : after.stock ≡ before.stock
