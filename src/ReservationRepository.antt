-- ===== src/ReservationRepository.antt =====
-- app/repositories/reservation_repo.py: the derived reserved quantity of a variant and the lookups of
-- reservations and checkout sessions. Reads go by `now`, the database's clock.
pub mod Holds
use oorvashee_backend.Prelude.{
  ℕ, ◌+◌, Bool, ◌&&◌, not, Option, none, some, List, [], ◌∷◌, true, ltb, leb, ◌==◌, if◌then◌else◌,
  keep_if,
}
use oorvashee_backend.Models.Enums.CheckoutSessionStatus
use oorvashee_backend.Models.Enums.ReservationStatus
use oorvashee_backend.Models.Checkout.{Reservation, CheckoutSession}

-- Active and not expired: it counts toward the derived reserved stock.
abbrev pub holds : ℕ → Reservation → Bool
holds now r = ReservationStatus.holds_stock r.status && ltb now r.expires_at

abbrev excluded : Option ℕ → Reservation → Bool
excluded none r = true
excluded (some session_id) r = not (r.checkout_session_id == session_id)

-- The entry of a variant in the result, 0 where it is absent.
unfoldable pub active_reserved_for_variant : ℕ → Option ℕ → ℕ → List Reservation → ℕ
active_reserved_for_variant now exclude_session_id v [] = 0
active_reserved_for_variant now exclude_session_id v (r ∷ rows) =
    (if r.variant_id == v && holds now r && excluded exclude_session_id r then r.quantity else 0)
    + active_reserved_for_variant now exclude_session_id v rows

-- A user has at most one live session, by a partial unique index.
unfoldable pub get_active_session_for_user : ℕ → List CheckoutSession → Option CheckoutSession
get_active_session_for_user user_id [] = none
get_active_session_for_user user_id (s ∷ rows) =
    if s.user_id == user_id && CheckoutSessionStatus.is_live s.status
    then some s
    else get_active_session_for_user user_id rows

unfoldable pub get_session_for_update : ℕ → List CheckoutSession → Option CheckoutSession
get_session_for_update session_id [] = none
get_session_for_update session_id (s ∷ rows) =
    if s.id == session_id then some s else get_session_for_update session_id rows

-- `order_by(Reservation.variant_id)`.
unfoldable pub insert_by_variant : Reservation → List Reservation → List Reservation
insert_by_variant r [] = r ∷ []
insert_by_variant r (q ∷ rows) =
    if leb r.variant_id q.variant_id then r ∷ q ∷ rows else q ∷ insert_by_variant r rows

unfoldable pub order_by_variant : List Reservation → List Reservation
unfolding insert_by_variant
order_by_variant [] = []
order_by_variant (r ∷ rows) = insert_by_variant r (order_by_variant rows)

abbrev pub is_reserved_of : ℕ → Reservation → Bool
is_reserved_of session_id r =
    r.checkout_session_id == session_id && ReservationStatus.is r.status ReservationStatus.reserved

unfoldable pub list_reserved_for_session : ℕ → List Reservation → List Reservation
unfolding order_by_variant
list_reserved_for_session session_id rows =
    order_by_variant (keep_if (is_reserved_of session_id) rows)

-- In the order of creation, which is the table's.
unfoldable pub list_for_session : ℕ → List Reservation → List Reservation
list_for_session session_id rows = keep_if (λ r. r.checkout_session_id == session_id) rows
