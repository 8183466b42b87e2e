-- ===== src/ReservationLifecycleService/Shows.antt =====
-- What a tick of the sweeper (`run_sweep_once` of app/tasks/reservation_sweeper.py) writes down: what the
-- derived availability says already.
use oorvashee_backend.Prelude.{
  ℕ, ◌+◌, ◌≤◌, ◌<◌, ◌≡◌, refl, true, ◌&&◌, Option, none, List, [], ◌∷◌, map, ◌==◌, if◌then◌else◌,
  arith, All,
}
use oorvashee_backend.Models.Enums.CheckoutSessionStatus
use oorvashee_backend.Models.Enums.CheckoutSessionStatus.{CheckoutSessionStatus}
use oorvashee_backend.Models.Enums.ReservationStatus
use oorvashee_backend.Models.Enums.ReservationStatus.{ReservationStatus}
use oorvashee_backend.Models.Checkout.{Reservation, CheckoutSession}
use oorvashee_backend.Database.{Db}
use oorvashee_backend.ReservationRepository.{active_reserved_for_variant}
use oorvashee_backend.ReservationLifecycleService.{lapse_reservation, lapse_session, run_sweep_once}

-- The units of a variant that are held by the status of their rows, whatever the time.
abbrev pub held_by_status : ℕ → List Reservation → ℕ
held_by_status v [] = 0
held_by_status v (r ∷ rows) =
    (if r.variant_id == v && ReservationStatus.holds_stock r.status then r.quantity else 0)
    + held_by_status v rows

-- A session that is live has time left.
abbrev IsInTime : ℕ → CheckoutSession → Type 0
IsInTime now s = CheckoutSessionStatus.is_live s.status ≡ true → now < s.expires_at

-- From `now` on the derived availability is as it was; the statuses tell it without the clock; the live
-- sessions have time left; no stock has moved.
abbrev pub Shows : ℕ → Db → Db → Type 0
Shows now before after =
    ((later v : ℕ) (exclude : Option ℕ)
      → now ≤ later
      → active_reserved_for_variant later exclude v after.reservations
        ≡ active_reserved_for_variant later exclude v before.reservations)
    × ((v : ℕ)
        → held_by_status v after.reservations
          ≡ active_reserved_for_variant now none v before.reservations)
    × All (IsInTime now) after.sessions
    × (after.stock ≡ before.stock)

module _ (now : ℕ) where
  abbrev swept : List Reservation → List Reservation
  swept rows =
      map
        (lapse_reservation (now + 1) ReservationStatus.payment_processing
          ReservationStatus.cancelled)
        (map (lapse_reservation (now + 1) ReservationStatus.reserved ReservationStatus.expired)
          rows)

  abbrev swept_sessions : List CheckoutSession → List CheckoutSession
  swept_sessions rows =
      map
        (lapse_session (now + 1) CheckoutSessionStatus.payment_processing
          CheckoutSessionStatus.cancelled)
        (map (lapse_session (now + 1) CheckoutSessionStatus.active CheckoutSessionStatus.expired)
          rows)

  swept-active :
      (later v : ℕ) (exclude : Option ℕ) (rows : List Reservation)
      → now ≤ later
      → active_reserved_for_variant later exclude v (swept rows)
        ≡ active_reserved_for_variant later exclude v rows
  unfolding active_reserved_for_variant
  swept-active later v exclude [] h = refl
  swept-active later v exclude (r ∷ rows) h = ground (arith, swept-active later v exclude rows h)

  swept-held :
      (v : ℕ) (rows : List Reservation)
      → held_by_status v (swept rows) ≡ active_reserved_for_variant now none v rows
  unfolding active_reserved_for_variant
  swept-held v [] = refl
  swept-held v (r ∷ rows) = ground (arith, swept-held v rows)

  swept-IsInTime : (rows : List CheckoutSession) → All (IsInTime now) (swept_sessions rows)
  swept-IsInTime [] = tt
  swept-IsInTime (s ∷ rows) = ((λ live. ground arith), swept-IsInTime rows)

  -- A tick of the sweeper one unit of time after an instant, if it won the lock, changes no derived
  -- availability from that instant on; after it the statuses alone hold of each variant what was active
  -- at that instant, no more and no less; every live session has time left; and no stock moves.
  pub run_sweep_once-Shows : (db : Db) → Shows now db (run_sweep_once true (now + 1) db).1
  unfolding run_sweep_once
  run_sweep_once-Shows db = (
    (λ later v exclude h. swept-active later v exclude db.reservations h),
    (λ v. swept-held v db.reservations),
    swept-IsInTime db.sessions,
    refl,
  )
