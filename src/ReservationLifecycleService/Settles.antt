-- ===== src/ReservationLifecycleService/Settles.antt =====
-- A second tick of the sweeper (`run_sweep_once` of app/tasks/reservation_sweeper.py) at the time of the
-- first.
use oorvashee_backend.Prelude.{
  ℕ, ◌≡◌, refl, true, false, some, List, [], ◌∷◌, map, count_if, arith, All,
}
use oorvashee_backend.Models.Enums.CheckoutSessionStatus
use oorvashee_backend.Models.Enums.ReservationStatus
use oorvashee_backend.Models.Checkout.{Reservation, CheckoutSession}
use oorvashee_backend.Models.Order.{Order}
use oorvashee_backend.Database.{Db}
use oorvashee_backend.ReservationLifecycleService.{
  SweepCounts, lapsed_reservation, lapsed_session, lapse_reservation, lapse_session, fail_order,
  expired_session_ids, run_sweep_once,
}

-- The counts of a sweep that found nothing.
abbrev pub nothing : SweepCounts
nothing = record { reservations = 0; sessions = 0 }

module _ (t : ℕ) where
  -- Neither sweep has anything to do for the row.
  abbrev IsSwept : Reservation → Type 0
  IsSwept r =
      (lapsed_reservation t ReservationStatus.reserved r ≡ false)
      × (lapsed_reservation t ReservationStatus.payment_processing r ≡ false)

  abbrev IsSweptSession : CheckoutSession → Type 0
  IsSweptSession s =
      (lapsed_session t CheckoutSessionStatus.active s ≡ false)
      × (lapsed_session t CheckoutSessionStatus.payment_processing s ≡ false)

  abbrev swept : List Reservation → List Reservation
  swept rows =
      map (lapse_reservation t ReservationStatus.payment_processing ReservationStatus.cancelled)
        (map (lapse_reservation t ReservationStatus.reserved ReservationStatus.expired) rows)

  abbrev swept_sessions : List CheckoutSession → List CheckoutSession
  swept_sessions rows =
      map (lapse_session t CheckoutSessionStatus.payment_processing CheckoutSessionStatus.cancelled)
        (map (lapse_session t CheckoutSessionStatus.active CheckoutSessionStatus.expired) rows)

  swept-IsSwept : (rows : List Reservation) → All IsSwept (swept rows)
  swept-IsSwept [] = tt
  swept-IsSwept (r ∷ rows) = (ground arith, swept-IsSwept rows)

  swept-IsSweptSession : (rows : List CheckoutSession) → All IsSweptSession (swept_sessions rows)
  swept-IsSweptSession [] = tt
  swept-IsSweptSession (r ∷ rows) = (ground arith, swept-IsSweptSession rows)

  IsSwept-reserved :
      (rows : List Reservation)
      → All IsSwept rows
      → (count_if (lapsed_reservation t ReservationStatus.reserved) rows ≡ 0)
        × (map (lapse_reservation t ReservationStatus.reserved ReservationStatus.expired) rows
            ≡ rows)
  IsSwept-reserved [] h = (refl, refl)
  IsSwept-reserved (r ∷ rows) h =
      let (none_left, same) = IsSwept-reserved rows h.1 in rw (h.0.0, none_left, same) (refl, refl)

  IsSwept-paying :
      (rows : List Reservation)
      → All IsSwept rows
      → (count_if (lapsed_reservation t ReservationStatus.payment_processing) rows ≡ 0)
        × (map
              (lapse_reservation t ReservationStatus.payment_processing ReservationStatus.cancelled)
              rows
            ≡ rows)
  IsSwept-paying [] h = (refl, refl)
  IsSwept-paying (r ∷ rows) h =
      let (none_left, same) = IsSwept-paying rows h.1 in rw (h.0.1, none_left, same) (refl, refl)

  IsSweptSession-active :
      (rows : List CheckoutSession)
      → All IsSweptSession rows
      → (count_if (lapsed_session t CheckoutSessionStatus.active) rows ≡ 0)
        × (map (lapse_session t CheckoutSessionStatus.active CheckoutSessionStatus.expired) rows
            ≡ rows)
  IsSweptSession-active [] h = (refl, refl)
  IsSweptSession-active (s ∷ rows) h =
      let (none_left, same) = IsSweptSession-active rows h.1 in
      rw (h.0.0, none_left, same) (refl, refl)

  IsSweptSession-paying :
      (rows : List CheckoutSession)
      → All IsSweptSession rows
      → (count_if (lapsed_session t CheckoutSessionStatus.payment_processing) rows ≡ 0)
        × (map
              (lapse_session t CheckoutSessionStatus.payment_processing
                CheckoutSessionStatus.cancelled)
              rows
            ≡ rows)
        × (expired_session_ids t rows ≡ [])
  unfolding expired_session_ids
  IsSweptSession-paying [] h = (refl, refl, refl)
  IsSweptSession-paying (s ∷ rows) h =
      let (none_left, same, no_id) = IsSweptSession-paying rows h.1 in
      rw (h.0.1, none_left, same, no_id) (refl, refl, refl)

  fail_order-none : (orders : List Order) → map (fail_order []) orders ≡ orders
  fail_order-none [] = refl
  fail_order-none (o ∷ orders) = rw (fail_order-none orders) (ground arith)

  swept_already :
      (db : Db)
      → All IsSwept db.reservations
      → All IsSweptSession db.sessions
      → run_sweep_once true t db ≡ (some (nothing, nothing), db)
  unfolding run_sweep_once
  swept_already db h k =
      let (reserved, expired) = IsSwept-reserved db.reservations h in
      let (active, closed) = IsSweptSession-active db.sessions k in
      let (paying, cancelled) = IsSwept-paying db.reservations h in
      let (in_payment, ended, no_id) = IsSweptSession-paying db.sessions k in
      rw
        (
          reserved,
          expired,
          active,
          closed,
          paying,
          cancelled,
          in_payment,
          ended,
          no_id,
          fail_order-none db.orders,
        )
        refl

  -- A tick of the sweeper leaves nothing to the next one at the same time: the next changes no table and
  -- counts no row.
  pub run_sweep_once_settles :
      (db : Db)
      → let db' = (run_sweep_once true t db).1 in
        run_sweep_once true t db' ≡ (some (nothing, nothing), db')
  unfolding run_sweep_once
  run_sweep_once_settles db =
      swept_already (run_sweep_once true t db).1 (swept-IsSwept db.reservations)
        (swept-IsSweptSession db.sessions)
