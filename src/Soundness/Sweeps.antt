-- ===== src/Soundness/Sweeps.antt =====
-- The sweeps and the terminal transitions of app/services/reservation_lifecycle.py, against the
-- invariant.
use oorvashee_backend.Prelude.{ℕ, ◌≤◌, ◌≡◌, refl, Bool, true, false, arith, map}
use oorvashee_backend.Models.Enums.CheckoutSessionStatus.{CheckoutSessionStatus}
use oorvashee_backend.Models.Enums.ReservationStatus
use oorvashee_backend.Models.Enums.ReservationStatus.{ReservationStatus}
use oorvashee_backend.Models.Checkout.{Reservation}
use oorvashee_backend.Database.{Db}
use oorvashee_backend.NoOversell.{map-IsCovered}
use oorvashee_backend.ReservationRepository.Holds.{weight}
use oorvashee_backend.CheckoutSessionService.Release.{cancel_reservation}
use oorvashee_backend.CheckoutSessionService.Upsert.{map-IsUnique}
use oorvashee_backend.ReservationLifecycleService.{
  transition_session, sweep_expired_reservations, sweep_payment_processing_backstop, run_sweep_once,
  set_reservation, set_session, lapse_reservation, lapse_session,
}
use oorvashee_backend.Soundness.{IsSound, map-IsSynced, expiry_of, expiry_of-map}

-- What an update of reservations has to meet.
pub record LetsGo (f : Reservation → Reservation) : Type 0 where
  pub keys :
      (r : Reservation)
      → ((f r).checkout_session_id ≡ r.checkout_session_id) × ((f r).variant_id ≡ r.variant_id)
  pub lighter : (now v : ℕ) (r : Reservation) → weight now v (f r) ≤ weight now v r
  pub reserved_same :
      (r : Reservation)
      → ReservationStatus.is (f r).status ReservationStatus.reserved ≡ true
      → f r ≡ r

lapse-LetsGo :
    (now : ℕ) (from to : ReservationStatus)
    → ReservationStatus.holds_stock to ≡ false
    → LetsGo (lapse_reservation now from to)
lapse-LetsGo now from to h = record {
  keys = λ r. ground arith;
  lighter = λ t v r. ground arith;
  reserved_same = λ r e. ground arith;
}

set-LetsGo :
    (id : ℕ) (to : ReservationStatus)
    → ReservationStatus.holds_stock to ≡ false
    → LetsGo (set_reservation id to)
set-LetsGo id to h = record {
  keys = λ r. ground arith;
  lighter = λ t v r. ground arith;
  reserved_same = λ r e. ground arith;
}

pub cancel-LetsGo : (id : ℕ) → LetsGo (cancel_reservation id)
cancel-LetsGo id = record {
  keys = λ r. ground arith;
  lighter = λ t v r. ground arith;
  reserved_same = λ r e. ground arith;
}

-- Such an update of the reservations, over sessions that expire as before, keeps the invariant.
pub update-IsSound :
    (now : ℕ) (db db' : Db) (f : Reservation → Reservation)
    → LetsGo f
    → db'.stock ≡ db.stock
    → db'.reservations ≡ map f db.reservations
    → ((t : ℕ) → expiry_of t db'.sessions ≡ expiry_of t db.sessions)
    → IsSound now db
    → IsSound now db'
update-IsSound now db db' f go same rows exp h = record {
  covered =
      rw (same, rows) (map-IsCovered now db.stock f (go.lighter now) db.reservations h.covered);
  unique = rw rows (map-IsUnique f go.keys db.reservations h.unique);
  synced =
      rw rows
        (map-IsSynced f go.reserved_same db.sessions db'.sessions exp db.reservations h.synced);
}

sweep_expired-IsSound :
    (now t : ℕ) (db : Db) → IsSound now db → IsSound now (sweep_expired_reservations t db).1
unfolding sweep_expired_reservations
sweep_expired-IsSound now t db =
    update-IsSound now db _
      (lapse_reservation t ReservationStatus.reserved ReservationStatus.expired)
      (lapse-LetsGo t ReservationStatus.reserved ReservationStatus.expired refl) refl refl
      (expiry_of-map (lapse_session t CheckoutSessionStatus.active CheckoutSessionStatus.expired)
        (λ s. ground arith) db.sessions)

backstop-IsSound :
    (now t : ℕ) (db : Db) → IsSound now db → IsSound now (sweep_payment_processing_backstop t db).1
unfolding sweep_payment_processing_backstop
backstop-IsSound now t db =
    update-IsSound now db _
      (lapse_reservation t ReservationStatus.payment_processing ReservationStatus.cancelled)
      (lapse-LetsGo t ReservationStatus.payment_processing ReservationStatus.cancelled refl) refl
      refl
      (expiry_of-map
        (lapse_session t CheckoutSessionStatus.payment_processing CheckoutSessionStatus.cancelled)
        (λ s. ground arith) db.sessions)

-- A tick of the sweeper, whether or not it won the lock, keeps the invariant.
pub run_sweep_once-IsSound :
    (got : Bool) (now t : ℕ) (db : Db) → IsSound now db → IsSound now (run_sweep_once got t db).1
unfolding run_sweep_once
run_sweep_once-IsSound true now t db h =
    backstop-IsSound now t (sweep_expired_reservations t db).1 (sweep_expired-IsSound now t db h)
run_sweep_once-IsSound false now t db h = h

-- Moving a session and its reservations to a status that holds nothing.
pub transition_session-IsSound :
    (now id : ℕ) (sto : CheckoutSessionStatus) (rto : ReservationStatus) (db : Db)
    → ReservationStatus.holds_stock rto ≡ false
    → IsSound now db
    → IsSound now (transition_session id sto rto db)
unfolding transition_session
transition_session-IsSound now id sto rto db rest =
    update-IsSound now db _ (set_reservation id rto) (set-LetsGo id rto rest) refl refl
      (expiry_of-map (set_session id sto) (λ s. ground arith) db.sessions)
