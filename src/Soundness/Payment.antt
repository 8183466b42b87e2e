-- ===== src/Soundness/Payment.antt =====
-- `start_payment` of app/services/checkout_payment_service.py, against the invariant.
use oorvashee_backend.Prelude.{
  ℕ, ◌+◌, ◌≤◌, ◌<◌, ◌≡◌, ◌≢◌, ◌∙◌, true, false, some, List, [], ◌∷◌, map, ◌==◌, arith, All, ◌++◌,
  and-right, Bool-cases, inl, inr,
}
use oorvashee_backend.Models.Enums.CheckoutSessionStatus.{CheckoutSessionStatus}
use oorvashee_backend.Models.Enums.ReservationStatus
use oorvashee_backend.Models.Checkout.{Reservation, CheckoutSession}
use oorvashee_backend.Models.Order.{Order}
use oorvashee_backend.Exceptions.{AppError, Result, ok, raise_if}
use oorvashee_backend.Exceptions.Loops.{Ends-then, Ends-of_ok}
use oorvashee_backend.Database.{Db, Clock}
use oorvashee_backend.ReservationRepository.{
  get_session_for_update, is_reserved_of, list_reserved_for_session,
}
use oorvashee_backend.ReservationRepository.Holds.{weight, held-map_mono}
use oorvashee_backend.CheckoutSessionService.{put_session}
use oorvashee_backend.CheckoutSessionService.Upsert.{map-IsUnique}
use oorvashee_backend.CheckoutPaymentService.{
  NewIds, to_payment, load_payable_session, prepare_order, initiate_razorpay, inr_to_paise,
  start_payment, build_order, is_empty,
}
use oorvashee_backend.Soundness.{
  IsSound, IsSynced, IsSyncedRow, expiry_of, expiry_of-put_ne, get_session-expiry_of,
}
use oorvashee_backend.Soundness.Checkout.{KeepsSound}

-- A session that may be paid for is the one that was asked for, and has not expired.
abbrev IsPayable : Clock → ℕ → List CheckoutSession → CheckoutSession → Type 0
IsPayable clock session_id sessions s =
    (get_session_for_update session_id sessions ≡ some s) × (clock.utc_now < s.expires_at)

load_payable_session-IsPayable :
    (clock : Clock) (session_id user_id : ℕ) (sessions : List CheckoutSession) (s : CheckoutSession)
    → load_payable_session clock session_id user_id sessions ≡ ok s
    → IsPayable clock session_id sessions s
unfolding load_payable_session
load_payable_session-IsPayable clock session_id user_id sessions s h = (ground arith, ground arith)

module _ (clock : Clock) (ordered : clock.db_now ≤ clock.utc_now) (session_id new_expiry : ℕ)
    (db : Db) (h : IsSound clock.db_now db) (s : CheckoutSession)
    (payable : IsPayable clock session_id db.sessions s) where
  -- A RESERVED row of the session expires when the session does.
  reserved-expires_at :
      (r : Reservation)
      → IsSyncedRow db.sessions r
      → is_reserved_of session_id r ≡ true
      → r.expires_at ≡ s.expires_at
  reserved-expires_at r synced e =
      let same : r.checkout_session_id ≡ session_id = ground arith in
      let here : expiry_of r.checkout_session_id db.sessions ≡ some r.expires_at =
        synced (and-right (r.checkout_session_id == session_id) _ e) in
      let there : expiry_of session_id db.sessions ≡ some s.expires_at =
        (get_session-expiry_of session_id db.sessions s payable.0).1 in
      cc

  -- A reservation that is extended held its stock already.
  to_payment-lighter :
      (v : ℕ) (r : Reservation)
      → IsSyncedRow db.sessions r
      → weight clock.db_now v (to_payment session_id new_expiry r) ≤ weight clock.db_now v r
  to_payment-lighter v r synced = elim (Bool-cases (is_reserved_of session_id r)) [
    | inl e ↦ rw e (ground (arith, reserved-expires_at r synced e, payable.1, ordered))
    | inr n ↦ rw n (ground arith)
  ]

  each_lighter :
      (v : ℕ) (rows : List Reservation)
      → IsSynced db.sessions rows
      → All
          (λ r.
            weight clock.db_now v (to_payment session_id new_expiry r) ≤ weight clock.db_now v r)
          rows
  each_lighter v [] k = tt
  each_lighter v (r ∷ rows) k = (to_payment-lighter v r k.0, each_lighter v rows k.1)

  abbrev paying : CheckoutSession
  paying = record s { status = CheckoutSessionStatus.payment_processing; expires_at = new_expiry }

  -- Nothing of the session is RESERVED any more, and the other sessions expire as they did.
  to_payment-IsSynced :
      (rows : List Reservation)
      → IsSynced db.sessions rows
      → IsSynced (put_session paying db.sessions) (map (to_payment session_id new_expiry) rows)
  to_payment-IsSynced [] k = tt
  to_payment-IsSynced (r ∷ rows) k = (
    elim (Bool-cases (is_reserved_of session_id r)) [
      | inl e ↦ rw e (λ never. cc)
      | inr n ↦ rw n (λ reserved.
          expiry_of-put_ne paying db.sessions r.checkout_session_id (other_session r n reserved)
          ∙ k.0 reserved)
    ],
    to_payment-IsSynced rows k.1,
  )
    where
      other_session :
          (q : Reservation)
          → is_reserved_of session_id q ≡ false
          → ReservationStatus.is q.status ReservationStatus.reserved ≡ true
          → s.id ≢ q.checkout_session_id
      other_session q n reserved same =
          let s_id : s.id ≡ session_id =
            (get_session-expiry_of session_id db.sessions s payable.0).0 in
          ground arith

  prepared-IsSound :
      (order : Order)
      → IsSound clock.db_now (record db {
        orders = db.orders ++ order ∷ [];
        reservations = map (to_payment session_id new_expiry) db.reservations;
        sessions = put_session paying db.sessions;
      })
  prepared-IsSound order = record {
    covered = λ v. omega (
      arith,
      held-map_mono clock.db_now v (to_payment session_id new_expiry) db.reservations
          (each_lighter v db.reservations h.synced),
      h.covered v,
    );
    unique =
        map-IsUnique (to_payment session_id new_expiry) (λ r. ground arith) db.reservations
          h.unique;
    synced = to_payment-IsSynced db.reservations h.synced;
  }

module _ (clock : Clock) (ordered : clock.db_now ≤ clock.utc_now) (ttl : ℕ) (new : NewIds)
    (session_id user_id : ℕ) (db : Db) (h : IsSound clock.db_now db) where
  prepare_order-KeepsSound :
      KeepsSound clock.db_now (prepare_order clock ttl new session_id user_id db)
  unfolding prepare_order
  prepare_order-KeepsSound =
      Ends-then (λ r. IsSound clock.db_now r.1) (λ _. Unit {0})
        (load_payable_session clock session_id user_id db.sessions) _ (λ _ _. tt)
        λ s e.
          Ends-then (λ r. IsSound clock.db_now r.1) (λ _. Unit {0})
            (raise_if (is_empty (list_reserved_for_session session_id db.reservations))
              AppError.reservation_expired)
            _ (λ _ _. tt)
            λ _ _.
              Ends-then (λ r. IsSound clock.db_now r.1) (λ _. Unit {0})
                (build_order db new s (list_reserved_for_session session_id db.reservations)
                  user_id)
                _ (λ _ _. tt)
                λ order _.
                  prepared-IsSound clock ordered session_id (clock.utc_now + ttl) db h s
                    (load_payable_session-IsPayable clock session_id user_id db.sessions s e) order

-- The new payment row is in no table that the invariant reads.
initiate_razorpay-KeepsSound :
    (create_order : ℕ → Result ℕ) (new : NewIds) (order : Order) (now : ℕ) (db : Db)
    → IsSound now db
    → KeepsSound now (initiate_razorpay create_order new order db)
unfolding initiate_razorpay
initiate_razorpay-KeepsSound create_order new order now db h =
    Ends-then (λ r. IsSound now r.1) (λ _. Unit {0}) (inr_to_paise order.total) _ (λ _ _. tt)
      λ paise _.
        Ends-then (λ r. IsSound now r.1) (λ _. Unit {0}) (create_order paise) _ (λ _ _. tt)
          λ id _. record { covered = h.covered; unique = h.unique; synced = h.synced }

-- Starting a payment keeps the invariant, whatever the gateway answers, or raises; the application's
-- clock is not behind the transaction's.
pub start_payment-IsSound :
    (create_order : ℕ → Result ℕ) (clock : Clock) (ttl : ℕ) (new : NewIds) (session_id user_id : ℕ)
    (db : Db)
    → clock.db_now ≤ clock.utc_now
    → IsSound clock.db_now db
    → KeepsSound clock.db_now (start_payment create_order clock ttl new session_id user_id db)
unfolding start_payment
start_payment-IsSound create_order clock ttl new session_id user_id db ordered h =
    let now = clock.db_now in
    let prepare = prepare_order clock ttl new session_id user_id db in
    Ends-then (λ r. IsSound now r.1) (λ _. Unit {0}) prepare _ (λ _ _. tt)
      λ prepared e.
        Ends-then (λ r. IsSound now r.1) (λ _. Unit {0})
          (initiate_razorpay create_order new prepared.0 prepared.1) _ (λ _ _. tt)
          λ paid p.
            Ends-of_ok (λ r. IsSound now r.1) (λ _. Unit {0})
              (initiate_razorpay create_order new prepared.0 prepared.1) paid
              (initiate_razorpay-KeepsSound create_order new prepared.0 now prepared.1 (
                Ends-of_ok (λ r. IsSound now r.1) (λ _. Unit {0}) prepare prepared
                  (prepare_order-KeepsSound clock ordered ttl new session_id user_id db h) e))
              p
