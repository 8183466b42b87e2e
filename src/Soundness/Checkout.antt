-- ===== src/Soundness/Checkout.antt =====
-- `start_checkout` and `cancel` of app/services/checkout_session_service.py, against the invariant.
use oorvashee_backend.Prelude.{
  ℕ, ◌+◌, ◌≡◌, ◌≢◌, refl, ◌∙◌, Bool, true, false, not, none, some, List, [], ◌==◌, Bool-cases,
  not-false, if◌then◌else◌, inl, inr, Option-cases,
}
use oorvashee_backend.Models.Enums.CheckoutSessionStatus
use oorvashee_backend.Models.Enums.CheckoutSessionStatus.{CheckoutSessionStatus}
use oorvashee_backend.Models.Checkout.{CheckoutSession}
use oorvashee_backend.Exceptions.{AppError, Result, raise_if}
use oorvashee_backend.Exceptions.Loops.{Ends, Ends-then, Ends-guard, Ends-raise_if, Ends-or_raise}
use oorvashee_backend.Database.{Db, Clock}
use oorvashee_backend.ReservationRepository.{get_active_session_for_user, get_session_for_update}
use oorvashee_backend.CheckoutSessionService.{
  Line, all_ok, upsert_reservations, put_session, line_ids, kept_row, hold_lines, reserve_lines,
  checkout_in, acquire_session, load_cart_lines, start_checkout,
}
use oorvashee_backend.CheckoutSessionService.Release.{cancel_reservation, release_session, cancel}
use oorvashee_backend.CheckoutSessionService.NoOversell.{held_covered}
use oorvashee_backend.CheckoutSessionService.Upsert.{upserts-IsUnique, keep_if-IsUnique}
use oorvashee_backend.Soundness.{
  IsSound, expiry_of, expiry_of-put_same, carry-IsSynced, expiry_of-put_ne, expiry_of-put_self,
  get_session-expiry_of,
}
use oorvashee_backend.Soundness.Fresh.{
  upserts-IsFresh, kept-IsSynced, synced-IsFresh, expiry_of-append, expiry_of-last,
  active_session-listed,
}
use oorvashee_backend.Soundness.Sweeps.{update-IsSound, cancel-LetsGo}

-- The acquired session is in the table, and the sessions that were there expire as they did.
abbrev IsAcquired : List CheckoutSession → CheckoutSession × List CheckoutSession → Type 0
IsAcquired before (s, after) =
    (expiry_of s.id after ≢ none)
    × ((t e : ℕ) → expiry_of t before ≡ some e → expiry_of t after ≡ some e)

acquire_session-IsAcquired :
    (new_id user_id expires_at : ℕ) (sessions : List CheckoutSession)
    → IsAcquired sessions (acquire_session new_id user_id expires_at sessions)
unfolding acquire_session
acquire_session-IsAcquired new_id user_id expires_at sessions =
    elim (Option-cases (get_active_session_for_user user_id sessions)) [
      | inl e ↦
          rw (e, acquire_session)
            (expiry_of-last _ sessions, λ t x h. expiry_of-append t x sessions _ h)
      | inr (s, e) ↦
          rw (e, acquire_session) (active_session-listed user_id sessions s e, λ t x h. h)
    ]

module _ (now user_id expires_at : ℕ) (lines : List Line) (db : Db) (h : IsSound now db) where
  hold_lines-IsSound :
      (s : CheckoutSession) (after : List CheckoutSession)
      → IsAcquired db.sessions (s, after)
      → all_ok now s.id (record db { sessions = after }) lines ≡ true
      → IsSound now (hold_lines user_id expires_at s lines (record db { sessions = after }))
  unfolding hold_lines
  hold_lines-IsSound s after acquired e =
      let db' = record db { sessions = after } in
      let s' : CheckoutSession = record s {
        status = CheckoutSessionStatus.active;
        expires_at = expires_at;
      } in
      let sessions = put_session s' after in
      let rows = upsert_reservations s.id user_id expires_at lines db.reservations in
      record {
        covered = λ v. held_covered now user_id expires_at s lines db' v h.unique (h.covered v) e;
        unique =
            keep_if-IsUnique (kept_row s.id (line_ids lines)) rows
              (upserts-IsUnique s.id user_id expires_at lines db.reservations h.unique);
        synced =
            kept-IsSynced s.id user_id expires_at sessions lines rows
              (expiry_of-put_self s' after acquired.0)
              (upserts-IsFresh s.id user_id expires_at sessions lines [] db.reservations h.unique (
                synced-IsFresh s.id user_id expires_at sessions db.sessions db.reservations
                  (λ t x n p. expiry_of-put_ne s' after t n ∙ acquired.1 t x p) h.synced));
      }

-- What a call that returns a value and the new state ends with, when it does not raise.
abbrev pub KeepsSound {ℓ} : {A : Type ℓ} → ℕ → Result (A × Db) → Type 0
KeepsSound now = Ends (λ r. IsSound now r.1) (λ _. Unit {0})

module _ (clock : Clock) (ttl user_id : ℕ) (lines : List Line) (db : Db)
    (h : IsSound clock.db_now db) where
  reserve_lines-KeepsSound :
      (s : CheckoutSession) (after : List CheckoutSession)
      → IsAcquired db.sessions (s, after)
      → KeepsSound clock.db_now
          (reserve_lines clock ttl user_id s lines (record db { sessions = after }))
  unfolding reserve_lines
  reserve_lines-KeepsSound s after acquired =
      Ends-raise_if (λ r. IsSound clock.db_now r.1) (λ _. Unit {0})
        (not (all_ok clock.db_now s.id (record db { sessions = after }) lines)) _ _ (λ _. tt)
        (λ e.
          hold_lines-IsSound clock.db_now user_id (clock.utc_now + ttl) lines db h s after acquired
            (not-false _ e))

  -- Only the table of sessions has changed, and the sessions that were there expire as they did.
  sessions-IsSound :
      (after : List CheckoutSession)
      → ((t e : ℕ) → expiry_of t db.sessions ≡ some e → expiry_of t after ≡ some e)
      → IsSound clock.db_now (record db { sessions = after })
  sessions-IsSound after carry = record {
    covered = h.covered;
    unique = h.unique;
    synced = carry-IsSynced db.sessions after carry db.reservations h.synced;
  }

  checkout_in-KeepsSound :
      (acquired : CheckoutSession × List CheckoutSession)
      → IsAcquired db.sessions acquired
      → KeepsSound clock.db_now (checkout_in clock ttl user_id lines acquired db)
  unfolding checkout_in
  checkout_in-KeepsSound (s, after) acquired =
      elim (Bool-cases
        (CheckoutSessionStatus.is s.status CheckoutSessionStatus.payment_processing)) [
          | inl paying ↦ rw paying (sessions-IsSound after acquired.1)
          | inr free ↦ rw free (reserve_lines-KeepsSound s after acquired)
        ]

-- A checkout that starts with the invariant ends with it, whether it holds the cart or finds a payment
-- in flight; otherwise it raises.
pub start_checkout-IsSound :
    (clock : Clock) (ttl new_id user_id : ℕ) (db : Db)
    → IsSound clock.db_now db
    → KeepsSound clock.db_now (start_checkout clock ttl new_id user_id db)
unfolding start_checkout
start_checkout-IsSound clock ttl new_id user_id db h =
    Ends-then (λ r. IsSound clock.db_now r.1) (λ _. Unit {0}) (load_cart_lines user_id db) _
      (λ _ _. tt)
      (λ lines _.
        checkout_in-KeepsSound clock ttl user_id lines db h
          (acquire_session new_id user_id (clock.utc_now + ttl) db.sessions)
          (acquire_session-IsAcquired new_id user_id (clock.utc_now + ttl) db.sessions))

release_session-IsSound :
    (now : ℕ) (clock : Clock) (s : CheckoutSession) (id : ℕ) (db : Db)
    → get_session_for_update id db.sessions ≡ some s
    → IsSound now db
    → IsSound now (release_session clock s db)
unfolding release_session
release_session-IsSound now clock s id db e =
    update-IsSound now db _ (cancel_reservation s.id) (cancel-LetsGo s.id) refl refl (
      expiry_of-put_same (record s { status = CheckoutSessionStatus.cancelled }) db.sessions
        (let (p, q) = get_session-expiry_of id db.sessions s e in rw p q))

-- Cancelling a checkout keeps the invariant, or raises.
pub cancel-IsSound :
    (now : ℕ) (clock : Clock) (session_id user_id : ℕ) (db : Db)
    → IsSound now db
    → Ends (IsSound now) (λ _. Unit {0}) (cancel clock session_id user_id db)
unfolding cancel
cancel-IsSound now clock session_id user_id db h =
    Ends-or_raise (IsSound now) (λ _. Unit {0}) (get_session_for_update session_id db.sessions)
      AppError.not_found _ (λ _. tt)
      (λ s e.
        Ends-guard (IsSound now) (λ _. Unit {0})
          (raise_if (not (s.user_id == user_id)) AppError.not_found) _ (λ _ _. tt)
          (if_live s e (CheckoutSessionStatus.is_live s.status)))
  where
    if_live :
        (s : CheckoutSession)
        → get_session_for_update session_id db.sessions ≡ some s
        → (b : Bool) → IsSound now (if b then release_session clock s db else db)
    if_live s e true = release_session-IsSound now clock s session_id db e h
    if_live s e false = h
