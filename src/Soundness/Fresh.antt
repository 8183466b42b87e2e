-- ===== src/Soundness/Fresh.antt =====
-- The expiry of a session's reservations after the upserts and the pruning of `start_checkout`.
use oorvashee_backend.Prelude.{
  ℕ, ◌≡◌, ◌≢◌, refl, true, false, arith, List, [], ◌∷◌, elem, ◌||◌, ◌&&◌, ◌==◌,
}
use oorvashee_backend.Models.Checkout.{Reservation, CheckoutSession}
use oorvashee_backend.CheckoutSessionService.{
  Line, upsert_reservation, upsert_reservations, prune_stale, line_ids, kept_row, is_row_of,
}
use oorvashee_backend.ReservationRepository.{get_active_session_for_user}
use oorvashee_backend.CheckoutSessionService.Upsert.{IsUnique, has_row, upsert-IsUnique}
use oorvashee_backend.Soundness.{IsSynced, IsSyncedRow, expiry_of}
use oorvashee_backend.Prelude.{All, none, some, ◌++◌, Bool-cases, inl, inr, or-right}

-- The rows of a session for variants that were upserted expire at the new time; the rows of other
-- sessions are as they were.
module _ (sid user expires_at : ℕ) (sessions : List CheckoutSession) where
  abbrev pub IsFresh : List ℕ → Reservation → Type 0
  IsFresh done r =
      ((r.checkout_session_id == sid && elem r.variant_id done) ≡ true → r.expires_at ≡ expires_at)
      × ((r.checkout_session_id == sid) ≡ false → IsSyncedRow sessions r)

  no_row-IsFresh :
      (v : ℕ) (done : List ℕ) (rows : List Reservation)
      → has_row sid v rows ≡ false
      → All (IsFresh done) rows
      → All (IsFresh (v ∷ done)) rows
  no_row-IsFresh v done [] n h = tt
  no_row-IsFresh v done (r ∷ rows) n h = (
    (λ e. h.0.0 (ground arith), h.0.1),
    no_row-IsFresh v done rows (or-right (is_row_of sid v r) (has_row sid v rows) n) h.1,
  )

  row_keys :
      (r : Reservation) (v : ℕ) (rows : List Reservation)
      → is_row_of sid v r ≡ true
      → has_row r.checkout_session_id r.variant_id rows ≡ false
      → has_row sid v rows ≡ false
  row_keys r v rows e n =
      let s_eq : r.checkout_session_id ≡ sid = ground arith in
      let v_eq : r.variant_id ≡ v = ground arith in cc

  upsert-IsFresh :
      (l : Line) (done : List ℕ) (rows : List Reservation)
      → IsUnique rows
      → All (IsFresh done) rows
      → All (IsFresh (l.variant_id ∷ done)) (upsert_reservation sid user expires_at l rows)
  unfolding upsert_reservation
  upsert-IsFresh l done [] u h = ground arith
  upsert-IsFresh l done (r ∷ rows) u h = elim (Bool-cases (is_row_of sid l.variant_id r)) [
    | inl e ↦ rw e (
      (λ _. refl, λ n. ground arith),
      no_row-IsFresh l.variant_id done rows (row_keys r l.variant_id rows e u.0) h.1,
    )
    | inr n ↦ rw n ((λ e. h.0.0 (ground arith), h.0.1), upsert-IsFresh l done rows u.1 h.1)
  ]

  abbrev pub seen : List ℕ → List Line → List ℕ
  seen done [] = done
  seen done (l ∷ lines) = seen (l.variant_id ∷ done) lines

  pub upserts-IsFresh :
      (lines : List Line) (done : List ℕ) (rows : List Reservation)
      → IsUnique rows
      → All (IsFresh done) rows
      → All (IsFresh (seen done lines)) (upsert_reservations sid user expires_at lines rows)
  unfolding upsert_reservations
  upserts-IsFresh [] done rows u h = h
  upserts-IsFresh (l ∷ lines) done rows u h =
      upserts-IsFresh lines (l.variant_id ∷ done) (upsert_reservation sid user expires_at l rows)
        (upsert-IsUnique sid user expires_at l rows u) (upsert-IsFresh l done rows u h)

  elem-seen :
      (v : ℕ) (lines : List Line) (done : List ℕ)
      → elem v (line_ids lines) || elem v done ≡ true
      → elem v (seen done lines) ≡ true
  elem-seen v [] done h = h
  elem-seen v (l ∷ lines) done h = elem-seen v lines (l.variant_id ∷ done) (ground arith)

  pub kept-IsSynced :
      (lines : List Line) (rows : List Reservation)
      → expiry_of sid sessions ≡ some expires_at
      → All (IsFresh (seen [] lines)) rows
      → IsSynced sessions (prune_stale sid (line_ids lines) rows)
  unfolding prune_stale
  kept-IsSynced lines [] here h = tt
  kept-IsSynced lines (r ∷ rows) here h = elim (Bool-cases (kept_row sid (line_ids lines) r)) [
    | inl kept ↦ rw kept (row_synced kept, kept-IsSynced lines rows here h.1)
    | inr gone ↦ rw gone (kept-IsSynced lines rows here h.1)
  ]
    where
      row_synced : kept_row sid (line_ids lines) r ≡ true → IsSyncedRow sessions r
      row_synced kept reserved = elim (Bool-cases (r.checkout_session_id == sid)) [
        | inl same ↦
            let s_eq : r.checkout_session_id ≡ sid = ground arith in
            let listed : elem r.variant_id (line_ids lines) ≡ true = ground arith in
            let in_seen : elem r.variant_id (seen [] lines) ≡ true =
              elem-seen r.variant_id lines [] (rw listed) in
            let fresh : r.expires_at ≡ expires_at = h.0.0 (rw (same, in_seen)) in
            rw (s_eq, fresh) here
        | inr other ↦ h.0.1 other reserved
      ]

  -- Before the upserts: the rows of the other sessions are in step.
  pub synced-IsFresh :
      (before : List CheckoutSession) (rows : List Reservation)
      → ((t : ℕ) (e : ℕ) → sid ≢ t → expiry_of t before ≡ some e → expiry_of t sessions ≡ some e)
      → IsSynced before rows
      → All (IsFresh []) rows
  synced-IsFresh before [] carry h = tt
  synced-IsFresh before (r ∷ rows) carry h = (
    (
      λ e. ground arith,
      λ other reserved. carry r.checkout_session_id r.expires_at (λ n. ground arith) (h.0 reserved),
    ),
    synced-IsFresh before rows carry h.1,
  )

-- The sessions that `acquire_session` leaves, and the one that it finds or creates.
pub expiry_of-append :
    (t e : ℕ) (rows more : List CheckoutSession)
    → expiry_of t rows ≡ some e
    → expiry_of t (rows ++ more) ≡ some e
unfolding expiry_of
expiry_of-append t e [] more h = cc
expiry_of-append t e (r ∷ rows) more h = ground (arith, expiry_of-append t e rows more)

pub expiry_of-last :
    (s : CheckoutSession) (rows : List CheckoutSession) → expiry_of s.id (rows ++ s ∷ []) ≢ none
unfolding expiry_of
expiry_of-last s [] h = ground arith
expiry_of-last s (r ∷ rows) h = ground (arith, expiry_of-last s rows)

pub active_session-listed :
    (user_id : ℕ) (rows : List CheckoutSession) (s : CheckoutSession)
    → get_active_session_for_user user_id rows ≡ some s
    → expiry_of s.id rows ≢ none
unfolding expiry_of get_active_session_for_user
active_session-listed user_id [] s e h = cc
active_session-listed user_id (r ∷ rows) s e h =
    ground (arith, active_session-listed user_id rows s)
