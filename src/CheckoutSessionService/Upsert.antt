-- ===== src/CheckoutSessionService/Upsert.antt =====
-- The rows of the reservations under the upsert of app/services/checkout_session_service.py: the pair of
-- session and variant, and what a session and the others hold.
use oorvashee_backend.Prelude.{
  ℕ, ◌≤◌, ◌≡◌, ◌≢◌, refl, ◌∙◌, Bool, false, ◌&&◌, ◌||◌, List, [], ◌∷◌, ◌==◌, arith, All, keep_if,
  map, eq_or_ne, inl, inr,
}
use native.Mathlib.Nat.{le_trans}
use oorvashee_backend.Models.Checkout.{Reservation}
use oorvashee_backend.ReservationRepository.{active_reserved_for_variant}
use oorvashee_backend.ReservationRepository.Holds.{held_by_others, own}
use oorvashee_backend.CheckoutSessionService.{
  Line, is_row_of, upsert_reservation, upsert_reservations,
}

abbrev pub has_row : ℕ → ℕ → List Reservation → Bool
has_row session_id v [] = false
has_row session_id v (r ∷ rows) = is_row_of session_id v r || has_row session_id v rows

-- The unique constraint on (checkout_session_id, variant_id).
abbrev pub IsUnique : List Reservation → Type 0
IsUnique [] = Unit
IsUnique (r ∷ rows) = (has_row r.checkout_session_id r.variant_id rows ≡ false) × IsUnique rows

own-has_row :
    (now s v : ℕ) (rows : List Reservation) → has_row s v rows ≡ false → own now s v rows ≡ 0
own-has_row now s v [] h = refl
own-has_row now s v (r ∷ rows) h = ground (arith, own-has_row now s v rows)

module _ (s user expires_at : ℕ) (l : Line) where
  has_row-upsert :
      (t v : ℕ) (rows : List Reservation)
      → has_row t v (upsert_reservation s user expires_at l rows)
        ≡ (s == t && l.variant_id == v || has_row t v rows)
  unfolding upsert_reservation
  has_row-upsert t v [] = ground arith
  has_row-upsert t v (r ∷ rows) = ground (arith, has_row-upsert t v rows)

  pub upsert-IsUnique :
      (rows : List Reservation)
      → IsUnique rows
      → IsUnique (upsert_reservation s user expires_at l rows)
  unfolding upsert_reservation
  upsert-IsUnique [] h = (refl, tt)
  upsert-IsUnique (r ∷ rows) h =
      ground
        (arith, upsert-IsUnique rows h.1, has_row-upsert r.checkout_session_id r.variant_id rows)

  own-upsert_self :
      (now : ℕ) (rows : List Reservation)
      → IsUnique rows
      → own now s l.variant_id (upsert_reservation s user expires_at l rows) ≤ l.quantity
  unfolding upsert_reservation
  own-upsert_self now [] h = ground arith
  own-upsert_self now (r ∷ rows) h =
      ground (arith, own-upsert_self now rows h.1, own-has_row now s l.variant_id rows)

  own-upsert_ne :
      (now v : ℕ) (rows : List Reservation)
      → l.variant_id ≢ v
      → own now s v (upsert_reservation s user expires_at l rows) ≡ own now s v rows
  unfolding upsert_reservation
  own-upsert_ne now v [] h = ground arith
  own-upsert_ne now v (r ∷ rows) h = ground (arith, own-upsert_ne now v rows h)

  held_by_others-upsert :
      (now v : ℕ) (rows : List Reservation)
      → held_by_others now s v (upsert_reservation s user expires_at l rows)
        ≡ held_by_others now s v rows
  unfolding upsert_reservation active_reserved_for_variant
  held_by_others-upsert now v [] = ground arith
  held_by_others-upsert now v (r ∷ rows) = ground (arith, held_by_others-upsert now v rows)

module _ (s user expires_at : ℕ) where
  pub upserts-IsUnique :
      (lines : List Line) (rows : List Reservation)
      → IsUnique rows
      → IsUnique (upsert_reservations s user expires_at lines rows)
  unfolding upsert_reservations
  upserts-IsUnique [] rows h = h
  upserts-IsUnique (l ∷ lines) rows h =
      upserts-IsUnique lines (upsert_reservation s user expires_at l rows)
        (upsert-IsUnique s user expires_at l rows h)

  pub held_by_others-upserts :
      (now v : ℕ) (lines : List Line) (rows : List Reservation)
      → held_by_others now s v (upsert_reservations s user expires_at lines rows)
        ≡ held_by_others now s v rows
  unfolding upsert_reservations
  held_by_others-upserts now v [] rows = refl
  held_by_others-upserts now v (l ∷ lines) rows =
      held_by_others-upserts now v lines (upsert_reservation s user expires_at l rows)
      ∙ held_by_others-upsert s user expires_at l now v rows

  -- Any bound that holds for what the session held, and for every line of the variant, holds for what
  -- it holds afterwards.
  pub own-upserts-le :
      (now v bound : ℕ) (lines : List Line) (rows : List Reservation)
      → IsUnique rows
      → own now s v rows ≤ bound
      → All (λ (l : Line). l.variant_id ≡ v → l.quantity ≤ bound) lines
      → own now s v (upsert_reservations s user expires_at lines rows) ≤ bound
  unfolding upsert_reservations
  own-upserts-le now v bound [] rows u h fits = h
  own-upserts-le now v bound (l ∷ lines) rows u h fits =
      own-upserts-le now v bound lines (upsert_reservation s user expires_at l rows)
        (upsert-IsUnique s user expires_at l rows u)
        (elim (eq_or_ne l.variant_id v) [
          | inl e ↦ le_trans (rw (← e) (own-upsert_self s user expires_at l now rows u)) (fits.0 e)
          | inr n ↦ rw (own-upsert_ne s user expires_at l now v rows n) h
        ])
        fits.1

keep_if-no_row :
    (s v : ℕ) (p : Reservation → Bool) (rows : List Reservation)
    → has_row s v rows ≡ false
    → has_row s v (keep_if p rows) ≡ false
keep_if-no_row s v p [] h = refl
keep_if-no_row s v p (r ∷ rows) h = ground (arith, keep_if-no_row s v p rows)

pub keep_if-IsUnique :
    (p : Reservation → Bool) (rows : List Reservation) → IsUnique rows → IsUnique (keep_if p rows)
keep_if-IsUnique p [] h = tt
keep_if-IsUnique p (r ∷ rows) h = ground (
  arith,
  keep_if-IsUnique p rows h.1,
  keep_if-no_row r.checkout_session_id r.variant_id p rows h.0,
)

-- An update that keeps the two keys of each row.
abbrev pub KeepsKeys : (Reservation → Reservation) → Type 0
KeepsKeys f =
    (r : Reservation)
    → ((f r).checkout_session_id ≡ r.checkout_session_id) × ((f r).variant_id ≡ r.variant_id)

module _ (f : Reservation → Reservation) (keys : KeepsKeys f) where
  has_row-map : (s v : ℕ) (rows : List Reservation) → has_row s v (map f rows) ≡ has_row s v rows
  has_row-map s v [] = refl
  has_row-map s v (r ∷ rows) = ground (arith, keys r, has_row-map s v rows)

  pub map-IsUnique : (rows : List Reservation) → IsUnique rows → IsUnique (map f rows)
  map-IsUnique [] h = tt
  map-IsUnique (r ∷ rows) h =
      ground
        (arith, keys r, map-IsUnique rows h.1, has_row-map r.checkout_session_id r.variant_id rows)
