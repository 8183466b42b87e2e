-- ===== src/ReservationRepository/Holds.antt =====
-- The derived reserved quantity of a variant, split into what one session holds and what the others
-- hold, and how it moves under a set-based update.
use oorvashee_backend.Prelude.{
  ℕ, ◌+◌, ◌≤◌, ◌≡◌, Bool, ◌&&◌, none, some, List, [], ◌∷◌, map, ◌==◌, if◌then◌else◌, arith, keep_if,
  All,
}
use oorvashee_backend.Models.Checkout.{Reservation}
use oorvashee_backend.ReservationRepository.{holds, active_reserved_for_variant}

-- All that is held of a variant.
abbrev pub held : ℕ → ℕ → List Reservation → ℕ
held now v rows = active_reserved_for_variant now none v rows

-- What the other sessions hold.
abbrev pub held_by_others : ℕ → ℕ → ℕ → List Reservation → ℕ
held_by_others now session_id v rows = active_reserved_for_variant now (some session_id) v rows

-- What one reservation holds of a variant.
abbrev pub weight : ℕ → ℕ → Reservation → ℕ
weight now v r = if r.variant_id == v && holds now r then r.quantity else 0

-- What one session holds.
abbrev pub own : ℕ → ℕ → ℕ → List Reservation → ℕ
own now session_id v [] = 0
own now session_id v (r ∷ rows) =
    (if r.checkout_session_id == session_id then weight now v r else 0) + own now session_id v rows

pub held-split :
    (now session_id v : ℕ) (rows : List Reservation)
    → held now v rows ≡ held_by_others now session_id v rows + own now session_id v rows
unfolding active_reserved_for_variant
held-split now session_id v [] = omega arith
held-split now session_id v (r ∷ rows) = ground (arith, held-split now session_id v rows)

-- An update that raises no row's weight does not raise the sum.
pub held-map-le :
    (now v : ℕ) (f : Reservation → Reservation)
    → ((r : Reservation) → weight now v (f r) ≤ weight now v r)
    → (rows : List Reservation) → held now v (map f rows) ≤ held now v rows
unfolding active_reserved_for_variant
held-map-le now v f step [] = omega arith
held-map-le now v f step (r ∷ rows) = ground (arith, step r, held-map-le now v f step rows)

-- Time only lets reservations lapse.
pub held-later-le :
    (now later v : ℕ) (rows : List Reservation) → now ≤ later → held later v rows ≤ held now v rows
unfolding active_reserved_for_variant
held-later-le now later v [] h = omega arith
held-later-le now later v (r ∷ rows) h = ground (arith, held-later-le now later v rows h)

-- A deletion raises no sum.
pub held-keep_if-le :
    (now v : ℕ) (p : Reservation → Bool) (rows : List Reservation)
    → held now v (keep_if p rows) ≤ held now v rows
unfolding active_reserved_for_variant
held-keep_if-le now v p [] = omega arith
held-keep_if-le now v p (r ∷ rows) = ground (arith, held-keep_if-le now v p rows)

-- The same, where the update is only known to raise no weight of the rows at hand.
pub held-map_mono :
    (now v : ℕ) (f : Reservation → Reservation) (rows : List Reservation)
    → All (λ r. weight now v (f r) ≤ weight now v r) rows
    → held now v (map f rows) ≤ held now v rows
unfolding active_reserved_for_variant
held-map_mono now v f [] h = omega arith
held-map_mono now v f (r ∷ rows) h = ground (arith, h.0, held-map_mono now v f rows h.1)
