-- ===== src/CheckoutSessionService/NoOversell.antt =====
-- The holds of `start_checkout` in app/services/checkout_session_service.py, against the stock.
use mathlib.Core.Path.{subst}
use oorvashee_backend.Prelude.{
  ℕ, ◌-◌, ◌≤◌, ◌≡◌, sym, true, and-left, and-right, List, [], ◌∷◌, arith, All,
}
use oorvashee_backend.Prelude.Int.{pos, pos_part, parts_zero, ◌≤ℤ◌, ◌-ℤ◌}
use oorvashee_backend.Models.Checkout.{CheckoutSession}
use oorvashee_backend.Database.{Db}
use oorvashee_backend.InventoryService.Ledger.{stock_of}
use oorvashee_backend.ReservationRepository.Holds.{
  held, held_by_others, own, held-split, held-keep_if-le,
}
use oorvashee_backend.CheckoutSessionService.{
  Line, line_ok, all_ok, available_for, kept_row, line_ids, upsert_reservations, prune_stale,
}
use oorvashee_backend.CheckoutSessionService.Upsert.{
  IsUnique, own-upserts-le, held_by_others-upserts,
}

module _ (now s : ℕ) (db : Db) where
  -- What is left of a variant beside the other sessions' holds.
  abbrev room : ℕ → ℕ
  room v = pos_part (stock_of v db.stock) - held_by_others now s v db.reservations

  line_ok-le :
      (l : Line)
      → pos (held_by_others now s l.variant_id db.reservations) ≤ℤ stock_of l.variant_id db.stock
      → line_ok now s db l ≡ true
      → l.quantity ≤ room l.variant_id
  unfolding line_ok available_for ◌-ℤ◌
  line_ok-le l h e = ground arith

  all_ok-le :
      (v : ℕ) (lines : List Line)
      → pos (held_by_others now s v db.reservations) ≤ℤ stock_of v db.stock
      → all_ok now s db lines ≡ true
      → All (λ (l : Line). l.variant_id ≡ v → l.quantity ≤ room v) lines
  unfolding all_ok
  all_ok-le v [] h e = tt
  all_ok-le v (l ∷ lines) h e = (
    λ same.
        subst (λ u. l.quantity ≤ room u) same
          (line_ok-le l
            (subst (λ u. pos (held_by_others now s u db.reservations) ≤ℤ stock_of u db.stock)
              (sym same) h)
            (and-left (line_ok now s db l) (all_ok now s db lines) e)),
    all_ok-le v lines h (and-right (line_ok now s db l) (all_ok now s db lines) e),
  )

module _ (now user_id expires_at : ℕ) (s : CheckoutSession) (lines : List Line) (db : Db) (v : ℕ)
    (u : IsUnique db.reservations) (h : pos (held now v db.reservations) ≤ℤ stock_of v db.stock)
    (e : all_ok now s.id db lines ≡ true) where
  others_covered : pos (held_by_others now s.id v db.reservations) ≤ℤ stock_of v db.stock
  others_covered = omega (arith, held-split now s.id v db.reservations)

  own_in_room : own now s.id v db.reservations ≤ room now s.id db v
  own_in_room =
      omega (arith, held-split now s.id v db.reservations, parts_zero (stock_of v db.stock))

  upserts_in_room :
      own now s.id v (upsert_reservations s.id user_id expires_at lines db.reservations)
      ≤ room now s.id db v
  upserts_in_room =
      own-upserts-le s.id user_id expires_at now v (room now s.id db v) lines db.reservations u
        own_in_room (all_ok-le now s.id db v lines others_covered e)

  upserts_covered :
      pos (held now v (upsert_reservations s.id user_id expires_at lines db.reservations))
      ≤ℤ stock_of v db.stock
  upserts_covered = omega (
    arith,
    held-split now s.id v (upsert_reservations s.id user_id expires_at lines db.reservations),
    held_by_others-upserts s.id user_id expires_at now v lines db.reservations,
    upserts_in_room,
    others_covered,
    parts_zero (stock_of v db.stock),
  )

  pub held_covered :
      pos (
        held now v (
          prune_stale s.id
            (line_ids lines)
            (upsert_reservations s.id user_id expires_at lines db.reservations)))
      ≤ℤ stock_of v db.stock
  unfolding prune_stale
  held_covered = omega (
    arith,
    held-keep_if-le now v (kept_row s.id (line_ids lines))
        (upsert_reservations s.id user_id expires_at lines db.reservations),
    upserts_covered,
  )
