-- ===== src/Soundness/Sale.antt =====
-- A capture within the hold (`complete_sale` of app/services/reservation_lifecycle.py), against the
-- invariant.
use oorvashee_backend.Prelude.{ℕ, ◌≤◌, ◌≡◌, refl, ap, false, some, List, [], ◌∷◌, map, arith}
use oorvashee_backend.Prelude.Int.{pos, ◌≤ℤ◌, +ℤ_parts, pos_part, neg_part}
use oorvashee_backend.Models.Enums.CheckoutSessionStatus.{CheckoutSessionStatus}
use oorvashee_backend.Models.Enums.ReservationStatus
use oorvashee_backend.Models.Enums.ReservationStatus.{ReservationStatus}
use oorvashee_backend.Models.Stock.{Stock}
use oorvashee_backend.Models.Checkout.{Reservation}
use oorvashee_backend.Models.Order.{Order}
use oorvashee_backend.Exceptions.{ok}
use oorvashee_backend.Exceptions.Loops.{Ends, Ends-then}
use oorvashee_backend.Database.{Db}
use oorvashee_backend.InventoryService.{commit_sale}
use oorvashee_backend.InventoryService.Ledger.{stock_of}
use oorvashee_backend.InventoryService.Sale.{demand, commit_sale-Sells}
use oorvashee_backend.ReservationRepository.{active_reserved_for_variant}
use oorvashee_backend.ReservationRepository.Holds.{held, held_by_others, own, held-split}
use oorvashee_backend.ReservationLifecycleService.{
  requirements_of, set_reservation, set_session, transition_session, complete_sale,
}
use oorvashee_backend.CheckoutSessionService.Upsert.{map-IsUnique}
use oorvashee_backend.Soundness.{IsSound, map-IsSynced, expiry_of-map}

-- Once a session's reservations hold nothing, what is held is what the others hold.
held-set_reservation :
    (now id v : ℕ) (to : ReservationStatus) (rows : List Reservation)
    → ReservationStatus.holds_stock to ≡ false
    → held now v (map (set_reservation id to) rows) ≡ held_by_others now id v rows
unfolding active_reserved_for_variant
held-set_reservation now id v to [] h = refl
held-set_reservation now id v to (r ∷ rows) h =
    ground (arith, held-set_reservation now id v to rows h)

-- The session holds what the order asks for.
abbrev pub IsHeldFor : ℕ → Order → ℕ → List Reservation → Type 0
IsHeldFor now order session_id rows =
    (v : ℕ) → demand v (requirements_of order) ≤ own now session_id v rows

module _ (now session_id : ℕ) (order : Order) (db : Db) (h : IsSound now db)
    (linked : order.checkout_session_id ≡ some session_id)
    (hold : IsHeldFor now order session_id db.reservations) where
  sold-IsCovered :
      (stock : Stock)
      → commit_sale order.id (requirements_of order) db.stock ≡ ok stock
      → (v : ℕ)
      → pos (
          held now v (map (set_reservation session_id ReservationStatus.completed) db.reservations))
        ≤ℤ stock_of v stock
  sold-IsCovered stock e v = omega (
    arith,
    held-set_reservation now session_id v ReservationStatus.completed db.reservations refl,
    held-split now session_id v db.reservations,
    hold v,
    h.covered v,
    +ℤ_parts (stock_of v stock) (pos (demand v (requirements_of order))),
    ap pos_part (commit_sale-Sells order.id (requirements_of order) db.stock stock e v).0,
    ap neg_part (commit_sale-Sells order.id (requirements_of order) db.stock stock e v).0,
  )

  completed-IsSound :
      (stock : Stock)
      → commit_sale order.id (requirements_of order) db.stock ≡ ok stock
      → IsSound now (
          transition_session session_id CheckoutSessionStatus.completed ReservationStatus.completed
            (record db { stock = stock }))
  unfolding transition_session
  completed-IsSound stock e = record {
    covered = sold-IsCovered stock e;
    unique =
        map-IsUnique (set_reservation session_id ReservationStatus.completed) (λ r. ground arith)
          db.reservations h.unique;
    synced =
        map-IsSynced (set_reservation session_id ReservationStatus.completed) (λ r e. ground arith)
          db.sessions _
          (expiry_of-map (set_session session_id CheckoutSessionStatus.completed)
            (λ s. ground arith) db.sessions)
          db.reservations h.synced;
  }

  -- The sale of an order whose session still holds its items keeps the invariant, or raises.
  pub complete_sale-IsSound : Ends (IsSound now) (λ _. Unit {0}) (complete_sale order db)
  unfolding complete_sale
  complete_sale-IsSound =
      Ends-then (IsSound now) (λ _. Unit {0})
        (commit_sale order.id (requirements_of order) db.stock) _ (λ _ _. tt)
        (λ stock e. rw linked (completed-IsSound stock e))
