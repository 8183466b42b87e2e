-- ===== src/Soundness/Cancellation.antt =====
-- A cancellation by the administration (`cancel_order` of app/services/admin_order_service.py) and a
-- failed payment (`cancel_for_order` of app/services/reservation_lifecycle.py), against the invariant.
use oorvashee_backend.Prelude.{
  ℕ, ◌≡◌, refl, ◌&&◌, Option, some, List, [], ◌∷◌, inl, inr, arith, Option-cases,
}
use oorvashee_backend.Prelude.Int.{pos, ◌+ℤ◌, ◌≤ℤ◌}
use oorvashee_backend.Models.Enums.{StockMovementReason}
use oorvashee_backend.Models.Enums.OrderStatus
use oorvashee_backend.Models.Enums.CheckoutSessionStatus.{CheckoutSessionStatus}
use oorvashee_backend.Models.Enums.ReservationStatus.{ReservationStatus}
use oorvashee_backend.Models.Stock.{Inventory, Stock}
use oorvashee_backend.Models.Order.{Order}
use oorvashee_backend.Exceptions.{ok, ◌>>=◌}
use oorvashee_backend.Exceptions.Loops.{Ends, Ends-then, Ends-guard, Ends-of_ok}
use oorvashee_backend.Database.{Db}
use oorvashee_backend.InventoryService.{inventory_of, stock_at, restock}
use oorvashee_backend.InventoryService.Sale.{demand}
use oorvashee_backend.InventoryService.Shelves.{stock_column, plus, Adds}
use oorvashee_backend.InventoryService.Returns.{restock-Adds}
use oorvashee_backend.InventoryService.Availability.{recompute_product_availability, recompute-same}
use oorvashee_backend.ReservationRepository.Holds.{held}
use oorvashee_backend.ReservationLifecycleService.{requirements_of, cancel_for_order}
use oorvashee_backend.OrderRepository.Evolution.{with_order-Ends, cond-Ends}
use oorvashee_backend.AdminOrderService.{save}
use oorvashee_backend.AdminOrderService.Actions.{
  give_back, stock_was_decremented, has_items, recompute_all, product_ids, call_off, cancel_order,
}
use oorvashee_backend.Soundness.{IsSound}
use oorvashee_backend.Soundness.Sweeps.{transition_session-IsSound}

gain-stock :
    (n : ℕ) (before after : Option Inventory) (h : ℕ)
    → stock_column after ≡ plus n (stock_column before)
    → pos h ≤ℤ stock_at before
    → pos h ≤ℤ stock_at after
unfolding ◌+ℤ◌
gain-stock n before after h e le = ground (arith, e)

-- More stock, and all else the same.
stocked-IsSound :
    (now : ℕ) (db : Db) (stock : Stock) (gain : ℕ → ℕ)
    → Adds gain db.stock stock
    → IsSound now db
    → IsSound now (record db { stock = stock })
stocked-IsSound now db stock gain adds h = record {
  covered = λ v.
      gain-stock (gain v) (inventory_of v db.stock.inventory) (inventory_of v stock.inventory)
        (held now v db.reservations) (adds v) (h.covered v);
  unique = h.unique;
  synced = h.synced;
}

-- A failed payment lets its reservations go.
pub cancel_for_order-IsSound :
    (now : ℕ) (order : Order) (db : Db) → IsSound now db → IsSound now (cancel_for_order order db)
unfolding cancel_for_order
cancel_for_order-IsSound now order db h = elim (Option-cases order.checkout_session_id) [
  | inl e ↦ rw e h
  | inr (id, e) ↦ rw e (
      transition_session-IsSound now id CheckoutSessionStatus.cancelled ReservationStatus.cancelled
        db refl h)
]

give_back-IsSound :
    (now actor : ℕ) (order : Order) (db : Db)
    → IsSound now db
    → Ends (IsSound now) (λ _. Unit {0}) (give_back actor order db)
unfolding give_back
give_back-IsSound now actor order db h =
    cond-Ends (IsSound now) (stock_was_decremented order && has_items order.items)
      (restock order.id (some actor) StockMovementReason.order_cancelled (requirements_of order)
          db.stock
        >>= λ stock. ok (record db { stock = stock }))
      (ok (cancel_for_order order db))
      (λ _.
        Ends-then (IsSound now) (λ _. Unit {0})
          (restock order.id (some actor) StockMovementReason.order_cancelled (requirements_of order)
            db.stock)
          _ (λ _ _. tt)
          λ stock e.
            stocked-IsSound now db stock (λ v. demand v (requirements_of order))
              (Ends-of_ok (λ t. Adds (λ v. demand v (requirements_of order)) db.stock t)
                (λ _. Unit {0}) _ stock
                (restock-Adds order.id (some actor) StockMovementReason.order_cancelled
                  (requirements_of order) db.stock)
                e)
              h)
      (λ _. cancel_for_order-IsSound now order db h)

-- The invariant reads the stock, the reservations and the sessions.
pub same-IsSound :
    (now : ℕ) (db db' : Db)
    → (db'.stock ≡ db.stock) × (db'.reservations ≡ db.reservations) × (db'.sessions ≡ db.sessions)
    → IsSound now db
    → IsSound now db'
same-IsSound now db db' (stock, reservations, sessions) h = record {
  covered = rw (stock, reservations) h.covered;
  unique = rw reservations h.unique;
  synced = rw (reservations, sessions) h.synced;
}

recompute_all-IsSound :
    (now actor : ℕ) (ids : List ℕ) (db : Db)
    → IsSound now db
    → IsSound now (recompute_all actor ids db)
unfolding recompute_all
recompute_all-IsSound now actor [] db h = h
recompute_all-IsSound now actor (id ∷ ids) db h =
    recompute_all-IsSound now actor ids (recompute_product_availability (some actor) id db).1
      (same-IsSound now db _ (recompute-same (some actor) id db) h)

call_off-IsSound :
    (now t actor : ℕ) (order : Order) (db : Db)
    → IsSound now db
    → Ends (IsSound now) (λ _. Unit {0}) (call_off t actor order db)
unfolding call_off save
call_off-IsSound now t actor order db h =
    Ends-guard (IsSound now) (λ _. Unit {0}) _ _ (λ _ _. tt)
      (Ends-then (IsSound now) (λ _. Unit {0}) (give_back actor order db) _ (λ _ _. tt)
        λ db' e. recompute_all-IsSound now actor (product_ids order.items) _ (
          same-IsSound now db' _ (refl, refl, refl)
            (Ends-of_ok (IsSound now) (λ _. Unit {0}) _ db' (give_back-IsSound now actor order db h)
              e)))

-- A cancellation by the administration keeps the invariant, whatever the order and its payment, or
-- raises.
pub cancel_order-IsSound :
    (now t actor id : ℕ) (db : Db)
    → IsSound now db
    → Ends (IsSound now) (λ _. Unit {0}) (cancel_order t actor id db)
unfolding cancel_order
cancel_order-IsSound now t actor id db h = with_order-Ends (IsSound now) id db.orders _ λ order _.
    cond-Ends (IsSound now) (OrderStatus.is order.status OrderStatus.cancelled) (ok db)
      (call_off t actor order db) (λ _. h) (λ _. call_off-IsSound now t actor order db h)
