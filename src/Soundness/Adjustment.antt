-- ===== src/Soundness/Adjustment.antt =====
-- An adjustment of the stock by the administration (`adjust` of app/services/admin_inventory_service.py)
-- against the invariant.
use mathlib.Core.Path.{subst}
use oorvashee_backend.Prelude.{ℕ, inl, inr, eq_or_ne, sym}
use oorvashee_backend.Prelude.Int.{pos, ◌≤ℤ◌}
use oorvashee_backend.Exceptions.Loops.{Ends, Ends-any}
use oorvashee_backend.Database.{Db}
use oorvashee_backend.InventoryService.{flush}
use oorvashee_backend.InventoryService.Ledger.{stock_of}
use oorvashee_backend.ReservationRepository.Holds.{held}
use oorvashee_backend.AdminInventoryService.{StockAdjustmentRequest, adjust}
use oorvashee_backend.AdminInventoryService.Adjusts.{
  Passes, written, adjust-Ends, stock-written, other-written,
}
use oorvashee_backend.Soundness.{IsSound}
use oorvashee_backend.Soundness.Cancellation.{same-IsSound}

module _ (now v : ℕ) (body : StockAdjustmentRequest) (actor : ℕ) (db : Db) where
  -- An adjustment by the administration keeps the invariant: it takes no stock below what the active
  -- reservations hold; or it raises.
  pub adjust-IsSound :
      IsSound now db → Ends (λ r. IsSound now r.1) (λ _. Unit {0}) (adjust now v body actor db)
  adjust-IsSound h =
      adjust-Ends now v body actor db (λ r. IsSound now r.1) (λ _. Unit {0}) (λ _ _. tt)
        (λ inv p. Ends-any (flush (written now v body actor db inv)))
        λ inv r db' p q. elim q.stock [
          | inl e ↦
              same-IsSound now (record db { stock = written now v body actor db inv }) db'
                (e, q.reservations, q.sessions)
                (record { covered = covered inv p; unique = h.unique; synced = h.synced })
          | inr (e, _) ↦ same-IsSound now db db' (e, q.reservations, q.sessions) h
        ]
    where
      covered :
          (inv : _)
          → Passes now v body actor db inv
          → (w : ℕ)
          → pos (held now w db.reservations) ≤ℤ stock_of w (written now v body actor db inv)
      covered inv p w = elim (eq_or_ne v w) [
        | inl eq ↦
            subst
              (λ x.
                pos (held now x db.reservations) ≤ℤ stock_of x (written now v body actor db inv))
              eq
              (subst (λ t. pos (held now v db.reservations) ≤ℤ t)
                (sym (stock-written now v body actor db inv p)) p.held)
        | inr ne ↦
            subst (λ t. pos (held now w db.reservations) ≤ℤ t)
              (sym (other-written now v body actor db inv p w ne)) (h.covered w)
      ]
