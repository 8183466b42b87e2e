-- ===== src/InventoryService/Returns.antt =====
-- `restock` of app/services/inventory_service.py after `decrement`.
use oorvashee_backend.Prelude.{
  ℕ, ◌≡◌, sym, ap, ◌∙◌, inl, inr, Option, some, List, [], ◌∷◌, Option-cases,
}
use oorvashee_backend.Prelude.Int.{pos}
use oorvashee_backend.Models.Enums.{StockMovementReason}
use oorvashee_backend.Models.Stock.{Stock}
use oorvashee_backend.Exceptions.{AppError, ok}
use oorvashee_backend.Exceptions.Loops.{
  for_each, Ends, Ends-or_raise, Ends-guard, Ends-then, Ends-bind, Ends-weaken, Ends-of_ok,
}
use oorvashee_backend.InventoryService.{
  StockRequirement, inventory_of, check_rows, flush, ensure_available, decrement_line, decrement,
  restock_line, restock, movement, minus,
}
use oorvashee_backend.InventoryService.Sale.{demand}
use oorvashee_backend.InventoryService.Shelves.{
  shelf_of, plus, plus-zero, plus-plus, plus-swap, line_demand, Adds, missing-Adds, taken-Adds,
  returned-Adds,
}

module _ (order : ℕ) (actor : Option ℕ) (reason : StockMovementReason) where
  decrement_line-Adds :
      (req : StockRequirement) (s : Stock)
      → Ends
          (λ t. Adds (λ v. line_demand v req) t s)
          (λ _. Unit {0})
          (decrement_line order actor reason req s)
  unfolding decrement_line
  decrement_line-Adds req s =
      Ends-or_raise (λ t. Adds (λ v. line_demand v req) t s) (λ _. Unit {0})
        (inventory_of req.variant_id s.inventory) AppError.out_of_stock _ (λ _. tt)
        λ inv e.
          Ends-guard (λ t. Adds (λ v. line_demand v req) t s) (λ _. Unit {0})
            (ensure_available inv req.quantity) _ (λ _ _. tt)
            (taken-Adds req s inv
              (movement req.variant_id (minus req.quantity) reason (some order) actor) e)

  restock_line-Adds :
      (req : StockRequirement) (s : Stock)
      → Ends
          (λ t. Adds (λ v. line_demand v req) s t)
          (λ _. Unit {0})
          (restock_line order actor reason req s)
  unfolding restock_line
  restock_line-Adds req s = elim (Option-cases (inventory_of req.variant_id s.inventory)) [
    | inl e ↦ rw e (missing-Adds req s e)
    | inr (inv, e) ↦ rw e (
        returned-Adds req s inv
          (movement req.variant_id (pos req.quantity) reason (some order) actor) e)
  ]

  decrement_loop-Adds :
      (reqs : List StockRequirement) (s : Stock)
      → Ends
          (λ t. Adds (λ v. demand v reqs) t s)
          (λ _. Unit {0})
          (for_each (decrement_line order actor reason) reqs s)
  unfolding for_each
  decrement_loop-Adds [] s = λ v. plus-zero (shelf_of v s)
  decrement_loop-Adds (req ∷ reqs) s =
      Ends-then (λ u. Adds (λ v. demand v (req ∷ reqs)) u s) (λ _. Unit {0})
        (decrement_line order actor reason req s)
        (for_each (decrement_line order actor reason) reqs) (λ _ _. tt)
        λ t e.
          Ends-weaken (λ u. Adds (λ v. demand v reqs) u t)
            (λ u. Adds (λ v. demand v (req ∷ reqs)) u s) (λ _. Unit {0})
            (for_each (decrement_line order actor reason) reqs t)
            (λ u rest v.
              Ends-of_ok (λ t. Adds (λ v. line_demand v req) t s) (λ _. Unit {0}) _ t
                (decrement_line-Adds req s) e v
              ∙ ap (plus (line_demand v req)) (rest v)
              ∙ plus-plus (line_demand v req) (demand v reqs) (shelf_of v u))
            (decrement_loop-Adds reqs t)

  restock_loop-Adds :
      (reqs : List StockRequirement) (s : Stock)
      → Ends
          (λ t. Adds (λ v. demand v reqs) s t)
          (λ _. Unit {0})
          (for_each (restock_line order actor reason) reqs s)
  unfolding for_each
  restock_loop-Adds [] s = λ v. plus-zero (shelf_of v s)
  restock_loop-Adds (req ∷ reqs) s =
      Ends-then (λ u. Adds (λ v. demand v (req ∷ reqs)) s u) (λ _. Unit {0})
        (restock_line order actor reason req s) (for_each (restock_line order actor reason) reqs)
        (λ _ _. tt)
        λ t e.
          Ends-weaken (λ u. Adds (λ v. demand v reqs) t u)
            (λ u. Adds (λ v. demand v (req ∷ reqs)) s u) (λ _. Unit {0})
            (for_each (restock_line order actor reason) reqs t)
            (λ u rest v.
              rest v
              ∙ ap (plus (demand v reqs)) (
                  Ends-of_ok (λ t. Adds (λ v. line_demand v req) s t) (λ _. Unit {0}) _ t
                    (restock_line-Adds req s) e v)
              ∙ plus-swap (demand v reqs) (line_demand v req) (shelf_of v s))
            (restock_loop-Adds reqs t)

flush-same : (P : Stock → Type 0) (s : Stock) → P s → Ends P (λ _. Unit {0}) (flush s)
unfolding flush
flush-same P s h = Ends-guard P (λ _. Unit {0}) (check_rows s.inventory) (ok s) (λ _ _. tt) h

module _ (order : ℕ) (actor : Option ℕ) (reason : StockMovementReason)
    (reqs : List StockRequirement) (s : Stock) where
  pub decrement-Adds :
      Ends
        (λ t. Adds (λ v. demand v reqs) t s)
        (λ _. Unit {0})
        (decrement order actor reason reqs s)
  unfolding decrement
  decrement-Adds =
      Ends-bind (λ t. Adds (λ v. demand v reqs) t s) (λ _. Unit {0}) _ flush
        (decrement_loop-Adds order actor reason reqs s)
        (flush-same (λ t. Adds (λ v. demand v reqs) t s))

  pub restock-Adds :
      Ends (λ t. Adds (λ v. demand v reqs) s t) (λ _. Unit {0}) (restock order actor reason reqs s)
  unfolding restock
  restock-Adds =
      Ends-bind (λ t. Adds (λ v. demand v reqs) s t) (λ _. Unit {0}) _ flush
        (restock_loop-Adds order actor reason reqs s)
        (flush-same (λ t. Adds (λ v. demand v reqs) s t))

-- What a decrement takes, a restock of the same requirements gives back: after both, whoever asked and
-- for whatever reason, every variant stands at the stock it started from.
pub restock-decrement :
    (order later : ℕ) (actor actor' : Option ℕ) (reason reason' : StockMovementReason)
    (reqs : List StockRequirement) (s t u : Stock)
    → decrement order actor reason reqs s ≡ ok t
    → restock later actor' reason' reqs t ≡ ok u
    → (v : ℕ) → shelf_of v u ≡ shelf_of v s
restock-decrement order later actor actor' reason reason' reqs s t u taken returned v =
    Ends-of_ok (λ u. Adds (λ v. demand v reqs) t u) (λ _. Unit {0}) _ u
      (restock-Adds later actor' reason' reqs t) returned v
    ∙ sym (
        Ends-of_ok (λ t. Adds (λ v. demand v reqs) t s) (λ _. Unit {0}) _ t
          (decrement-Adds order actor reason reqs s) taken v)
