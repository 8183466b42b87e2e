-- ===== src/InventoryService/Sale.antt =====
-- A confirmed sale (`commit_sale` of app/services/inventory_service.py), and what it takes from the stock.
use oorvashee_backend.Prelude.{
  ℕ, ◌+◌, ◌≡◌, sym, ◌∙◌, inl, inr, Option, none, some, List, [], ◌∷◌, ◌==◌, if◌then◌else◌, arith,
  eq_or_ne,
}
use oorvashee_backend.Prelude.Int.{ℤ, pos, ◌+ℤ◌, ◌-ℤ◌, int_laws}
use oorvashee_backend.Models.Stock.{Inventory, StockMovement, Stock}
use oorvashee_backend.Exceptions.{AppError, Result, ok, ◌>>=◌, ◌>>◌}
use oorvashee_backend.Exceptions.Loops.{
  for_each, Ends, Ends-or_raise, Ends-guard, Ends-then, Ends-bind, Ends-weaken, Ends-of_ok,
}
use oorvashee_backend.InventoryService.{
  StockRequirement, inventory_of, write, check_rows, flush, sell_row, commit_line, commit_sale,
}
use oorvashee_backend.InventoryService.Rows.{
  inventory_of-variant_id, inventory_of-put_self, inventory_of-put_ne,
}
use oorvashee_backend.InventoryService.Ledger.{stock_of}

abbrev sold_at : Option Inventory → ℕ
sold_at none = 0
sold_at (some r) = r.sold_quantity

abbrev pub sold_of : ℕ → Stock → ℕ
sold_of v s = sold_at (inventory_of v s.inventory)

-- How much of a variant the requirements ask for in all, a variant listed twice included.
abbrev pub demand : ℕ → List StockRequirement → ℕ
demand v [] = 0
demand v (r ∷ reqs) = (if r.variant_id == v then r.quantity else 0) + demand v reqs

-- From `s` to `s'` the demand of every variant went from its stock to its units sold.
abbrev pub Sells : List StockRequirement → Stock → Stock → Type 0
Sells reqs s s' =
    (v : ℕ)
    → (stock_of v s' +ℤ pos (demand v reqs) ≡ stock_of v s)
      × (sold_of v s' ≡ sold_of v s + demand v reqs)

abbrev Anything : AppError → Type 0
Anything _ = Unit

write-Sells :
    (order : ℕ) (req : StockRequirement) (s : Stock) (inv : Inventory) (m : StockMovement)
    → inventory_of req.variant_id s.inventory ≡ some inv
    → inv.variant_id ≡ req.variant_id
    → (v : ℕ)
    → let s' = write (sell_row inv req.quantity) m s in
      (stock_of v s' +ℤ pos (if req.variant_id == v then req.quantity else 0) ≡ stock_of v s)
      × (sold_of v s' ≡ sold_of v s + (if req.variant_id == v then req.quantity else 0))
unfolding write ◌+ℤ◌ ◌-ℤ◌
write-Sells order req s inv m e p v = elim (eq_or_ne req.variant_id v) [
  | inl eq ↦
      rw (inventory_of-put_self v (sell_row inv req.quantity) s.inventory (p ∙ eq) (λ n. cc))
        (ground arith)
  | inr ne ↦
      rw (inventory_of-put_ne v (sell_row inv req.quantity) s.inventory (λ n. ne (sym p ∙ n)))
        (ground arith)
]

regroup : (u t s : ℤ) (x d : ℕ) → t +ℤ pos x ≡ s → u +ℤ pos d ≡ t → u +ℤ pos (x + d) ≡ s
regroup u t s x d p q = rw (← p, ← q) (omega int_laws)

module _ (order : ℕ) where
  -- One line sells its own quantity.
  abbrev SellsLine : StockRequirement → Stock → Stock → Type 0
  SellsLine req s s' =
      (v : ℕ)
      → (stock_of v s' +ℤ pos (if req.variant_id == v then req.quantity else 0) ≡ stock_of v s)
        × (sold_of v s' ≡ sold_of v s + (if req.variant_id == v then req.quantity else 0))

  guarded_sale :
      (g : Result (Unit {0})) (req : StockRequirement) (s : Stock) (inv : Inventory)
      (m : StockMovement)
      → inventory_of req.variant_id s.inventory ≡ some inv
      → Ends (SellsLine req s) Anything (g >> ok (write (sell_row inv req.quantity) m s))
  guarded_sale g req s inv m e =
      Ends-guard (SellsLine req s) Anything g (ok (write (sell_row inv req.quantity) m s))
        (λ _ _. tt)
        (write-Sells order req s inv m e (inventory_of-variant_id req.variant_id s.inventory inv e))

  commit_line-SellsLine :
      (req : StockRequirement) (s : Stock)
      → Ends (SellsLine req s) Anything (commit_line order req s)
  unfolding commit_line
  commit_line-SellsLine req s =
      Ends-or_raise (SellsLine req s) Anything (inventory_of req.variant_id s.inventory)
        AppError.out_of_stock _ (λ _. tt) (λ inv e. guarded_sale _ req s inv _ e)

  Sells-trans :
      (req : StockRequirement) (reqs : List StockRequirement) (s t u : Stock)
      → SellsLine req s t
      → Sells reqs t u
      → Sells (req ∷ reqs) s u
  Sells-trans req reqs s t u h k v = (
    regroup (stock_of v u) (stock_of v t) (stock_of v s)
        (if req.variant_id == v then req.quantity else 0) (demand v reqs) (h v).0 (k v).0,
    omega (arith, (h v).1, (k v).1),
  )

  loop-Sells :
      (reqs : List StockRequirement) (s : Stock)
      → Ends (Sells reqs s) Anything (for_each (commit_line order) reqs s)
  unfolding for_each
  loop-Sells [] s = λ v. (omega int_laws, omega arith)
  loop-Sells (req ∷ reqs) s =
      Ends-then (Sells (req ∷ reqs) s) Anything (commit_line order req s)
        (for_each (commit_line order) reqs) (λ _ _. tt)
        λ t e.
          Ends-weaken (Sells reqs t) (Sells (req ∷ reqs) s) Anything
            (for_each (commit_line order) reqs t)
            (λ u. Sells-trans req reqs s t u (
              Ends-of_ok (SellsLine req s) Anything (commit_line order req s) t
                (commit_line-SellsLine req s) e))
            (loop-Sells reqs t)

  flush-Sells :
      (reqs : List StockRequirement) (s t : Stock)
      → Sells reqs s t
      → Ends (Sells reqs s) Anything (flush t)
  unfolding flush
  flush-Sells reqs s t h =
      Ends-guard (Sells reqs s) Anything (check_rows t.inventory) (ok t) (λ _ _. tt) h

  -- When a sale of some requirements goes through, the stock of every variant has fallen by exactly
  -- what they ask of it in all, and its `sold_quantity` has risen by the same number.
  pub commit_sale-Sells :
      (reqs : List StockRequirement) (s s' : Stock)
      → commit_sale order reqs s ≡ ok s'
      → Sells reqs s s'
  unfolding commit_sale
  commit_sale-Sells reqs s s' =
      Ends-of_ok (Sells reqs s) Anything (for_each (commit_line order) reqs s >>= flush) s' (
        Ends-bind (Sells reqs s) Anything (for_each (commit_line order) reqs s) flush
          (loop-Sells reqs s) (flush-Sells reqs s))
