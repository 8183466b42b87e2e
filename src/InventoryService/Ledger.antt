-- ===== src/InventoryService/Ledger.antt =====
-- The stock_movements table against `inventory.stock`, under the operations of
-- app/services/inventory_service.py.
use oorvashee_backend.Prelude.{
  ℕ, ◌≡◌, refl, sym, ◌∙◌, inl, inr, Option, none, some, List, [], ◌∷◌, ◌==◌, if◌then◌else◌, arith,
  Option-cases, eq_or_ne,
}
use oorvashee_backend.Prelude.Int.{ℤ, pos, ◌+ℤ◌, ◌-ℤ◌, int_laws}
use oorvashee_backend.Models.Enums.{StockMovementReason}
use oorvashee_backend.Models.Stock.{Inventory, StockMovement, Stock}
use oorvashee_backend.Exceptions.{AppError, Result, ok, or_raise, ◌>>=◌, ◌>>◌}
use oorvashee_backend.Exceptions.Loops.{
  for_each, Ends, Ends-bind, Ends-or_raise, Ends-guard, for_each-Ends,
}
use oorvashee_backend.InventoryService.{
  StockRequirement, inventory_of, stock_at, write, check_rows, flush, movement, minus, reserve_line,
  reserve, decrement_line, decrement, restock_line, restock, release_line, release_reservation,
  consume_line, consume_row, consume_reservation, commit_line, commit_sale,
}
use oorvashee_backend.InventoryService.Rows.{
  inventory_of-variant_id, inventory_of-put_self, inventory_of-put_ne,
}

-- The stock of a variant, 0 if it has no row.
abbrev pub stock_of : ℕ → Stock → ℤ
stock_of v s = stock_at (inventory_of v s.inventory)

abbrev pub delta_sum : ℕ → List StockMovement → ℤ
delta_sum v [] = pos 0
delta_sum v (m ∷ ms) = if m.variant_id == v then delta_sum v ms +ℤ m.delta else delta_sum v ms

-- The books balance over an opening stock.
abbrev pub IsBalanced : (ℕ → ℤ) → Stock → Type 0
IsBalanced opening s = (v : ℕ) → stock_of v s ≡ opening v +ℤ delta_sum v s.movements

add_last : (r i d o t : ℤ) → r ≡ i +ℤ d → i ≡ o +ℤ t → r ≡ o +ℤ (t +ℤ d)
add_last r i d o t p q = rw p (rw q (omega int_laws))

-- Consuming a reservation takes the whole quantity from the stock, however short the counter is.
pub stock-consume_row :
    (inv : Inventory) (q : ℕ) → (consume_row inv q).stock ≡ inv.stock +ℤ (pos 0 -ℤ pos q)
unfolding ◌+ℤ◌ ◌-ℤ◌
stock-consume_row inv q = ground arith

module _ (opening : ℕ → ℤ) where
  pub write-IsBalanced :
      (inv r : Inventory) (m : StockMovement) (s : Stock)
      → inventory_of r.variant_id s.inventory ≡ some inv
      → m.variant_id ≡ r.variant_id
      → r.stock ≡ inv.stock +ℤ m.delta
      → IsBalanced opening s
      → IsBalanced opening (write r m s)
  unfolding write
  write-IsBalanced inv r m s e same moved h v = elim (eq_or_ne r.variant_id v) [
    | inl eq ↦ rw (inventory_of-put_self v r s.inventory eq (λ n. cc)) (
        ground (
          arith,
          h v,
          add_last r.stock inv.stock m.delta (opening v) (delta_sum v s.movements) moved,
        ))
    | inr ne ↦ rw (inventory_of-put_ne v r s.inventory ne) (ground (arith, h v))
  ]

  abbrev pub Balances : Result Stock → Type 0
  Balances = Ends (IsBalanced opening) (λ _. Unit {0})

  module _ (req : StockRequirement) (s : Stock) (h : IsBalanced opening s) where
    Balances-if_found :
        (f : Inventory → Result Stock)
        → ((inv : Inventory)
            → inventory_of req.variant_id s.inventory ≡ some inv
            → inv.variant_id ≡ req.variant_id
            → Balances (f inv))
        → Balances (or_raise (inventory_of req.variant_id s.inventory) AppError.out_of_stock >>= f)
    Balances-if_found f k =
        Ends-or_raise (IsBalanced opening) (λ _. Unit {0}) (inventory_of req.variant_id s.inventory)
          AppError.out_of_stock f (λ _. tt)
          (λ inv e. k inv e (inventory_of-variant_id req.variant_id s.inventory inv e))

    -- Assigning to the row that was found.
    found-IsBalanced :
        (inv r : Inventory) (m : StockMovement)
        → inventory_of req.variant_id s.inventory ≡ some inv
        → r.variant_id ≡ req.variant_id
        → m.variant_id ≡ req.variant_id
        → r.stock ≡ inv.stock +ℤ m.delta
        → IsBalanced opening (write r m s)
    found-IsBalanced inv r m e p q d = write-IsBalanced inv r m s (rw p e) (q ∙ sym p) d h

    guarded_write :
        (g : Result (Unit {0})) (inv r : Inventory) (m : StockMovement)
        → inventory_of req.variant_id s.inventory ≡ some inv
        → r.variant_id ≡ req.variant_id
        → m.variant_id ≡ req.variant_id
        → r.stock ≡ inv.stock +ℤ m.delta
        → Balances (g >> ok (write r m s))
    guarded_write g inv r m e p q d =
        Ends-guard (IsBalanced opening) (λ _. Unit {0}) g (ok (write r m s)) (λ _ _. tt)
          (found-IsBalanced inv r m e p q d)

    module _ (order : ℕ) where
      reserve_line-Balances : (actor : Option ℕ) → Balances (reserve_line order actor req s)
      unfolding reserve_line
      reserve_line-Balances actor =
          Balances-if_found _ λ inv e p. guarded_write _ inv _ _ e p refl (omega int_laws)

      decrement_line-Balances :
          (actor : Option ℕ) (reason : StockMovementReason)
          → Balances (decrement_line order actor reason req s)
      unfolding decrement_line
      decrement_line-Balances actor reason =
          Balances-if_found _ λ inv e p. guarded_write _ inv _ _ e p refl (omega int_laws)

      restock_line-Balances :
          (actor : Option ℕ) (reason : StockMovementReason)
          → Balances (restock_line order actor reason req s)
      unfolding restock_line
      restock_line-Balances actor reason =
          elim (Option-cases (inventory_of req.variant_id s.inventory)) [
            | inl e ↦ rw e h
            | inr (inv, e) ↦ rw e (
                found-IsBalanced inv _
                  (movement req.variant_id (pos req.quantity) reason (some order) actor) e
                  (inventory_of-variant_id _ s.inventory inv e) refl refl)
          ]

      release_line-Balances :
          (reason : StockMovementReason) → Balances (release_line order reason req s)
      unfolding release_line
      release_line-Balances reason = elim (Option-cases (inventory_of req.variant_id s.inventory)) [
        | inl e ↦ rw e h
        | inr (inv, e) ↦ rw e (
            found-IsBalanced inv _ (movement req.variant_id (pos 0) reason (some order) none) e
              (inventory_of-variant_id _ s.inventory inv e) refl (omega int_laws))
      ]

      commit_line-Balances : Balances (commit_line order req s)
      unfolding commit_line
      commit_line-Balances =
          Balances-if_found _ λ inv e p. guarded_write _ inv _ _ e p refl (omega int_laws)

      consume_line-Balances : Balances (consume_line order req s)
      unfolding consume_line
      consume_line-Balances = Balances-if_found _ λ inv e p.
          found-IsBalanced inv _
            (movement req.variant_id (minus req.quantity) StockMovementReason.order_placed
              (some order) none)
            e p refl (stock-consume_row inv req.quantity)

  flush-Balances : (s : Stock) → IsBalanced opening s → Balances (flush s)
  unfolding flush
  flush-Balances s h =
      Ends-guard (IsBalanced opening) (λ _. Unit {0}) (check_rows s.inventory) (ok s) (λ _ _. tt) h

  loop-Balances :
      (body : StockRequirement → Stock → Result Stock)
      → ((req : StockRequirement) (s : Stock) → IsBalanced opening s → Balances (body req s))
      → (reqs : List StockRequirement) (s : Stock) → IsBalanced opening s
      → Balances (for_each body reqs s >>= flush)
  loop-Balances body step reqs s h =
      Ends-bind (IsBalanced opening) (λ _. Unit {0}) (for_each body reqs s) flush
        (for_each-Ends (IsBalanced opening) (λ _. Unit {0}) body step reqs s h) flush-Balances

  -- Each of the six operations that write stock, on any requirements, ends with a table in which the
  -- stock of every variant is its opening stock plus the deltas of its movements, if it began with
  -- one; or it raises.
  pub stock_operations-Balances :
      (order : ℕ) (actor : Option ℕ) (reason : StockMovementReason) (reqs : List StockRequirement)
      (s : Stock)
      → IsBalanced opening s
      → Balances (reserve order actor reqs s)
        × Balances (release_reservation order reason reqs s)
        × Balances (consume_reservation order reqs s)
        × Balances (commit_sale order reqs s)
        × Balances (decrement order actor reason reqs s)
        × Balances (restock order actor reason reqs s)
  unfolding reserve release_reservation consume_reservation commit_sale decrement restock
  stock_operations-Balances order actor reason reqs s h = (
    loop-Balances (reserve_line order actor) (λ q t b. reserve_line-Balances q t b order actor) reqs
        s h,
    loop-Balances (release_line order reason) (λ q t b. release_line-Balances q t b order reason)
        reqs s h,
    loop-Balances (consume_line order) (λ q t b. consume_line-Balances q t b order) reqs s h,
    loop-Balances (commit_line order) (λ q t b. commit_line-Balances q t b order) reqs s h,
    loop-Balances (decrement_line order actor reason)
        (λ q t b. decrement_line-Balances q t b order actor reason) reqs s h,
    loop-Balances (restock_line order actor reason)
        (λ q t b. restock_line-Balances q t b order actor reason) reqs s h,
  )
