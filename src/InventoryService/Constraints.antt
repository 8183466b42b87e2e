-- ===== src/InventoryService/Constraints.antt =====
-- The CHECK constraints of the inventory table (app/models/inventory.py) under the operations of
-- app/services/inventory_service.py.
use oorvashee_backend.Prelude.{
  ℕ, ◌≡◌, ◌≢◌, inl, inr, Option, some, List, [], ◌∷◌, arith, All, Option-cases,
}
use oorvashee_backend.Prelude.Int.{pos, ◌+ℤ◌, ◌-ℤ◌, ◌≤ℤ◌, max_ℤ}
use oorvashee_backend.Models.Enums.{StockMovementReason}
use oorvashee_backend.Models.Stock.{Inventory, StockMovement, Stock}
use oorvashee_backend.Exceptions.{AppError, Result, ok, or_raise, ◌>>=◌}
use oorvashee_backend.Exceptions.Loops.{for_each, Ends, Ends-bind, Ends-or_raise, for_each-Ends}
use oorvashee_backend.InventoryService.{
  StockRequirement, inventory_of, put_inventory, check_row, check_rows, flush, write,
  ensure_available, reserve_line, reserve, decrement_line, decrement, restock_line, restock,
  release_line, release_reservation, commit_line, commit_sale, sell_row,
}

abbrev pub IsValidRow : Inventory → Type 0
IsValidRow r = (pos 0 ≤ℤ r.reserved) × (r.reserved ≤ℤ r.stock)

abbrev pub IsValid : Stock → Type 0
IsValid s = All IsValidRow s.inventory

abbrev pub IsNoViolation : AppError → Type 0
IsNoViolation e = e ≢ AppError.check_violation

-- The call ends with valid rows, or raises something other than a violated CHECK.
abbrev pub KeepsChecks : Result Stock → Type 0
KeepsChecks = Ends IsValid IsNoViolation

pub inventory_of-IsValidRow :
    (v : ℕ) (rows : List Inventory) (r : Inventory)
    → All IsValidRow rows
    → inventory_of v rows ≡ some r
    → IsValidRow r
unfolding inventory_of
inventory_of-IsValidRow v [] r h e = cc
inventory_of-IsValidRow v (q ∷ rows) r h e = ground (arith, inventory_of-IsValidRow v rows r h.1)

pub put_inventory-IsValid :
    (r : Inventory) (rows : List Inventory)
    → IsValidRow r
    → All IsValidRow rows
    → All IsValidRow (put_inventory r rows)
unfolding put_inventory
put_inventory-IsValid r [] p h = tt
put_inventory-IsValid r (q ∷ rows) p h = ground (arith, put_inventory-IsValid r rows p h.1)

check_row-IsNoViolation :
    (r : Inventory) → IsValidRow r → Ends (λ _. Unit {0}) IsNoViolation (check_row r)
unfolding check_row
check_row-IsNoViolation r h = ground arith

check_rows-IsNoViolation :
    (rows : List Inventory)
    → All IsValidRow rows
    → Ends (λ _. Unit {0}) IsNoViolation (check_rows rows)
unfolding check_rows check_row
check_rows-IsNoViolation [] h = tt
check_rows-IsNoViolation (r ∷ rows) h =
    ground (arith, check_row-IsNoViolation r h.0, check_rows-IsNoViolation rows h.1)

pub flush-KeepsChecks : (s : Stock) → IsValid s → KeepsChecks (flush s)
unfolding flush
flush-KeepsChecks s h = ground (arith, check_rows-IsNoViolation s.inventory h)

module _ (body : StockRequirement → Stock → Result Stock)
    (step : (req : StockRequirement) (s : Stock) → IsValid s → KeepsChecks (body req s)) where
  loop-KeepsChecks :
      (reqs : List StockRequirement) (s : Stock)
      → IsValid s
      → KeepsChecks (for_each body reqs s >>= flush)
  loop-KeepsChecks reqs s h =
      Ends-bind IsValid IsNoViolation (for_each body reqs s) flush
        (for_each-Ends IsValid IsNoViolation body step reqs s h) flush-KeepsChecks

write-KeepsChecks :
    (r : Inventory) (m : StockMovement) (s : Stock)
    → IsValidRow r
    → IsValid s
    → KeepsChecks (ok (write r m s))
unfolding write
write-KeepsChecks r m s p h = put_inventory-IsValid r s.inventory p h

module _ (order : ℕ) (actor : Option ℕ) (req : StockRequirement) (s : Stock) (h : IsValid s) where
  found-IsValidRow :
      (inv : Inventory) → inventory_of req.variant_id s.inventory ≡ some inv → IsValidRow inv
  found-IsValidRow inv e = inventory_of-IsValidRow req.variant_id s.inventory inv h e

  keeps_if_found :
      (f : Inventory → Result Stock)
      → ((inv : Inventory) → IsValidRow inv → KeepsChecks (f inv))
      → KeepsChecks (or_raise (inventory_of req.variant_id s.inventory) AppError.out_of_stock >>= f)
  keeps_if_found f k =
      Ends-or_raise IsValid IsNoViolation (inventory_of req.variant_id s.inventory)
        AppError.out_of_stock f (λ _. cc) (λ inv e. k inv (found-IsValidRow inv e))

  reserve_line-KeepsChecks : KeepsChecks (reserve_line order actor req s)
  unfolding reserve_line ensure_available ◌+ℤ◌ ◌-ℤ◌
  reserve_line-KeepsChecks = keeps_if_found _ λ inv v. ground (
    arith,
    put_inventory-IsValid (record inv { reserved = inv.reserved +ℤ pos req.quantity }) s.inventory,
  )

  commit_line-KeepsChecks : KeepsChecks (commit_line order req s)
  unfolding commit_line ◌-ℤ◌
  commit_line-KeepsChecks =
      keeps_if_found _
        λ inv v. ground (arith, put_inventory-IsValid (sell_row inv req.quantity) s.inventory)

  module _ (reason : StockMovementReason) where
    decrement_line-KeepsChecks : KeepsChecks (decrement_line order actor reason req s)
    unfolding decrement_line ensure_available ◌-ℤ◌
    decrement_line-KeepsChecks = keeps_if_found _ λ inv v. ground (
      arith,
      put_inventory-IsValid (record inv { stock = inv.stock -ℤ pos req.quantity }) s.inventory,
    )

    restock_line-KeepsChecks : KeepsChecks (restock_line order actor reason req s)
    unfolding restock_line ◌+ℤ◌
    restock_line-KeepsChecks = elim (Option-cases (inventory_of req.variant_id s.inventory)) [
      | inl e ↦ rw e h
      | inr (inv, e) ↦ rw e (
          ground (
            arith,
            found-IsValidRow inv e,
            put_inventory-IsValid (record inv { stock = inv.stock +ℤ pos req.quantity })
                s.inventory,
          ))
    ]

    release_line-KeepsChecks : KeepsChecks (release_line order reason req s)
    unfolding release_line ◌-ℤ◌
    release_line-KeepsChecks = elim (Option-cases (inventory_of req.variant_id s.inventory)) [
      | inl e ↦ rw e h
      | inr (inv, e) ↦ rw e (
          ground (
            arith,
            found-IsValidRow inv e,
            put_inventory-IsValid
                (record inv { reserved = max_ℤ (pos 0) (inv.reserved -ℤ pos req.quantity) })
                s.inventory,
          ))
    ]

-- From rows that satisfy the CHECK constraints, reserving, decrementing, restocking, releasing and
-- selling any requirements ends with rows that satisfy them, or raises an error that is not a
-- violated CHECK: each operation's own guards are enough. (`consume_reservation` is not among them.)
pub stock_operations-KeepsChecks :
    (order : ℕ) (actor : Option ℕ) (reason : StockMovementReason) (reqs : List StockRequirement)
    (s : Stock)
    → IsValid s
    → KeepsChecks (reserve order actor reqs s)
      × KeepsChecks (decrement order actor reason reqs s)
      × KeepsChecks (restock order actor reason reqs s)
      × KeepsChecks (release_reservation order reason reqs s)
      × KeepsChecks (commit_sale order reqs s)
unfolding reserve decrement restock release_reservation commit_sale
stock_operations-KeepsChecks order actor reason reqs s h = (
  loop-KeepsChecks (reserve_line order actor) (reserve_line-KeepsChecks order actor) reqs s h,
  loop-KeepsChecks (decrement_line order actor reason)
      (λ q t v. decrement_line-KeepsChecks order actor q t v reason) reqs s h,
  loop-KeepsChecks (restock_line order actor reason)
      (λ q t v. restock_line-KeepsChecks order actor q t v reason) reqs s h,
  loop-KeepsChecks (release_line order reason)
      (λ q t v. release_line-KeepsChecks order actor q t v reason) reqs s h,
  loop-KeepsChecks (commit_line order) (commit_line-KeepsChecks order actor) reqs s h,
)
