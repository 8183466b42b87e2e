-- ===== src/Examples/Stocks.antt =====
-- The theorems on app/services/inventory_service.py, on the shelf of the example shop.
use oorvashee_backend.Prelude.{◌≡◌, inl, inr, ℕ, refl, some, none, List, [], ◌∷◌, map, arith}
use oorvashee_backend.Prelude.Int.{ℤ, pos, ◌-ℤ◌, int_laws}
use oorvashee_backend.Models.Enums.{StockMovementReason}
use oorvashee_backend.Models.Stock.{Stock, Inventory}
use oorvashee_backend.InventoryService.{
  inventory_of, StockRequirement, reserve, release_reservation, consume_reservation, commit_sale,
  decrement, restock, movement, minus,
}
use oorvashee_backend.InventoryService.Ledger.{Balances, stock_of, stock_operations-Balances}
use oorvashee_backend.InventoryService.Constraints.{KeepsChecks, stock_operations-KeepsChecks}
use oorvashee_backend.InventoryService.Sale.{Sells, commit_sale-Sells}
use oorvashee_backend.InventoryService.Locks.{
  row_id, LocksBefore, lock_inventory_rows, no_deadlock, lock_inventory_rows-inventory_of,
}
use oorvashee_backend.Examples.{necklace, shelf}

-- One variant, asked for twice.
abbrev two_lines : List StockRequirement
two_lines = record { variant_id = 1; quantity = 3 } ∷ record { variant_id = 1; quantity = 4 } ∷ []

abbrev sold_shelf : Stock
sold_shelf = record {
  inventory = record necklace { stock = pos 3; sold_quantity = 12 } ∷ [];
  movements =
      movement 1 (minus 4) StockMovementReason.order_placed (some 31) none
      ∷ movement 1 (minus 3) StockMovementReason.order_placed (some 31) none
      ∷ [];
}

commit_sale-Sells_example : Sells two_lines shelf sold_shelf
unfolding commit_sale ◌-ℤ◌
commit_sale-Sells_example = commit_sale-Sells 31 two_lines shelf sold_shelf refl

stock_operations-KeepsChecks_example :
    KeepsChecks (reserve 31 (some 2) two_lines shelf)
    × KeepsChecks (decrement 31 (some 2) StockMovementReason.order_placed two_lines shelf)
    × KeepsChecks (restock 31 (some 2) StockMovementReason.order_placed two_lines shelf)
    × KeepsChecks (release_reservation 31 StockMovementReason.order_placed two_lines shelf)
    × KeepsChecks (commit_sale 31 two_lines shelf)
stock_operations-KeepsChecks_example =
    stock_operations-KeepsChecks 31 (some 2) StockMovementReason.order_placed two_lines shelf
      (ground arith)

abbrev opening : ℕ → ℤ
opening v = stock_of v shelf

stock_operations-Balances_example :
    Balances opening (reserve 31 (some 2) two_lines shelf)
    × Balances opening (release_reservation 31 StockMovementReason.order_placed two_lines shelf)
    × Balances opening (consume_reservation 31 two_lines shelf)
    × Balances opening (commit_sale 31 two_lines shelf)
    × Balances opening (decrement 31 (some 2) StockMovementReason.order_placed two_lines shelf)
    × Balances opening (restock 31 (some 2) StockMovementReason.order_placed two_lines shelf)
stock_operations-Balances_example =
    stock_operations-Balances opening 31 (some 2) StockMovementReason.order_placed two_lines shelf
      (λ v. omega int_laws)

-- Two callers, each with three variants in an order of its own.
abbrev one_order : List ℕ
one_order = 3 ∷ 1 ∷ 2 ∷ 1 ∷ []

abbrev other_order : List ℕ
other_order = 2 ∷ 3 ∷ 1 ∷ []

abbrev three_rows : List Inventory
three_rows = record necklace { variant_id = 2 } ∷ necklace ∷ record necklace { variant_id = 3 } ∷ []

two_first : LocksBefore 2 3 (map row_id (lock_inventory_rows one_order three_rows))
unfolding lock_inventory_rows
two_first = inr (inl (refl, refl))

no_deadlock_example : ¬ LocksBefore 3 2 (map row_id (lock_inventory_rows other_order three_rows))
unfolding lock_inventory_rows
no_deadlock_example = no_deadlock one_order other_order three_rows 2 3 two_first

lock_inventory_rows-inventory_of_example :
    inventory_of 1 (lock_inventory_rows one_order three_rows) ≡ some necklace
unfolding inventory_of
lock_inventory_rows-inventory_of_example =
    lock_inventory_rows-inventory_of 1 one_order three_rows refl
