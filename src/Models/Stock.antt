-- ===== src/Models/Stock.antt =====
-- app/models/inventory.py: the rows that InventoryService owns. Identifiers (UUIDs) are numbers.
-- The free-text `note` and `reference` of a movement are left out.
use oorvashee_backend.Prelude.{ℕ, Option, List}
use oorvashee_backend.Prelude.Int.{ℤ}
use oorvashee_backend.Models.Enums.{StockMovementReason}

pub record Inventory : Type 0 where
  pub variant_id : ℕ
  pub stock : ℤ
  pub reserved : ℤ
  pub low_stock_threshold : ℕ
  pub sold_quantity : ℕ

pub record StockMovement : Type 0 where
  pub variant_id : ℕ
  pub delta : ℤ
  pub reason : StockMovementReason
  pub order_id : Option ℕ
  pub actor_user_id : Option ℕ

-- The two tables; the newest movement stands first.
pub record Stock : Type 0 where
  pub inventory : List Inventory
  pub movements : List StockMovement
