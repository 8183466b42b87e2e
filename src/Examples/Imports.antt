-- ===== src/Examples/Imports.antt =====
-- The theorems on app/services/admin_import_service.py, on the example shop.
use oorvashee_backend.Prelude.{
  ℕ, ◌≡◌, refl, Bool, true, false, Option, some, List, [], ◌∷◌, arith, length,
}
use oorvashee_backend.Prelude.Int.{◌-ℤ◌, int_laws}
use oorvashee_backend.Models.Enums.{StockMovementReason}
use oorvashee_backend.Exceptions.Loops.{Ends}
use oorvashee_backend.InventoryService.Availability.{target_of, sum_active_stock, get_product}
use oorvashee_backend.InventoryService.{inventory_of}
use oorvashee_backend.InventoryService.Ledger.{stock_of}
use oorvashee_backend.AdminInventoryService.{AdjustmentMode}
use oorvashee_backend.AdminImportService.{
  InventoryCsvRow, Numbered, apply_inventory, apply_known_rows, apply_rows, variant_by_sku,
}
use oorvashee_backend.AdminImportService.Process.{process, chunked_rows}
use oorvashee_backend.AdminImportService.Counts.{lines_from, numbered_chunks, chunked_rows-lines}
use oorvashee_backend.AdminImportService.Tallies.{IsTallied}
use oorvashee_backend.AdminImportService.Jobs.{inventory_job-IsTallied}
use oorvashee_backend.AdminImportService.Stocks.{IsKept, apply_inventory-IsKept}
use oorvashee_backend.AdminImportService.Stale.{status_of, settled, import_status}
use oorvashee_backend.Database.{Db}
use oorvashee_backend.Examples.{shop, shelf, product_20}

-- The first row sets the stock of a variant to two; no variant has the SKU of the second.
abbrev two_rows : List InventoryCsvRow
two_rows =
    record { sku = 501; mode = AdjustmentMode.set; value = 2; reason = StockMovementReason.restock }
    ∷ record {
      sku = 502;
      mode = AdjustmentMode.set;
      value = 2;
      reason = StockMovementReason.restock;
    }
    ∷ []

abbrev accept : InventoryCsvRow → Option InventoryCsvRow
accept row = some row

abbrev commits : Db → Bool
commits db = true

abbrev in_order : List ℕ → List ℕ
in_order ids = ids

abbrev numbered : List (Numbered InventoryCsvRow)
numbered = lines_from 2 two_rows

chunked_rows-lines_example : numbered_chunks 1 (chunked_rows 1 two_rows) ≡ lines_from 2 two_rows
chunked_rows-lines_example = chunked_rows-lines 1 two_rows (omega arith)

inventory_job-IsTallied_example :
    Ends
      (IsTallied (length two_rows))
      (λ _. Unit {0})
      (process accept (apply_inventory in_order 2) commits false two_rows shop)
inventory_job-IsTallied_example =
    inventory_job-IsTallied in_order 2 accept commits false two_rows shop (λ s. refl)

apply_inventory-IsKept_example :
    Ends
      (λ o. IsKept (λ v. stock_of v shelf) o.after.stock)
      (λ _. Unit {0})
      (apply_inventory in_order 2 numbered shop)
apply_inventory-IsKept_example =
    apply_inventory-IsKept (λ v. stock_of v shelf) in_order 2 numbered shop
      (record { valid = ground arith; balanced = λ v. omega int_laws })

import_status_example :
    Ends
      (λ o.
        status_of 20 o.after
        ≡ some (
            settled product_20.status (
              target_of product_20.status
                (sum_active_stock 20 shop.variants shop.stock.inventory))))
      (λ _. Unit {0})
      (apply_known_rows in_order 2 numbered shop)
unfolding get_product apply_rows variant_by_sku inventory_of ◌-ℤ◌
import_status_example = import_status in_order 2 20 numbered shop product_20 refl refl
