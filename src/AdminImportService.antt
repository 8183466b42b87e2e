-- ===== src/AdminImportService.antt =====
-- app/services/admin_import_service.py: the application of a chunk of inventory rows. The walk over the
-- file is in `Process`. A row is one that its schema (app/schemas/admin_import.py) accepts; a SKU is a
-- number, and the texts of an error are left out.
pub mod Process
pub mod Counts
pub mod Tallies
pub mod Jobs
pub mod Stocks
pub mod Stale
use oorvashee_backend.Prelude.{
  ℕ, ◌+◌, Bool, true, false, ◌||◌, Option, none, some, List, [], ◌∷◌, ◌++◌, ◌==◌, if◌then◌else◌,
  elem,
}
use oorvashee_backend.Prelude.Int.{ℤ, pos, ◌-ℤ◌, ltb_ℤ}
use oorvashee_backend.Models.Enums.{StockMovementReason}
use oorvashee_backend.Models.Enums.ProductStatus.{ProductStatus}
use oorvashee_backend.Models.Stock.{Inventory, Stock}
use oorvashee_backend.Models.Catalog.{Product, ProductVariant}
use oorvashee_backend.Exceptions.{Result, ok, ◌>>=◌}
use oorvashee_backend.Database.{Db}
use oorvashee_backend.InventoryService.{inventory_of, write, flush, movement}
use oorvashee_backend.InventoryService.Availability.{get_product, sum_active_stock, target_of, turn}
use oorvashee_backend.AdminInventoryService.{AdjustmentMode, compute_target_stock, is_zero}

pub record InventoryCsvRow : Type 0 where
  pub sku : ℕ
  pub mode : AdjustmentMode
  pub value : ℕ
  pub reason : StockMovementReason

-- Why a row is refused; the last is of the whole chunk.
pub data RowFault : Type 0 where
  invalid variant_not_found inventory_missing below_zero below_reserved chunk_refused : RowFault

pub record RowError : Type 0 where
  pub row_number : ℕ
  pub fault : RowFault

-- `variant_by_sku`: the SKU of a variant is unique.
unfoldable pub variant_by_sku : ℕ → List ProductVariant → Option ProductVariant
variant_by_sku sku [] = none
variant_by_sku sku (v ∷ variants) = if v.sku == sku then some v else variant_by_sku sku variants

-- What the loop over the rows of a chunk has done so far. Nothing is flushed in it: the assignments to a
-- row are seen by the later rows of the chunk, which find the same object.
pub record Chunk : Type 0 where
  pub applied : ℕ
  pub errors : List RowError
  pub affected : List ℕ
  pub stock : Stock

abbrev pub refuse : ℕ → RowFault → Chunk → Chunk
refuse row_number fault c = record c {
  errors = c.errors ++ record { row_number = row_number; fault = fault } ∷ [];
}

-- `affected_product_ids.add(product_id)`.
abbrev pub add_id : ℕ → List ℕ → List ℕ
add_id id ids = if elem id ids then ids else ids ++ id ∷ []

module _ (actor_user_id row_number : ℕ) (row : InventoryCsvRow) where
  -- The target is checked against the stored counter of reserved units.
  unfoldable pub apply_target : ProductVariant → Inventory → ℤ → Chunk → Chunk
  unfolding write
  apply_target variant inv target c =
      if ltb_ℤ target (pos 0)
      then refuse row_number RowFault.below_zero c
      else if ltb_ℤ target inv.reserved
      then refuse row_number RowFault.below_reserved c
      else if is_zero (target -ℤ inv.stock)
      then record c { applied = c.applied + 1 }
      else record c {
        applied = c.applied + 1;
        affected = add_id variant.product_id c.affected;
        stock =
            write (record inv { stock = target })
              (movement inv.variant_id (target -ℤ inv.stock) row.reason none (some actor_user_id))
              c.stock;
      }

  abbrev pub apply_found : ProductVariant → Option Inventory → Chunk → Chunk
  apply_found variant none c = refuse row_number RowFault.inventory_missing c
  apply_found variant (some inv) c =
      apply_target variant inv (compute_target_stock row.mode row.value inv.stock) c

  abbrev pub apply_known : Option ProductVariant → Chunk → Chunk
  apply_known none c = refuse row_number RowFault.variant_not_found c
  apply_known (some variant) c = apply_found variant (inventory_of variant.id c.stock.inventory) c

  unfoldable pub apply_row : List ProductVariant → Chunk → Chunk
  unfolding variant_by_sku inventory_of apply_target compute_target_stock
  apply_row variants c = apply_known (variant_by_sku row.sku variants) c

-- A numbered row of the file.
pub record Numbered (A : Type 0) : Type 0 where
  pub row_number : ℕ
  pub row : A

unfoldable pub apply_rows :
    ℕ → List ProductVariant → List (Numbered InventoryCsvRow) → Chunk → Chunk
unfolding apply_row
apply_rows actor_user_id variants [] c = c
apply_rows actor_user_id variants (r ∷ rows) c =
    apply_rows actor_user_id variants rows (apply_row actor_user_id r.row_number r.row variants c)

-- What the database holds, which a query reads, beside the tables with what is still to be flushed.
pub record Pending : Type 0 where
  pub flushed : List Inventory
  pub db : Db

-- A change of status flushes everything.
abbrev pub flip_found : ℕ → Product → Option ProductStatus → Pending → Result Pending
flip_found actor_user_id product none p = ok p
flip_found actor_user_id product (some target) p = flush p.db.stock >>= λ stock. ok (record {
  flushed = stock.inventory;
  db = (turn (some actor_user_id) product (some target) p.db).1;
})

abbrev pub recompute_pending_of : ℕ → Option Product → Pending → Result Pending
recompute_pending_of actor_user_id none p = ok p
recompute_pending_of actor_user_id (some product) p =
    flip_found actor_user_id product
      (target_of product.status (sum_active_stock product.id p.db.variants p.flushed)) p

-- `recompute_product_availability` before a flush: its query sums what the database holds.
unfoldable pub recompute_pending : ℕ → List ℕ → Pending → Result Pending
unfolding flush get_product sum_active_stock
recompute_pending actor_user_id [] p = ok p
recompute_pending actor_user_id (id ∷ ids) p =
    recompute_pending_of actor_user_id (get_product id p.db.products) p >>= λ q.
    recompute_pending actor_user_id ids q

-- What applying the rows of a chunk answers, before the commit.
pub record Outcome (S : Type 0) : Type 0 where
  pub applied_ok : ℕ
  pub persist_errors : List RowError
  pub after : S

abbrev is_known : Option ProductVariant → Bool
is_known none = false
is_known (some v) = true

abbrev pub any_known : List ProductVariant → List (Numbered InventoryCsvRow) → Bool
any_known variants [] = false
any_known variants (r ∷ rows) =
    is_known (variant_by_sku r.row.sku variants) || any_known variants rows

abbrev pub all_unknown : List (Numbered InventoryCsvRow) → List RowError
all_unknown [] = []
all_unknown (r ∷ rows) =
    record { row_number = r.row_number; fault = RowFault.variant_not_found } ∷ all_unknown rows

abbrev pub no_rows_yet : Stock → Chunk
no_rows_yet stock = record { applied = 0; errors = []; affected = []; stock = stock }

unfoldable pub apply_known_rows :
    (List ℕ → List ℕ) → ℕ → List (Numbered InventoryCsvRow) → Db → Result (Outcome Db)
unfolding apply_rows recompute_pending flush
apply_known_rows walk actor_user_id rows db = do
  let c = apply_rows actor_user_id db.variants rows (no_rows_yet db.stock)
  p ←
      recompute_pending actor_user_id (walk c.affected)
        (record { flushed = db.stock.inventory; db = record db { stock = c.stock } })
  stock ← flush p.db.stock
  ok (record {
    applied_ok = c.applied;
    persist_errors = c.errors;
    after = record (p.db) { stock = stock };
  })

-- `_apply_inventory`. `walk` is the order in which Python walks the set of the affected products.
unfoldable pub apply_inventory :
    (List ℕ → List ℕ) → ℕ → List (Numbered InventoryCsvRow) → Db → Result (Outcome Db)
unfolding apply_known_rows variant_by_sku
apply_inventory walk actor_user_id rows db =
    if any_known db.variants rows
    then apply_known_rows walk actor_user_id rows db
    else ok (record { applied_ok = 0; persist_errors = all_unknown rows; after = db })
