-- ===== src/AdminInventoryService.antt =====
-- app/services/admin_inventory_service.py: the operations of the administration on the stock. The
-- texts of a note and of an audit's summary are left out, and so is the id of the new movement.
pub mod Views
pub mod Tiles
pub mod Adjusts
use oorvashee_backend.Prelude.{
  ℕ, Bool, true, false, not, Option, none, some, ◌∷◌, ltb, ◌==◌, if◌then◌else◌, ◌&&◌,
}
use oorvashee_backend.Prelude.Int.{ℤ, pos, ◌+ℤ◌, ◌-ℤ◌, ltb_ℤ, max_ℤ}
use oorvashee_backend.Models.Enums.{StockMovementReason, AuditAction}
use oorvashee_backend.Models.Enums.ProductStatus.{ProductStatus}
use oorvashee_backend.Models.Stock.{Inventory}
use oorvashee_backend.Models.Catalog.{ProductVariant}
use oorvashee_backend.Models.Audit.{Metadata}
use oorvashee_backend.Exceptions.{AppError, Result, ok, err, ◌>>=◌, ◌>>◌, raise_if, or_raise}
use oorvashee_backend.Database.{Db}
use oorvashee_backend.InventoryService.{inventory_of, put_inventory, write, flush, movement}
use oorvashee_backend.InventoryService.Availability.{recompute_product_availability}
use oorvashee_backend.ReservationRepository.{active_reserved_for_variant}
use oorvashee_backend.CheckoutSessionService.{variant_of, product_of}
use oorvashee_backend.AdminInventoryService.Views.{InventoryDetail, build_detail}

pub data AdjustmentMode : Type 0 where
  increment decrement set : AdjustmentMode

pub record StockAdjustmentRequest : Type 0 where
  pub mode : AdjustmentMode
  pub value : ℕ
  pub reason : StockMovementReason

-- `movement` says whether a row of stock_movements was added: the no-op answers a sentinel for its id.
pub record StockAdjustmentResult : Type 0 where
  pub variant_id : ℕ
  pub stock_before : ℤ
  pub stock_after : ℤ
  pub reserved : ℕ
  pub delta : ℤ
  pub moved : Bool
  pub product_status_after : Option ProductStatus

-- `_ADMIN_PICKABLE_REASONS`.
abbrev pub is_admin_pickable : StockMovementReason → Bool
is_admin_pickable StockMovementReason.manual_adjustment = true
is_admin_pickable StockMovementReason.restock = true
is_admin_pickable StockMovementReason.order_placed = false
is_admin_pickable StockMovementReason.order_cancelled = false
is_admin_pickable StockMovementReason.csv_import = false

unfoldable pub compute_target_stock : AdjustmentMode → ℕ → ℤ → ℤ
compute_target_stock AdjustmentMode.set value current = pos value
compute_target_stock AdjustmentMode.increment value current = current +ℤ pos value
compute_target_stock AdjustmentMode.decrement value current = current -ℤ pos value

abbrev pub stock_audit : ℕ → ℕ → Metadata → Db → Db
stock_audit variant_id actor_user_id metadata db = record db {
  audits =
      record {
        action = AuditAction.stock_adjusted;
        entity_id = variant_id;
        actor_user_id = some actor_user_id;
        metadata = metadata;
      }
      ∷ db.audits;
}

abbrev pub is_zero : ℤ → Bool
is_zero d = not (ltb_ℤ d (pos 0)) && not (ltb_ℤ (pos 0) d)

module _ (actor_user_id : ℕ) (variant : ProductVariant) (body : StockAdjustmentRequest)
    (inv : Inventory) (derived_reserved : ℕ) (target : ℤ) where
  -- The new stock is written and flushed, and the product's status follows it.
  unfoldable pub apply_adjustment : Db → Result (StockAdjustmentResult × Db)
  unfolding write flush
  apply_adjustment db = do
    let delta = target -ℤ inv.stock
    stock ← flush (
        write (record inv { stock = target })
          (movement inv.variant_id delta body.reason none (some actor_user_id)) db.stock)
    let after =
        stock_audit inv.variant_id actor_user_id
          (Metadata.stock_change inv.stock target derived_reserved body.reason)
          (record db { stock = stock })
    let flipped = recompute_product_availability (some actor_user_id) variant.product_id after
    ok (
      record {
        variant_id = inv.variant_id;
        stock_before = inv.stock;
        stock_after = target;
        reserved = derived_reserved;
        delta = delta;
        moved = true;
        product_status_after = flipped.0;
      },
      flipped.1,
    )

  -- An adjustment that changes nothing is audited and adds no movement.
  unfoldable pub settle_adjustment : Db → Result (StockAdjustmentResult × Db)
  unfolding apply_adjustment
  settle_adjustment db =
      if is_zero (target -ℤ inv.stock)
      then ok (
        record {
          variant_id = inv.variant_id;
          stock_before = inv.stock;
          stock_after = inv.stock;
          reserved = derived_reserved;
          delta = pos 0;
          moved = false;
          product_status_after = none;
        },
        stock_audit inv.variant_id actor_user_id
            (Metadata.stock_change inv.stock inv.stock derived_reserved body.reason) db,
      )
      else apply_adjustment db

-- The row is the one that `lock_inventory_rows` locks; the reserved quantity is derived under its lock.
unfoldable pub adjust :
    ℕ → ℕ → StockAdjustmentRequest → ℕ → Db → Result (StockAdjustmentResult × Db)
unfolding compute_target_stock settle_adjustment inventory_of variant_of active_reserved_for_variant
adjust now variant_id body actor_user_id db = do
  raise_if (not (is_admin_pickable body.reason)) AppError.reason_not_allowed
  variant ← or_raise (variant_of variant_id db.variants) AppError.not_found
  inv ← or_raise (inventory_of variant_id db.stock.inventory) AppError.not_found
  let target = compute_target_stock body.mode body.value inv.stock
  let derived = active_reserved_for_variant now none variant_id db.reservations
  raise_if (ltb_ℤ target (pos 0)) AppError.adjustment_negative_stock
  raise_if (ltb_ℤ target (max_ℤ inv.reserved (pos derived))) AppError.adjustment_below_reserved
  settle_adjustment actor_user_id variant body inv derived target db

-- A write of the threshold, unless it is the one that stands.
unfoldable pub write_threshold : ℕ → ℕ → Inventory → Db → Result Db
unfolding put_inventory flush
write_threshold low_stock_threshold actor_user_id inv db =
    if inv.low_stock_threshold == low_stock_threshold then ok db else do
      stock ← flush (record (db.stock) {
        inventory =
            put_inventory (record inv { low_stock_threshold = low_stock_threshold })
              db.stock.inventory;
      })
      ok (record db {
        stock = stock;
        audits =
            record {
              action = AuditAction.update;
              entity_id = inv.variant_id;
              actor_user_id = some actor_user_id;
              metadata = Metadata.threshold inv.low_stock_threshold low_stock_threshold;
            }
            ∷ db.audits;
      })

-- The threshold gates no stock, so no row is locked. The detail is read back from the new row; it
-- raises where the parent product is missing.
unfoldable pub set_low_stock_threshold : ℕ → ℕ → ℕ → ℕ → Db → Result (InventoryDetail × Db)
unfolding inventory_of variant_of product_of write_threshold build_detail
set_low_stock_threshold now variant_id low_stock_threshold actor_user_id db = do
  variant ← or_raise (variant_of variant_id db.variants) AppError.not_found
  inv ← or_raise (inventory_of variant_id db.stock.inventory) AppError.not_found
  after ← write_threshold low_stock_threshold actor_user_id inv db
  _ ← or_raise (product_of variant.product_id after.products) AppError.not_found
  ok (build_detail now (record inv { low_stock_threshold = low_stock_threshold }) after, after)
