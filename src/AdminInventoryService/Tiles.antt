-- ===== src/AdminInventoryService/Tiles.antt =====
-- The tiles and tabs of app/services/admin_inventory_service.py against the rows that they count.
use oorvashee_backend.Prelude.{ℕ, ◌+◌, ◌≡◌, ◌&&◌, List, [], ◌∷◌, ◌==◌, arith, count_if, ◌≤◌}
use oorvashee_backend.Prelude.Int.{pos, ◌+ℤ◌, ◌-ℤ◌, int_laws}
use oorvashee_backend.Models.Stock.{Inventory}
use oorvashee_backend.Models.Checkout.{Reservation}
use oorvashee_backend.Models.Catalog.{ProductVariant}
use oorvashee_backend.Database.{Db}
use oorvashee_backend.AdminInventoryService.Views.{
  Bucket, bucket, is_bucket, reservation_counts, status_count, health_aggregates, health,
}

-- A row is out of stock, or low, or neither: never both.
aggregates-le :
    (variants : List ProductVariant) (rows : List Inventory)
    → let agg = health_aggregates variants rows in
      agg.out_of_stock_variants + agg.low_stock_variants ≤ agg.active_variants
unfolding health_aggregates
aggregates-le variants [] = omega arith
aggregates-le variants (inv ∷ rows) = ground (arith, aggregates-le variants rows)

no_truncation : (n a b : ℕ) → a + b ≤ n → (pos n -ℤ pos a -ℤ pos b) +ℤ pos a +ℤ pos b ≡ pos n
no_truncation n a b h = omega int_laws

-- The three kinds of variant that the health tile counts add up to the active variants: no variant
-- is counted twice, and the guard against a negative count is never needed.
pub health_partitions :
    (now : ℕ) (db : Db)
    → let h = health now db in
      h.healthy_variants +ℤ pos h.out_of_stock_variants +ℤ pos h.low_stock_variants
      ≡ pos h.active_variants
unfolding health ◌+ℤ◌ ◌-ℤ◌
health_partitions now db = ground (arith, aggregates-le db.variants db.stock.inventory)

-- How many reservations of a variant stand in a bucket.
abbrev pub in_bucket : ℕ → Bucket → List Reservation → ℕ
in_bucket v b rows = count_if (λ r. r.variant_id == v && is_bucket (bucket r.status) b) rows

-- The breakdown of a variant's reservations counts, for each tab, exactly the rows that the list puts
-- there.
pub reservation_counts-bucket :
    (v : ℕ) (rows : List Reservation)
    → reservation_counts v rows ≡ record {
      active = in_bucket v Bucket.active rows;
      expired = in_bucket v Bucket.expired rows;
      completed = in_bucket v Bucket.completed rows;
      cancelled = in_bucket v Bucket.cancelled rows;
    }
unfolding reservation_counts status_count bucket
reservation_counts-bucket v [] = ground arith
reservation_counts-bucket v (r ∷ rows) = ground (arith, reservation_counts-bucket v rows)
