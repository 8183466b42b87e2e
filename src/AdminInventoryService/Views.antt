-- ===== src/AdminInventoryService/Views.antt =====
-- What app/services/admin_inventory_service.py shows of the stock, with the aggregates of
-- app/repositories/inventory_repo.py and the counts of app/repositories/reservation_repo.py.
-- Names, labels and prices are left out.
use oorvashee_backend.Prelude.{
  ℕ, ◌+◌, Bool, true, false, ◌&&◌, none, List, [], ◌∷◌, leb, ◌==◌, if◌then◌else◌, count_if,
}
use oorvashee_backend.Prelude.Int.{ℤ, pos, ◌+ℤ◌, ◌-ℤ◌, ltb_ℤ, leb_ℤ, max_ℤ}
use oorvashee_backend.Models.Enums.ReservationStatus
use oorvashee_backend.Models.Enums.ReservationStatus.{ReservationStatus}
use oorvashee_backend.Models.Stock.{Inventory}
use oorvashee_backend.Models.Checkout.{Reservation}
use oorvashee_backend.Models.Catalog.{ProductVariant}
use oorvashee_backend.Database.{Db}
use oorvashee_backend.ReservationRepository.{holds, active_reserved_for_variant}

pub data Bucket : Type 0 where
  active expired completed cancelled : Bucket

-- `_bucket`.
unfoldable pub bucket : ReservationStatus → Bucket
bucket status =
    if ReservationStatus.is status ReservationStatus.reserved
    then Bucket.active
    else if ReservationStatus.is status ReservationStatus.payment_processing
    then Bucket.active
    else if ReservationStatus.is status ReservationStatus.expired
    then Bucket.expired
    else if ReservationStatus.is status ReservationStatus.completed
    then Bucket.completed
    else Bucket.cancelled

abbrev pub is_bucket : Bucket → Bucket → Bool
is_bucket Bucket.active Bucket.active = true
is_bucket Bucket.expired Bucket.expired = true
is_bucket Bucket.completed Bucket.completed = true
is_bucket Bucket.cancelled Bucket.cancelled = true
is_bucket _ _ = false

-- `_to_reservation_item`: a row whose status is active and whose time has run out.
unfoldable pub is_expired : ℕ → Reservation → Bool
is_expired now r = ReservationStatus.holds_stock r.status && leb r.expires_at now

-- One entry of `status_counts_for_variant`, 0 where the status is absent.
unfoldable pub status_count : ℕ → ReservationStatus → List Reservation → ℕ
status_count v status rows =
    count_if (λ r. r.variant_id == v && ReservationStatus.is r.status status) rows

pub record ReservationCounts : Type 0 where
  pub active : ℕ
  pub expired : ℕ
  pub completed : ℕ
  pub cancelled : ℕ

-- `_reservation_counts` of `status_counts_for_variant`.
unfoldable pub reservation_counts : ℕ → List Reservation → ReservationCounts
unfolding status_count
reservation_counts v rows = record {
  active =
      status_count v ReservationStatus.reserved rows
      + status_count v ReservationStatus.payment_processing rows;
  expired = status_count v ReservationStatus.expired rows;
  completed = status_count v ReservationStatus.completed rows;
  cancelled = status_count v ReservationStatus.cancelled rows;
}

abbrev pub is_out_of_stock : Inventory → Bool
is_out_of_stock inv = leb_ℤ inv.stock (pos 0) && leb_ℤ (pos 0) inv.stock

abbrev pub is_low_stock : Inventory → Bool
is_low_stock inv = ltb_ℤ (pos 0) inv.stock && leb_ℤ inv.stock (pos inv.low_stock_threshold)

pub record InventoryDetail : Type 0 where
  pub variant_id : ℕ
  pub stock : ℤ
  pub reserved : ℕ
  pub available : ℤ
  pub sold : ℕ
  pub low_stock_threshold : ℕ
  pub is_low_stock : Bool
  pub is_out_of_stock : Bool
  pub reservation_counts : ReservationCounts

-- `_build_detail`, where the parent product exists.
unfoldable pub build_detail : ℕ → Inventory → Db → InventoryDetail
unfolding active_reserved_for_variant reservation_counts
build_detail now inv db =
    let reserved = active_reserved_for_variant now none inv.variant_id db.reservations in
    record {
      variant_id = inv.variant_id;
      stock = inv.stock;
      reserved = reserved;
      available = max_ℤ (pos 0) (inv.stock -ℤ pos reserved);
      sold = inv.sold_quantity;
      low_stock_threshold = inv.low_stock_threshold;
      is_low_stock = is_low_stock inv;
      is_out_of_stock = is_out_of_stock inv;
      reservation_counts = reservation_counts inv.variant_id db.reservations;
    }

-- The join with the variants, of which the query takes the active ones.
unfoldable pub is_active_variant : List ProductVariant → ℕ → Bool
is_active_variant [] v = false
is_active_variant (x ∷ variants) v = if x.id == v then x.is_active else is_active_variant variants v

pub record HealthAggregates : Type 0 where
  pub active_variants : ℕ
  pub total_stock_units : ℤ
  pub total_sold_units : ℕ
  pub out_of_stock_variants : ℕ
  pub low_stock_variants : ℕ

-- One row of the aggregate.
abbrev pub count_row : Inventory → HealthAggregates → HealthAggregates
count_row inv agg = record {
  active_variants = 1 + agg.active_variants;
  total_stock_units = inv.stock +ℤ agg.total_stock_units;
  total_sold_units = inv.sold_quantity + agg.total_sold_units;
  out_of_stock_variants = (if is_out_of_stock inv then 1 else 0) + agg.out_of_stock_variants;
  low_stock_variants = (if is_low_stock inv then 1 else 0) + agg.low_stock_variants;
}

unfoldable pub health_aggregates : List ProductVariant → List Inventory → HealthAggregates
unfolding is_active_variant
health_aggregates variants [] = record {
  active_variants = 0;
  total_stock_units = pos 0;
  total_sold_units = 0;
  out_of_stock_variants = 0;
  low_stock_variants = 0;
}
health_aggregates variants (inv ∷ rows) =
    let rest = health_aggregates variants rows in
    if is_active_variant variants inv.variant_id then count_row inv rest else rest

unfoldable pub total_active_reserved : ℕ → List ProductVariant → List Reservation → ℕ
unfolding is_active_variant
total_active_reserved now variants [] = 0
total_active_reserved now variants (r ∷ rows) =
    (if is_active_variant variants r.variant_id && holds now r then r.quantity else 0)
    + total_active_reserved now variants rows

pub record InventoryHealthSummary : Type 0 where
  pub active_variants : ℕ
  pub total_stock_units : ℤ
  pub total_reserved_units : ℕ
  pub available_units : ℤ
  pub total_sold_units : ℕ
  pub out_of_stock_variants : ℕ
  pub low_stock_variants : ℕ
  pub healthy_variants : ℤ

unfoldable pub health : ℕ → Db → InventoryHealthSummary
unfolding health_aggregates total_active_reserved
health now db =
    let agg = health_aggregates db.variants db.stock.inventory in
    let reserved = total_active_reserved now db.variants db.reservations in
    record {
      active_variants = agg.active_variants;
      total_stock_units = agg.total_stock_units;
      total_reserved_units = reserved;
      available_units = max_ℤ (agg.total_stock_units -ℤ pos reserved) (pos 0);
      total_sold_units = agg.total_sold_units;
      out_of_stock_variants = agg.out_of_stock_variants;
      low_stock_variants = agg.low_stock_variants;
      healthy_variants =
          max_ℤ
            (pos agg.active_variants -ℤ pos agg.out_of_stock_variants -ℤ pos agg.low_stock_variants)
            (pos 0);
    }
