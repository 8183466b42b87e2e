-- ===== src/AdminImportService/Stale.antt =====
-- The status of a product after an import of inventory rows (`_apply_inventory` of
-- app/services/admin_import_service.py).
use oorvashee_backend.Prelude.{ℕ, ◌≡◌, ap, Option, none, some, List, [], ◌∷◌}
use oorvashee_backend.Models.Enums.ProductStatus.{ProductStatus}
use oorvashee_backend.Models.Catalog.{Product}
use oorvashee_backend.Exceptions.{Result, ok, err, ◌>>=◌}
use oorvashee_backend.Exceptions.Loops.{Ends, Ends-then}
use oorvashee_backend.Database.{Db}
use oorvashee_backend.InventoryService.{flush}
use oorvashee_backend.InventoryService.Availability.{
  get_product, sum_active_stock, target_of, get-put_product, get_product-id,
}
use oorvashee_backend.AdminImportService.{
  Numbered, Outcome, Chunk, RowError, InventoryCsvRow, Pending, apply_rows, apply_known_rows,
  recompute_pending, flip_found, no_rows_yet,
}

abbrev pub status_column : Option Product → Option ProductStatus
status_column none = none
status_column (some p) = some p.status

abbrev pub status_of : ℕ → Db → Option ProductStatus
status_of id db = status_column (get_product id db.products)

abbrev pub settled : ProductStatus → Option ProductStatus → ProductStatus
settled status none = status
settled status (some to) = to

module _ (actor id : ℕ) (product : Product) (p : Pending)
    (found : get_product id p.db.products ≡ some product) where
  flip-status :
      (to : Option ProductStatus)
      → Ends
          (λ q. status_of id q.db ≡ some (settled product.status to))
          (λ _. Unit {0})
          (flip_found actor product to p)
  flip-status none = ap status_column found
  flip-status (some to) =
      Ends-then (λ q. status_of id q.db ≡ some to) (λ _. Unit {0}) (flush p.db.stock) _ (λ _ _. tt)
        λ stock _. ap status_column (
          get-put_product id p.db.products (record product { status = to }) product found
            (get_product-id id p.db.products product found))

-- The last flush changes no product.
finish-status :
    (id applied : ℕ) (errors : List RowError) (to : Option ProductStatus) (r : Result Pending)
    → Ends (λ q. status_of id q.db ≡ to) (λ _. Unit {0}) r
    → Ends {A = Outcome Db}
        (λ o. status_of id o.after ≡ to)
        (λ _. Unit {0})
        ((r >>= λ q. ok q) >>= λ p. flush p.db.stock >>= λ stock. ok (record {
          applied_ok = applied;
          persist_errors = errors;
          after = record (p.db) { stock = stock };
        }))
finish-status id applied errors to (ok p) h =
    Ends-then (λ o. status_of id o.after ≡ to) (λ _. Unit {0}) (flush p.db.stock) _ (λ _ _. tt)
      λ stock _. h
finish-status id applied errors to (err e) h = tt

module _ (walk : List ℕ → List ℕ) (actor id : ℕ) (rows : List (Numbered InventoryCsvRow)) (db : Db)
    (product : Product) where
  -- Where the rows that a chunk applies change the stock of one product's variants, the product ends
  -- with the status that its stock from before the chunk calls for: the new stock is not yet flushed
  -- when it is summed.
  pub import_status :
      get_product id db.products ≡ some product
      → walk (apply_rows actor db.variants rows (no_rows_yet db.stock)).affected ≡ id ∷ []
      → Ends
          (λ o.
            status_of id o.after
            ≡ some (
                settled product.status (
                  target_of product.status
                    (sum_active_stock product.id db.variants db.stock.inventory))))
          (λ _. Unit {0})
          (apply_known_rows walk actor rows db)
  unfolding apply_known_rows recompute_pending
  import_status found one =
      rw (one, found)
        (finish-status id c.applied c.errors _ _ (
          flip-status actor id product
            (record { flushed = db.stock.inventory; db = record db { stock = c.stock } }) found
            (target_of product.status
              (sum_active_stock product.id db.variants db.stock.inventory))))
    where
      c : Chunk
      c = apply_rows actor db.variants rows (no_rows_yet db.stock)
