-- ===== src/AdminImportService/Stocks.antt =====
-- The stock under an import of inventory rows (`_apply_inventory` of
-- app/services/admin_import_service.py).
use mathlib.Core.Path.{subst}
use oorvashee_backend.Prelude.{
  ℕ, ◌≡◌, ◌⊎◌, refl, sym, ap, ◌∙◌, inl, inr, Option, none, some, List, [], ◌∷◌, arith, Bool-cases,
  Option-cases,
}
use oorvashee_backend.Prelude.Int.{ℤ, pos, ◌-ℤ◌, ◌≤ℤ◌, ltb_ℤ, int_laws}
use oorvashee_backend.Models.Stock.{Inventory, Stock}
use oorvashee_backend.Models.Catalog.{Product, ProductVariant}
use oorvashee_backend.Exceptions.{AppError}
use oorvashee_backend.Exceptions.Loops.{Ends, Ends-then, Ends-of_ok}
use oorvashee_backend.Database.{Db}
use oorvashee_backend.InventoryService.{inventory_of, write, flush, movement}
use oorvashee_backend.InventoryService.Rows.{inventory_of-variant_id}
use oorvashee_backend.InventoryService.Ledger.{IsBalanced, write-IsBalanced}
use oorvashee_backend.InventoryService.Constraints.{
  IsValid, put_inventory-IsValid, inventory_of-IsValidRow,
}
use oorvashee_backend.InventoryService.Availability.{get_product}
use oorvashee_backend.Models.Enums.ProductStatus.{ProductStatus}
use oorvashee_backend.AdminInventoryService.{is_zero, compute_target_stock}
use oorvashee_backend.AdminInventoryService.Adjusts.{flush_same}
use oorvashee_backend.AdminImportService.{
  Numbered, Outcome, InventoryCsvRow, Chunk, Pending, apply_row, apply_rows, apply_target,
  apply_inventory, apply_known_rows, recompute_pending, recompute_pending_of, flip_found,
  no_rows_yet, any_known, variant_by_sku,
}

abbrev written : ℕ → InventoryCsvRow → Inventory → ℤ → Stock → Stock
written actor row inv target stock =
    write (record inv { stock = target })
      (movement inv.variant_id (target -ℤ inv.stock) row.reason none (some actor)) stock

-- A row leaves the stock as it is, or writes a target that the stored counter does not exceed.
target-stock :
    (actor n : ℕ) (row : InventoryCsvRow) (variant : ProductVariant) (inv : Inventory) (target : ℤ)
    (c : Chunk)
    → let c' = apply_target actor n row variant inv target c in
      (c'.stock ≡ c.stock)
      ⊎ ((inv.reserved ≤ℤ target) × (c'.stock ≡ written actor row inv target c.stock))
unfolding apply_target
target-stock actor n row variant inv target c = elim (Bool-cases (ltb_ℤ target (pos 0))) [
  | inl e ↦ inl (rw e refl)
  | inr natural ↦ elim (Bool-cases (ltb_ℤ target inv.reserved)) [
    | inl e ↦ inl (rw (natural, e) refl)
    | inr backed ↦ elim (Bool-cases (is_zero (target -ℤ inv.stock))) [
      | inl e ↦ inl (rw (natural, backed, e) refl)
      | inr moved ↦ inr (ground arith, rw (natural, backed, moved) refl)
    ]
  ]
]

-- A change of status before the last flush leaves the stock alone.
flip-stock :
    (actor : ℕ) (product : Product) (to : Option ProductStatus) (p : Pending)
    → Ends (λ q. q.db.stock ≡ p.db.stock) (λ _. Unit {0}) (flip_found actor product to p)
flip-stock actor product none p = refl
flip-stock actor product (some to) p =
    Ends-then (λ q. q.db.stock ≡ p.db.stock) (λ _. Unit {0}) (flush p.db.stock) _ (λ _ _. tt)
      λ stock _. refl

recompute_of-stock :
    (actor : ℕ) (o : Option Product) (p : Pending)
    → Ends (λ q. q.db.stock ≡ p.db.stock) (λ _. Unit {0}) (recompute_pending_of actor o p)
recompute_of-stock actor none p = refl
recompute_of-stock actor (some product) p = flip-stock actor product _ p

recompute-stock :
    (actor : ℕ) (ids : List ℕ) (stock : Stock) (p : Pending)
    → p.db.stock ≡ stock
    → Ends (λ q. q.db.stock ≡ stock) (λ _. Unit {0}) (recompute_pending actor ids p)
unfolding recompute_pending
recompute-stock actor [] stock p e = e
recompute-stock actor (id ∷ ids) stock p e =
    Ends-then (λ q. q.db.stock ≡ stock) (λ _. Unit {0})
      (recompute_pending_of actor (get_product id p.db.products) p) _ (λ _ _. tt)
      λ q done. recompute-stock actor ids stock q (
        Ends-of_ok (λ r. r.db.stock ≡ p.db.stock) (λ _. Unit {0}) _ q
          (recompute_of-stock actor (get_product id p.db.products) p) done
        ∙ e)

module _ (opening : ℕ → ℤ) where
  -- The rows satisfy the CHECK constraints, and the ledger balances.
  pub record IsKept (s : Stock) : Type 0 where
    pub valid : IsValid s
    pub balanced : IsBalanced opening s

  written-IsKept :
      (actor v : ℕ) (row : InventoryCsvRow) (inv : Inventory) (target : ℤ) (s : Stock)
      → inventory_of v s.inventory ≡ some inv
      → inv.reserved ≤ℤ target
      → IsKept s
      → IsKept (written actor row inv target s)
  written-IsKept actor v row inv target s found backed h =
      let id : inv.variant_id ≡ v = inventory_of-variant_id v s.inventory inv found in
      record {
        valid =
            unfold write in
            put_inventory-IsValid (record inv { stock = target }) s.inventory
              ((inventory_of-IsValidRow v s.inventory inv h.valid found).0, backed) h.valid;
        balanced =
            write-IsBalanced opening inv (record inv { stock = target }) _ s
              (ap (λ i. inventory_of i s.inventory) id ∙ found) refl (omega int_laws) h.balanced;
      }

  row-IsKept :
      (actor n : ℕ) (row : InventoryCsvRow) (variants : List ProductVariant) (c : Chunk)
      → IsKept c.stock
      → IsKept (apply_row actor n row variants c).stock
  unfolding apply_row
  row-IsKept actor n row variants c h = elim (Option-cases (variant_by_sku row.sku variants)) [
    | inl e ↦ rw e h
    | inr (variant, e) ↦ elim (Option-cases (inventory_of variant.id c.stock.inventory)) [
      | inl gone ↦ rw (e, gone) h
      | inr (inv, found) ↦
          rw (e, found)
            (elim (target-stock actor n row variant inv
              (compute_target_stock row.mode row.value inv.stock) c) [
                | inl same ↦ subst IsKept (sym same) h
                | inr (backed, same) ↦ subst IsKept (sym same) (
                    written-IsKept actor variant.id row inv
                      (compute_target_stock row.mode row.value inv.stock) c.stock found backed h)
              ])
    ]
  ]

  rows-IsKept :
      (actor : ℕ) (variants : List ProductVariant) (rows : List (Numbered InventoryCsvRow))
      (c : Chunk)
      → IsKept c.stock
      → IsKept (apply_rows actor variants rows c).stock
  unfolding apply_rows
  rows-IsKept actor variants [] c h = h
  rows-IsKept actor variants (r ∷ rows) c h =
      rows-IsKept actor variants rows (apply_row actor r.row_number r.row variants c)
        (row-IsKept actor r.row_number r.row variants c h)

  known_rows-IsKept :
      (walk : List ℕ → List ℕ) (actor : ℕ) (rows : List (Numbered InventoryCsvRow)) (db : Db)
      → IsKept db.stock
      → Ends (λ o. IsKept o.after.stock) (λ _. Unit {0}) (apply_known_rows walk actor rows db)
  unfolding apply_known_rows
  known_rows-IsKept walk actor rows db h =
      Ends-then Kept Any (recompute_pending actor (walk c.affected) start) _ (λ _ _. tt)
        λ p done.
          Ends-then Kept Any (flush p.db.stock) _ (λ _ _. tt)
            λ stock flushed.
              subst IsKept
                (sym (
                  flush_same p.db.stock stock flushed
                  ∙ Ends-of_ok (λ q. q.db.stock ≡ c.stock) Any _ p
                      (recompute-stock actor (walk c.affected) c.stock start refl) done))
                (rows-IsKept actor db.variants rows (no_rows_yet db.stock) h)
    where
      c : Chunk
      c = apply_rows actor db.variants rows (no_rows_yet db.stock)

      start : Pending
      start = record { flushed = db.stock.inventory; db = record db { stock = c.stock } }

      Kept : Outcome Db → Type 0
      Kept o = IsKept o.after.stock

      Any : AppError → Type 0
      Any _ = Unit {0}

  -- A chunk of inventory rows keeps the CHECK constraints and the ledger: the stock of every variant is
  -- its opening stock plus the deltas of its movements; or it raises.
  pub apply_inventory-IsKept :
      (walk : List ℕ → List ℕ) (actor : ℕ) (rows : List (Numbered InventoryCsvRow)) (db : Db)
      → IsKept db.stock
      → Ends (λ o. IsKept o.after.stock) (λ _. Unit {0}) (apply_inventory walk actor rows db)
  unfolding apply_inventory
  apply_inventory-IsKept walk actor rows db h = elim (Bool-cases (any_known db.variants rows)) [
    | inl known ↦ rw known (known_rows-IsKept walk actor rows db h)
    | inr unknown ↦ rw unknown h
  ]
