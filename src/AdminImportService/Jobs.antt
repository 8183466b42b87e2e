-- ===== src/AdminImportService/Jobs.antt =====
-- Jobs over inventory rows (app/services/admin_import_service.py): tallies and dry runs.
use oorvashee_backend.Prelude.{
  ℕ, suc, ◌+◌, ◌≡◌, refl, ap, ◌∙◌, inl, inr, Bool, true, Option, List, [], ◌∷◌, ◌++◌, arith, length,
  length-append, Bool-cases,
}
use oorvashee_backend.Exceptions.{AppError, Result}
use oorvashee_backend.Exceptions.Loops.{Ends, Ends-then, Ends-of_ok, Ends-of_err}
use oorvashee_backend.Database.{Db}
use oorvashee_backend.Models.Catalog.{ProductVariant}
use oorvashee_backend.InventoryService.{flush}
use oorvashee_backend.AdminImportService.{
  Numbered, RowError, RowFault, Outcome, InventoryCsvRow, Chunk, apply_row, apply_rows,
  apply_target, apply_inventory, apply_known_rows, recompute_pending, no_rows_yet, any_known,
  all_unknown,
}
use oorvashee_backend.AdminImportService.Process.{
  Progress, chunked_rows, number_from, valid_rows, chunk_errors, persist_chunk, process_chunk,
  process_chunks, process, default_chunk_size,
}
use oorvashee_backend.AdminImportService.Tallies.{IsTallied, process-IsTallied}

-- Every row of a chunk of inventory rows is applied or refused, once.
abbrev tally : Chunk → ℕ
tally c = c.applied + length c.errors

apply_row-tally :
    (actor n : ℕ) (row : InventoryCsvRow) (variants : List ProductVariant) (c : Chunk)
    → tally (apply_row actor n row variants c) ≡ tally c + 1
unfolding apply_row apply_target
apply_row-tally actor n row variants c = ground (
  arith,
  refused RowFault.variant_not_found,
  refused RowFault.inventory_missing,
  refused RowFault.below_zero,
  refused RowFault.below_reserved,
)
  where
    refused :
        (fault : RowFault)
        → length (c.errors ++ record { row_number = n; fault = fault } ∷ []) ≡ length c.errors + 1
    refused fault = length-append c.errors (record { row_number = n; fault = fault } ∷ [])

apply_rows-tally :
    (actor : ℕ) (variants : List ProductVariant) (rows : List (Numbered InventoryCsvRow))
    (c : Chunk)
    → tally (apply_rows actor variants rows c) ≡ tally c + length rows
unfolding apply_rows
apply_rows-tally actor variants [] c = omega arith
apply_rows-tally actor variants (r ∷ rows) c = omega (
  arith,
  apply_row-tally actor r.row_number r.row variants c,
  apply_rows-tally actor variants rows (apply_row actor r.row_number r.row variants c),
)

length-all_unknown :
    (rows : List (Numbered InventoryCsvRow)) → length (all_unknown rows) ≡ length rows
length-all_unknown [] = refl
length-all_unknown (r ∷ rows) = ap suc (length-all_unknown rows)

module _ (walk : List ℕ → List ℕ) (actor : ℕ) where
  known_rows-tally :
      (rows : List (Numbered InventoryCsvRow)) (db : Db)
      → Ends
          (λ o. o.applied_ok + length o.persist_errors ≡ length rows)
          (λ _. Unit {0})
          (apply_known_rows walk actor rows db)
  unfolding apply_known_rows
  known_rows-tally rows db =
      Ends-then P E (recompute_pending actor (walk c.affected) _) _ (λ _ _. tt)
        λ p _.
          Ends-then P E (flush p.db.stock) _ (λ _ _. tt)
            λ stock _. omega (arith, apply_rows-tally actor db.variants rows (no_rows_yet db.stock))
    where
      c : Chunk
      c = apply_rows actor db.variants rows (no_rows_yet db.stock)

      P : Outcome Db → Type 0
      P o = o.applied_ok + length o.persist_errors ≡ length rows

      E : AppError → Type 0
      E _ = Unit {0}

  inventory-tally :
      (rows : List (Numbered InventoryCsvRow)) (db : Db)
      → Ends
          (λ o. o.applied_ok + length o.persist_errors ≡ length rows)
          (λ _. Unit {0})
          (apply_inventory walk actor rows db)
  unfolding apply_inventory
  inventory-tally rows db = elim (Bool-cases (any_known db.variants rows)) [
    | inl known ↦ rw known (known_rows-tally rows db)
    | inr unknown ↦ rw unknown (omega (arith, length-all_unknown rows))
  ]

  -- A job over inventory rows, whose commits the database accepts, ends with every row of the file
  -- processed, and each counted once, as applied or as failed; no more than a thousand errors are
  -- recorded. Or it raises. It holds of a dry run too.
  pub inventory_job-IsTallied :
      {Raw : Type 0} (validate : Raw → Option InventoryCsvRow) (commits : Db → Bool)
      (dry_run : Bool) (rows : List Raw) (db : Db)
      → ((s : Db) → commits s ≡ true)
      → Ends
          (IsTallied (length rows))
          (λ _. Unit {0})
          (process validate (apply_inventory walk actor) commits dry_run rows db)
  inventory_job-IsTallied validate commits dry_run rows db accepted =
      process-IsTallied validate (apply_inventory walk actor) commits dry_run accepted
        inventory-tally rows db

module _ {Raw Row S : Type 0} (validate : Raw → Option Row)
    (apply_chunk : List (Numbered Row) → S → Result (Outcome S)) (commits : S → Bool) where
  dry_rows :
      (valid : List (Numbered Row)) (errors : List RowError) (p : Progress S)
      → Ends
          (λ q. q.state ≡ p.state)
          (λ _. ⊥)
          (persist_chunk apply_chunk commits true valid errors p)
  dry_rows [] errors p = refl
  dry_rows (r ∷ valid) errors p = refl

  dry_chunk :
      (size : ℕ) (c : ℕ × List Raw) (p : Progress S)
      → Ends
          (λ q. q.state ≡ p.state)
          (λ _. ⊥)
          (process_chunk validate apply_chunk commits true size c p)
  unfolding process_chunk
  dry_chunk size (index, chunk) p =
      Ends-then (λ q. q.state ≡ p.state) (λ _. ⊥)
        (persist_chunk apply_chunk commits true (valid_rows validate rows)
          (chunk_errors validate rows) p)
        _ (λ e. Ends-of_err (λ q. q.state ≡ p.state) (λ _. ⊥) _ e kept)
        λ q e. Ends-of_ok (λ r. r.state ≡ p.state) (λ _. ⊥) _ q kept e
    where
      rows : List (Numbered Raw)
      rows = number_from size index 0 chunk

      kept :
          Ends
            (λ q. q.state ≡ p.state)
            (λ _. ⊥)
            (persist_chunk apply_chunk commits true
              (valid_rows validate rows)
              (chunk_errors validate rows)
              p)
      kept = dry_rows (valid_rows validate rows) (chunk_errors validate rows) p

  dry_chunks :
      (size : ℕ) (chunks : List (ℕ × List Raw)) (state : S) (p : Progress S)
      → p.state ≡ state
      → Ends
          (λ q. q.state ≡ state)
          (λ _. ⊥)
          (process_chunks validate apply_chunk commits true size chunks p)
  unfolding process_chunks
  dry_chunks size [] state p h = h
  dry_chunks size (c ∷ chunks) state p h =
      Ends-then (λ q. q.state ≡ state) (λ _. ⊥)
        (process_chunk validate apply_chunk commits true size c p) _
        (λ e. Ends-of_err (λ q. q.state ≡ p.state) (λ _. ⊥) _ e (dry_chunk size c p))
        λ q e.
          dry_chunks size chunks state q
            (Ends-of_ok (λ r. r.state ≡ p.state) (λ _. ⊥) _ q (dry_chunk size c p) e ∙ h)

  -- A dry run ends without an error, and leaves the tables as they were.
  pub process-dry_run :
      (rows : List Raw) (state : S)
      → Ends (λ p. p.state ≡ state) (λ _. ⊥) (process validate apply_chunk commits true rows state)
  unfolding process
  process-dry_run rows state =
      dry_chunks default_chunk_size (chunked_rows default_chunk_size rows) state _ refl
