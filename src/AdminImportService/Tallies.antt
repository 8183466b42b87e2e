-- ===== src/AdminImportService/Tallies.antt =====
-- The tallies of a job of app/services/admin_import_service.py.
use oorvashee_backend.Prelude.{
  ℕ, ◌+◌, ◌≤◌, ◌≡◌, refl, ap, ◌∙◌, inl, inr, Bool, true, Option, List, [], ◌∷◌, ◌++◌, ltb, arith,
  length, length-append, Bool-cases, Option-cases,
}
use oorvashee_backend.Exceptions.{Result}
use oorvashee_backend.Exceptions.Loops.{Ends, Ends-then, Ends-of_ok}
use oorvashee_backend.AdminImportService.{Numbered, RowError, Outcome}
use oorvashee_backend.AdminImportService.Process.{
  Progress, last_chunk, chunks_from, chunked_rows, number_from, record_errors, valid_rows,
  chunk_errors, commit_chunk, persist_chunk, process_chunk, process_chunks, process,
  max_recorded_errors, default_chunk_size,
}

module _ {A : Type 0} where
  length-number_from :
      (size index offset : ℕ) (rows : List A)
      → length (number_from size index offset rows) ≡ length rows
  unfolding number_from
  length-number_from size index offset [] = refl
  length-number_from size index offset (row ∷ rows) =
      omega (arith, length-number_from size index (offset + 1) rows)

  abbrev total_length : List (ℕ × List A) → ℕ
  total_length [] = 0
  total_length (c ∷ chunks) = length (c.1) + total_length chunks

  total_length-last : (index : ℕ) (buf : List A) → total_length (last_chunk index buf) ≡ length buf
  total_length-last index [] = refl
  total_length-last index (b ∷ buf) = omega arith

  total_length-chunks :
      (size index : ℕ) (buf rows : List A)
      → total_length (chunks_from size index buf rows) ≡ length buf + length rows
  unfolding chunks_from
  total_length-chunks size index buf [] = omega (arith, total_length-last index buf)
  total_length-chunks size index buf (row ∷ rows) = ground (
    arith,
    length-append buf (row ∷ []),
    total_length-chunks size (index + 1) [] rows,
    total_length-chunks size index (buf ++ row ∷ []) rows,
  )

length-record_errors :
    (errors recorded : List RowError)
    → length recorded ≤ max_recorded_errors
    → length (record_errors recorded errors) ≤ max_recorded_errors
unfolding record_errors
length-record_errors [] recorded h = h
length-record_errors (e ∷ errors) recorded h =
    elim (Bool-cases (ltb (length recorded) max_recorded_errors)) [
      | inl room ↦ rw room (
          length-record_errors errors (recorded ++ e ∷ [])
            (ground (arith, length-append recorded (e ∷ []))))
      | inr full ↦ rw full h
    ]

-- So many rows have been processed, each of which has succeeded or failed, and the recorded errors stay
-- within the cap.
pub record IsTallied {S : Type 0} (n : ℕ) (p : Progress S) : Type 0 where
  pub processed : p.rows_processed ≡ n
  pub counted : p.rows_succeeded + p.rows_failed ≡ n
  pub capped : length p.errors_recorded ≤ max_recorded_errors

module _ {Raw Row : Type 0} (validate : Raw → Option Row) where
  rows_split :
      (rows : List (Numbered Raw))
      → length (valid_rows validate rows) + length (chunk_errors validate rows) ≡ length rows
  unfolding valid_rows chunk_errors
  rows_split [] = refl
  rows_split (r ∷ rows) = elim (Option-cases (validate r.row)) [
    | inl e ↦ rw e (omega (arith, rows_split rows))
    | inr (row, e) ↦ rw e (omega (arith, rows_split rows))
  ]

-- The tallies while a chunk is under way: its rows have been counted, and not yet as processed.
record IsCounted {S : Type 0} (processed counted : ℕ) (p : Progress S) : Type 0 where
  same : p.rows_processed ≡ processed
  all : p.rows_succeeded + p.rows_failed ≡ counted
  capped : length p.errors_recorded ≤ max_recorded_errors

module _ {Raw Row S : Type 0} (validate : Raw → Option Row)
    (apply_chunk : List (Numbered Row) → S → Result (Outcome S)) (commits : S → Bool)
    (dry_run : Bool) (accepted : (s : S) → commits s ≡ true)
    (accounts : (rows : List (Numbered Row)) (s : S)
      → Ends
          (λ o. o.applied_ok + length o.persist_errors ≡ length rows)
          (λ _. Unit {0})
          (apply_chunk rows s)) where
  commit-IsCounted :
      (n m : ℕ) (valid : List (Numbered Row)) (errors : List RowError) (o : Outcome S)
      (p : Progress S)
      → o.applied_ok + length o.persist_errors ≡ length valid
      → length valid + length errors ≡ m
      → IsTallied n p
      → IsCounted n (n + m) (commit_chunk true valid errors o p)
  unfolding commit_chunk
  commit-IsCounted n m valid errors o p e k h = record {
    same = h.processed;
    all = omega (arith, h.counted, length-append errors o.persist_errors);
    capped = length-record_errors (errors ++ o.persist_errors) p.errors_recorded h.capped;
  }

  persist-IsCounted :
      (n m : ℕ) (valid : List (Numbered Row)) (errors : List RowError) (p : Progress S)
      → length valid + length errors ≡ m
      → IsTallied n p
      → Ends
          (IsCounted n (n + m))
          (λ _. Unit {0})
          (persist_chunk apply_chunk commits dry_run valid errors p)
  persist-IsCounted n m [] errors p k h = record {
    same = h.processed;
    all = omega (arith, h.counted);
    capped = length-record_errors errors p.errors_recorded h.capped;
  }
  persist-IsCounted n m (r ∷ valid) errors p k h = elim (Bool-cases dry_run) [
    | inl dry ↦ rw dry (record {
      same = h.processed;
      all = omega (arith, h.counted);
      capped = length-record_errors errors p.errors_recorded h.capped;
    })
    | inr wet ↦ rw wet (
        Ends-then (IsCounted n (n + m)) (λ _. Unit {0}) (apply_chunk (r ∷ valid) p.state) _
          (λ _ _. tt)
          λ o e. rw (accepted o.after) (
            commit-IsCounted n m (r ∷ valid) errors o p
              (Ends-of_ok (λ q. q.applied_ok + length q.persist_errors ≡ length (r ∷ valid))
                (λ _. Unit {0}) _ o (accounts (r ∷ valid) p.state) e)
              k h))
  ]

  process_chunk-IsTallied :
      (n size : ℕ) (c : ℕ × List Raw) (p : Progress S)
      → IsTallied n p
      → Ends
          (IsTallied (n + length (c.1)))
          (λ _. Unit {0})
          (process_chunk validate apply_chunk commits dry_run size c p)
  unfolding process_chunk
  process_chunk-IsTallied n size (index, chunk) p h =
      Ends-then (IsTallied (n + length chunk)) (λ _. Unit {0})
        (persist_chunk apply_chunk commits dry_run (valid_rows validate rows)
          (chunk_errors validate rows) p)
        _ (λ _ _. tt)
        λ q e.
          let counted : IsCounted n (n + length chunk) q =
            Ends-of_ok (IsCounted n (n + length chunk)) (λ _. Unit {0}) _ q
              (persist-IsCounted n (length chunk) (valid_rows validate rows)
                (chunk_errors validate rows) p
                (rows_split validate rows ∙ length-number_from size index 0 chunk) h)
              e in
          record {
            processed = ap (λ k. k + length chunk) counted.same;
            counted = counted.all;
            capped = counted.capped;
          }
    where
      rows : List (Numbered Raw)
      rows = number_from size index 0 chunk

  process_chunks-IsTallied :
      (n m size : ℕ) (chunks : List (ℕ × List Raw)) (p : Progress S)
      → n + total_length chunks ≡ m
      → IsTallied n p
      → Ends
          (IsTallied m)
          (λ _. Unit {0})
          (process_chunks validate apply_chunk commits dry_run size chunks p)
  unfolding process_chunks
  process_chunks-IsTallied n m size [] p e h = omega arith
  process_chunks-IsTallied n m size (c ∷ chunks) p e h =
      Ends-then (IsTallied m) (λ _. Unit {0})
        (process_chunk validate apply_chunk commits dry_run size c p) _ (λ _ _. tt)
        λ q done. process_chunks-IsTallied (n + length (c.1)) m size chunks q (omega arith) (
          Ends-of_ok (IsTallied (n + length (c.1))) (λ _. Unit {0}) _ q
            (process_chunk-IsTallied n size c p h) done)

  pub process-IsTallied :
      (rows : List Raw) (state : S)
      → Ends
          (IsTallied (length rows))
          (λ _. Unit {0})
          (process validate apply_chunk commits dry_run rows state)
  unfolding process chunked_rows
  process-IsTallied rows state =
      process_chunks-IsTallied 0 (length rows) default_chunk_size
        (chunked_rows default_chunk_size rows) _
        (omega (arith, total_length-chunks default_chunk_size 0 [] rows)) (omega arith)
