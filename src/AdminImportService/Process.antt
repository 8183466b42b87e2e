-- ===== src/AdminImportService/Process.antt =====
-- `_process` of app/services/admin_import_service.py: the walk over a file in chunks, each of which is
-- committed. What the CSV reader yields is a list of raw rows, and a row's schema is a parameter, and so
-- is the step that applies the rows of a chunk.
use oorvashee_backend.Prelude.{
  ℕ, ◌+◌, ◌*◌, Bool, Option, none, some, List, [], ◌∷◌, ◌++◌, ltb, leb, if◌then◌else◌, length,
}
use oorvashee_backend.Exceptions.{Result, ok, ◌>>=◌}
use oorvashee_backend.AdminImportService.{Numbered, RowError, RowFault, Outcome}

abbrev pub default_chunk_size : ℕ
default_chunk_size = 100

abbrev pub max_recorded_errors : ℕ
max_recorded_errors = 1000

module _ {A : Type 0} where
  -- `if buf: yield chunk_index, buf`.
  abbrev pub last_chunk : ℕ → List A → List (ℕ × List A)
  last_chunk index [] = []
  last_chunk index (b ∷ buf) = (index, b ∷ buf) ∷ []

  -- What `_chunked_rows` yields: a chunk and its index.
  unfoldable pub chunks_from : ℕ → ℕ → List A → List A → List (ℕ × List A)
  chunks_from size index buf [] = last_chunk index buf
  chunks_from size index buf (row ∷ rows) =
      let full = chunks_from size (index + 1) [] rows in
      let more = chunks_from size index (buf ++ row ∷ []) rows in
      if leb size (length (buf ++ row ∷ [])) then (index, buf ++ row ∷ []) ∷ full else more

  unfoldable pub chunked_rows : ℕ → List A → List (ℕ × List A)
  unfolding chunks_from
  chunked_rows size rows = chunks_from size 0 [] rows

  -- `enumerate(chunk)`, with the line of the file: the header is line 1.
  unfoldable pub number_from : ℕ → ℕ → ℕ → List A → List (Numbered A)
  number_from size index offset [] = []
  number_from size index offset (row ∷ rows) =
      record { row_number = index * size + offset + 2; row = row }
      ∷ number_from size index (offset + 1) rows

pub record Progress (S : Type 0) : Type 0 where
  pub rows_processed : ℕ
  pub rows_succeeded : ℕ
  pub rows_failed : ℕ
  pub errors_recorded : List RowError
  pub state : S

-- The `for` loop that records the errors of a chunk, up to the cap.
unfoldable pub record_errors : List RowError → List RowError → List RowError
record_errors recorded [] = recorded
record_errors recorded (e ∷ errors) =
    let rest = record_errors (recorded ++ e ∷ []) errors in
    if ltb (length recorded) max_recorded_errors then rest else recorded

abbrev pub invalid_row : ℕ → RowError
invalid_row n = record { row_number = n; fault = RowFault.invalid }

module _ {Raw Row : Type 0} (validate : Raw → Option Row) where
  abbrev valid_if : Numbered Raw → Option Row → List (Numbered Row) → List (Numbered Row)
  valid_if r none valid = valid
  valid_if r (some row) valid = record { row_number = r.row_number; row = row } ∷ valid

  abbrev error_if : Numbered Raw → Option Row → List RowError → List RowError
  error_if r none errors = invalid_row r.row_number ∷ errors
  error_if r (some row) errors = errors

  -- `valid_rows` and `chunk_errors` of a chunk.
  unfoldable pub valid_rows : List (Numbered Raw) → List (Numbered Row)
  valid_rows [] = []
  valid_rows (r ∷ rows) = valid_if r (validate r.row) (valid_rows rows)

  unfoldable pub chunk_errors : List (Numbered Raw) → List RowError
  chunk_errors [] = []
  chunk_errors (r ∷ rows) = error_if r (validate r.row) (chunk_errors rows)

abbrev pub first_number : {Row : Type 0} → List (Numbered Row) → ℕ
first_number [] = 0
first_number (r ∷ rows) = r.row_number

abbrev pub count_chunk : {S : Type 0} → List RowError → ℕ → Progress S → Progress S
count_chunk errors n p = record p {
  rows_succeeded = p.rows_succeeded + n;
  rows_failed = p.rows_failed + length errors;
  errors_recorded = record_errors p.errors_recorded errors;
}

module _ {Row S : Type 0} where
  -- The commit of a chunk, or its rollback.
  unfoldable pub commit_chunk :
      Bool → List (Numbered Row) → List RowError → Outcome S → Progress S → Progress S
  unfolding record_errors
  commit_chunk accepted valid errors o p =
      let all_errors = errors ++ o.persist_errors in
      let refused =
        all_errors
        ++ record { row_number = first_number valid; fault = RowFault.chunk_refused } ∷ [] in
      if accepted
      then record p {
        rows_succeeded = p.rows_succeeded + o.applied_ok;
        rows_failed = p.rows_failed + length all_errors;
        errors_recorded = record_errors p.errors_recorded all_errors;
        state = o.after;
      }
      else record p {
        rows_failed = p.rows_failed + length valid + length refused;
        errors_recorded = record_errors p.errors_recorded refused;
      }

  module _ (apply_chunk : List (Numbered Row) → S → Result (Outcome S)) (commits : S → Bool)
      (dry_run : Bool) where
    abbrev pub persist_chunk :
        List (Numbered Row) → List RowError → Progress S → Result (Progress S)
    persist_chunk [] errors p = ok (count_chunk errors 0 p)
    persist_chunk (r ∷ valid) errors p =
        if dry_run
        then ok (count_chunk errors (length (r ∷ valid)) p)
        else (apply_chunk (r ∷ valid) p.state >>= λ o.
            ok (commit_chunk (commits o.after) (r ∷ valid) errors o p))

module _ {Raw Row S : Type 0} (validate : Raw → Option Row)
    (apply_chunk : List (Numbered Row) → S → Result (Outcome S)) (commits : S → Bool)
    (dry_run : Bool) where
  unfoldable pub process_chunk : ℕ → ℕ × List Raw → Progress S → Result (Progress S)
  unfolding number_from valid_rows chunk_errors commit_chunk record_errors
  process_chunk size (index, chunk) p =
      let rows = number_from size index 0 chunk in
      persist_chunk apply_chunk commits dry_run (valid_rows validate rows)
        (chunk_errors validate rows) p
      >>= λ q. ok (record q { rows_processed = q.rows_processed + length chunk })

  unfoldable pub process_chunks : ℕ → List (ℕ × List Raw) → Progress S → Result (Progress S)
  unfolding process_chunk
  process_chunks size [] p = ok p
  process_chunks size (c ∷ chunks) p = process_chunk size c p >>= λ q. process_chunks size chunks q

  -- The tallies and the errors that the finished job shows, and what is committed.
  unfoldable pub process : List Raw → S → Result (Progress S)
  unfolding process_chunks chunked_rows
  process rows state =
      process_chunks default_chunk_size (chunked_rows default_chunk_size rows) (record {
        rows_processed = 0;
        rows_succeeded = 0;
        rows_failed = 0;
        errors_recorded = [];
        state = state;
      })
