-- ===== src/AdminImportService/Counts.antt =====
-- The walk of app/services/admin_import_service.py over a file: the numbers of
-- the rows.
use mathlib.Core.List.{append-nil, append_assoc}
use mathlib.Core.Path.{ap₂}
use oorvashee_backend.Prelude.{
  ℕ, ◌+◌, ◌*◌, ◌<◌, ◌≡◌, refl, sym, ap, ◌∙◌, inl, inr, List, [], ◌∷◌, ◌++◌, leb, arith, length,
  length-append, Bool-cases,
}
use oorvashee_backend.AdminImportService.{Numbered}
use oorvashee_backend.AdminImportService.Process.{
  last_chunk, chunks_from, chunked_rows, number_from,
}

module _ {A : Type 0} where
  -- The lines of a file, from a given one on.
  abbrev pub lines_from : ℕ → List A → List (Numbered A)
  lines_from n [] = []
  lines_from n (row ∷ rows) = record { row_number = n; row = row } ∷ lines_from (n + 1) rows

  -- All the rows of all the chunks, as they are numbered.
  abbrev pub numbered_chunks : ℕ → List (ℕ × List A) → List (Numbered A)
  numbered_chunks size [] = []
  numbered_chunks size (c ∷ chunks) = number_from size c.0 0 c.1 ++ numbered_chunks size chunks

  number_from-lines :
      (size index offset n : ℕ) (rows : List A)
      → index * size + offset + 2 ≡ n
      → number_from size index offset rows ≡ lines_from n rows
  unfolding number_from
  number_from-lines size index offset n [] e = refl
  number_from-lines size index offset n (row ∷ rows) e =
      rw (e, number_from-lines size index (offset + 1) (n + 1) rows (omega arith)) refl

  lines_from-append :
      (n m : ℕ) (xs ys : List A)
      → n + length xs ≡ m
      → lines_from n (xs ++ ys) ≡ lines_from n xs ++ lines_from m ys
  lines_from-append n m [] ys e = ap (λ k. lines_from k ys) (omega arith)
  lines_from-append n m (x ∷ xs) ys e =
      ap (λ l. record { row_number = n; row = x } ∷ l)
        (lines_from-append (n + 1) m xs ys (omega arith))

  last_chunk-lines :
      (size index : ℕ) (buf : List A)
      → numbered_chunks size (last_chunk index buf) ≡ lines_from (index * size + 2) buf
  last_chunk-lines size index [] = refl
  last_chunk-lines size index (b ∷ buf) =
      append-nil _ ∙ number_from-lines size index 0 (index * size + 2) (b ∷ buf) (omega arith)

  chunks_from-lines :
      (size index : ℕ) (buf rows : List A)
      → length buf < size
      → numbered_chunks size (chunks_from size index buf rows)
        ≡ lines_from (index * size + 2) (buf ++ rows)
  unfolding chunks_from
  chunks_from-lines size index buf [] h =
      last_chunk-lines size index buf ∙ ap (lines_from (index * size + 2)) (sym (append-nil buf))
  chunks_from-lines size index buf (row ∷ rows) h =
      elim (Bool-cases (leb size (length (buf ++ row ∷ [])))) [
        | inl full ↦
            let whole : length (buf ++ row ∷ []) ≡ size = ground (arith, grown) in
            rw full (
              ap₂ ◌++◌
                (number_from-lines size index 0 (index * size + 2) (buf ++ row ∷ []) (omega arith))
                (chunks_from-lines size (index + 1) [] rows (omega arith))
              ∙ sym (
                  lines_from-append (index * size + 2) ((index + 1) * size + 2) (buf ++ row ∷ [])
                    rows (omega (arith, whole)))
              ∙ regrouped)
        | inr more ↦ rw more (
            chunks_from-lines size index (buf ++ row ∷ []) rows (ground (arith, grown)) ∙ regrouped)
      ]
    where
      grown : length (buf ++ row ∷ []) ≡ length buf + 1
      grown = length-append buf (row ∷ [])

      regrouped :
          lines_from (index * size + 2) ((buf ++ row ∷ []) ++ rows)
          ≡ lines_from (index * size + 2) (buf ++ row ∷ rows)
      regrouped = ap (lines_from (index * size + 2)) (append_assoc buf (row ∷ []) rows)

  -- The chunks hold the rows of the file in order, each with its line: the first data row is on
  -- line 2. The size of a chunk is not 0.
  pub chunked_rows-lines :
      (size : ℕ) (rows : List A)
      → 0 < size
      → numbered_chunks size (chunked_rows size rows) ≡ lines_from 2 rows
  unfolding chunked_rows
  chunked_rows-lines size rows h =
      chunks_from-lines size 0 [] rows h ∙ ap (λ n. lines_from n rows) (omega arith)
