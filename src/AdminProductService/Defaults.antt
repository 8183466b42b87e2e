-- ===== src/AdminProductService/Defaults.antt =====
-- The default variant of a product, under the requests that app/services/admin_product_service.py serves.
use oorvashee_backend.Prelude.{
  ℕ, ◌≡◌, ◌≢◌, ◌⊎◌, refl, sym, ap, ◌∙◌, inl, inr, Bool, true, false, List, [], ◌∷◌, ◌++◌, arith,
  Bool-cases,
}
use oorvashee_backend.Models.Stock.{Stock, Inventory}
use oorvashee_backend.Models.Catalog.{ProductVariant}
use oorvashee_backend.Exceptions.{AppError, ok, err}
use oorvashee_backend.Exceptions.Loops.{Ends, Ends-then, Ends-of_err}
use oorvashee_backend.Database.{Db}
use oorvashee_backend.InventoryService.{flush, check_rows, check_row}
use oorvashee_backend.AdminProductService.Counts.{
  HasIds, default_count, is_default_of, one_if, unique-count, count_unique, require_variant-elem,
  put_variant-count, count-append,
}
use oorvashee_backend.AdminProductService.Variants.{
  require_variant, insert_variant, put_variant, defaults_unique, sku_taken,
}
use oorvashee_backend.AdminProductService.Requests.{ProductRequest}

abbrev pub HasOneDefault : Db → Type 0
HasOneDefault db = defaults_unique db.variants ≡ true

-- Whether a request brings a SKU that is there already.
abbrev pub brings_taken_sku : ProductRequest → Db → Bool
brings_taken_sku (ProductRequest.add_variant new_id product_id payload) db =
    sku_taken payload.sku db.variants
brings_taken_sku _ db = false

-- No error is the partial unique index's, and a SKU is blamed only if it is taken.
abbrev pub Blames : Bool → AppError → Type 0
Blames taken e = (e ≢ AppError.unique_violation) × (e ≡ AppError.sku_already_exists → taken ≡ true)

default_at :
    (p : ℕ) (v : ProductVariant)
    → is_default_of p v ≡ true
    → (v.product_id ≡ p) × (v.is_default ≡ true)
default_at p v h = (ground (arith), ground (arith))

at_default :
    (p : ℕ) (v : ProductVariant) → v.product_id ≡ p → v.is_default ≡ true → is_default_of p v ≡ true
at_default p v e d = ground (arith)

-- Putting a variant back that is the default only if it was, or if none is.
pub put-HasOneDefault :
    (product_id id : ℕ) (variants : List ProductVariant) (v w : ProductVariant)
    → HasIds variants
    → require_variant product_id id variants ≡ ok v
    → w.id ≡ id
    → w.product_id ≡ v.product_id
    → (w.is_default ≡ true → (v.is_default ≡ true) ⊎ (default_count product_id variants ≡ 0))
    → defaults_unique variants ≡ true
    → defaults_unique (put_variant w variants) ≡ true
put-HasOneDefault product_id id variants v w d h same product defaults u =
    count_unique (put_variant w variants) (λ p.
      let moved = put_variant-count product_id id p variants v w d h same in
      let bound = unique-count variants u p in
      elim (Bool-cases (is_default_of p w)) [
        | inr n ↦ omega (arith, moved, bound, ap one_if n)
        | inl y ↦
            let at = default_at p w y in
            let there : product_id ≡ p =
              sym (require_variant-elem product_id id variants v h).1 ∙ sym product ∙ at.0 in
            elim (defaults at.1) [
              | inl was ↦ omega (
                arith,
                moved,
                bound,
                ap one_if y,
                ap one_if (at_default p v (sym product ∙ at.0) was),
              )
              | inr clear ↦
                  omega (arith, moved, ap one_if y, clear, ap (λ i. default_count i variants) there)
            ]
      ])

add_unique :
    (v : ProductVariant) (variants : List ProductVariant)
    → (v.is_default ≡ true → default_count v.product_id variants ≡ 0)
    → defaults_unique variants ≡ true
    → defaults_unique (variants ++ v ∷ []) ≡ true
add_unique v variants new u = count_unique (variants ++ v ∷ []) (λ p.
    let bound = unique-count variants u p in
    elim (Bool-cases (is_default_of p v)) [
      | inr n ↦ omega (arith, count-append p variants v, bound, ap one_if n)
      | inl y ↦
          let at = default_at p v y in
          omega (
            arith,
            count-append p variants v,
            new at.1,
            ap one_if y,
            ap (λ i. default_count i variants) at.0,
          )
    ])

-- What a check of the stock raises.
abbrev IsCheck : AppError → Type 0
IsCheck e = (e ≡ AppError.check_violation) ⊎ (e ≡ AppError.integer_out_of_range)

check_row-fails : (r : Inventory) (e : AppError) → check_row r ≡ err e → IsCheck e
unfolding check_row
check_row-fails r e h = ground (arith)

check_rows-fails : (rows : List Inventory) → Ends (λ _. Unit {0}) IsCheck (check_rows rows)
unfolding check_rows
check_rows-fails [] = tt
check_rows-fails (r ∷ rows) =
    Ends-then (λ _. Unit {0}) IsCheck (check_row r) (λ _. check_rows rows) (check_row-fails r)
      (λ _ _. check_rows-fails rows)

flush-fails : (s : Stock) → Ends (λ _. Unit {0}) IsCheck (flush s)
unfolding flush
flush-fails s =
    Ends-then (λ _. Unit {0}) IsCheck (check_rows s.inventory) (λ _. ok s)
      (λ e. Ends-of_err (λ _. Unit {0}) IsCheck _ e (check_rows-fails s.inventory)) (λ _ _. tt)

pub flush-Blames : (taken : Bool) (s : Stock) (e : AppError) → flush s ≡ err e → Blames taken e
flush-Blames taken s e h =
    elim (Ends-of_err (λ _. Unit {0}) IsCheck (flush s) e (flush-fails s) h) [
      | inl check ↦ ((λ p. cc), (λ p. cc))
      | inr range ↦ ((λ p. cc), (λ p. cc))
    ]

-- A guard of the service is no violation.
pub insert_variant_unique :
    (v : ProductVariant) (variants : List ProductVariant)
    → (v.is_default ≡ true → default_count v.product_id variants ≡ 0)
    → defaults_unique variants ≡ true
    → Ends
        (λ rows. defaults_unique rows ≡ true)
        (Blames (sku_taken v.sku variants))
        (insert_variant v variants)
unfolding insert_variant
insert_variant_unique v variants new u = elim (Bool-cases (sku_taken v.sku variants)) [
  | inl taken ↦ rw taken ((λ e. cc), (λ e. refl))
  | inr free ↦ rw (free, add_unique v variants new u) (add_unique v variants new u)
]
