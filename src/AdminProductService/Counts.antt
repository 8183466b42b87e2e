-- ===== src/AdminProductService/Counts.antt =====
-- The default variants of a product, counted (app/services/admin_product_service.py).
use oorvashee_backend.Prelude.{
  ℕ, ◌+◌, ◌≤◌, ◌≡◌, refl, ap, inl, inr, Bool, true, false, ◌&&◌, List, [], ◌∷◌, ◌++◌, ◌==◌,
  if◌then◌else◌, arith, Bool-cases, count_if, map, Distinct, elem,
}
use oorvashee_backend.Models.Catalog.{ProductVariant}
use oorvashee_backend.Exceptions.{ok}
use oorvashee_backend.AdminProductService.Variants.{
  has_default, defaults_unique, sku_taken, clear_default, require_variant, put_variant,
}

abbrev pub variant_id : ProductVariant → ℕ
variant_id v = v.id

abbrev pub HasIds : List ProductVariant → Type 0
HasIds variants = Distinct (map variant_id variants)

abbrev pub is_default_of : ℕ → ProductVariant → Bool
is_default_of p v = v.product_id == p && v.is_default

abbrev pub default_count : ℕ → List ProductVariant → ℕ
default_count p variants = count_if (is_default_of p) variants

pub has_default-count :
    (p : ℕ) (variants : List ProductVariant)
    → (has_default p variants ≡ true → 1 ≤ default_count p variants)
      × (has_default p variants ≡ false → default_count p variants ≡ 0)
unfolding has_default
has_default-count p [] = ((λ h. cc), (λ h. refl))
has_default-count p (v ∷ variants) =
    let rest = has_default-count p variants in
    ((λ h. ground (arith, rest.0)), (λ h. ground (arith, rest.1)))

unique-tail :
    (v : ProductVariant) (variants : List ProductVariant)
    → defaults_unique (v ∷ variants) ≡ true
    → (defaults_unique variants ≡ true)
      × (v.is_default ≡ true → has_default v.product_id variants ≡ false)
unfolding defaults_unique
unique-tail v variants h = (ground (arith), λ d. ground (arith))

pub unique-count :
    (variants : List ProductVariant)
    → defaults_unique variants ≡ true
    → (p : ℕ) → default_count p variants ≤ 1
unique-count [] h p = omega arith
unique-count (v ∷ variants) h p =
    let (tail, others) = unique-tail v variants h in
    let below = unique-count variants tail p in
    elim (Bool-cases (is_default_of p v)) [
      | inl d ↦
          let same : v.product_id ≡ p = ground (arith) in
          let none_else = (has_default-count v.product_id variants).1 (others (ground (arith))) in
          rw d (omega (arith, none_else, ap (λ i. default_count i variants) same))
      | inr n ↦ rw n (omega (arith, below))
    ]

pub count_unique :
    (variants : List ProductVariant)
    → ((p : ℕ) → default_count p variants ≤ 1)
    → defaults_unique variants ≡ true
unfolding defaults_unique
count_unique [] h = refl
count_unique (v ∷ variants) h = ground (
  arith,
  count_unique variants (λ p. grind (arith, h p)),
  has_default-count v.product_id variants,
  h v.product_id,
)

pub clear-count :
    (id p : ℕ) (variants : List ProductVariant)
    → default_count p (clear_default id variants)
      ≡ (if id == p then 0 else default_count p variants)
unfolding clear_default
clear-count id p [] = ground arith
clear-count id p (v ∷ variants) = ground (arith, clear-count id p variants)

pub clear-ids :
    (id : ℕ) (variants : List ProductVariant)
    → map variant_id (clear_default id variants) ≡ map variant_id variants
unfolding clear_default
clear-ids id [] = refl
clear-ids id (v ∷ variants) = ground (arith, clear-ids id variants)

pub clear-sku :
    (id sku : ℕ) (variants : List ProductVariant)
    → sku_taken sku (clear_default id variants) ≡ sku_taken sku variants
unfolding clear_default sku_taken
clear-sku id sku [] = refl
clear-sku id sku (v ∷ variants) = ground (arith, clear-sku id sku variants)

pub require_variant-elem :
    (product_id id : ℕ) (variants : List ProductVariant) (v : ProductVariant)
    → require_variant product_id id variants ≡ ok v
    → (v.id ≡ id) × (v.product_id ≡ product_id) × (elem id (map variant_id variants) ≡ true)
unfolding require_variant
require_variant-elem product_id id [] v h = cc
require_variant-elem product_id id (w ∷ variants) v h =
    ground (arith, require_variant-elem product_id id variants v)

-- A variant that is no default is found as it was.
pub require_variant-clear :
    (product_id id : ℕ) (variants : List ProductVariant) (v : ProductVariant)
    → require_variant product_id id variants ≡ ok v
    → v.is_default ≡ false
    → require_variant product_id id (clear_default product_id variants) ≡ ok v
unfolding require_variant clear_default
require_variant-clear product_id id [] v h d = cc
require_variant-clear product_id id (w ∷ variants) v h d =
    ground (arith, require_variant-clear product_id id variants v)

abbrev pub one_if : Bool → ℕ
one_if b = if b then 1 else 0

pub put_variant-count :
    (product_id id p : ℕ) (variants : List ProductVariant) (v w : ProductVariant)
    → HasIds variants
    → require_variant product_id id variants ≡ ok v
    → w.id ≡ id
    → default_count p (put_variant w variants) + one_if (is_default_of p v)
      ≡ default_count p variants + one_if (is_default_of p w)
unfolding require_variant put_variant
put_variant-count product_id id p [] v w d h same = cc
put_variant-count product_id id p (x ∷ variants) v w d h same = ground (
  arith,
  put_variant-count product_id id p variants v w (d.1),
  require_variant-elem product_id id variants v,
)

pub count-append :
    (p : ℕ) (variants : List ProductVariant) (v : ProductVariant)
    → default_count p (variants ++ v ∷ []) ≡ default_count p variants + one_if (is_default_of p v)
count-append p [] v = omega arith
count-append p (w ∷ variants) v = omega (arith, count-append p variants v)
