-- ===== src/AdminProductService/Updates.antt =====
-- The update and the deactivation of a variant (app/services/admin_product_service.py).
use mathlib.Core.Path.{subst}
use oorvashee_backend.Prelude.{
  ℕ, ◌≡◌, ◌⊎◌, refl, sym, ◌∙◌, inl, inr, Bool, true, false, ◌&&◌, not, none, some, List, [], ◌∷◌,
  ◌==◌, arith, Bool-cases, Distinct,
}
use oorvashee_backend.Models.Catalog.{ProductVariant, VariantField}
use oorvashee_backend.Exceptions.{AppError, Result, ok, err, ◌>>=◌, raise_if}
use oorvashee_backend.Exceptions.Loops.{Ends-then}
use oorvashee_backend.Schemas.Changes.{Change, given}
use oorvashee_backend.Database.{Db}
use oorvashee_backend.AdminProductService.Counts.{
  HasIds, clear-ids, require_variant-elem, require_variant-clear,
}
use oorvashee_backend.AdminProductService.Variants.{
  AdminVariantUpdate, update_variant, deactivate_variant, require_variant, is_no_change,
  changed_flag, apply_changes, flush_variants, clear_default_if, clear_default, cleared_for,
  put_variant, deactivated, defaults_unique, is_true, variant_diff, audit_variant,
}
use oorvashee_backend.AdminProductService.Defaults.{HasOneDefault, Blames, put-HasOneDefault}
use oorvashee_backend.AdminProductService.Tidies.{Tidies, clear_unique, cleared-none}

-- The flush passes where the index is satisfied.
flush_variants-passes :
    (rows : List ProductVariant) → defaults_unique rows ≡ true → flush_variants rows ≡ ok rows
unfolding flush_variants
flush_variants-passes rows u = rw u refl

changed-default :
    (change : Change Bool) (old now : Bool)
    → changed_flag change old ≡ ok now
    → now ≡ true
    → (old ≡ true) ⊎ (is_true (given change) && not old ≡ true)
changed-default none old now h d = ground (arith)
changed-default (some none) old now h d = ground (arith)
changed-default (some (some flag)) old now h d = ground (arith)

changed_flag-Blames :
    (taken : Bool) (change : Change Bool) (old : Bool) (e : AppError)
    → changed_flag change old ≡ err e
    → Blames taken e
changed_flag-Blames taken none old e h = cc
changed_flag-Blames taken (some none) old e h = ((λ p. ground (arith)), (λ p. ground (arith)))
changed_flag-Blames taken (some (some flag)) old e h = cc

put_cleared_unique :
    (flag : Bool) (product_id id : ℕ) (variants : List ProductVariant) (v w : ProductVariant)
    → HasIds variants
    → require_variant product_id id variants ≡ ok v
    → w.id ≡ v.id
    → w.product_id ≡ v.product_id
    → (flag ≡ true → v.is_default ≡ false)
    → (w.is_default ≡ true → (v.is_default ≡ true) ⊎ (flag ≡ true))
    → defaults_unique variants ≡ true
    → defaults_unique (put_variant w (clear_default_if flag product_id variants)) ≡ true
put_cleared_unique true product_id id variants v w d h same product plain defaults u =
    put-HasOneDefault product_id id (clear_default product_id variants) v w
      (subst Distinct (sym (clear-ids product_id variants)) d)
      (require_variant-clear product_id id variants v h (plain refl))
      (same ∙ (require_variant-elem product_id id variants v h).0) product
      (λ _. inr (cleared-none product_id variants)) (clear_unique product_id variants u)
put_cleared_unique false product_id id variants v w d h same product plain defaults u =
    put-HasOneDefault product_id id variants v w d h
      (same ∙ (require_variant-elem product_id id variants v h).0) product
      (λ y. elim (defaults y) [ inl was ↦ inl was | inr f ↦ cc ]) u

require_variant-Blames :
    (taken : Bool) (product_id id : ℕ) (variants : List ProductVariant) (e : AppError)
    → require_variant product_id id variants ≡ err e
    → Blames taken e
unfolding require_variant
require_variant-Blames taken product_id id [] e h = ((λ p. ground (arith)), (λ p. ground (arith)))
require_variant-Blames taken product_id id (v ∷ variants) e h =
    elim (Bool-cases (v.id == id && v.product_id == product_id)) [
      | inl found ↦ absurd (ground (arith))
      | inr other ↦ require_variant-Blames taken product_id id variants e (sym (rw other refl) ∙ h)
    ]

audit_variant-variants :
    (id product_id actor : ℕ) (fields : List VariantField) (db : Db)
    → (audit_variant id product_id actor fields db).variants ≡ db.variants
audit_variant-variants id product_id actor [] db = refl
audit_variant-variants id product_id actor (f ∷ fields) db = refl

-- A flush that passes, and then the rest.
flushed-Tidies :
    (taken : Bool) (rows : List ProductVariant) (f : List ProductVariant → Result Db)
    → defaults_unique rows ≡ true
    → Tidies taken (f rows)
    → Tidies taken (flush_variants rows >>= f)
flushed-Tidies taken rows f u h = rw (flush_variants-passes rows u) h

pub update_variant-Tidies :
    (taken : Bool) (product_id id actor : ℕ) (u : AdminVariantUpdate) (db : Db)
    → HasIds db.variants
    → HasOneDefault db
    → Tidies taken (update_variant product_id id u actor db)
unfolding update_variant
update_variant-Tidies taken product_id id actor u db d h =
    Ends-then HasOneDefault (Blames taken) (require_variant product_id id db.variants) _
      (require_variant-Blames taken product_id id db.variants)
      (λ v found.
        Ends-then HasOneDefault (Blames taken) (raise_if (is_no_change u) AppError.invalid_request)
          _ (λ e bad. invalid-Blames e bad)
          (λ _ _.
            Ends-then HasOneDefault (Blames taken) (changed_flag u.is_default v.is_default) _
              (changed_flag-Blames taken u.is_default v.is_default)
              (λ is_default changed.
                Ends-then HasOneDefault (Blames taken) (changed_flag u.is_active v.is_active) _
                  (changed_flag-Blames taken u.is_active v.is_active)
                  (λ is_active _.
                    flushed-Tidies taken
                      (put_variant (apply_changes u is_default is_active v)
                        (cleared_for product_id u v db.variants))
                      _ (unique v found is_default is_active changed)
                      (subst (λ rows. defaults_unique rows ≡ true)
                        (sym (
                          audit_variant-variants v.id product_id actor
                            (variant_diff v (apply_changes u is_default is_active v))
                            (record db {
                              variants =
                                  put_variant (apply_changes u is_default is_active v)
                                    (cleared_for product_id u v db.variants);
                            })))
                        (unique v found is_default is_active changed))))))
  where
    invalid-Blames :
        (e : AppError) → raise_if (is_no_change u) AppError.invalid_request ≡ err e → Blames taken e
    invalid-Blames e bad = ((λ p. ground (arith)), (λ p. ground (arith)))

    unique :
        (v : ProductVariant)
        → require_variant product_id id db.variants ≡ ok v
        → (is_default is_active : Bool) → changed_flag u.is_default v.is_default ≡ ok is_default
        → defaults_unique (
            put_variant
              (apply_changes u is_default is_active v)
              (cleared_for product_id u v db.variants))
          ≡ true
    unique v found is_default is_active changed =
        put_cleared_unique (is_true (given u.is_default) && not v.is_default) product_id id
          db.variants v (apply_changes u is_default is_active v) d found refl refl
          (λ f. ground (arith)) (changed-default u.is_default v.is_default is_default changed) h

pub deactivate_variant-Tidies :
    (taken : Bool) (product_id id actor : ℕ) (db : Db)
    → HasIds db.variants
    → HasOneDefault db
    → Tidies taken (deactivate_variant product_id id actor db)
unfolding deactivate_variant
deactivate_variant-Tidies taken product_id id actor db d h =
    Ends-then HasOneDefault (Blames taken) (require_variant product_id id db.variants) _
      (require_variant-Blames taken product_id id db.variants)
      (λ v found. elim (Bool-cases v.is_active) [
        | inl active ↦ rw active (
            flushed-Tidies taken (put_variant (deactivated v) db.variants) _ (unique v found)
              (unique v found))
        | inr idle ↦ rw idle h
      ])
  where
    unique :
        (v : ProductVariant)
        → require_variant product_id id db.variants ≡ ok v
        → defaults_unique (put_variant (deactivated v) db.variants) ≡ true
    unique v found =
        put-HasOneDefault product_id id db.variants v (deactivated v) d found
          (require_variant-elem product_id id db.variants v found).0 refl (λ y. cc) h
