-- ===== src/AdminProductService/Kept.antt =====
-- The variants under every request that app/services/admin_product_service.py serves.
use mathlib.Core.Path.{subst}
use oorvashee_backend.Prelude.{ℕ, ◌≡◌, inl, inr, Bool, true, false, not, Bool-cases}
use oorvashee_backend.Models.Enums.ProductStatus
use oorvashee_backend.Models.Enums.ProductStatus.{ProductStatus}
use oorvashee_backend.Models.Catalog.{Product}
use oorvashee_backend.Exceptions.{AppError, Result, err, ◌>>=◌, raise_if}
use oorvashee_backend.Exceptions.Loops.{Ends, Ends-then, Ends-of_err, err-injective}
use oorvashee_backend.Database.{Db}
use oorvashee_backend.AdminProductService.{
  require_product, is_lifecycle_target, assert_transition_allowed, change_status,
  has_active_variants,
}
use oorvashee_backend.AdminProductService
use oorvashee_backend.AdminProductService.Counts.{HasIds}
use oorvashee_backend.AdminProductService.Requests.{ProductRequest, handle_product}
use oorvashee_backend.AdminProductService.Defaults.{HasOneDefault, Blames, brings_taken_sku}
use oorvashee_backend.AdminProductService.Tidies.{
  Tidies, require_product-Blames, add_variant-Tidies,
}
use oorvashee_backend.AdminProductService.Updates.{update_variant-Tidies, deactivate_variant-Tidies}

module _ (taken : Bool) where
  guard-Blames :
      (b : Bool) (x e : AppError) → Blames taken x → raise_if b x ≡ err e → Blames taken e
  guard-Blames true x e h r = subst (Blames taken) (err-injective r) h
  guard-Blames false x e h r = cc

  guarded :
      (b : Bool) (x : AppError)
      → Blames taken x
      → Ends (λ _. Unit {0}) (Blames taken) (raise_if b x)
  guarded true x h = h
  guarded false x h = tt

  assert-Blames :
      (current target : ProductStatus) (e : AppError)
      → assert_transition_allowed current target ≡ err e
      → Blames taken e
  unfolding assert_transition_allowed
  assert-Blames current target e h =
      Ends-of_err (λ _. Unit {0}) (Blames taken) _ e
        (Ends-then (λ _. Unit {0}) (Blames taken)
          (raise_if (not (is_lifecycle_target target)) AppError.invalid_status_target) _
          (λ x. guard-Blames _ AppError.invalid_status_target x ((λ p. cc), (λ p. cc)))
          (λ _ _.
            Ends-then (λ _. Unit {0}) (Blames taken)
              (raise_if (ProductStatus.is current target) AppError.status_unchanged) _
              (λ x. guard-Blames _ AppError.status_unchanged x ((λ p. cc), (λ p. cc)))
              (λ _ _. guarded _ AppError.invalid_status_transition ((λ p. cc), (λ p. cc)))))
        h

  move-Tidies :
      (id : ℕ) (db : Db) (step : Product → Result Db)
      → ((p : Product) → Tidies taken (step p))
      → Tidies taken (require_product id db >>= step)
  move-Tidies id db step h =
      Ends-then HasOneDefault (Blames taken) (require_product id db) step
        (require_product-Blames taken id db) (λ p _. h p)

-- From variants with ids of their own, of which each product has at most one default, a request that
-- publishes, unpublishes, archives or unarchives a product, or adds, updates or deactivates a variant,
-- leaves at most one default, or raises: the partial unique index never refuses it, and the conflict
-- over a SKU is raised only where the SKU is taken.
pub handle_product-Tidies :
    (utc_now actor : ℕ) (request : ProductRequest) (db : Db)
    → HasIds db.variants
    → HasOneDefault db
    → Tidies (brings_taken_sku request db) (handle_product utc_now actor request db)
unfolding handle_product AdminProductService.publish AdminProductService.unpublish
    AdminProductService.archive AdminProductService.unarchive change_status
handle_product-Tidies utc_now actor (ProductRequest.publish id) db d h =
    move-Tidies false id db _ (λ p.
      Ends-then HasOneDefault (Blames false)
        (assert_transition_allowed p.status ProductStatus.published) _
        (assert-Blames false p.status ProductStatus.published)
        (λ _ _. elim (Bool-cases (has_active_variants id db.variants)) [
          | inl active ↦ rw active h
          | inr idle ↦ rw idle ((λ e. cc), (λ e. cc))
        ]))
handle_product-Tidies utc_now actor (ProductRequest.unpublish id) db d h =
    move-Tidies false id db _ (λ p.
      Ends-then HasOneDefault (Blames false)
        (assert_transition_allowed p.status ProductStatus.draft) _
        (assert-Blames false p.status ProductStatus.draft) (λ _ _. h))
handle_product-Tidies utc_now actor (ProductRequest.archive id) db d h =
    move-Tidies false id db _ (λ p.
      Ends-then HasOneDefault (Blames false)
        (assert_transition_allowed p.status ProductStatus.archived) _
        (assert-Blames false p.status ProductStatus.archived) (λ _ _. h))
handle_product-Tidies utc_now actor (ProductRequest.unarchive id) db d h =
    move-Tidies false id db _ (λ p.
      Ends-then HasOneDefault (Blames false)
        (raise_if (not (ProductStatus.is p.status ProductStatus.archived))
          AppError.invalid_status_transition)
        _ (λ e. guard-Blames false _ AppError.invalid_status_transition e ((λ q. cc), (λ q. cc)))
        (λ _ _. h))
handle_product-Tidies utc_now actor (ProductRequest.add_variant new_id product_id payload) db d h =
    add_variant-Tidies new_id product_id actor payload db h
handle_product-Tidies utc_now actor (ProductRequest.update_variant product_id id payload) db d h =
    update_variant-Tidies false product_id id actor payload db d h
handle_product-Tidies utc_now actor (ProductRequest.deactivate_variant product_id id) db d h =
    deactivate_variant-Tidies false product_id id actor db d h
