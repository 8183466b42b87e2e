-- ===== src/AdminProductService/Lifecycle.antt =====
-- How the requests of app/services/admin_product_service.py move a product along its life.
use oorvashee_backend.Prelude.{
  ℕ, ◌≡◌, refl, ap, ◌∙◌, inl, inr, Bool, true, not, Option, none, some, List, [], ◌∷◌, arith,
  Bool-cases, Option-cases,
}
use oorvashee_backend.Models.Enums.ProductStatus
use oorvashee_backend.Models.Enums.ProductStatus.{ProductStatus}
use oorvashee_backend.Models.Catalog.{Product, ProductVariant, VariantField}
use oorvashee_backend.Models.Audit.{Metadata}
use oorvashee_backend.Models.Enums.{AuditAction}
use oorvashee_backend.Exceptions.{AppError, ok, raise_if}
use oorvashee_backend.Exceptions.Loops.{Ends, Ends-ok, Ends-of_ok, Ends-weaken}
use oorvashee_backend.Database.{Db}
use oorvashee_backend.InventoryService.Availability.{get_product, get_product-id}
use oorvashee_backend.AdminProductService.{
  require_product, assert_transition_allowed, has_active_variants, change_status, first_published,
  log_row,
}
use oorvashee_backend.AdminProductService
use oorvashee_backend.InventoryService.{flush}
use oorvashee_backend.AdminProductService.Variants.{
  AdminVariantCreate, AdminVariantUpdate, create_variant, add_variant, update_variant,
  deactivate_variant, require_variant, is_no_change, changed_flag, apply_changes, flush_variants,
  variant_diff, audit_variant, clear_default_if, cleared_for, put_variant, deactivated,
  insert_variant, new_variant, with_inventory, new_inventory,
}
use oorvashee_backend.AdminProductService.Requests.{ProductRequest, handle_product}
use oorvashee_backend.AdminProductService.Moves.{may_move, Moves, unmoved, changed-Moves}

found_again :
    (id : ℕ) (db : Db) (p : Product)
    → require_product id db ≡ ok p
    → (p.id ≡ id) × (get_product p.id db.products ≡ some p)
unfolding require_product
found_again id db p h = elim (Option-cases (get_product id db.products)) [
  | inl gone ↦ absurd (not_found gone)
  | inr (q, e) ↦
      let found : get_product id db.products ≡ some p = e ∙ same_product q e in
      let same = get_product-id id db.products p found in
      (same, ap (λ i. get_product i db.products) same ∙ found)
]
  where
    not_found : get_product id db.products ≡ none → ⊥
    not_found gone = ground (arith)

    same_product : (q : Product) → get_product id db.products ≡ some q → some q ≡ some p
    same_product q e = ground (arith)

publish-lawful :
    (active : Bool) (s : ProductStatus)
    → assert_transition_allowed s ProductStatus.published ≡ ok tt
    → active ≡ true
    → may_move active s ProductStatus.published ≡ true
unfolding assert_transition_allowed
publish-lawful active ProductStatus.draft h a = a
publish-lawful active ProductStatus.published h a = refl
publish-lawful active ProductStatus.unavailable h a = a
publish-lawful active ProductStatus.archived h a = cc

first_published-kept :
    (utc_now : ℕ) (o : Option ℕ) (t : ℕ) → o ≡ some t → first_published utc_now o ≡ some t
first_published-kept utc_now none t e = cc
first_published-kept utc_now (some s) t e = e

publish-Moves :
    (utc_now id actor : ℕ) (db : Db)
    → Ends (Moves db) (λ _. Unit {0}) (AdminProductService.publish utc_now id actor db)
unfolding AdminProductService.publish
publish-Moves utc_now id actor db = Ends-ok (Moves db) (require_product id db) _ (λ p found.
    Ends-ok (Moves db) (assert_transition_allowed p.status ProductStatus.published) _ (λ _ allowed.
      elim (Bool-cases (has_active_variants id db.variants)) [
        | inr idle ↦ rw idle tt
        | inl active ↦ rw active (
            let again = found_again id db p found in
            changed-Moves actor p.status p (published p) db again.1 (record {
              lawful =
                  publish-lawful (has_active_variants p.id db.variants) p.status allowed
                    (ap (λ i. has_active_variants i db.variants) again.0 ∙ active);
              kept_time = first_published-kept utc_now p.published_at;
              same_price = refl;
            }))
      ]))
  where
    published : Product → Product
    published p = record p {
      status = ProductStatus.published;
      published_at = first_published utc_now p.published_at;
    }

-- A move to a draft or to the archive is always lawful.
withdrawn-Moves :
    (actor id : ℕ) (to : ProductStatus) (db : Db) (p : Product)
    → ((active : Bool) (from : ProductStatus) → may_move active from to ≡ true)
    → require_product id db ≡ ok p
    → Moves db (change_status actor p.status (record p { status = to }) db)
withdrawn-Moves actor id to db p free found =
    changed-Moves actor p.status p (record p { status = to }) db (found_again id db p found).1
      (record { lawful = free _ p.status; kept_time = λ t e. e; same_price = refl })

to_draft : (active : Bool) (from : ProductStatus) → may_move active from ProductStatus.draft ≡ true
to_draft active ProductStatus.draft = refl
to_draft active ProductStatus.published = refl
to_draft active ProductStatus.unavailable = refl
to_draft active ProductStatus.archived = refl

to_archive :
    (active : Bool) (from : ProductStatus) → may_move active from ProductStatus.archived ≡ true
to_archive active ProductStatus.draft = refl
to_archive active ProductStatus.published = refl
to_archive active ProductStatus.unavailable = refl
to_archive active ProductStatus.archived = refl

abbrev SameProducts : Db → Db → Type 0
SameProducts db db' = db'.products ≡ db.products

create_variant-products :
    (new_id product_id : ℕ) (payload : AdminVariantCreate) (db : Db)
    → Ends (SameProducts db) (λ _. Unit {0}) (create_variant new_id product_id payload db)
unfolding create_variant
create_variant-products new_id product_id payload db =
    Ends-ok (SameProducts db) (insert_variant (new_variant new_id product_id payload) db.variants) _
      (λ variants _.
        Ends-ok (SameProducts db) (flush (with_inventory (new_inventory new_id payload) db.stock))
          (λ stock. ok (record db { variants = variants; stock = stock })) (λ stock _. refl))

add_variant-products :
    (new_id product_id actor : ℕ) (payload : AdminVariantCreate) (db : Db)
    → Ends (SameProducts db) (λ _. Unit {0}) (add_variant new_id product_id payload actor db)
unfolding add_variant
add_variant-products new_id product_id actor payload db =
    Ends-ok (SameProducts db) (require_product product_id db) _ (λ product _.
      Ends-ok (SameProducts db) (create_variant new_id product.id payload (cleared product)) _
        (λ after e.
          Ends-of_ok (SameProducts (cleared product)) (λ _. Unit {0}) _ after
            (create_variant-products new_id product.id payload (cleared product)) e))
  where
    cleared : Product → Db
    cleared product = record db {
      variants = clear_default_if payload.is_default product.id db.variants;
    }

audit_variant-products :
    (id product_id actor : ℕ) (fields : List VariantField) (db : Db)
    → (audit_variant id product_id actor fields db).products ≡ db.products
audit_variant-products id product_id actor [] db = refl
audit_variant-products id product_id actor (f ∷ fields) db = refl

update_variant-products :
    (product_id id actor : ℕ) (u : AdminVariantUpdate) (db : Db)
    → Ends (SameProducts db) (λ _. Unit {0}) (update_variant product_id id u actor db)
unfolding update_variant
update_variant-products product_id id actor u db =
    Ends-ok (SameProducts db) (require_variant product_id id db.variants) _ (λ v _.
      Ends-ok (SameProducts db) (raise_if (is_no_change u) AppError.invalid_request) _ (λ _ _.
        Ends-ok (SameProducts db) (changed_flag u.is_default v.is_default) _ (λ is_default _.
          Ends-ok (SameProducts db) (changed_flag u.is_active v.is_active) _ (λ is_active _.
            Ends-ok (SameProducts db)
              (flush_variants (
                put_variant (apply_changes u is_default is_active v)
                  (cleared_for product_id u v db.variants)))
              _
              (λ variants _.
                audit_variant-products v.id product_id actor
                  (variant_diff v (apply_changes u is_default is_active v))
                  (record db { variants = variants }))))))

deactivate_variant-products :
    (product_id id actor : ℕ) (db : Db)
    → Ends (SameProducts db) (λ _. Unit {0}) (deactivate_variant product_id id actor db)
unfolding deactivate_variant
deactivate_variant-products product_id id actor db =
    Ends-ok (SameProducts db) (require_variant product_id id db.variants) _ (λ v _.
      elim (Bool-cases v.is_active) [
        | inl active ↦ rw active (
            Ends-ok (SameProducts db) (flush_variants (put_variant (deactivated v) db.variants))
              (λ variants. ok (deactivated_db variants v)) (λ variants _. refl))
        | inr idle ↦ rw idle refl
      ])
  where
    deactivated_db : List ProductVariant → ProductVariant → Db
    deactivated_db variants v = record db {
      variants = variants;
      audits =
          log_row AuditAction.update v.id actor (Metadata.variant_deactivated product_id)
          ∷ db.audits;
    }

-- A request that publishes, unpublishes, archives or unarchives a product, or adds, updates or
-- deactivates a variant, moves each product lawfully: it goes on sale only with an active variant and
-- never straight from the archive, none is made unavailable, the time of its first publication stays,
-- and so does its price; or the request raises.
pub handle_product-Moves :
    (utc_now actor : ℕ) (request : ProductRequest) (db : Db)
    → Ends (Moves db) (λ _. Unit {0}) (handle_product utc_now actor request db)
unfolding handle_product AdminProductService.unpublish AdminProductService.archive
    AdminProductService.unarchive
handle_product-Moves utc_now actor (ProductRequest.publish id) db =
    publish-Moves utc_now id actor db
handle_product-Moves utc_now actor (ProductRequest.unpublish id) db =
    Ends-ok (Moves db) (require_product id db) _ (λ p found.
      Ends-ok (Moves db) (assert_transition_allowed p.status ProductStatus.draft) _
        (λ _ _. withdrawn-Moves actor id ProductStatus.draft db p to_draft found))
handle_product-Moves utc_now actor (ProductRequest.archive id) db =
    Ends-ok (Moves db) (require_product id db) _ (λ p found.
      Ends-ok (Moves db) (assert_transition_allowed p.status ProductStatus.archived) _
        (λ _ _. withdrawn-Moves actor id ProductStatus.archived db p to_archive found))
handle_product-Moves utc_now actor (ProductRequest.unarchive id) db =
    Ends-ok (Moves db) (require_product id db) _ (λ p found.
      Ends-ok (Moves db)
        (raise_if (not (ProductStatus.is p.status ProductStatus.archived))
          AppError.invalid_status_transition)
        _ (λ _ _. withdrawn-Moves actor id ProductStatus.draft db p to_draft found))
handle_product-Moves utc_now actor (ProductRequest.add_variant new_id product_id payload) db =
    Ends-weaken (SameProducts db) (Moves db) (λ _. Unit {0}) _ (unmoved db)
      (add_variant-products new_id product_id actor payload db)
handle_product-Moves utc_now actor (ProductRequest.update_variant product_id id payload) db =
    Ends-weaken (SameProducts db) (Moves db) (λ _. Unit {0}) _ (unmoved db)
      (update_variant-products product_id id actor payload db)
handle_product-Moves utc_now actor (ProductRequest.deactivate_variant product_id id) db =
    Ends-weaken (SameProducts db) (Moves db) (λ _. Unit {0}) _ (unmoved db)
      (deactivate_variant-products product_id id actor db)
