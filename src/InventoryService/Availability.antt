-- ===== src/InventoryService/Availability.antt =====
-- `recompute_product_availability` of app/services/inventory_service.py.
use oorvashee_backend.Prelude.{
  ℕ, ◌≡◌, refl, inl, inr, Bool, false, ◌&&◌, Option, none, some, List, [], ◌∷◌, ◌==◌, if◌then◌else◌,
  arith, Option-cases,
}
use oorvashee_backend.Prelude.Int.{ℤ, pos, ◌+ℤ◌, ltb_ℤ, leb_ℤ}
use oorvashee_backend.Models.Enums.{AuditAction}
use oorvashee_backend.Models.Enums.ProductStatus.{ProductStatus}
use oorvashee_backend.Models.Stock.{Inventory}
use oorvashee_backend.Models.Catalog.{Product, ProductVariant}
use oorvashee_backend.Models.Audit.{Metadata}
use oorvashee_backend.Database.{Db}

-- The variant of an inventory row is an active one of the product; a variant's id is unique.
unfoldable pub is_active_of : ℕ → ℕ → List ProductVariant → Bool
is_active_of product_id variant_id [] = false
is_active_of product_id variant_id (v ∷ variants) =
    if v.id == variant_id
    then v.product_id == product_id && v.is_active
    else is_active_of product_id variant_id variants

-- `_sum_active_stock`.
unfoldable pub sum_active_stock : ℕ → List ProductVariant → List Inventory → ℤ
unfolding is_active_of
sum_active_stock product_id variants [] = pos 0
sum_active_stock product_id variants (r ∷ rows) =
    if is_active_of product_id r.variant_id variants
    then r.stock +ℤ sum_active_stock product_id variants rows
    else sum_active_stock product_id variants rows

unfoldable pub get_product : ℕ → List Product → Option Product
get_product id [] = none
get_product id (p ∷ rows) = if p.id == id then some p else get_product id rows

unfoldable pub put_product : Product → List Product → List Product
put_product p [] = []
put_product p (q ∷ rows) = if q.id == p.id then p ∷ rows else q ∷ put_product p rows

-- The status that the product should turn to, if any; a draft or an archived product has none.
abbrev pub target_of : ProductStatus → ℤ → Option ProductStatus
target_of ProductStatus.published total =
    if leb_ℤ total (pos 0) && leb_ℤ (pos 0) total then some ProductStatus.unavailable else none
target_of ProductStatus.unavailable total =
    if ltb_ℤ (pos 0) total then some ProductStatus.published else none
target_of ProductStatus.draft total = none
target_of ProductStatus.archived total = none

abbrev pub turn : Option ℕ → Product → Option ProductStatus → Db → Option ProductStatus × Db
turn actor_user_id product none db = (none, db)
turn actor_user_id product (some target) db = (
  some target,
  record db {
    products = put_product (record product { status = target }) db.products;
    audits =
        record {
          action = AuditAction.status_changed;
          entity_id = product.id;
          actor_user_id = actor_user_id;
          metadata = Metadata.availability product.status target;
        }
        ∷ db.audits;
  },
)

abbrev pub recompute_found : Option ℕ → Option Product → Db → Option ProductStatus × Db
recompute_found actor_user_id none db = (none, db)
recompute_found actor_user_id (some product) db =
    turn actor_user_id product
      (target_of product.status (sum_active_stock product.id db.variants db.stock.inventory)) db

unfoldable pub recompute_product_availability : Option ℕ → ℕ → Db → Option ProductStatus × Db
unfolding get_product put_product sum_active_stock
recompute_product_availability actor_user_id product_id db =
    recompute_found actor_user_id (get_product product_id db.products) db

-- Of the checkout tables it changes none.
pub recompute-same :
    (actor : Option ℕ) (id : ℕ) (db : Db)
    → let db' = (recompute_product_availability actor id db).1 in
      (db'.stock ≡ db.stock) × (db'.reservations ≡ db.reservations) × (db'.sessions ≡ db.sessions)
unfolding recompute_product_availability
recompute-same actor id db = ground arith

pub get_product-id :
    (id : ℕ) (rows : List Product) (p : Product) → get_product id rows ≡ some p → p.id ≡ id
unfolding get_product
get_product-id id [] p e = cc
get_product-id id (q ∷ rows) p e = ground (arith, get_product-id id rows p)

pub get-put_product :
    (id : ℕ) (rows : List Product) (p q : Product)
    → get_product id rows ≡ some q
    → p.id ≡ id
    → get_product id (put_product p rows) ≡ some p
unfolding get_product put_product
get-put_product id [] p q e same = cc
get-put_product id (r ∷ rows) p q e same = ground (arith, get-put_product id rows p q)

-- The new status asks for no further change.
target_of-settled :
    (before to : ProductStatus) (total : ℤ)
    → target_of before total ≡ some to
    → target_of to total ≡ none
target_of-settled before to total h = ground arith

turn-settles :
    (actor later : Option ℕ) (id : ℕ) (db : Db) (p : Product)
    → get_product id db.products ≡ some p
    → (to : Option ProductStatus)
    → target_of p.status (sum_active_stock p.id db.variants db.stock.inventory) ≡ to
    → let db' = (turn actor p to db).1 in recompute_product_availability later id db' ≡ (none, db')
unfolding recompute_product_availability
turn-settles actor later id db p e none t = rw (e, t) refl
turn-settles actor later id db p e (some to) t =
    rw
      (
        get-put_product id db.products (record p { status = to }) p e
            (get_product-id id db.products p e),
        target_of-settled p.status to (sum_active_stock p.id db.variants db.stock.inventory) t,
      )
      refl

-- A second run, by whoever, finds the product in step with its stock: it changes nothing and logs
-- nothing.
pub recompute_settles :
    (actor later : Option ℕ) (id : ℕ) (db : Db)
    → let db' = (recompute_product_availability actor id db).1 in
      recompute_product_availability later id db' ≡ (none, db')
unfolding recompute_product_availability
recompute_settles actor later id db = elim (Option-cases (get_product id db.products)) [
  | inl e ↦ rw (e, e) refl
  | inr (p, e) ↦ rw e (turn-settles actor later id db p e _ refl)
]
