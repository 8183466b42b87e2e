-- ===== src/AdminProductService/Moves.antt =====
-- A product that moves along its life (app/services/admin_product_service.py).
use mathlib.Core.Path.{subst}
use oorvashee_backend.Prelude.{
  ℕ, ◌≡◌, ◌≢◌, refl, ap, ◌∙◌, inl, inr, Bool, true, false, some, List, [], ◌∷◌, arith, eq_or_ne,
}
use oorvashee_backend.Models.Enums.ProductStatus.{ProductStatus}
use oorvashee_backend.Models.Catalog.{Product, ProductVariant}
use oorvashee_backend.Database.{Db}
use oorvashee_backend.InventoryService.Availability.{get_product, put_product, get-put_product}
use oorvashee_backend.AdminProductService.{has_active_variants, change_status}

-- The moves of the administration: a product goes on sale with an active variant only, and not straight
-- from the archive; no request makes it unavailable.
abbrev pub may_move : Bool → ProductStatus → ProductStatus → Bool
may_move active ProductStatus.archived ProductStatus.published = false
may_move active ProductStatus.published ProductStatus.published = true
may_move active from ProductStatus.published = active
may_move active ProductStatus.unavailable ProductStatus.unavailable = true
may_move active from ProductStatus.unavailable = false
may_move active from ProductStatus.draft = true
may_move active from ProductStatus.archived = true

pub record Moved (variants : List ProductVariant) (p q : Product) : Type 0 where
  pub lawful : may_move (has_active_variants p.id variants) p.status q.status ≡ true
  pub kept_time : (t : ℕ) → p.published_at ≡ some t → q.published_at ≡ some t
  pub same_price : q.base_price ≡ p.base_price

-- Each product is there after, as it was or moved.
abbrev pub Moves : Db → Db → Type 0
Moves db db' =
    (id : ℕ) (p : Product)
    → get_product id db.products ≡ some p
    → (q : Product) × (get_product id db'.products ≡ some q) × Moved db.variants p q

pub may_stay : (active : Bool) (s : ProductStatus) → may_move active s s ≡ true
may_stay active ProductStatus.draft = refl
may_stay active ProductStatus.published = refl
may_stay active ProductStatus.unavailable = refl
may_stay active ProductStatus.archived = refl

pub stays : (variants : List ProductVariant) (p : Product) → Moved variants p p
stays variants p = record { lawful = may_stay _ p.status; kept_time = λ t e. e; same_price = refl }

pub unmoved : (db db' : Db) → db'.products ≡ db.products → Moves db db'
unmoved db db' same id p e = (p, ap (get_product id) same ∙ e, stays db.variants p)

pub get-put_ne :
    (q : Product) (id : ℕ) (rows : List Product)
    → q.id ≢ id
    → get_product id (put_product q rows) ≡ get_product id rows
unfolding get_product put_product
get-put_ne q id [] n = refl
get-put_ne q id (r ∷ rows) n = ground (arith, get-put_ne q id rows n)

pub changed-Moves :
    (actor : ℕ) (before : ProductStatus) (p q : Product) (db : Db)
    → get_product q.id db.products ≡ some p
    → Moved db.variants p q
    → Moves db (change_status actor before q db)
unfolding change_status
changed-Moves actor before p q db found m id r e = elim (eq_or_ne q.id id) [
  | inr n ↦ (r, get-put_ne q id db.products n ∙ e, stays db.variants r)
  | inl same ↦ (
    q,
    get-put_product id db.products q r e same,
    subst (λ x. Moved db.variants x q) (same_row same r e) m,
  )
]
  where
    same_row : q.id ≡ id → (r : Product) → get_product id db.products ≡ some r → p ≡ r
    same_row same r e = cc
