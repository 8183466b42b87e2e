-- ===== src/InventoryService/Rows.antt =====
-- The rows of the inventory table under a lookup and an assignment.
use oorvashee_backend.Prelude.{ℕ, ◌≡◌, ◌≢◌, refl, none, some, List, [], ◌∷◌, arith}
use oorvashee_backend.Models.Stock.{Inventory}
use oorvashee_backend.InventoryService.{inventory_of, put_inventory}

-- A row that is found is the row that was asked for.
pub inventory_of-variant_id :
    (v : ℕ) (rows : List Inventory) (r : Inventory)
    → inventory_of v rows ≡ some r
    → r.variant_id ≡ v
unfolding inventory_of
inventory_of-variant_id v [] r h = cc
inventory_of-variant_id v (q ∷ rows) r h = ground (arith, inventory_of-variant_id v rows r)

pub inventory_of-put_self :
    (v : ℕ) (r : Inventory) (rows : List Inventory)
    → r.variant_id ≡ v
    → inventory_of v rows ≢ none
    → inventory_of v (put_inventory r rows) ≡ some r
unfolding inventory_of put_inventory
inventory_of-put_self v r [] e h = absurd (h refl)
inventory_of-put_self v r (q ∷ rows) e h = ground (arith, inventory_of-put_self v r rows)

pub inventory_of-put_ne :
    (v : ℕ) (r : Inventory) (rows : List Inventory)
    → r.variant_id ≢ v
    → inventory_of v (put_inventory r rows) ≡ inventory_of v rows
unfolding inventory_of put_inventory
inventory_of-put_ne v r [] h = refl
inventory_of-put_ne v r (q ∷ rows) h = ground (arith, inventory_of-put_ne v r rows h)
