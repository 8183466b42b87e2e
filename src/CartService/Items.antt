-- ===== src/CartService/Items.antt =====
-- app/repositories/cart_repo.py: the lines of a cart. The newest row stands last.
use oorvashee_backend.Prelude.{
  ℕ, ◌&&◌, not, Option, none, some, List, [], ◌∷◌, ◌++◌, ◌==◌, if◌then◌else◌, keep_if, count_if,
  elem,
}
use oorvashee_backend.Models.Catalog.{CartItem}

-- `get_or_create_for_user`.
abbrev pub get_or_create : ℕ → List ℕ → List ℕ
get_or_create user_id carts = if elem user_id carts then carts else carts ++ user_id ∷ []

abbrev newest_first : List CartItem → List CartItem
newest_first [] = []
newest_first (item ∷ items) = newest_first items ++ item ∷ []

-- `list_items_hydrated`: `order_by(CartItem.added_at.desc())`.
unfoldable pub list_items : ℕ → List CartItem → List CartItem
list_items user_id items = newest_first (keep_if (λ i. i.user_id == user_id) items)

unfoldable pub get_item : ℕ → ℕ → List CartItem → Option CartItem
get_item user_id item_id [] = none
get_item user_id item_id (i ∷ items) =
    if i.id == item_id && i.user_id == user_id then some i else get_item user_id item_id items

unfoldable pub get_item_by_variant : ℕ → ℕ → List CartItem → Option CartItem
get_item_by_variant user_id v [] = none
get_item_by_variant user_id v (i ∷ items) =
    if i.user_id == user_id && i.variant_id == v
    then some i
    else get_item_by_variant user_id v items

abbrev pub quantity_of : Option CartItem → ℕ
quantity_of none = 0
quantity_of (some item) = item.quantity

unfoldable pub count_items : ℕ → List CartItem → ℕ
count_items user_id items = count_if (λ i. i.user_id == user_id) items

unfoldable pub add_line : ℕ → ℕ → ℕ → ℕ → List CartItem → List CartItem
add_line new_id user_id v quantity items =
    items ++ record { id = new_id; user_id = user_id; variant_id = v; quantity = quantity } ∷ []

-- The assignment to the quantity of a line.
unfoldable pub set_quantity : ℕ → ℕ → List CartItem → List CartItem
set_quantity id quantity [] = []
set_quantity id quantity (i ∷ items) =
    if i.id == id
    then record i { quantity = quantity } ∷ items
    else i ∷ set_quantity id quantity items

unfoldable pub delete_item : ℕ → ℕ → List CartItem → List CartItem
delete_item user_id item_id items =
    keep_if (λ i. not (i.id == item_id && i.user_id == user_id)) items

unfoldable pub clear_items : ℕ → List CartItem → List CartItem
clear_items user_id items = keep_if (λ i. not (i.user_id == user_id)) items
