-- ===== src/CartService/Merge.antt =====
-- `merge` of app/services/cart_service.py.
use oorvashee_backend.Prelude.{ℕ, ◌+◌, Option, none, some, List, [], ◌∷◌, leb, ◌==◌, if◌then◌else◌}
use oorvashee_backend.Models.Catalog.{CartItem, ProductVariant}
use oorvashee_backend.Exceptions.{Result, ok, err}
use oorvashee_backend.Database.{Db}
use oorvashee_backend.CartService.{
  CartRead, get_cart, serialize, require_buyable_variant, available, get_item_by_variant,
  get_or_create, quantity_of, add_line, set_quantity,
}

pub record MergeCartLine : Type 0 where
  pub variant_id : ℕ
  pub quantity : ℕ

-- `merged[v] = merged.get(v, 0) + quantity`: a dict keeps the place of a key.
unfoldable pub add_quantity : MergeCartLine → List MergeCartLine → List MergeCartLine
add_quantity line [] = line ∷ []
add_quantity line (m ∷ merged) =
    if m.variant_id == line.variant_id
    then record m { quantity = m.quantity + line.quantity } ∷ merged
    else m ∷ add_quantity line merged

unfoldable pub sum_duplicates : List MergeCartLine → List MergeCartLine → List MergeCartLine
unfolding add_quantity
sum_duplicates merged [] = merged
sum_duplicates merged (line ∷ lines) = sum_duplicates (add_quantity line merged) lines

abbrev pub least : ℕ → ℕ → ℕ
least a b = if leb a b then a else b

-- `min(target_qty, available, 99)`.
unfoldable pub merge_target : ℕ → ℕ → MergeCartLine → Db → ℕ
unfolding available get_item_by_variant
merge_target now user_id line db =
    least
      (least
        (quantity_of (get_item_by_variant user_id line.variant_id db.cart_items) + line.quantity)
        (available now user_id line.variant_id db))
      99

abbrev pub write_line : ℕ → ℕ → ℕ → ℕ → Option CartItem → List CartItem → List CartItem
write_line new_id user_id v target none items = add_line new_id user_id v target items
write_line new_id user_id v target (some item) items = set_quantity item.id target items

abbrev pub write_unless_zero : ℕ → ℕ → ℕ → ℕ → List CartItem → List CartItem
write_unless_zero new_id user_id v target items =
    if target == 0
    then items
    else write_line new_id user_id v target (get_item_by_variant user_id v items) items

-- A line whose variant is gone or whose product is not for sale is skipped.
abbrev pub merge_if : ℕ → ℕ → ℕ → MergeCartLine → Result ProductVariant → Db → Db
merge_if now new_id user_id line (err e) db = db
merge_if now new_id user_id line (ok variant) db = record db {
  cart_items =
      write_unless_zero new_id user_id line.variant_id (merge_target now user_id line db)
        db.cart_items;
}

-- `new_ids` gives the lines that are added their ids.
unfoldable pub merge_lines : ℕ → (ℕ → ℕ) → ℕ → List MergeCartLine → Db → Db
unfolding require_buyable_variant merge_target get_item_by_variant add_line set_quantity
merge_lines now new_ids user_id [] db = db
merge_lines now new_ids user_id (line ∷ lines) db = merge_lines now new_ids user_id lines (
    merge_if now (new_ids line.variant_id) user_id line (require_buyable_variant line.variant_id db)
      db)

unfoldable pub merge : ℕ → (ℕ → ℕ) → ℕ → List MergeCartLine → Db → CartRead × Db
unfolding get_cart sum_duplicates merge_lines serialize
merge now new_ids user_id [] db = (get_cart now user_id db, db)
merge now new_ids user_id (line ∷ lines) db =
    let after =
      merge_lines now new_ids user_id (sum_duplicates [] (line ∷ lines))
        (record db { carts = get_or_create user_id db.carts }) in
    (serialize now user_id after, after)
