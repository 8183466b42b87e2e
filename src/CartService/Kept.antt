-- ===== src/CartService/Kept.antt =====
-- What the requests of app/services/cart_service.py keep of the carts.
use oorvashee_backend.Prelude.{
  ℕ, ◌+◌, ◌≡◌, ◌≢◌, inl, inr, ◌&&◌, not, List, [], ◌∷◌, ◌==◌, arith, Bool-cases, Option-cases, elem,
}
use oorvashee_backend.Models.Catalog.{CartItem, ProductVariant}
use oorvashee_backend.Exceptions.{AppError, Result, ok, err, raise_if, or_raise}
use oorvashee_backend.Exceptions.Loops.{Ends, Ends-ok, Ends-of_ok}
use oorvashee_backend.Database.{Db}
use oorvashee_backend.CartService.{
  CartRead, add_item, update_item, remove_item, clear, delete_item, clear_items,
  get_item_by_variant, get_item, guard_quantity, require_buyable_variant, guard_stock, guard_item,
  put_line, quantity_of, guard_cart_capacity, get_or_create,
}
use oorvashee_backend.CartService.Merge.{
  MergeCartLine, merge, merge_lines, merge_if, merge_target, sum_duplicates, write_unless_zero,
}
use oorvashee_backend.CartService.Requests.{CartRequest, handle_cart}
use oorvashee_backend.CartService.Uniqueness.{
  IsCart, keep_if-IsCart, add_line-IsCart, set_quantity-IsCart,
}

abbrev pub Keeps : CartRead × Db → Type 0
Keeps r = IsCart r.1.cart_items

quantity-nonzero : (quantity : ℕ) → guard_quantity quantity ≡ ok tt → quantity ≢ 0
quantity-nonzero quantity h n = ground (arith)

put_line-IsCart :
    (new_id user v quantity : ℕ) (items : List CartItem)
    → quantity ≢ 0
    → IsCart items
    → Ends IsCart
        (λ _. Unit {0})
        (put_line new_id user v quantity (get_item_by_variant user v items) items)
put_line-IsCart new_id user v quantity items n h =
    elim (Option-cases (get_item_by_variant user v items)) [
      | inl new ↦ rw new (
          Ends-ok IsCart (guard_cart_capacity user items) _
            (λ _ _. add_line-IsCart new_id user v quantity items new n h))
      | inr (i, e) ↦
          rw e (set_quantity-IsCart i.id (i.quantity + quantity) items (λ z. n (omega arith)) h)
    ]

add_item-IsCart :
    (now new_id user v quantity : ℕ) (db : Db)
    → IsCart db.cart_items
    → Ends Keeps (λ _. Unit {0}) (add_item now new_id user v quantity db)
unfolding add_item
add_item-IsCart now new_id user v quantity db h =
    Ends-ok Keeps (guard_quantity quantity) _ (λ _ guarded.
      Ends-ok Keeps (require_buyable_variant v db) _ (λ variant _.
        Ends-ok Keeps
          (guard_stock now user variant.id
            (quantity_of (get_item_by_variant user v db.cart_items) + quantity) db)
          _
          (λ _ _.
            Ends-ok Keeps
              (put_line new_id user v quantity (get_item_by_variant user v db.cart_items)
                db.cart_items)
              _
              (λ items e.
                Ends-of_ok IsCart (λ _. Unit {0}) _ items
                  (put_line-IsCart new_id user v quantity db.cart_items
                    (quantity-nonzero quantity guarded) h)
                  e))))

update_item-IsCart :
    (now user item_id quantity : ℕ) (db : Db)
    → IsCart db.cart_items
    → Ends Keeps (λ _. Unit {0}) (update_item now user item_id quantity db)
unfolding update_item
update_item-IsCart now user item_id quantity db h =
    Ends-ok Keeps (guard_quantity quantity) _ (λ _ guarded.
      Ends-ok Keeps (raise_if (not (elem user db.carts)) AppError.not_found) _ (λ _ _.
        Ends-ok Keeps (or_raise (get_item user item_id db.cart_items) AppError.not_found) _
          (λ item _. Ends-ok Keeps (guard_item now user quantity item db) _ (λ _ _.
            set_quantity-IsCart item.id quantity db.cart_items (quantity-nonzero quantity guarded)
              h))))

remove_item-IsCart :
    (now user item_id : ℕ) (db : Db)
    → IsCart db.cart_items
    → Ends Keeps (λ _. Unit {0}) (remove_item now user item_id db)
unfolding remove_item delete_item
remove_item-IsCart now user item_id db h = elim (Bool-cases (elem user db.carts)) [
  | inr none_yet ↦ rw none_yet h
  | inl there ↦ rw there (elim (Option-cases (get_item user item_id db.cart_items)) [
    | inl gone ↦ rw gone tt
    | inr (i, e) ↦
        rw e (keep_if-IsCart (λ i. not (i.id == item_id && i.user_id == user)) db.cart_items h)
  ])
]

clear-IsCart : (user : ℕ) (db : Db) → IsCart db.cart_items → Keeps (clear user db)
unfolding clear clear_items
clear-IsCart user db h = elim (Bool-cases (elem user db.carts)) [
  | inr none_yet ↦ rw none_yet h
  | inl there ↦ rw there (keep_if-IsCart (λ i. not (i.user_id == user)) db.cart_items h)
]

write_unless_zero-IsCart :
    (new_id user v target : ℕ) (items : List CartItem)
    → IsCart items
    → IsCart (write_unless_zero new_id user v target items)
write_unless_zero-IsCart new_id user v target items h = elim (Bool-cases (target == 0)) [
  | inl zero ↦ rw zero h
  | inr some_units ↦ rw some_units (elim (Option-cases (get_item_by_variant user v items)) [
    | inl new ↦ rw new (add_line-IsCart new_id user v target items new (ground (arith)) h)
    | inr (i, e) ↦ rw e (set_quantity-IsCart i.id target items (ground (arith)) h)
  ])
]

merge_if-IsCart :
    (now new_id user : ℕ) (line : MergeCartLine) (r : Result ProductVariant) (db : Db)
    → IsCart db.cart_items
    → IsCart (merge_if now new_id user line r db).cart_items
merge_if-IsCart now new_id user line (err e) db h = h
merge_if-IsCart now new_id user line (ok variant) db h =
    write_unless_zero-IsCart new_id user line.variant_id (merge_target now user line db)
      db.cart_items h

merge_lines-IsCart :
    (now : ℕ) (new_ids : ℕ → ℕ) (user : ℕ) (lines : List MergeCartLine) (db : Db)
    → IsCart db.cart_items
    → IsCart (merge_lines now new_ids user lines db).cart_items
unfolding merge_lines
merge_lines-IsCart now new_ids user [] db h = h
merge_lines-IsCart now new_ids user (line ∷ lines) db h =
    merge_lines-IsCart now new_ids user lines _ (
      merge_if-IsCart now (new_ids line.variant_id) user line
        (require_buyable_variant line.variant_id db) db h)

merge-IsCart :
    (now : ℕ) (new_ids : ℕ → ℕ) (user : ℕ) (lines : List MergeCartLine) (db : Db)
    → IsCart db.cart_items
    → Keeps (merge now new_ids user lines db)
unfolding merge
merge-IsCart now new_ids user [] db h = h
merge-IsCart now new_ids user (line ∷ lines) db h =
    merge_lines-IsCart now new_ids user (sum_duplicates [] (line ∷ lines))
      (record db { carts = get_or_create user db.carts }) h

-- Whatever a shopper asks of the cart, each shopper keeps at most one line of a variant, and each line
-- is of one unit at least; or the request raises.
pub handle_cart-IsCart :
    (now user : ℕ) (request : CartRequest) (db : Db)
    → IsCart db.cart_items
    → Ends Keeps (λ _. Unit {0}) (handle_cart now user request db)
unfolding handle_cart
handle_cart-IsCart now user (CartRequest.add new_id v quantity) db h =
    add_item-IsCart now new_id user v quantity db h
handle_cart-IsCart now user (CartRequest.update item_id quantity) db h =
    update_item-IsCart now user item_id quantity db h
handle_cart-IsCart now user (CartRequest.remove item_id) db h =
    remove_item-IsCart now user item_id db h
handle_cart-IsCart now user CartRequest.clear_all db h = clear-IsCart user db h
handle_cart-IsCart now user (CartRequest.merge_guest new_ids lines) db h =
    merge-IsCart now new_ids user lines db h
