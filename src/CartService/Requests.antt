-- ===== src/CartService/Requests.antt =====
-- The requests of a shopper that app/routers/public/cart.py hands to the cart service.
use oorvashee_backend.Prelude.{ℕ, List}
use oorvashee_backend.Exceptions.{Result, ok}
use oorvashee_backend.Database.{Db}
use oorvashee_backend.CartService.{CartRead, add_item, update_item, remove_item, clear}
use oorvashee_backend.CartService.Merge.{MergeCartLine, merge}

pub data CartRequest : Type 0 where
  add : (new_id variant_id quantity : ℕ) → CartRequest
  update : (item_id quantity : ℕ) → CartRequest
  remove : (item_id : ℕ) → CartRequest
  clear_all : CartRequest
  merge_guest : (new_ids : ℕ → ℕ) (lines : List MergeCartLine) → CartRequest

unfoldable pub handle_cart : ℕ → ℕ → CartRequest → Db → Result (CartRead × Db)
unfolding clear merge
handle_cart now user_id (CartRequest.add new_id v quantity) db =
    add_item now new_id user_id v quantity db
handle_cart now user_id (CartRequest.update item_id quantity) db =
    update_item now user_id item_id quantity db
handle_cart now user_id (CartRequest.remove item_id) db = remove_item now user_id item_id db
handle_cart now user_id CartRequest.clear_all db = ok (clear user_id db)
handle_cart now user_id (CartRequest.merge_guest new_ids lines) db =
    ok (merge now new_ids user_id lines db)
