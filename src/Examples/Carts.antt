-- ===== src/Examples/Carts.antt =====
-- The theorems on app/services/cart_service.py, on the example shop.
use oorvashee_backend.Prelude.{refl, [], ◌∷◌, arith}
use oorvashee_backend.Exceptions.Loops.{Ends}
use oorvashee_backend.CartService.{add_item}
use oorvashee_backend.CartService.Requests.{CartRequest, handle_cart}
use oorvashee_backend.CartService.Uniqueness.{IsCart}
use oorvashee_backend.CartService.Kept.{Keeps, handle_cart-IsCart}
use oorvashee_backend.CartService.Bounds.{Adds, add_item-Adds}
use oorvashee_backend.Examples.{shop}

shop-IsCart : IsCart shop.cart_items
shop-IsCart = record { unique = λ u v. ground arith; positive = refl }

-- A guest's cart with two lines of the same variant is merged.
abbrev guest : CartRequest
guest =
    CartRequest.merge_guest (λ v. 72)
      (record { variant_id = 1; quantity = 2 } ∷ record { variant_id = 1; quantity = 3 } ∷ [])

handle_cart-IsCart_example : Ends Keeps (λ _. Unit {0}) (handle_cart 100 7 guest shop)
handle_cart-IsCart_example = handle_cart-IsCart 100 7 guest shop shop-IsCart

add_item-Adds_example : Ends (Adds 100 7 1 2 shop) (λ _. Unit {0}) (add_item 100 72 7 1 2 shop)
add_item-Adds_example = add_item-Adds 100 72 7 1 2 shop (refl, tt)
