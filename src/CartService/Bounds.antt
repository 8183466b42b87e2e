-- ===== src/CartService/Bounds.antt =====
-- What app/services/cart_service.py promises of a line that it writes.
use mathlib.Core.Path.{subst}
use oorvashee_backend.Prelude.{
  ℕ, ◌+◌, ◌≤◌, ◌≡◌, refl, sym, ap, ◌∙◌, inl, inr, true, false, ◌&&◌, none, some, List, [], ◌∷◌,
  ◌==◌, arith, Option-cases, map, elem, Distinct,
}
use oorvashee_backend.Models.Catalog.{CartItem, ProductVariant}
use oorvashee_backend.Exceptions.{ok}
use oorvashee_backend.Exceptions.Loops.{Ends, Ends-ok, Ends-of_ok}
use oorvashee_backend.Database.{Db}
use oorvashee_backend.CheckoutService.Placed.{variant_of-id}
use oorvashee_backend.CartService.{
  CartRead, add_item, add_line, set_quantity, get_item_by_variant, guard_quantity,
  require_buyable_variant, guard_stock, put_line, quantity_of, available, guard_cart_capacity,
}

abbrev item_id : CartItem → ℕ
item_id i = i.id

-- How many units of a variant a shopper has in the cart.
abbrev pub in_cart : ℕ → ℕ → List CartItem → ℕ
in_cart u v items = quantity_of (get_item_by_variant u v items)

-- The ids of the lines are different from each other.
abbrev pub HasIds : List CartItem → Type 0
HasIds items = Distinct (map item_id items)

found-elem :
    (u v : ℕ) (items : List CartItem) (i : CartItem)
    → get_item_by_variant u v items ≡ some i
    → elem i.id (map item_id items) ≡ true
unfolding get_item_by_variant
found-elem u v [] i h = cc
found-elem u v (x ∷ items) i h = ground (arith, found-elem u v items i)

-- The line that is found is the one that is written.
set_quantity-in_cart :
    (u v quantity : ℕ) (items : List CartItem) (i : CartItem)
    → HasIds items
    → get_item_by_variant u v items ≡ some i
    → in_cart u v (set_quantity i.id quantity items) ≡ quantity
unfolding set_quantity get_item_by_variant
set_quantity-in_cart u v quantity [] i d h = cc
set_quantity-in_cart u v quantity (x ∷ items) i d h =
    ground (arith, set_quantity-in_cart u v quantity items i (d.1), found-elem u v items i)

-- And another line stays as it is.
set_quantity-others :
    (u v w x quantity : ℕ) (items : List CartItem) (i : CartItem)
    → HasIds items
    → get_item_by_variant u v items ≡ some i
    → (u == w && v == x) ≡ false
    → in_cart w x (set_quantity i.id quantity items) ≡ in_cart w x items
unfolding set_quantity get_item_by_variant
set_quantity-others u v w x quantity [] i d h n = refl
set_quantity-others u v w x quantity (q ∷ items) i d h n =
    ground (arith, set_quantity-others u v w x quantity items i (d.1), found-elem u v items i)

add_line-in_cart :
    (new_id u v quantity : ℕ) (items : List CartItem)
    → get_item_by_variant u v items ≡ none
    → in_cart u v (add_line new_id u v quantity items) ≡ quantity
unfolding add_line get_item_by_variant
add_line-in_cart new_id u v quantity [] h = ground (arith)
add_line-in_cart new_id u v quantity (q ∷ items) h =
    ground (arith, add_line-in_cart new_id u v quantity items)

add_line-others :
    (new_id u v w x quantity : ℕ) (items : List CartItem)
    → (u == w && v == x) ≡ false
    → in_cart w x (add_line new_id u v quantity items) ≡ in_cart w x items
unfolding add_line get_item_by_variant
add_line-others new_id u v w x quantity [] n = ground (arith)
add_line-others new_id u v w x quantity (q ∷ items) n =
    ground (arith, add_line-others new_id u v w x quantity items)

-- What an addition has done.
pub record Adds (now u v quantity : ℕ) (db : Db) (r : CartRead × Db) : Type 0 where
  pub added : in_cart u v r.1.cart_items ≡ in_cart u v db.cart_items + quantity
  pub backed : in_cart u v r.1.cart_items ≤ available now u v db
  pub others :
      (w x : ℕ)
      → (u == w && v == x) ≡ false
      → in_cart w x r.1.cart_items ≡ in_cart w x db.cart_items

buyable-id :
    (v : ℕ) (db : Db) (variant : ProductVariant)
    → require_buyable_variant v db ≡ ok variant
    → variant.id ≡ v
unfolding require_buyable_variant
buyable-id v db variant h = ground (arith, variant_of-id v db.variants variant)

guarded-le :
    (now u v requested : ℕ) (db : Db)
    → guard_stock now u v requested db ≡ ok tt
    → requested ≤ available now u v db
unfolding guard_stock
guarded-le now u v requested db h = ground (arith)

-- The quantity that is written.
record Puts (u v quantity : ℕ) (items after : List CartItem) : Type 0 where
  added : in_cart u v after ≡ in_cart u v items + quantity
  others : (w x : ℕ) → (u == w && v == x) ≡ false → in_cart w x after ≡ in_cart w x items

put_line-Puts :
    (new_id u v quantity : ℕ) (items : List CartItem)
    → HasIds items
    → Ends
        (Puts u v quantity items)
        (λ _. Unit {0})
        (put_line new_id u v quantity (get_item_by_variant u v items) items)
put_line-Puts new_id u v quantity items d = elim (Option-cases (get_item_by_variant u v items)) [
  | inl new ↦ rw new (
      Ends-ok (Puts u v quantity items) (guard_cart_capacity u items) _ (λ _ _. record {
        added = omega (arith, add_line-in_cart new_id u v quantity items new, ap quantity_of new);
        others = λ w x. add_line-others new_id u v w x quantity items;
      }))
  | inr (i, e) ↦ rw e (record {
    added =
        set_quantity-in_cart u v (i.quantity + quantity) items i d e
        ∙ ap (λ o. quantity_of o + quantity) (sym e);
    others = λ w x. set_quantity-others u v w x (i.quantity + quantity) items i d e;
  })
]

-- An addition that goes through adds exactly its units to the line, leaves every other line of
-- every cart as it is, and the line asks for no more than the stock less what others hold; the
-- lines have ids of their own.
pub add_item-Adds :
    (now new_id u v quantity : ℕ) (db : Db)
    → HasIds db.cart_items
    → Ends (Adds now u v quantity db) (λ _. Unit {0}) (add_item now new_id u v quantity db)
unfolding add_item
add_item-Adds now new_id u v quantity db d =
    Ends-ok (Adds now u v quantity db) (guard_quantity quantity) _ (λ _ _.
      Ends-ok (Adds now u v quantity db) (require_buyable_variant v db) _ (λ variant buyable.
        Ends-ok (Adds now u v quantity db)
          (guard_stock now u variant.id (in_cart u v db.cart_items + quantity) db) _
          (λ _ guarded.
            Ends-ok (Adds now u v quantity db)
              (put_line new_id u v quantity (get_item_by_variant u v db.cart_items) db.cart_items) _
              (λ items e.
                let puts =
                  Ends-of_ok (Puts u v quantity db.cart_items) (λ _. Unit {0}) _ items
                    (put_line-Puts new_id u v quantity db.cart_items d) e in
                record {
                  added = puts.added;
                  backed =
                      subst (λ n. n ≤ available now u v db) (sym puts.added)
                        (subst (λ w. in_cart u v db.cart_items + quantity ≤ available now u w db)
                          (buyable-id v db variant buyable)
                          (guarded-le now u variant.id (in_cart u v db.cart_items + quantity) db
                            guarded));
                  others = puts.others;
                }))))
