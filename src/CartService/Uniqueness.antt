-- ===== src/CartService/Uniqueness.antt =====
-- The lines of the carts, under the writes of app/repositories/cart_repo.py.
use mathlib.Core.Path.{subst}
use oorvashee_backend.Prelude.{
  ℕ, ◌+◌, ◌≤◌, ◌≡◌, ◌≢◌, refl, inl, inr, Bool, ◌&&◌, none, List, [], ◌∷◌, ◌++◌, ◌==◌, if◌then◌else◌,
  arith, Bool-cases, keep_if, count_if,
}
use oorvashee_backend.Models.Catalog.{CartItem}
use oorvashee_backend.CartService.{add_line, set_quantity, get_item_by_variant}

-- How many lines of a shopper are of a variant.
abbrev pub pair_count : ℕ → ℕ → List CartItem → ℕ
pair_count u v items = count_if (λ i. i.user_id == u && i.variant_id == v) items

abbrev pub zero_lines : List CartItem → ℕ
zero_lines items = count_if (λ i. i.quantity == 0) items

-- A shopper has at most one line of a variant, and each is of one unit at least.
pub record IsCart (items : List CartItem) : Type 0 where
  pub unique : (u v : ℕ) → pair_count u v items ≤ 1
  pub positive : zero_lines items ≡ 0

pub count_if-append :
    (p : CartItem → Bool) (xs : List CartItem) (i : CartItem)
    → count_if p (xs ++ i ∷ []) ≡ count_if p xs + (if p i then 1 else 0)
count_if-append p [] i = omega arith
count_if-append p (x ∷ xs) i = omega (arith, count_if-append p xs i)

pub count_if-keep_if :
    (p q : CartItem → Bool) (xs : List CartItem) → count_if p (keep_if q xs) ≤ count_if p xs
count_if-keep_if p q [] = omega arith
count_if-keep_if p q (x ∷ xs) = ground (arith, count_if-keep_if p q xs)

pub absent :
    (u v : ℕ) (items : List CartItem)
    → get_item_by_variant u v items ≡ none
    → pair_count u v items ≡ 0
unfolding get_item_by_variant
absent u v [] h = refl
absent u v (i ∷ items) h = ground (arith, absent u v items)

pub keep_if-IsCart :
    (q : CartItem → Bool) (items : List CartItem) → IsCart items → IsCart (keep_if q items)
keep_if-IsCart q items h = record {
  unique = λ u v.
      omega
        (arith, h.unique u v, count_if-keep_if (λ i. i.user_id == u && i.variant_id == v) q items);
  positive = omega (arith, h.positive, count_if-keep_if (λ i. i.quantity == 0) q items);
}

pub add_line-IsCart :
    (new_id user v quantity : ℕ) (items : List CartItem)
    → get_item_by_variant user v items ≡ none
    → quantity ≢ 0
    → IsCart items
    → IsCart (add_line new_id user v quantity items)
unfolding add_line
add_line-IsCart new_id user v quantity items new nonzero h = record {
  unique = λ u w. elim (Bool-cases (user == u && v == w)) [
    | inl same ↦
        let at : (user ≡ u) × (v ≡ w) = (ground (arith), ground (arith)) in
        grind (
          arith,
          same,
          appended u w,
          subst (λ x. pair_count x w items ≡ 0) at.0
              (subst (λ y. pair_count user y items ≡ 0) at.1 (absent user v items new)),
        )
    | inr other ↦ ground (arith, h.unique u w, appended u w)
  ];
  positive = ground (
    arith,
    h.positive,
    count_if-append (λ i. i.quantity == 0) items
        (record { id = new_id; user_id = user; variant_id = v; quantity = quantity }),
  );
}
  where
    appended :
        (u w : ℕ)
        → pair_count u w (
            items
            ++ record { id = new_id; user_id = user; variant_id = v; quantity = quantity } ∷ [])
          ≤ pair_count u w items + (if user == u && v == w then 1 else 0)
    appended u w = omega (
      arith,
      count_if-append (λ i. i.user_id == u && i.variant_id == w) items
          (record { id = new_id; user_id = user; variant_id = v; quantity = quantity }),
    )

pub set_quantity-pair_count :
    (id quantity u v : ℕ) (items : List CartItem)
    → pair_count u v (set_quantity id quantity items) ≡ pair_count u v items
unfolding set_quantity
set_quantity-pair_count id quantity u v [] = refl
set_quantity-pair_count id quantity u v (i ∷ items) =
    ground (arith, set_quantity-pair_count id quantity u v items)

pub set_quantity-zero_lines :
    (id quantity : ℕ) (items : List CartItem)
    → quantity ≢ 0
    → zero_lines (set_quantity id quantity items) ≤ zero_lines items
unfolding set_quantity
set_quantity-zero_lines id quantity [] n = omega arith
set_quantity-zero_lines id quantity (i ∷ items) n =
    ground (arith, set_quantity-zero_lines id quantity items n)

pub set_quantity-IsCart :
    (id quantity : ℕ) (items : List CartItem)
    → quantity ≢ 0
    → IsCart items
    → IsCart (set_quantity id quantity items)
set_quantity-IsCart id quantity items n h = record {
  unique = λ u v. omega (arith, h.unique u v, set_quantity-pair_count id quantity u v items);
  positive = omega (arith, h.positive, set_quantity-zero_lines id quantity items n);
}
