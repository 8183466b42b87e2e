-- ===== src/CheckoutService/Placed.antt =====
-- What app/services/checkout_service.py leaves behind when it places a cash order.
use oorvashee_backend.Prelude.{
  ℕ, ◌≡◌, refl, ap, ◌∙◌, inl, inr, true, false, Option, none, some, List, [], ◌∷◌, ◌++◌, map, arith,
  Option-cases,
}
use oorvashee_backend.Models.Enums.{PaymentMethod, StockMovementReason}
use oorvashee_backend.Models.Order.{Order, OrderItem}
use oorvashee_backend.Models.Catalog.{ProductVariant}
use oorvashee_backend.Exceptions.{Result}
use oorvashee_backend.Exceptions.Loops.{Ends, Ends-then, Ends-of_ok}
use oorvashee_backend.Database.{Db}
use oorvashee_backend.InventoryService.{decrement}
use oorvashee_backend.InventoryService.Sale.{demand}
use oorvashee_backend.InventoryService.Shelves.{Adds}
use oorvashee_backend.InventoryService.Returns.{decrement-Adds}
use oorvashee_backend.ReservationLifecycleService.{requirement, requirements_of}
use oorvashee_backend.OrderRepository.{get_order}
use oorvashee_backend.CheckoutSessionService.{variant_of}
use oorvashee_backend.CheckoutPaymentService.{NewIds}
use oorvashee_backend.AdminOrderService.Actions.{has_items}
use oorvashee_backend.CheckoutService.{
  QuoteLine, order_item, order_items, new_order, line_requirement, hit_inventory, create_order_row,
  place_order, is_no_line,
}

-- The item of a line asks for what the line asks for.
pub variant_of-id :
    (v : ℕ) (rows : List ProductVariant) (r : ProductVariant)
    → variant_of v rows ≡ some r
    → r.id ≡ v
unfolding variant_of
variant_of-id v [] r e = cc
variant_of-id v (q ∷ rows) r e = ground (arith, variant_of-id v rows r)

order_item-requirement :
    (db : Db) (line : QuoteLine)
    → Ends (λ i. requirement i ≡ line_requirement line) (λ _. Unit {0}) (order_item db line)
unfolding order_item
order_item-requirement db line = elim (Option-cases (variant_of line.variant_id db.variants)) [
  | inl e ↦ rw e tt
  | inr (v, e) ↦
      let same : v.id ≡ line.variant_id = variant_of-id line.variant_id db.variants v e in
      rw e (ground (arith, same))
]

order_items-requirements :
    (db : Db) (lines : List QuoteLine)
    → Ends
        (λ items. map requirement items ≡ map line_requirement lines)
        (λ _. Unit {0})
        (order_items db lines)
unfolding order_items
order_items-requirements db [] = refl
order_items-requirements db (l ∷ lines) =
    Ends-then (λ items. map requirement items ≡ map line_requirement (l ∷ lines)) (λ _. Unit {0})
      (order_item db l) _ (λ _ _. tt)
      λ i e.
        Ends-then (λ items. map requirement items ≡ map line_requirement (l ∷ lines))
          (λ _. Unit {0}) (order_items db lines) _ (λ _ _. tt)
          λ items f.
            rw
              (
                Ends-of_ok (λ i. requirement i ≡ line_requirement l) (λ _. Unit {0}) _ i
                    (order_item-requirement db l) e,
                Ends-of_ok (λ items. map requirement items ≡ map line_requirement lines)
                    (λ _. Unit {0}) _ items (order_items-requirements db lines) f,
              )
              refl

get_order-appended :
    (o : Order) (rows : List Order)
    → get_order o.id rows ≡ none
    → get_order o.id (rows ++ o ∷ []) ≡ some o
unfolding get_order
get_order-appended o [] e = ground arith
get_order-appended o (r ∷ rows) e = ground (arith, get_order-appended o rows)

pub lines-has_items :
    (lines : List QuoteLine) (items : List OrderItem)
    → is_no_line lines ≡ false
    → map requirement items ≡ map line_requirement lines
    → has_items items ≡ true
lines-has_items [] items h e = cc
lines-has_items (l ∷ lines) [] h e = cc
lines-has_items (l ∷ lines) (i ∷ items) h e = refl

module _ (new : NewIds) (user_id : Option ℕ) (lines : List QuoteLine) (db : Db)
    (fresh : get_order new.order_id db.orders ≡ none) where
  -- The order is in the table, it asks for the lines, and their goods have left the shelves.
  abbrev pub IsPlaced : Order → Db → Type 0
  IsPlaced order after =
      (get_order new.order_id after.orders ≡ some order)
      × (requirements_of order ≡ map line_requirement lines)
      × Adds (λ v. demand v (map line_requirement lines)) after.stock db.stock

  abbrev pub PlacesCash : Order × Db → Type 0
  PlacesCash a =
      (items : List OrderItem) × (a.0 ≡ new_order new user_id PaymentMethod.cod items)
      × IsPlaced a.0 a.1

  create_order_row-PlacesCash :
      Ends PlacesCash (λ _. Unit {0}) (create_order_row new user_id PaymentMethod.cod lines db)
  unfolding create_order_row
  create_order_row-PlacesCash =
      Ends-then PlacesCash (λ _. Unit {0}) (order_items db lines) _ (λ _ _. tt)
        λ items e.
          let order = new_order new user_id PaymentMethod.cod items in
          Ends-then PlacesCash (λ _. Unit {0})
            (hit_inventory PaymentMethod.cod new.order_id user_id (map line_requirement lines) db) _
            (λ _ _. tt)
            λ db' d.
              let taken = Ends-of_ok HasTaken (λ _. Unit {0}) _ db' hit_inventory-HasTaken d in
              (
                items,
                refl,
                (
                  ap (get_order new.order_id) (ap (λ rows. rows ++ order ∷ []) taken.1)
                      ∙ get_order-appended order db.orders fresh,
                  Ends-of_ok (λ items. map requirement items ≡ map line_requirement lines)
                      (λ _. Unit {0}) _ items (order_items-requirements db lines) e,
                  taken.0,
                ),
              )
    where
      HasTaken : Db → Type 0
      HasTaken after =
          Adds (λ v. demand v (map line_requirement lines)) after.stock db.stock
          × (after.orders ≡ db.orders)

      hit_inventory-HasTaken :
          Ends HasTaken
            (λ _. Unit {0})
            (hit_inventory PaymentMethod.cod new.order_id user_id (map line_requirement lines) db)
      hit_inventory-HasTaken =
          Ends-then HasTaken (λ _. Unit {0})
            (decrement new.order_id user_id StockMovementReason.order_placed
              (map line_requirement lines) db.stock)
            _ (λ _ _. tt)
            λ stock e. (
              Ends-of_ok (λ t. Adds (λ v. demand v (map line_requirement lines)) t db.stock)
                  (λ _. Unit {0}) _ stock
                  (decrement-Adds new.order_id user_id StockMovementReason.order_placed
                    (map line_requirement lines) db.stock)
                  e,
              refl,
            )

  pub place_order-PlacesCash :
      (create_order : ℕ → Result ℕ)
      → is_no_line lines ≡ false
      → Ends
          (λ a. PlacesCash (a.0.0, a.1))
          (λ _. Unit {0})
          (place_order create_order new user_id PaymentMethod.cod lines db)
  unfolding place_order
  place_order-PlacesCash create_order some_lines = rw some_lines (
      Ends-then (λ a. PlacesCash (a.0.0, a.1)) (λ _. Unit {0})
        (create_order_row new user_id PaymentMethod.cod lines db) _ (λ _ _. tt)
        λ created e. Ends-of_ok PlacesCash (λ _. Unit {0}) _ created create_order_row-PlacesCash e)
