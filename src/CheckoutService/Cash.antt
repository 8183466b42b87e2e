-- ===== src/CheckoutService/Cash.antt =====
-- A cash order through app/services/checkout_service.py and its cancellation by
-- app/services/admin_order_service.py.
use oorvashee_backend.Prelude.{
  ℕ, ◌≡◌, refl, sym, ap, ◌∙◌, Bool, true, false, ◌&&◌, ◌||◌, Option, none, some, List, map, arith,
}
use oorvashee_backend.Models.Enums.{PaymentMethod, is_cod, StockMovementReason}
use oorvashee_backend.Models.Enums.OrderStatus
use oorvashee_backend.Models.Enums.PaymentStatus
use oorvashee_backend.Models.Order.{Order}
use oorvashee_backend.Exceptions.{Result, ok}
use oorvashee_backend.Exceptions.Loops.{Ends, Ends-then, Ends-guard, Ends-of_ok}
use oorvashee_backend.Database.{Db}
use oorvashee_backend.InventoryService.{restock}
use oorvashee_backend.InventoryService.Sale.{demand}
use oorvashee_backend.InventoryService.Shelves.{shelf_of, plus, Adds}
use oorvashee_backend.InventoryService.Returns.{restock-Adds}
use oorvashee_backend.ReservationLifecycleService.{requirement, requirements_of}
use oorvashee_backend.OrderRepository.{get_order}
use oorvashee_backend.CheckoutPaymentService.{NewIds}
use oorvashee_backend.AdminOrderService.{save}
use oorvashee_backend.AdminOrderService.Actions.{
  give_back, has_items, product_ids, call_off, cancel_order,
}
use oorvashee_backend.AdminOrderService.GivesBack.{recompute_all-stock}
use oorvashee_backend.CheckoutService.{
  QuoteLine, new_order, line_requirement, place_order, is_no_line,
}
use oorvashee_backend.CheckoutService.Placed.{PlacesCash, lines-has_items, place_order-PlacesCash}

-- A cash order that is on its way to nobody yet: a cancellation puts its goods back whole.
module _ (now actor id : ℕ) (order : Order) (db : Db) (found : get_order id db.orders ≡ some order)
    (placed : OrderStatus.is order.status OrderStatus.placed ≡ true)
    (cash : is_cod order.payment_method ≡ true) (filled : has_items order.items ≡ true) where
  abbrev Returned : Db → Type 0
  Returned after = Adds (λ v. demand v (requirements_of order)) db.stock after.stock

  give_back-Returned : Ends Returned (λ _. Unit {0}) (give_back actor order db)
  unfolding give_back
  give_back-Returned =
      rw (all_given (PaymentStatus.is order.payment_status PaymentStatus.paid) cash filled) (
        Ends-then Returned (λ _. Unit {0})
          (restock order.id (some actor) StockMovementReason.order_cancelled (requirements_of order)
            db.stock)
          _ (λ _ _. tt)
          (λ stock e.
            Ends-of_ok (λ t. Adds (λ v. demand v (requirements_of order)) db.stock t)
              (λ _. Unit {0}) _ stock
              (restock-Adds order.id (some actor) StockMovementReason.order_cancelled
                (requirements_of order) db.stock)
              e))
    where
      all_given : (b : Bool) {c d : Bool} → c ≡ true → d ≡ true → ((b || c) && d) ≡ true
      all_given b p q = ground (arith, p, q)

  call_off-Returned : Ends Returned (λ _. Unit {0}) (call_off now actor order db)
  unfolding call_off save
  call_off-Returned =
      Ends-guard Returned (λ _. Unit {0}) _ _ (λ _ _. tt)
        (Ends-then Returned (λ _. Unit {0}) (give_back actor order db) _ (λ _ _. tt)
          (λ db' e v.
            ap (shelf_of v) (recompute_all-stock actor (product_ids order.items) _)
            ∙ Ends-of_ok Returned (λ _. Unit {0}) _ db' give_back-Returned e v))

  cancel_order-Returned : Ends Returned (λ _. Unit {0}) (cancel_order now actor id db)
  unfolding cancel_order
  cancel_order-Returned = rw (found, fresh order.status placed) call_off-Returned
    where
      fresh :
          (s : OrderStatus.OrderStatus)
          → OrderStatus.is s OrderStatus.placed ≡ true
          → OrderStatus.is s OrderStatus.cancelled ≡ false
      fresh s h = ground arith

-- A cash order that is placed and then cancelled leaves every variant at the stock it started from; the
-- new order's id is not taken.
pub cancel_order-place_order :
    (create_order : ℕ → Result ℕ) (new : NewIds) (user_id : Option ℕ) (lines : List QuoteLine)
    (now actor : ℕ) (db db' db'' : Db) (placed : Order × Option ℕ)
    → get_order new.order_id db.orders ≡ none
    → is_no_line lines ≡ false
    → place_order create_order new user_id PaymentMethod.cod lines db ≡ ok (placed, db')
    → cancel_order now actor new.order_id db' ≡ ok db''
    → (v : ℕ) → shelf_of v db''.stock ≡ shelf_of v db.stock
cancel_order-place_order create_order new user_id lines now actor db db' db'' placed fresh
      some_lines p c v =
    let (items, same, (found, asks, taken)) =
      Ends-of_ok (λ a. PlacesCash new user_id lines db fresh (a.0.0, a.1)) (λ _. Unit {0}) _
        (placed, db') (place_order-PlacesCash new user_id lines db fresh create_order some_lines)
        p in
    let order = new_order new user_id PaymentMethod.cod items in
    let asks' : map requirement items ≡ map line_requirement lines =
      sym (ap requirements_of same) ∙ asks in
    let found' : get_order new.order_id db'.orders ≡ some order = found ∙ ap some same in
    let filled = lines-has_items lines items some_lines asks' in
    Ends-of_ok (Returned now actor new.order_id order db' found' refl refl filled) (λ _. Unit {0}) _
      db'' (cancel_order-Returned now actor new.order_id order db' found' refl refl filled) c v
    ∙ ap (λ reqs. plus (demand v reqs) (shelf_of v db'.stock)) asks'
    ∙ sym (taken v)
