-- ===== src/AdminOrderService/GivesBack.antt =====
-- What `cancel_order` of app/services/admin_order_service.py gives back to the stock.
use oorvashee_backend.Prelude.{
  ℕ, ◌≡◌, refl, sym, ap, map, ◌∙◌, Bool, true, false, ◌&&◌, some, List, [], ◌∷◌, if◌then◌else◌,
  arith, Option-cases, inl, inr,
}
use oorvashee_backend.Models.Enums.{is_cod, StockMovementReason}
use oorvashee_backend.Models.Enums.OrderStatus
use oorvashee_backend.Models.Enums.PaymentStatus
use oorvashee_backend.Models.Order.{Order, OrderItem}
use oorvashee_backend.Models.Stock.{Stock}
use oorvashee_backend.Exceptions.{ok, ◌>>=◌}
use oorvashee_backend.Exceptions.Loops.{Ends, Ends-then, Ends-guard, Ends-of_ok}
use oorvashee_backend.Database.{Db}
use oorvashee_backend.InventoryService.{restock}
use oorvashee_backend.InventoryService.Sale.{demand}
use oorvashee_backend.InventoryService.Shelves.{shelf_of, plus, plus-zero, Adds}
use oorvashee_backend.InventoryService.Returns.{restock-Adds}
use oorvashee_backend.InventoryService.Availability.{recompute_product_availability}
use oorvashee_backend.ReservationLifecycleService.{requirement, requirements_of, cancel_for_order}
use oorvashee_backend.OrderRepository.{get_order}
use oorvashee_backend.OrderRepository.Evolution.{cond-Ends}
use oorvashee_backend.AdminOrderService.{save}
use oorvashee_backend.AdminOrderService.Actions.{
  give_back, has_items, stock_was_decremented, recompute_all, product_ids, call_off, cancel_order,
}

pub recompute_all-stock :
    (actor : ℕ) (ids : List ℕ) (db : Db) → (recompute_all actor ids db).stock ≡ db.stock
unfolding recompute_all recompute_product_availability
recompute_all-stock actor [] db = refl
recompute_all-stock actor (id ∷ ids) db =
    recompute_all-stock actor ids (recompute_product_availability (some actor) id db).1
    ∙ ground arith

cancel_for_order-stock : (o : Order) (db : Db) → (cancel_for_order o db).stock ≡ db.stock
unfolding cancel_for_order
cancel_for_order-stock o db = elim (Option-cases o.checkout_session_id) [
  | inl e ↦ rw e refl
  | inr (s, e) ↦ rw e refl
]

-- The goods of an order have left the stock and are not back yet: it is not cancelled, and is paid or to
-- be paid at the door.
abbrev pub is_out : Order → Bool
is_out o =
    if OrderStatus.is o.status OrderStatus.cancelled
    then false
    else if is_cod o.payment_method
    then true
    else PaymentStatus.is o.payment_status PaymentStatus.paid

-- The units of each variant that the cancellation of an order owes to the stock.
abbrev pub owed : Order → ℕ → ℕ
owed o v = if is_out o then demand v (requirements_of o) else 0

same-Adds : (s t : Stock) → t ≡ s → Adds (λ _. 0) s t
same-Adds s t e v = ap (shelf_of v) e ∙ plus-zero (shelf_of v s)

owed-is_out :
    (o : Order) (b : Bool) (v : ℕ)
    → is_out o ≡ b
    → (if b then demand v (requirements_of o) else 0) ≡ owed o v
owed-is_out o b v e = ap (λ c. if c then demand v (requirements_of o) else 0) (sym e)

no_items-demand : (o : Order) (v : ℕ) → has_items o.items ≡ false → demand v (requirements_of o) ≡ 0
no_items-demand o v h = none_asked o.items h
  where
    none_asked :
        (items : List OrderItem) → has_items items ≡ false → demand v (map requirement items) ≡ 0
    none_asked [] h = refl
    none_asked (i ∷ items) h = cc

-- The test of the code, where the order is not cancelled.
fresh-is_out :
    (o : Order)
    → OrderStatus.is o.status OrderStatus.cancelled ≡ false
    → is_out o ≡ stock_was_decremented o
fresh-is_out o e = ground arith

-- Each variant has got back what was owed to it.
abbrev pub GivesBack : Order → Db → Db → Type 0
GivesBack order db after = Adds (owed order) db.stock after.stock

module _ (actor : ℕ) (order : Order) (db : Db) where
  plus_owed :
      (b : Bool) (after : Db)
      → is_out order ≡ b
      → Adds (λ v. if b then demand v (requirements_of order) else 0) db.stock after.stock
      → (GivesBack order db) after
  plus_owed b after e h v = h v ∙ ap (λ n. plus n (shelf_of v db.stock)) (owed-is_out order b v e)

  restocked :
      is_out order ≡ true
      → Ends
          (GivesBack order db)
          (λ _. Unit {0})
          (restock order.id
              (some actor)
              StockMovementReason.order_cancelled
              (requirements_of order)
              db.stock
            >>= λ stock. ok (record db { stock = stock }))
  restocked e =
      Ends-then (GivesBack order db) (λ _. Unit {0})
        (restock order.id (some actor) StockMovementReason.order_cancelled (requirements_of order)
          db.stock)
        _ (λ _ _. tt)
        (λ stock r.
          plus_owed true (record db { stock = stock }) e
            (Ends-of_ok (λ t. Adds (λ v. demand v (requirements_of order)) db.stock t)
              (λ _. Unit {0}) _ stock
              (restock-Adds order.id (some actor) StockMovementReason.order_cancelled
                (requirements_of order) db.stock)
              r))

  give_back-GivesBack :
      is_out order ≡ stock_was_decremented order
      → Ends (GivesBack order db) (λ _. Unit {0}) (give_back actor order db)
  unfolding give_back
  give_back-GivesBack e =
      cond-Ends (GivesBack order db) (stock_was_decremented order && has_items order.items) _ _
        (λ both. restocked (ground (arith, e, both)))
        (λ none_back v.
          ap (shelf_of v) (cancel_for_order-stock order db)
          ∙ plus-zero (shelf_of v db.stock)
          ∙ ap (λ n. plus n (shelf_of v db.stock)) (nothing_owed v none_back))
    where
      nothing_owed :
          (v : ℕ)
          → (stock_was_decremented order && has_items order.items) ≡ false
          → 0 ≡ owed order v
      nothing_owed v h = ground (arith, e, no_items-demand order v)

  call_off-GivesBack :
      (now : ℕ)
      → OrderStatus.is order.status OrderStatus.cancelled ≡ false
      → Ends (GivesBack order db) (λ _. Unit {0}) (call_off now actor order db)
  unfolding call_off save
  call_off-GivesBack now e =
      Ends-guard (GivesBack order db) (λ _. Unit {0}) _ _ (λ _ _. tt)
        (Ends-then (GivesBack order db) (λ _. Unit {0}) (give_back actor order db) _ (λ _ _. tt)
          (λ db' done v.
            ap (shelf_of v) (recompute_all-stock actor (product_ids order.items) _)
            ∙ Ends-of_ok (GivesBack order db) (λ _. Unit {0}) _ db'
                (give_back-GivesBack (fresh-is_out order e)) done v))

-- A cancellation by the administration that goes through puts back onto each variant exactly what the
-- order asks for, if the order is cash or is paid and was not cancelled before, and else leaves the stock
-- of every variant as it is.
pub cancel_order-GivesBack :
    (now actor id : ℕ) (order : Order) (db : Db)
    → get_order id db.orders ≡ some order
    → Ends (GivesBack order db) (λ _. Unit {0}) (cancel_order now actor id db)
unfolding cancel_order
cancel_order-GivesBack now actor id order db found = rw found (
    cond-Ends (GivesBack order db) (OrderStatus.is order.status OrderStatus.cancelled) (ok db)
      (call_off now actor order db)
      (λ again v.
        plus-zero (shelf_of v db.stock)
        ∙ ap (λ n. plus n (shelf_of v db.stock))
            (owed-is_out order false v (ground (arith, again))))
      (call_off-GivesBack actor order db now))
