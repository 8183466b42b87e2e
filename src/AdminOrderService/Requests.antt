-- ===== src/AdminOrderService/Requests.antt =====
-- The requests of the administration, served one after another: app/services/admin_order_service.py as
-- app/routers/admin/orders.py calls it. A request that raises is rolled back.
use oorvashee_backend.Prelude.{
  ℕ, ◌≡◌, refl, ◌∙◌, Bool, true, false, not, Option, none, some, List, [], ◌∷◌, Bool-cases, inl,
  inr,
}
use mathlib.Core.Bool.{cond}
use oorvashee_backend.Models.Enums.{is_cod}
use oorvashee_backend.Models.Enums.OrderStatus.{OrderStatus}
use oorvashee_backend.Models.Order.{Order}
use oorvashee_backend.Exceptions.{AppError, Result, ok, err}
use oorvashee_backend.Exceptions.Loops.{Ends, Ends-raise_if}
use oorvashee_backend.Database.{Db}
use oorvashee_backend.OrderLifecycle.{
  Move, stay, packing, shipping, delivery, cancel_placed, cancel_packed, cancel_shipped, IsLawful,
  KeepsLaw, put-KeepsLaw, same_orders-KeepsLaw,
}
use oorvashee_backend.OrderRepository.{get_order}
use oorvashee_backend.OrderRepository.Evolution.{Follows, with_order-Ends, cond-Ends}
use oorvashee_backend.AdminOrderService.{
  save, mark_packed, ShipmentUpdateRequest, mark_shipped, mark_delivered, is_terminal, shipment_of,
}
use oorvashee_backend.AdminOrderService.Actions.{
  cancel_order, mark_cod_paid, update_shipment, add_note, updated_shipment, changes,
}
use oorvashee_backend.AdminOrderService.Lifecycle.{
  pack-KeepsLaw, ship-KeepsLaw, deliver-KeepsLaw, call_off-KeepsLaw, record_cash-KeepsLaw,
}

-- A request for one order, by an administrator, at a time.
pub data Request : Type 0 where
  packed delivered cancelled : (now actor order_id : ℕ) → Request
  shipped : (now actor : ℕ) → ShipmentUpdateRequest → (order_id : ℕ) → Request
  cod_paid : (actor order_id : ℕ) → Request
  shipment_updated : (actor : ℕ) → ShipmentUpdateRequest → (order_id : ℕ) → Request
  noted : (actor note order_id : ℕ) → Request

unfoldable pub handle : Request → Db → Result Db
unfolding mark_packed mark_shipped mark_delivered cancel_order mark_cod_paid update_shipment
    add_note
handle (packed now actor order_id) db = mark_packed now actor order_id db
handle (shipped now actor body order_id) db = mark_shipped now actor body order_id db
handle (delivered now actor order_id) db = mark_delivered now actor order_id db
handle (cancelled now actor order_id) db = cancel_order now actor order_id db
handle (cod_paid actor order_id) db = mark_cod_paid actor order_id db
handle (shipment_updated actor body order_id) db = update_shipment actor body order_id db
handle (noted actor note order_id) db = add_note actor note order_id db

abbrev commit : Db → Result Db → Db
commit before (ok after) = after
commit before (err e) = before

unfoldable pub serve : List Request → Db → Db
unfolding handle
serve [] db = db
serve (r ∷ requests) db = serve requests (commit db (handle r db))

module _ (db : Db) where
  unless :
      (b : Bool) (r : Result Db)
      → (b ≡ false → Ends (KeepsLaw db) (λ _. Unit {0}) r)
      → Ends (KeepsLaw db) (λ _. Unit {0}) (cond b (ok db) r)
  unless b r k = cond-Ends (KeepsLaw db) b (ok db) r (λ _. same_orders-KeepsLaw db db refl) k

  update_shipment-KeepsLaw :
      (actor : ℕ) (body : ShipmentUpdateRequest) (id : ℕ)
      → Ends (KeepsLaw db) (λ _. Unit {0}) (update_shipment actor body id db)
  unfolding update_shipment save
  update_shipment-KeepsLaw actor body id = with_order-Ends (KeepsLaw db) id db.orders _ λ o e.
      let o' = record o { shipment = some (updated_shipment body (shipment_of o)) } in
      elim (Bool-cases (changes body (shipment_of o))) [
        | inl c ↦ rw c (put-KeepsLaw id o db e o' refl (stay, λ h. h))
        | inr c ↦ rw c (put-KeepsLaw id o db e o' refl (stay, λ h. h))
      ]

  -- A request of the administration moves each order one step along its life or leaves its status
  -- alone, and no online order gets packed, shipped or delivered by it without being paid, if none was
  -- before; or it raises.
  pub handle-KeepsLaw : (r : Request) → Ends (KeepsLaw db) (λ _. Unit {0}) (handle r db)
  unfolding handle mark_packed mark_shipped mark_delivered cancel_order mark_cod_paid add_note
  handle-KeepsLaw (packed now actor id) =
      with_order-Ends (KeepsLaw db) id db.orders _
        λ o e. unless _ _ (λ _. pack-KeepsLaw id o db e now actor)
  handle-KeepsLaw (shipped now actor body id) =
      with_order-Ends (KeepsLaw db) id db.orders _
        λ o e. unless _ _ (λ _. ship-KeepsLaw id o db e now actor body)
  handle-KeepsLaw (delivered now actor id) =
      with_order-Ends (KeepsLaw db) id db.orders _
        λ o e. unless _ _ (λ _. deliver-KeepsLaw id o db e now actor)
  handle-KeepsLaw (cancelled now actor id) =
      with_order-Ends (KeepsLaw db) id db.orders _
        λ o e. unless _ _ (λ fresh. call_off-KeepsLaw id o db e now actor fresh)
  handle-KeepsLaw (cod_paid actor id) = with_order-Ends (KeepsLaw db) id db.orders _ λ o e.
      Ends-raise_if (KeepsLaw db) (λ _. Unit {0}) (not (is_cod o.payment_method))
        AppError.not_a_cod_order _ (λ _. tt)
        λ _. unless _ _ (λ _. record_cash-KeepsLaw id o db e actor)
  handle-KeepsLaw (shipment_updated actor body id) = update_shipment-KeepsLaw actor body id
  handle-KeepsLaw (noted actor note id) =
      with_order-Ends (KeepsLaw db) id db.orders _ λ o e. same_orders-KeepsLaw db db refl

commit-KeepsLaw :
    (db : Db) (r : Result Db) → Ends (KeepsLaw db) (λ _. Unit {0}) r → KeepsLaw db (commit db r)
commit-KeepsLaw db (ok after) h = h
commit-KeepsLaw db (err e) h = same_orders-KeepsLaw db db refl

followed :
    (o : Order) (after : Option Order)
    → Follows IsLawful (some o) after
    → (o' : Order) × (after ≡ some o') × IsLawful o o'
followed o none h = absurd h
followed o (some o') h = (o', refl, h)

terminal-Move : {s t : OrderStatus} → Move s t → is_terminal s ≡ true → t ≡ s
terminal-Move stay h = refl
terminal-Move packing h = cc
terminal-Move shipping h = cc
terminal-Move delivery h = cc
terminal-Move cancel_placed h = cc
terminal-Move cancel_packed h = cc
terminal-Move cancel_shipped h = cc

-- An order that is delivered or cancelled stays so, whatever requests the administration serves after.
pub serve_terminal :
    (requests : List Request) (db : Db) (id : ℕ) (o : Order)
    → get_order id db.orders ≡ some o
    → is_terminal o.status ≡ true
    → (o' : Order) × (get_order id (serve requests db).orders ≡ some o') × (o'.status ≡ o.status)
unfolding serve
serve_terminal [] db id o e t = (o, e, refl)
serve_terminal (r ∷ requests) db id o e t =
    let after = commit db (handle r db) in
    let lawful : Follows IsLawful (some o) (get_order id after.orders) =
      rw (← e) (commit-KeepsLaw db (handle r db) (handle-KeepsLaw db r) id) in
    let (p, found, move) = followed o (get_order id after.orders) lawful in
    let same = terminal-Move move.0 t in
    let (q, last, status) = serve_terminal requests after id p found (rw same t) in
    (q, last, status ∙ same)
