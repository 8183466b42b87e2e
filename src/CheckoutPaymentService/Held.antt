-- ===== src/CheckoutPaymentService/Held.antt =====
-- The order that `start_payment` of app/services/checkout_payment_service.py makes, against what its
-- session holds.
use oorvashee_backend.Prelude.{
  ℕ, ◌+◌, ◌≤◌, ◌<◌, ◌≡◌, refl, ap, Bool, true, false, ◌&&◌, not, Option, none, some, List, [], ◌∷◌,
  map, if◌then◌else◌, keep_if, arith,
}
use oorvashee_backend.Prelude.Int.{ℤ, pos, ltb_ℤ}
use oorvashee_backend.Models.Checkout.{Reservation, CheckoutSession}
use oorvashee_backend.Models.Order.{Order, OrderItem}
use oorvashee_backend.Models.Catalog.{Product, ProductVariant}
use oorvashee_backend.Exceptions.{AppError, Result, raise_if, CheckoutLineResult, LineReason}
use oorvashee_backend.Exceptions.Loops.{Ends, Ends-then, Ends-raise_if, Ends-of_ok}
use oorvashee_backend.Database.{Db, Clock}
use oorvashee_backend.InventoryService.{StockRequirement, inventory_of, stock_at}
use oorvashee_backend.InventoryService.Sale.{demand}
use oorvashee_backend.ReservationRepository.{
  insert_by_variant, order_by_variant, is_reserved_of, list_reserved_for_session,
}
use oorvashee_backend.ReservationRepository.Holds.{own}
use oorvashee_backend.ReservationLifecycleService.{requirement, requirements_of}
use oorvashee_backend.CheckoutSessionService.{variant_of, is_published}
use oorvashee_backend.CheckoutPaymentService.{
  failed_line, Built, item, failure, build_item, build_line, add_built, build_lines, has_failures,
  product_for, is_active, build_order, NewIds, to_payment, is_empty, load_payable_session,
  prepare_order, inr_to_paise, initiate_razorpay, start_payment,
}
use oorvashee_backend.Soundness.Sale.{IsHeldFor}

abbrev asked_by : Reservation → StockRequirement
asked_by r = record { variant_id = r.variant_id; quantity = r.quantity }

-- The order of the rows does not matter to what they ask for.
demand-insert :
    (v : ℕ) (r : Reservation) (rows : List Reservation)
    → demand v (map asked_by (insert_by_variant r rows)) ≡ demand v (map asked_by (r ∷ rows))
unfolding insert_by_variant
demand-insert v r [] = refl
demand-insert v r (q ∷ rows) = ground (arith, demand-insert v r rows)

demand-order :
    (v : ℕ) (rows : List Reservation)
    → demand v (map asked_by (order_by_variant rows)) ≡ demand v (map asked_by rows)
unfolding order_by_variant
demand-order v [] = refl
demand-order v (r ∷ rows) =
    omega (arith, demand-insert v r (order_by_variant rows), demand-order v rows)

-- The rows that are handed to the payment hold what they ask for, before their expiry.
demand-own :
    (t session_id expiry v : ℕ) (rows : List Reservation)
    → t < expiry
    → demand v (map asked_by (keep_if (is_reserved_of session_id) rows))
      ≤ own t session_id v (map (to_payment session_id expiry) rows)
demand-own t session_id expiry v [] before = omega arith
demand-own t session_id expiry v (r ∷ rows) before =
    ground (arith, demand-own t session_id expiry v rows before)

variant_of-asked :
    (v : ℕ) (rows : List ProductVariant) (r : ProductVariant)
    → variant_of v rows ≡ some r
    → r.id ≡ v
unfolding variant_of
variant_of-asked v [] r e = cc
variant_of-asked v (q ∷ rows) r e = ground (arith, variant_of-asked v rows r)

-- An item that is built asks for what its reservation asks for.
abbrev Asks : Reservation → Built → Type 0
Asks r (item i) = requirement i ≡ asked_by r
Asks r (failure f) = Unit

build_item-Asks :
    (variant : Option ProductVariant) (product : Option Product) (r : Reservation) (b c : Bool)
    (f g : CheckoutLineResult) (stock : ℤ)
    → ((v : ProductVariant) → variant ≡ some v → v.id ≡ r.variant_id)
    → Asks r (if b then failure f else if c then failure g else build_item variant product r stock)
build_item-Asks variant product r true c f g stock id = tt
build_item-Asks variant product r false true f g stock id = tt
build_item-Asks none product r false false f g stock id = tt
build_item-Asks (some v) none r false false f g stock id = tt
build_item-Asks (some v) (some p) r false false f g stock id =
    ap (λ i. record { variant_id = i; quantity = r.quantity }) (id v refl)

build_line-Asks : (db : Db) (r : Reservation) → Asks r (build_line db r)
unfolding build_line
build_line-Asks db r =
    let variant = variant_of r.variant_id db.variants in
    let stock = stock_at (inventory_of r.variant_id db.stock.inventory) in
    build_item-Asks variant (product_for db variant) r
      (not (is_active variant && is_published (product_for db variant)))
      (ltb_ℤ stock (pos r.quantity)) (failed_line r stock LineReason.unavailable)
      (failed_line r stock LineReason.out_of_stock) stock
      (λ v. variant_of-asked r.variant_id db.variants v)

add_built-Asks :
    (r : Reservation) (rows : List Reservation) (b : Built) (items : List OrderItem)
    (failures : List CheckoutLineResult)
    → Asks r b
    → (has_failures failures ≡ false → map requirement items ≡ map asked_by rows)
    → has_failures (add_built b (items, failures)).1 ≡ false
    → map requirement (add_built b (items, failures)).0 ≡ map asked_by (r ∷ rows)
add_built-Asks r rows (item i) items failures a h n = rw (a, h n) refl
add_built-Asks r rows (failure f) items failures a h n = cc

build_lines-Asks :
    (db : Db) (rows : List Reservation)
    → has_failures (build_lines db rows).1 ≡ false
    → map requirement (build_lines db rows).0 ≡ map asked_by rows
unfolding build_lines
build_lines-Asks db [] = λ n. refl
build_lines-Asks db (r ∷ rows) =
    add_built-Asks r rows (build_line db r) (build_lines db rows).0 (build_lines db rows).1
      (build_line-Asks db r) (build_lines-Asks db rows)

build_order-Asks :
    (db : Db) (new : NewIds) (s : CheckoutSession) (rows : List Reservation) (user_id : ℕ)
    → Ends
        (λ o. requirements_of o ≡ map asked_by rows)
        (λ _. Unit {0})
        (build_order db new s rows user_id)
unfolding build_order
build_order-Asks db new s rows user_id =
    Ends-raise_if (λ o. requirements_of o ≡ map asked_by rows) (λ _. Unit {0})
      (has_failures (build_lines db rows).1) _ _ (λ _. tt) (build_lines-Asks db rows)

module _ (t : ℕ) (clock : Clock) (ttl : ℕ) (new : NewIds) (session_id user_id : ℕ) (db : Db)
    (before : t < clock.utc_now + ttl) where
  order-IsHeldFor :
      (order : Order)
      → requirements_of order
        ≡ map asked_by (order_by_variant (keep_if (is_reserved_of session_id) db.reservations))
      → IsHeldFor t order session_id
          (map (to_payment session_id (clock.utc_now + ttl)) db.reservations)
  order-IsHeldFor order asks v =
      rw (asks, demand-order v (keep_if (is_reserved_of session_id) db.reservations))
        (demand-own t session_id (clock.utc_now + ttl) v db.reservations before)

  prepare_order-IsHeldFor :
      Ends
        (λ a. IsHeldFor t a.0 session_id a.1.reservations)
        (λ _. Unit {0})
        (prepare_order clock ttl new session_id user_id db)
  unfolding prepare_order list_reserved_for_session
  prepare_order-IsHeldFor =
      Ends-then (λ a. IsHeldFor t a.0 session_id a.1.reservations) (λ _. Unit {0})
        (load_payable_session clock session_id user_id db.sessions) _ (λ _ _. tt)
        λ s _.
          Ends-then (λ a. IsHeldFor t a.0 session_id a.1.reservations) (λ _. Unit {0})
            (raise_if (is_empty (list_reserved_for_session session_id db.reservations))
              AppError.reservation_expired)
            _ (λ _ _. tt)
            λ _ _.
              Ends-then (λ a. IsHeldFor t a.0 session_id a.1.reservations) (λ _. Unit {0})
                (build_order db new s (list_reserved_for_session session_id db.reservations)
                  user_id)
                _ (λ _ _. tt)
                λ order e. order-IsHeldFor order (
                  Ends-of_ok
                    (λ o.
                      requirements_of o
                      ≡ map asked_by (list_reserved_for_session session_id db.reservations))
                    (λ _. Unit {0}) _ order
                    (build_order-Asks db new s
                      (list_reserved_for_session session_id db.reservations) user_id)
                    e)

  initiate-same :
      (create_order : ℕ → Result ℕ) (order : Order) (db' : Db)
      → Ends
          (λ a. a.1.reservations ≡ db'.reservations)
          (λ _. Unit {0})
          (initiate_razorpay create_order new order db')
  unfolding initiate_razorpay
  initiate-same create_order order db' =
      Ends-then (λ a. a.1.reservations ≡ db'.reservations) (λ _. Unit {0})
        (inr_to_paise order.total) _ (λ _ _. tt)
        λ paise _.
          Ends-then (λ a. a.1.reservations ≡ db'.reservations) (λ _. Unit {0}) (create_order paise)
            _ (λ _ _. tt) λ id _. refl

  -- When a payment is started, its session holds all that the new order asks for at every time before
  -- the payment's time runs out, whatever the gateway answers.
  pub start_payment-IsHeldFor :
      (create_order : ℕ → Result ℕ)
      → Ends
          (λ a. IsHeldFor t a.0.0 session_id a.1.reservations)
          (λ _. Unit {0})
          (start_payment create_order clock ttl new session_id user_id db)
  unfolding start_payment
  start_payment-IsHeldFor create_order =
      Ends-then (λ a. IsHeldFor t a.0.0 session_id a.1.reservations) (λ _. Unit {0})
        (prepare_order clock ttl new session_id user_id db) _ (λ _ _. tt)
        λ prepared e.
          Ends-then (λ a. IsHeldFor t a.0.0 session_id a.1.reservations) (λ _. Unit {0})
            (initiate_razorpay create_order new prepared.0 prepared.1) _ (λ _ _. tt)
            λ paid p.
              rw
                (Ends-of_ok (λ a. a.1.reservations ≡ prepared.1.reservations) (λ _. Unit {0}) _ paid
                  (initiate-same create_order prepared.0 prepared.1) p)
                (Ends-of_ok (λ a. IsHeldFor t a.0 session_id a.1.reservations) (λ _. Unit {0}) _
                  prepared prepare_order-IsHeldFor e)
