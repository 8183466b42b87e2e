-- ===== src/System.antt =====
-- The checkout as a whole: shoppers, the gateway, the administration, the sweeper and the clock act in any
-- order, each call in its own transaction, and a call that raises leaves the state alone.
use oorvashee_backend.Prelude.{ℕ, ◌≤◌, ◌≡◌, some, Bool, arith}
use oorvashee_backend.Models.Order.{Order}
use oorvashee_backend.Exceptions.{Result, ok}
use oorvashee_backend.Exceptions.Loops.{Ends-of_ok}
use oorvashee_backend.Schemas.{CheckoutSessionRead}
use oorvashee_backend.Database.{Db, Clock}
use oorvashee_backend.ReservationRepository.Holds.{held-later-le}
use oorvashee_backend.CheckoutSessionService.{start_checkout}
use oorvashee_backend.CheckoutSessionService.Release.{cancel}
use oorvashee_backend.CheckoutPaymentService.{NewIds, start_payment}
use oorvashee_backend.ReservationLifecycleService.{complete_sale, cancel_for_order, run_sweep_once}
use oorvashee_backend.AdminOrderService.Actions.{cancel_order}
use oorvashee_backend.Soundness.Cancellation.{cancel_for_order-IsSound, cancel_order-IsSound}
use oorvashee_backend.AdminInventoryService.{StockAdjustmentRequest, StockAdjustmentResult, adjust}
use oorvashee_backend.Soundness.Adjustment.{adjust-IsSound}
use oorvashee_backend.Soundness.{IsSound}
use oorvashee_backend.Soundness.Sweeps.{run_sweep_once-IsSound}
use oorvashee_backend.Soundness.Checkout.{start_checkout-IsSound, cancel-IsSound}
use oorvashee_backend.Soundness.Payment.{start_payment-IsSound}
use oorvashee_backend.Soundness.Sale.{IsHeldFor, complete_sale-IsSound}

pub record World : Type 0 where
  pub now : ℕ
  pub db : Db

abbrev clock_at : World → ℕ → Clock
clock_at w utc_now = record { db_now = w.now; utc_now = utc_now }

-- One committed transaction, or the passage of time. A capture is a step while the session still holds
-- what the order asks for. The direct placement of an order, which is off unless
-- `legacy_checkout_enabled` is set, is not a step: it does not look at the reservations.
pub data Step (w : World) : World → Type 0 where
  wait : (later : ℕ) → w.now ≤ later → Step w (record w { now = later })
  checkout :
      (utc_now ttl new_id user_id : ℕ) (read : CheckoutSessionRead) (db' : Db)
      → start_checkout (clock_at w utc_now) ttl new_id user_id w.db ≡ ok (read, db')
      → Step w (record w { db = db' })
  cancelled :
      (utc_now session_id user_id : ℕ) (db' : Db)
      → cancel (clock_at w utc_now) session_id user_id w.db ≡ ok db'
      → Step w (record w { db = db' })
  pay :
      (create_order : ℕ → Result ℕ) (utc_now ttl : ℕ) (new : NewIds) (session_id user_id : ℕ)
      (paid : (Order × ℕ) × Db)
      → w.now ≤ utc_now
      → start_payment create_order (clock_at w utc_now) ttl new session_id user_id w.db ≡ ok paid
      → Step w (record w { db = paid.1 })
  capture :
      (session_id : ℕ) (order : Order) (db' : Db)
      → order.checkout_session_id ≡ some session_id
      → IsHeldFor w.now order session_id w.db.reservations
      → complete_sale order w.db ≡ ok db'
      → Step w (record w { db = db' })
  failed : (order : Order) → Step w (record w { db = cancel_for_order order w.db })
  called_off :
      (utc_now actor order_id : ℕ) (db' : Db)
      → cancel_order utc_now actor order_id w.db ≡ ok db'
      → Step w (record w { db = db' })
  adjusted :
      (v : ℕ) (body : StockAdjustmentRequest) (actor : ℕ) (done : StockAdjustmentResult × Db)
      → adjust w.now v body actor w.db ≡ ok done
      → Step w (record w { db = done.1 })
  sweep : (got : Bool) → Step w (record w { db = (run_sweep_once got w.now w.db).1 })

pub data Reach (w : World) : World → Type 0 where
  here : Reach w w
  next : {u v : World} → Reach w u → Step u v → Reach w v

abbrev pub IsSoundWorld : World → Type 0
IsSoundWorld w = IsSound w.now w.db

later-IsSound : (w : World) (later : ℕ) → w.now ≤ later → IsSoundWorld w → IsSound later w.db
later-IsSound w later le h = record {
  covered = λ v. omega (arith, held-later-le w.now later v w.db.reservations le, h.covered v);
  unique = h.unique;
  synced = h.synced;
}

Step-IsSound : {w u : World} → Step w u → IsSoundWorld w → IsSoundWorld u
Step-IsSound {w} (wait later le) h = later-IsSound w later le h
Step-IsSound {w} (checkout utc_now ttl new_id user_id read db' e) h =
    Ends-of_ok (λ r. IsSound w.now r.1) (λ _. Unit {0}) _ (read, db')
      (start_checkout-IsSound (clock_at w utc_now) ttl new_id user_id w.db h) e
Step-IsSound {w} (cancelled utc_now session_id user_id db' e) h =
    Ends-of_ok (IsSound w.now) (λ _. Unit {0}) _ db'
      (cancel-IsSound w.now (clock_at w utc_now) session_id user_id w.db h) e
Step-IsSound {w} (pay create_order utc_now ttl new session_id user_id paid le e) h =
    Ends-of_ok (λ r. IsSound w.now r.1) (λ _. Unit {0}) _ paid
      (start_payment-IsSound create_order (clock_at w utc_now) ttl new session_id user_id w.db le h)
      e
Step-IsSound {w} (capture session_id order db' linked hold e) h =
    Ends-of_ok (IsSound w.now) (λ _. Unit {0}) _ db'
      (complete_sale-IsSound w.now session_id order w.db h linked hold) e
Step-IsSound {w} (failed order) h = cancel_for_order-IsSound w.now order w.db h
Step-IsSound {w} (called_off utc_now actor order_id db' e) h =
    Ends-of_ok (IsSound w.now) (λ _. Unit {0}) _ db'
      (cancel_order-IsSound w.now utc_now actor order_id w.db h) e
Step-IsSound {w} (adjusted v body actor done e) h =
    Ends-of_ok (λ r. IsSound w.now r.1) (λ _. Unit {0}) _ done
      (adjust-IsSound w.now v body actor w.db h) e
Step-IsSound {w} (sweep got) h = run_sweep_once-IsSound got w.now w.now w.db h

-- However checkouts, payments, cancellations by shoppers and by the administration, captures within
-- the hold, failures, adjustments of the stock, sweeps and the passage of time follow one another, from
-- tables that satisfy the invariant the system only reaches such tables: no variant is ever held beyond
-- its stock.
pub Reach-IsSound : {w u : World} → Reach w u → IsSoundWorld w → IsSoundWorld u
Reach-IsSound here h = h
Reach-IsSound (next r st) h = Step-IsSound st (Reach-IsSound r h)
