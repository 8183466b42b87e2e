-- ===== src/Database.antt =====
-- The database state of a request: the tables that the services read and write, and the clocks. A
-- service call runs in one transaction: `session_scope` of app/db/session.py commits what it returns
-- and rolls back what it raises. The session runs with `autoflush=False`.
use oorvashee_backend.Prelude.{ℕ, List}
use oorvashee_backend.Models.Stock.{Stock}
use oorvashee_backend.Models.Checkout.{Reservation, CheckoutSession}
use oorvashee_backend.Models.Order.{Order, Payment}
use oorvashee_backend.Models.Catalog.{Product, ProductVariant, CartItem}
use oorvashee_backend.Models.Audit.{AuditLog}

-- The newest audit row stands first, the newest reservation, session, order and payment last. A cart
-- is a row of the user that owns it.
pub record Db : Type 0 where
  pub stock : Stock
  pub reservations : List Reservation
  pub sessions : List CheckoutSession
  pub orders : List Order
  pub payments : List Payment
  pub audits : List AuditLog
  pub products : List Product
  pub variants : List ProductVariant
  pub carts : List ℕ
  pub cart_items : List CartItem

-- `now()` of the database is when the transaction began; `utcnow()` is the application's clock.
pub record Clock : Type 0 where
  pub db_now : ℕ
  pub utc_now : ℕ
