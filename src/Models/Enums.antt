-- ===== src/Models/Enums.antt =====
-- app/models/enums.py: the statuses of the commerce tables, with the tests that the services make
-- on them. A type's `is` is Python's `==` (and `is`) on its members.
pub mod OrderStatus
pub mod PaymentStatus
pub mod RazorpayPaymentStatus
pub mod CheckoutSessionStatus
pub mod ReservationStatus
pub mod ProductStatus
use oorvashee_backend.Prelude.{Bool, true, false}

pub data PaymentMethod : Type 0 where
  razorpay cod : PaymentMethod

abbrev pub is_razorpay : PaymentMethod → Bool
is_razorpay PaymentMethod.razorpay = true
is_razorpay PaymentMethod.cod = false

abbrev pub is_cod : PaymentMethod → Bool
is_cod PaymentMethod.razorpay = false
is_cod PaymentMethod.cod = true

pub data StockMovementReason : Type 0 where
  order_placed order_cancelled manual_adjustment csv_import restock : StockMovementReason

pub data AuditAction : Type 0 where
  create update delete login logout payment_captured stock_adjusted status_changed : AuditAction
