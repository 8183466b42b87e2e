-- ===== src/Models/Order.antt =====
-- app/models/order.py and app/models/payment.py. Amounts (Numeric(12, 2)) are counted in paise.
-- The contact and address snapshots, labels and images of an order are left out: nothing that is
-- modelled reads them. A JSON body and a free text are numbers that stand for them.
use oorvashee_backend.Prelude.{ℕ, Option, List}
use oorvashee_backend.Models.Enums.{PaymentMethod}
use oorvashee_backend.Models.Enums.OrderStatus.{OrderStatus}
use oorvashee_backend.Models.Enums.PaymentStatus.{PaymentStatus}
use oorvashee_backend.Models.Enums.RazorpayPaymentStatus.{RazorpayPaymentStatus}

pub record OrderItem : Type 0 where
  pub product_id : ℕ
  pub variant_id : ℕ
  pub unit_price : ℕ
  pub quantity : ℕ
  pub line_total : ℕ

pub record Shipment : Type 0 where
  pub courier_name : Option ℕ
  pub tracking_id : Option ℕ
  pub tracking_url : Option ℕ
  pub shipped_at : Option ℕ
  pub delivered_at : Option ℕ

-- `items` and `shipment` are the rows of the tables that refer to the order.
pub record Order : Type 0 where
  pub id : ℕ
  pub order_number : ℕ
  pub user_id : Option ℕ
  pub status : OrderStatus
  pub payment_status : PaymentStatus
  pub payment_method : PaymentMethod
  pub subtotal : ℕ
  pub total : ℕ
  pub checkout_session_id : Option ℕ
  pub items : List OrderItem
  pub shipment : Option Shipment
  pub placed_at : Option ℕ
  pub packed_at : Option ℕ
  pub shipped_at : Option ℕ
  pub delivered_at : Option ℕ
  pub cancelled_at : Option ℕ

-- The text that the gateway sends, and the flag that PaymentService writes for a manual refund.
pub data FailureReason : Type 0 where
  reported : ℕ → FailureReason
  captured_out_of_stock_needs_refund : FailureReason

pub record Payment : Type 0 where
  pub id : ℕ
  pub order_id : ℕ
  pub razorpay_order_id : ℕ
  pub razorpay_payment_id : Option ℕ
  pub razorpay_signature : Option ℕ
  pub webhook_event_id : Option ℕ
  pub amount : ℕ
  pub status : RazorpayPaymentStatus
  pub failure_reason : Option FailureReason
  pub raw_response : Option ℕ
  pub captured_at : Option ℕ
