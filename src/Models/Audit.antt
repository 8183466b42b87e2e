-- ===== src/Models/Audit.antt =====
-- app/models/audit_log.py, with the metadata that the order services record as a data type.
use oorvashee_backend.Prelude.{ℕ, Bool, Option, List}
use oorvashee_backend.Prelude.Int.{ℤ}
use oorvashee_backend.Models.Enums.{AuditAction, StockMovementReason}
use oorvashee_backend.Models.Catalog.{VariantField}
use oorvashee_backend.Models.Category.{CategoryField}
use oorvashee_backend.Models.Enums.OrderStatus.{OrderStatus}
use oorvashee_backend.Models.Enums.PaymentStatus.{PaymentStatus}
use oorvashee_backend.Models.Enums.ProductStatus.{ProductStatus}

pub data CaptureSource : Type 0 where
  verify webhook : CaptureSource

pub data Metadata : Type 0 where
  payment_capture : (razorpay_payment_id amount : ℕ) → CaptureSource → Metadata
  needs_refund : (razorpay_payment_id : ℕ) → Metadata
  payment_failure : (reason : ℕ) (razorpay_payment_id : Option ℕ) → Metadata
  transition : (before after : OrderStatus) → Metadata
  cancellation :
      (before : OrderStatus) (payment_before : PaymentStatus) (requires_refund : Bool)
      (restocked_items : ℕ)
      → Metadata
  cod_payment : (before after : PaymentStatus) → Metadata
  shipment_updated : Metadata
  admin_note : (note : ℕ) → Metadata
  availability : (before after : ProductStatus) → Metadata
  stock_change : (before after : ℤ) (reserved : ℕ) (reason : StockMovementReason) → Metadata
  threshold : (before after : ℕ) → Metadata
  product_status : (before after : ProductStatus) → Metadata
  variant_created : (product_id sku initial_stock : ℕ) → Metadata
  variant_changed : (product_id : ℕ) → List VariantField → Metadata
  variant_deactivated : (product_id : ℕ) → Metadata
  category_created : (parent_id : Option ℕ) → Metadata
  category_changed : List CategoryField → Metadata
  category_active : (before after : Bool) → Metadata
  category_order : (before after : ℕ) → Metadata

pub record AuditLog : Type 0 where
  pub action : AuditAction
  pub entity_id : ℕ
  pub actor_user_id : Option ℕ
  pub metadata : Metadata
