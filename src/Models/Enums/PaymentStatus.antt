-- ===== src/Models/Enums/PaymentStatus.antt =====
-- `PaymentStatus` of app/models/enums.py.
use oorvashee_backend.Prelude.{Bool, true, false}

pub data PaymentStatus : Type 0 where
  pending paid failed refunded cod_pending : PaymentStatus

abbrev pub is : PaymentStatus → PaymentStatus → Bool
is pending pending = true
is paid paid = true
is failed failed = true
is refunded refunded = true
is cod_pending cod_pending = true
is _ _ = false
