-- ===== src/Models/Enums/RazorpayPaymentStatus.antt =====
-- `RazorpayPaymentStatus` of app/models/enums.py.
use oorvashee_backend.Prelude.{Bool, true, false}

pub data RazorpayPaymentStatus : Type 0 where
  created authorized captured failed refunded : RazorpayPaymentStatus

abbrev pub is_captured : RazorpayPaymentStatus → Bool
is_captured captured = true
is_captured _ = false
