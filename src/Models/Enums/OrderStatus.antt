-- ===== src/Models/Enums/OrderStatus.antt =====
-- `OrderStatus` of app/models/enums.py.
use oorvashee_backend.Prelude.{Bool, true, false}

pub data OrderStatus : Type 0 where
  placed packed shipped delivered cancelled : OrderStatus

abbrev pub is : OrderStatus → OrderStatus → Bool
is placed placed = true
is packed packed = true
is shipped shipped = true
is delivered delivered = true
is cancelled cancelled = true
is _ _ = false
