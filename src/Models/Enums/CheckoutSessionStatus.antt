-- ===== src/Models/Enums/CheckoutSessionStatus.antt =====
-- `CheckoutSessionStatus` of app/models/enums.py, and `ACTIVE_SESSION_STATUSES` of
-- app/repositories/reservation_repo.py.
use oorvashee_backend.Prelude.{Bool, true, false}

pub data CheckoutSessionStatus : Type 0 where
  active payment_processing completed expired cancelled : CheckoutSessionStatus

abbrev pub is : CheckoutSessionStatus → CheckoutSessionStatus → Bool
is active active = true
is payment_processing payment_processing = true
is completed completed = true
is expired expired = true
is cancelled cancelled = true
is _ _ = false

abbrev pub is_live : CheckoutSessionStatus → Bool
is_live active = true
is_live payment_processing = true
is_live _ = false
