-- ===== src/Models/Enums/ReservationStatus.antt =====
-- `ReservationStatus` of app/models/enums.py, and `ACTIVE_RESERVATION_STATUSES` of
-- app/repositories/reservation_repo.py.
use oorvashee_backend.Prelude.{Bool, true, false}

pub data ReservationStatus : Type 0 where
  reserved payment_processing completed expired cancelled : ReservationStatus

abbrev pub is : ReservationStatus → ReservationStatus → Bool
is reserved reserved = true
is payment_processing payment_processing = true
is completed completed = true
is expired expired = true
is cancelled cancelled = true
is _ _ = false

abbrev pub holds_stock : ReservationStatus → Bool
holds_stock reserved = true
holds_stock payment_processing = true
holds_stock _ = false
