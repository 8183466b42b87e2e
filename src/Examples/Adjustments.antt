-- ===== src/Examples/Adjustments.antt =====
-- The theorems on app/services/admin_inventory_service.py, on the example shop.
use oorvashee_backend.Prelude.{refl, arith}
use oorvashee_backend.Models.Enums.{StockMovementReason}
use oorvashee_backend.Exceptions.Loops.{Ends}
use oorvashee_backend.InventoryService.{inventory_of}
use oorvashee_backend.InventoryService.Constraints.{IsValid, IsNoViolation}
use oorvashee_backend.ReservationRepository.{active_reserved_for_variant}
use oorvashee_backend.AdminInventoryService.{AdjustmentMode, StockAdjustmentRequest, adjust}
use oorvashee_backend.AdminInventoryService.Adjusts.{Targets, adjust-Targets, adjust-KeepsChecks}
use oorvashee_backend.Soundness.{IsSound, expiry_of}
use oorvashee_backend.Soundness.Adjustment.{adjust-IsSound}
use oorvashee_backend.Examples.{shop}

abbrev five_more : StockAdjustmentRequest
five_more = record {
  mode = AdjustmentMode.increment;
  value = 5;
  reason = StockMovementReason.restock;
}

adjust-Targets_example :
    Ends (Targets 100 1 five_more shop) (λ _. Unit {0}) (adjust 100 1 five_more 2 shop)
adjust-Targets_example = adjust-Targets 100 1 five_more 2 shop

adjust-KeepsChecks_example :
    Ends (λ r. IsValid r.1.stock) IsNoViolation (adjust 100 1 five_more 2 shop)
adjust-KeepsChecks_example = adjust-KeepsChecks 100 1 five_more 2 shop (ground arith)

shop-IsSound : IsSound 100 shop
unfolding active_reserved_for_variant inventory_of expiry_of
shop-IsSound = record { covered = λ v. ground arith; unique = (refl, tt); synced = (λ _. refl, tt) }

adjust-IsSound_example : Ends (λ r. IsSound 100 r.1) (λ _. Unit {0}) (adjust 100 1 five_more 2 shop)
adjust-IsSound_example = adjust-IsSound 100 1 five_more 2 shop shop-IsSound
