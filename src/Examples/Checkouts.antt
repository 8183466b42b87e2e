-- ===== src/Examples/Checkouts.antt =====
-- The theorems on the checkout, on the example shop.
use oorvashee_backend.Prelude.{ℕ, refl, [], ◌∷◌, arith, true, some, ◌≡◌}
use oorvashee_backend.Prelude.Int.{pos, ◌-ℤ◌}
use oorvashee_backend.Models.Enums.CheckoutSessionStatus.{CheckoutSessionStatus}
use oorvashee_backend.Exceptions.{Result, ok, LineReason}
use oorvashee_backend.Exceptions.Loops.{Ends}
use oorvashee_backend.Schemas.{CheckoutSessionRead}
use oorvashee_backend.Database.{Db}
use oorvashee_backend.InventoryService.{inventory_of}
use oorvashee_backend.ReservationRepository.{
  active_reserved_for_variant, get_active_session_for_user,
}
use oorvashee_backend.CheckoutSessionService.{start_checkout}
use oorvashee_backend.CheckoutPaymentService.{NewIds, start_payment}
use oorvashee_backend.ReservationLifecycleService.{complete_sale, run_sweep_once}
use oorvashee_backend.Soundness.{IsSound, expiry_of}
use oorvashee_backend.ReservationLifecycleService.Settles.{nothing, run_sweep_once_settles}
use oorvashee_backend.Soundness.Checkout.{KeepsSound, start_checkout-IsSound}
use oorvashee_backend.Soundness.Payment.{start_payment-IsSound}
use oorvashee_backend.Soundness.Sale.{IsHeldFor, complete_sale-IsSound}
use oorvashee_backend.CheckoutPaymentService.Held.{start_payment-IsHeldFor}
use oorvashee_backend.CheckoutSessionService.Frees.{Frees}
use oorvashee_backend.ReservationLifecycleService.Shows.{Shows, run_sweep_once-Shows}
use oorvashee_backend.System.{World, Step, Reach, IsSoundWorld, Reach-IsSound}
use oorvashee_backend.Examples.{shop, clock, session_5, hold_5, order_31, paying}

shop-IsSound : IsSound 100 shop
unfolding active_reserved_for_variant inventory_of expiry_of
shop-IsSound = record { covered = λ v. ground arith; unique = (refl, tt); synced = (λ _. refl, tt) }

paying-IsSound : IsSound 200 paying
unfolding active_reserved_for_variant inventory_of expiry_of
paying-IsSound = record {
  covered = λ v. ground arith;
  unique = (refl, tt);
  synced = ((λ h. cc), tt);
}

start_checkout-IsSound_example : KeepsSound 100 (start_checkout clock 900 6 7 shop)
start_checkout-IsSound_example = start_checkout-IsSound clock 900 6 7 shop shop-IsSound

abbrev new_ids : NewIds
new_ids = record { order_id = 31; order_number = 1031; payment_id = 41 }

abbrev gateway : ℕ → Result ℕ
gateway paise = ok 900

start_payment-IsSound_example : KeepsSound 100 (start_payment gateway clock 900 new_ids 5 8 shop)
start_payment-IsSound_example =
    start_payment-IsSound gateway clock 900 new_ids 5 8 shop (omega arith) shop-IsSound

start_payment-IsHeldFor_example :
    Ends
      (λ a. IsHeldFor 1000 a.0.0 5 a.1.reservations)
      (λ _. Unit {0})
      (start_payment gateway clock 900 new_ids 5 8 shop)
start_payment-IsHeldFor_example =
    start_payment-IsHeldFor 1000 clock 900 new_ids 5 8 shop (omega arith) gateway

complete_sale-IsSound_example : Ends (IsSound 200) (λ _. Unit {0}) (complete_sale order_31 paying)
complete_sale-IsSound_example =
    complete_sale-IsSound 200 5 order_31 paying paying-IsSound refl (λ v. ground arith)

run_sweep_once_settles_example :
    let db' = (run_sweep_once true 600 shop).1 in
    run_sweep_once true 600 db' ≡ (some (nothing, nothing), db')
run_sweep_once_settles_example = run_sweep_once_settles 600 shop

-- Session 6 of the second shopper.
abbrev held_read : CheckoutSessionRead
held_read = record {
  session_id = 6;
  status = CheckoutSessionStatus.active;
  expires_at = 1001;
  expires_in_seconds = 900;
  lines =
      record {
        variant_id = 1;
        requested = 3;
        available = pos 6;
        reserved = true;
        reason = LineReason.fits;
      }
      ∷ [];
}

abbrev held_shop : Db
held_shop = record shop {
  reservations =
      hold_5
      ∷ record hold_5 { checkout_session_id = 6; user_id = 7; quantity = 3; expires_at = 1001 }
      ∷ [];
  sessions =
      session_5
      ∷ record { id = 6; user_id = 7; status = CheckoutSessionStatus.active; expires_at = 1001 }
      ∷ [];
}

abbrev opening_world : World
opening_world = record { now = 100; db = shop }

held_world : Step opening_world (record opening_world { db = held_shop })
unfolding start_checkout get_active_session_for_user ◌-ℤ◌
held_world = Step.checkout 101 900 6 7 held_read held_shop refl

Reach-IsSound_example : IsSoundWorld (record { now = 600; db = held_shop })
Reach-IsSound_example =
    Reach-IsSound (Reach.next (Reach.next Reach.here held_world) (Step.wait 600 (omega arith)))
      shop-IsSound

run_sweep_once-Shows_example : Shows 600 shop (run_sweep_once true 601 shop).1
run_sweep_once-Shows_example = run_sweep_once-Shows 600 shop
