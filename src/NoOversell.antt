-- ===== src/NoOversell.antt =====
-- The active reservations of a variant against its stock. Each service's part stands beside the
-- service.
use oorvashee_backend.Prelude.{ℕ, ◌≤◌, map, List, arith}
use oorvashee_backend.Prelude.Int.{pos, ◌≤ℤ◌}
use oorvashee_backend.Models.Checkout.{Reservation}
use oorvashee_backend.Models.Stock.{Stock}
use oorvashee_backend.InventoryService.Ledger.{stock_of}
use oorvashee_backend.ReservationRepository.Holds.{held, weight, held-map-le}

-- At the time `now`, no variant is held beyond its stock.
abbrev pub IsCovered : ℕ → Stock → List Reservation → Type 0
IsCovered now stock reservations = (v : ℕ) → pos (held now v reservations) ≤ℤ stock_of v stock

pub map-IsCovered :
    (now : ℕ) (stock : Stock) (f : Reservation → Reservation)
    → ((v : ℕ) (r : Reservation) → weight now v (f r) ≤ weight now v r)
    → (rows : List Reservation) → IsCovered now stock rows
    → IsCovered now stock (map f rows)
map-IsCovered now stock f le rows h v = omega (arith, held-map-le now v f (le v) rows, h v)
