-- ===== src/CheckoutSessionService.antt =====
-- app/services/checkout_session_service.py: the atomic reservation of a cart. The loading of the cart is
-- in `Lines`, the release of a checkout in `Release`.
mod Lines
pub mod Upsert
pub mod NoOversell
pub mod Release
pub mod Frees
unfoldable pub use Lines.*
use oorvashee_backend.Prelude.{
  ℕ, ◌+◌, ◌-◌, Bool, true, false, ◌&&◌, not, Option, none, some, List, [], ◌∷◌, ◌++◌, map, ◌==◌,
  if◌then◌else◌, keep_if, elem, same_id?,
}
use oorvashee_backend.Prelude.Int.{ℤ, pos, ◌-ℤ◌, leb_ℤ, max_ℤ}
use oorvashee_backend.Models.Enums.CheckoutSessionStatus
use oorvashee_backend.Models.Enums.CheckoutSessionStatus.{CheckoutSessionStatus}
use oorvashee_backend.Models.Enums.ReservationStatus
use oorvashee_backend.Models.Enums.OrderStatus
use oorvashee_backend.Models.Enums.PaymentStatus
use oorvashee_backend.Models.Enums.ProductStatus
use oorvashee_backend.Models.Stock.{Inventory}
use oorvashee_backend.Models.Checkout.{Reservation, CheckoutSession}
use oorvashee_backend.Models.Order.{Order}
use oorvashee_backend.Models.Catalog.{Product, ProductVariant, CartItem}
use oorvashee_backend.Exceptions.{
  AppError, Result, ok, err, ◌>>=◌, ◌>>◌, raise_if, or_raise, CheckoutLineResult, LineReason,
}
use oorvashee_backend.Schemas.{CheckoutSessionRead}
use oorvashee_backend.Database.{Db, Clock}
use oorvashee_backend.InventoryService.{inventory_of, stock_at}
use oorvashee_backend.ReservationRepository.{
  active_reserved_for_variant, get_active_session_for_user, get_session_for_update,
  list_for_session,
}

-- The session that is found, or a new one. In one transaction the insertion cannot violate the
-- unique index, so the branch that recovers from that is not taken.
unfoldable pub acquire_session :
    ℕ → ℕ → ℕ → List CheckoutSession → CheckoutSession × List CheckoutSession
acquire_session new_id user_id expires_at sessions =
    elim (get_active_session_for_user user_id sessions) [
      | some existing ↦ (existing, sessions)
      | none ↦
          let new_session : CheckoutSession = record {
            id = new_id;
            user_id = user_id;
            status = CheckoutSessionStatus.active;
            expires_at = expires_at;
          } in
          (new_session, sessions ++ new_session ∷ [])
    ]

-- max(stock - reserved, 0), where what the session itself holds is not counted.
unfoldable pub available_for : ℕ → ℕ → Db → ℕ → ℤ
unfolding inventory_of active_reserved_for_variant
available_for now session_id db v = max_ℤ (pos 0) (
    stock_at (inventory_of v db.stock.inventory)
    -ℤ pos (active_reserved_for_variant now (some session_id) v db.reservations))

unfoldable pub line_ok : ℕ → ℕ → Db → Line → Bool
line_ok now session_id db line =
    line.buyable && leb_ℤ (pos line.quantity) (available_for now session_id db line.variant_id)

unfoldable pub line_result : ℕ → ℕ → Db → Line → CheckoutLineResult
line_result now session_id db line =
    let fits = line_ok now session_id db line in
    record {
      variant_id = line.variant_id;
      requested = line.quantity;
      available = available_for now session_id db line.variant_id;
      reserved = fits;
      reason =
          if fits
          then LineReason.fits
          else if line.buyable
          then LineReason.out_of_stock
          else LineReason.unavailable;
    }

unfoldable pub all_ok : ℕ → ℕ → Db → List Line → Bool
all_ok now session_id db [] = true
all_ok now session_id db (l ∷ lines) = line_ok now session_id db l && all_ok now session_id db lines

abbrev pub is_row_of : ℕ → ℕ → Reservation → Bool
is_row_of session_id v r = r.checkout_session_id == session_id && r.variant_id == v

-- INSERT ... ON CONFLICT (checkout_session_id, variant_id) DO UPDATE: the pair is unique.
unfoldable pub upsert_reservation : ℕ → ℕ → ℕ → Line → List Reservation → List Reservation
upsert_reservation session_id user_id expires_at line [] =
    record {
      checkout_session_id = session_id;
      variant_id = line.variant_id;
      user_id = user_id;
      quantity = line.quantity;
      status = ReservationStatus.reserved;
      expires_at = expires_at;
    }
    ∷ []
upsert_reservation session_id user_id expires_at line (r ∷ rows) =
    if is_row_of session_id line.variant_id r
    then record r {
      quantity = line.quantity;
      status = ReservationStatus.reserved;
      expires_at = expires_at;
    }
      ∷ rows
    else r ∷ upsert_reservation session_id user_id expires_at line rows

unfoldable pub upsert_reservations : ℕ → ℕ → ℕ → List Line → List Reservation → List Reservation
unfolding upsert_reservation
upsert_reservations session_id user_id expires_at [] rows = rows
upsert_reservations session_id user_id expires_at (l ∷ lines) rows =
    upsert_reservations session_id user_id expires_at lines
      (upsert_reservation session_id user_id expires_at l rows)

-- What the DELETE leaves: the other sessions' rows, and the variants that are still in the cart.
abbrev pub kept_row : ℕ → List ℕ → Reservation → Bool
kept_row session_id keep_variant_ids r =
    not (r.checkout_session_id == session_id && not (elem r.variant_id keep_variant_ids))

unfoldable pub prune_stale : ℕ → List ℕ → List Reservation → List Reservation
prune_stale session_id keep_variant_ids rows = keep_if (kept_row session_id keep_variant_ids) rows

-- The assignments to a session row, written to the table.
unfoldable pub put_session : CheckoutSession → List CheckoutSession → List CheckoutSession
put_session s [] = []
put_session s (t ∷ rows) = if t.id == s.id then s ∷ rows else t ∷ put_session s rows

abbrev existing_line : Reservation → CheckoutLineResult
existing_line r = record {
  variant_id = r.variant_id;
  requested = r.quantity;
  available = pos r.quantity;
  reserved = true;
  reason = LineReason.fits;
}

-- A payment is in flight: the hold is returned as it stands. Times count seconds.
unfoldable pub read_existing : Clock → CheckoutSession → Db → CheckoutSessionRead
unfolding list_for_session
read_existing clock s db = record {
  session_id = s.id;
  status = s.status;
  expires_at = s.expires_at;
  expires_in_seconds = s.expires_at - clock.utc_now;
  lines = map existing_line (list_for_session s.id db.reservations);
}

abbrev pub line_ids : List Line → List ℕ
line_ids = map (λ (l : Line). l.variant_id)

-- The hold of every line, once all of them are available.
unfoldable pub hold_lines : ℕ → ℕ → CheckoutSession → List Line → Db → Db
unfolding upsert_reservations prune_stale put_session
hold_lines user_id expires_at s lines db = record db {
  sessions =
      put_session (record s { status = CheckoutSessionStatus.active; expires_at = expires_at })
        db.sessions;
  reservations =
      prune_stale s.id (line_ids lines)
        (upsert_reservations s.id user_id expires_at lines db.reservations);
}

unfoldable pub reserve_lines :
    Clock → ℕ → ℕ → CheckoutSession → List Line → Db → Result (CheckoutSessionRead × Db)
unfolding all_ok line_ok line_result available_for hold_lines
reserve_lines clock ttl user_id s lines db =
    let results = map (line_result clock.db_now s.id db) lines in
    let expires_at = clock.utc_now + ttl in
    do
      raise_if (not (all_ok clock.db_now s.id db lines)) (AppError.reservation_conflict results)
      ok (
        record {
          session_id = s.id;
          status = CheckoutSessionStatus.active;
          expires_at = expires_at;
          expires_in_seconds = ttl;
          lines = results;
        },
        hold_lines user_id expires_at s lines db,
      )

-- The body of the savepoint, once the session is acquired: a payment in flight is not disturbed.
unfoldable pub checkout_in :
    Clock
    → ℕ
    → ℕ
    → List Line
    → CheckoutSession × List CheckoutSession
    → Db
    → Result (CheckoutSessionRead × Db)
unfolding reserve_lines read_existing
checkout_in clock ttl user_id lines (s, sessions) db =
    let db' = record db { sessions = sessions } in
    if CheckoutSessionStatus.is s.status CheckoutSessionStatus.payment_processing
    then ok (read_existing clock s db', db')
    else reserve_lines clock ttl user_id s lines db'

-- `ttl` is the setting `reservation_ttl_seconds`; `new_id` is the id of a session that is created.
unfoldable pub start_checkout : Clock → ℕ → ℕ → ℕ → Db → Result (CheckoutSessionRead × Db)
unfolding load_cart_lines acquire_session checkout_in
start_checkout clock ttl new_id user_id db = do
  lines ← load_cart_lines user_id db
  checkout_in clock ttl user_id lines
      (acquire_session new_id user_id (clock.utc_now + ttl) db.sessions) db
