-- ===== src/Soundness.antt =====
-- The invariant of the checkout tables: no variant is held beyond its stock, a session has at most one
-- reservation of a variant, and a RESERVED reservation expires when its session does. The last is why
-- `start_payment` may extend the expiry by looking at the session's alone.
pub mod Sweeps
pub mod Fresh
pub mod Checkout
pub mod Payment
pub mod Sale
pub mod Cancellation
pub mod Adjustment
use oorvashee_backend.Prelude.{
  ℕ, ◌≤◌, ◌≡◌, ◌≢◌, refl, sym, ◌∙◌, true, eq_or_ne, inl, inr, Option, none, some, List, [], ◌∷◌,
  map, ◌==◌, if◌then◌else◌, arith, All,
}
use oorvashee_backend.Models.Enums.ReservationStatus
use oorvashee_backend.Models.Checkout.{Reservation, CheckoutSession}
use oorvashee_backend.Database.{Db}
use oorvashee_backend.NoOversell.{IsCovered}
use oorvashee_backend.ReservationRepository.{get_session_for_update}
use oorvashee_backend.CheckoutSessionService.{put_session}
use oorvashee_backend.CheckoutSessionService.Upsert.{IsUnique}

-- When a session expires.
unfoldable pub expiry_of : ℕ → List CheckoutSession → Option ℕ
expiry_of session_id [] = none
expiry_of session_id (s ∷ rows) =
    if s.id == session_id then some s.expires_at else expiry_of session_id rows

abbrev pub IsSyncedRow : List CheckoutSession → Reservation → Type 0
IsSyncedRow sessions r =
    ReservationStatus.is r.status ReservationStatus.reserved ≡ true
    → expiry_of r.checkout_session_id sessions ≡ some r.expires_at

abbrev pub IsSynced : List CheckoutSession → List Reservation → Type 0
IsSynced sessions = All (IsSyncedRow sessions)

pub record IsSound (now : ℕ) (db : Db) : Type 0 where
  pub covered : IsCovered now db.stock db.reservations
  pub unique : IsUnique db.reservations
  pub synced : IsSynced db.sessions db.reservations

-- An update that leaves every row that is still RESERVED alone, over sessions that expire as before.
pub map-IsSynced :
    (f : Reservation → Reservation)
    → ((r : Reservation)
        → ReservationStatus.is (f r).status ReservationStatus.reserved ≡ true
        → f r ≡ r)
    → (sessions sessions' : List CheckoutSession)
    → ((t : ℕ) → expiry_of t sessions' ≡ expiry_of t sessions)
    → (rows : List Reservation) → IsSynced sessions rows
    → IsSynced sessions' (map f rows)
map-IsSynced f same sessions sessions' exp [] h = tt
map-IsSynced f same sessions sessions' exp (r ∷ rows) h = (
  λ e. let p : f r ≡ r = same r e in rw (p, exp r.checkout_session_id) (h.0 (rw p at e)),
  map-IsSynced f same sessions sessions' exp rows h.1,
)

-- An update of sessions that keeps their ids and expiries.
pub expiry_of-map :
    (g : CheckoutSession → CheckoutSession)
    → ((s : CheckoutSession) → ((g s).id ≡ s.id) × ((g s).expires_at ≡ s.expires_at))
    → (rows : List CheckoutSession) (t : ℕ) → expiry_of t (map g rows) ≡ expiry_of t rows
unfolding expiry_of
expiry_of-map g keeps [] t = refl
expiry_of-map g keeps (s ∷ rows) t = ground (arith, keeps s, expiry_of-map g keeps rows t)

pub expiry_of-put_ne :
    (s : CheckoutSession) (rows : List CheckoutSession) (t : ℕ)
    → s.id ≢ t
    → expiry_of t (put_session s rows) ≡ expiry_of t rows
unfolding expiry_of put_session
expiry_of-put_ne s [] t n = refl
expiry_of-put_ne s (r ∷ rows) t n = ground (arith, expiry_of-put_ne s rows t n)

pub expiry_of-put_self :
    (s : CheckoutSession) (rows : List CheckoutSession)
    → expiry_of s.id rows ≢ none
    → expiry_of s.id (put_session s rows) ≡ some s.expires_at
unfolding expiry_of put_session
expiry_of-put_self s [] n = absurd (n refl)
expiry_of-put_self s (r ∷ rows) n = ground (arith, expiry_of-put_self s rows)

pub get_session-expiry_of :
    (t : ℕ) (rows : List CheckoutSession) (s : CheckoutSession)
    → get_session_for_update t rows ≡ some s
    → (s.id ≡ t) × (expiry_of t rows ≡ some s.expires_at)
unfolding get_session_for_update expiry_of
get_session-expiry_of t [] s h = cc
get_session-expiry_of t (r ∷ rows) s h = ground (arith, get_session-expiry_of t rows s)

-- An assignment to a session that leaves its expiry alone.
pub expiry_of-put_same :
    (s : CheckoutSession) (rows : List CheckoutSession)
    → expiry_of s.id rows ≡ some s.expires_at
    → (t : ℕ) → expiry_of t (put_session s rows) ≡ expiry_of t rows
expiry_of-put_same s rows e t = elim (eq_or_ne s.id t) [
  | inl same ↦ rw (← same) (expiry_of-put_self s rows (λ n. cc) ∙ sym e)
  | inr n ↦ expiry_of-put_ne s rows t n
]

-- Sessions that expire as they did keep the reservations in step.
pub carry-IsSynced :
    (before after : List CheckoutSession)
    → ((t e : ℕ) → expiry_of t before ≡ some e → expiry_of t after ≡ some e)
    → (rows : List Reservation) → IsSynced before rows
    → IsSynced after rows
carry-IsSynced before after carry [] h = tt
carry-IsSynced before after carry (r ∷ rows) h = (
  λ e. carry r.checkout_session_id r.expires_at (h.0 e),
  carry-IsSynced before after carry rows h.1,
)
