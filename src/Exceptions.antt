-- ===== src/Exceptions.antt =====
-- app/core/exceptions.py: the domain errors, as values. A service call returns `Result`: on an error
-- the savepoint or the request's transaction is rolled back, so no state comes back beside it.
pub mod Loops
use oorvashee_backend.Prelude.{
  ℕ, ◌≡◌, refl, ◌⊎◌, inl, inr, Bool, true, false, Option, none, some, List,
}
use oorvashee_backend.Prelude.Int.{ℤ}

-- `CheckoutLineResult` of app/schemas/checkout.py, with the reason `None`, "unavailable" or
-- "out_of_stock". Names and labels are left out.
pub data LineReason : Type 0 where
  fits unavailable out_of_stock : LineReason

pub record CheckoutLineResult : Type 0 where
  pub variant_id : ℕ
  pub requested : ℕ
  pub available : ℤ
  pub reserved : Bool
  pub reason : LineReason

-- An error by its class, and by its `code` where the services give one. The last ones are not of the
-- module: what the database raises on a flush, what SQLAlchemy raises where an expired row is read, and
-- `did_not_end` for a walk that its rounds were not enough for.
pub data AppError : Type 0 where
  not_found : AppError
  payment_not_captured invalid_payment_state invalid_status_transition : AppError
  cannot_cancel_delivered not_a_cod_order : AppError
  cart_empty shipment_metadata_required : AppError
  invalid_request product_unavailable : AppError
  authentication integration : AppError
  out_of_stock : AppError
  reservation_conflict : List CheckoutLineResult → AppError
  reservation_expired payment_in_progress : AppError
  reason_not_allowed adjustment_negative_stock adjustment_below_reserved : AppError
  slug_collision_exhausted : AppError
  invalid_parent_self parent_not_found invalid_parent_cycle hierarchy_depth_exceeded : AppError
  image_pair_inconsistent status_unchanged : AppError
  not_null_violation did_not_end : AppError
  idempotency_key_missing idempotency_key_invalid idempotency_conflict : AppError
  invalid_status_target product_has_no_variants sku_already_exists : AppError
  missing_greenlet : AppError
  check_violation unique_violation integer_out_of_range : AppError

pub data Result {ℓ} (A : Type ℓ) : Type ℓ where
  ok : A → Result A
  err : AppError → Result A

infixl 5 ◌>>=◌ ◌>>◌
abbrev pub ◌>>=◌ {ℓ κ} : {A : Type ℓ} {B : Type κ} → Result A → (A → Result B) → Result B
ok a >>= f = f a
err e >>= f = err e

abbrev pub ◌>>◌ {ℓ κ} : {A : Type ℓ} {B : Type κ} → Result A → Result B → Result B
m >> k = m >>= λ _. k

-- `if cond: raise e`.
abbrev pub raise_if : Bool → AppError → Result (Unit {0})
raise_if true e = err e
raise_if false e = ok tt

-- `if x is None: raise e`.
abbrev pub or_raise {ℓ} : {A : Type ℓ} → Option A → AppError → Result A
or_raise none e = err e
or_raise (some a) e = ok a

pub Result-cases {ℓ} :
    {A : Type ℓ} (r : Result A) → ((a : A) × (r ≡ ok a)) ⊎ ((e : AppError) × (r ≡ err e))
Result-cases (ok a) = inl (a, refl)
Result-cases (err e) = inr (e, refl)
