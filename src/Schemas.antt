-- ===== src/Schemas.antt =====
-- The part of app/schemas/checkout.py that a checkout call returns.
pub mod Changes
use oorvashee_backend.Prelude.{ℕ, List}
use oorvashee_backend.Models.Enums.CheckoutSessionStatus.{CheckoutSessionStatus}
use oorvashee_backend.Exceptions.{CheckoutLineResult}

pub record CheckoutSessionRead : Type 0 where
  pub session_id : ℕ
  pub status : CheckoutSessionStatus
  pub expires_at : ℕ
  pub expires_in_seconds : ℕ
  pub lines : List CheckoutLineResult
