-- ===== src/OrderRepository.antt =====
-- The lookups of app/repositories/order_repo.py that the services use, the assignments to the rows
-- found, and the unique columns of `payments`.
pub mod Evolution
use oorvashee_backend.Prelude.{
  ℕ, Bool, true, false, ◌&&◌, ◌||◌, not, Option, none, some, List, [], ◌∷◌, ◌==◌, if◌then◌else◌,
}
use oorvashee_backend.Models.Order.{Order, Payment}

-- `get_admin` and the payment service's query: an order by its id.
unfoldable pub get_order : ℕ → List Order → Option Order
get_order id [] = none
get_order id (o ∷ rows) = if o.id == id then some o else get_order id rows

unfoldable pub get_by_number : ℕ → List Order → Option Order
get_by_number order_number [] = none
get_by_number order_number (o ∷ rows) =
    if o.order_number == order_number then some o else get_by_number order_number rows

unfoldable pub put_order : Order → List Order → List Order
put_order o [] = []
put_order o (p ∷ rows) = if p.id == o.id then o ∷ rows else p ∷ put_order o rows

-- The column is unique and never null, so it also says which row a payment object stands for.
unfoldable pub get_by_razorpay_order_id : ℕ → List Payment → Option Payment
get_by_razorpay_order_id id [] = none
get_by_razorpay_order_id id (p ∷ rows) =
    if p.razorpay_order_id == id then some p else get_by_razorpay_order_id id rows

unfoldable pub put_payment : Payment → List Payment → List Payment
put_payment p [] = []
put_payment p (q ∷ rows) =
    if q.razorpay_order_id == p.razorpay_order_id then p ∷ rows else q ∷ put_payment p rows

-- Two values of a nullable unique column clash; nulls never do.
abbrev pub clash? : Option ℕ → Option ℕ → Bool
clash? (some a) (some b) = a == b
clash? _ _ = false

unfoldable pub get_by_webhook_event_id : ℕ → List Payment → Option Payment
get_by_webhook_event_id id [] = none
get_by_webhook_event_id id (p ∷ rows) =
    if clash? p.webhook_event_id (some id) then some p else get_by_webhook_event_id id rows

abbrev clashes : Payment → List Payment → Bool
clashes p [] = false
clashes p (q ∷ rows) =
    clash? p.webhook_event_id q.webhook_event_id
    || clash? p.razorpay_payment_id q.razorpay_payment_id
    || clashes p rows

-- The unique constraints on `webhook_event_id` and `razorpay_payment_id`.
unfoldable pub payments_unique : List Payment → Bool
payments_unique [] = true
payments_unique (p ∷ rows) = not (clashes p rows) && payments_unique rows
