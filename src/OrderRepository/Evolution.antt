-- ===== src/OrderRepository/Evolution.antt =====
-- How the table of orders evolves: a relation that holds, order by order, between the tables before and
-- after. An order that was not there before is not constrained.
use oorvashee_backend.Prelude.{
  ℕ, ◌≡◌, refl, ap, inl, inr, Bool, true, false, Option, none, some, List, [], ◌∷◌, map, ◌==◌,
  if◌then◌else◌, arith, eq_or_ne, Option-cases,
}
use mathlib.Core.Bool.{cond}
use oorvashee_backend.Models.Order.{Order}
use oorvashee_backend.Exceptions.{AppError, Result, ◌>>=◌, or_raise}
use oorvashee_backend.Exceptions.Loops.{Ends, Ends-or_raise}
use oorvashee_backend.Database.{Db}
use oorvashee_backend.OrderRepository.{get_order, put_order}

abbrev pub Follows : (Order → Order → Type 0) → Option Order → Option Order → Type 0
Follows R none after = Unit
Follows R (some o) none = ⊥
Follows R (some o) (some o') = R o o'

abbrev pub Evolves : (Order → Order → Type 0) → List Order → List Order → Type 0
Evolves R rows rows' = (id : ℕ) → Follows R (get_order id rows) (get_order id rows')

pub get_order-id : (id : ℕ) (rows : List Order) (o : Order) → get_order id rows ≡ some o → o.id ≡ id
unfolding get_order
get_order-id id [] o e = cc
get_order-id id (r ∷ rows) o e = ground (arith, get_order-id id rows o)

pub get-put_self :
    (o p : Order) (rows : List Order)
    → get_order o.id rows ≡ some p
    → get_order o.id (put_order o rows) ≡ some o
unfolding get_order put_order
get-put_self o p [] e = cc
get-put_self o p (r ∷ rows) e = ground (arith, get-put_self o p rows)

get-put_ne :
    (o : Order) (id : ℕ) (rows : List Order)
    → (o.id == id) ≡ false
    → get_order id (put_order o rows) ≡ get_order id rows
unfolding get_order put_order
get-put_ne o id [] n = refl
get-put_ne o id (r ∷ rows) n = ground (arith, get-put_ne o id rows n)

abbrev image : (Order → Order) → Option Order → Option Order
image f none = none
image f (some o) = some (f o)

image-if :
    (f : Order → Order) (b c : Bool) (r : Order) (rest : Option Order)
    → b ≡ c
    → (if b then some (f r) else image f rest) ≡ image f (if c then some r else rest)
image-if f true true r rest e = refl
image-if f false false r rest e = refl
image-if f true false r rest e = cc
image-if f false true r rest e = cc

get-map :
    (f : Order → Order)
    → ((q : Order) → (f q).id ≡ q.id)
    → (id : ℕ) (rows : List Order) → get_order id (map f rows) ≡ image f (get_order id rows)
unfolding get_order
get-map f keeps id [] = refl
get-map f keeps id (r ∷ rows) =
    rw (get-map f keeps id rows)
      (image-if f ((f r).id == id) (r.id == id) r (get_order id rows) (ap (λ n. n == id) (keeps r)))

module _ (R : Order → Order → Type 0) (stays : (o : Order) → R o o) where
  Follows-refl : (o : Option Order) → Follows R o o
  Follows-refl none = tt
  Follows-refl (some o) = stays o

  pub same-Evolves : (rows rows' : List Order) → rows' ≡ rows → Evolves R rows rows'
  same-Evolves rows rows' e id = rw e (Follows-refl (get_order id rows))

  -- The row that was read is written back, changed as the relation allows.
  pub put-Evolves :
      (o p : Order) (rows : List Order)
      → get_order o.id rows ≡ some p
      → R p o
      → Evolves R rows (put_order o rows)
  put-Evolves o p rows e h id = elim (eq_or_ne o.id id) [
    | inl same ↦ rw (← same, e, get-put_self o p rows e) h
    | inr other ↦ rw (get-put_ne o id rows (ground arith)) (Follows-refl (get_order id rows))
  ]

  pub map-Evolves :
      (f : Order → Order)
      → ((o : Order) → (f o).id ≡ o.id)
      → ((o : Order) → R o (f o))
      → (rows : List Order) → Evolves R rows (map f rows)
  map-Evolves f keeps step rows id = elim (Option-cases (get_order id rows)) [
    | inl e ↦ rw e tt
    | inr (o, e) ↦ rw (get-map f keeps id rows, e) (step o)
  ]

-- The frame of a call on one order: it is looked up, and the rest works on it.
pub with_order-Ends :
    (P : Db → Type 0) (id : ℕ) (rows : List Order) (f : Order → Result Db)
    → ((o : Order) → get_order id rows ≡ some o → Ends P (λ _. Unit {0}) (f o))
    → Ends P (λ _. Unit {0}) (or_raise (get_order id rows) AppError.not_found >>= f)
with_order-Ends P id rows f k = Ends-or_raise P (λ _. Unit {0}) _ AppError.not_found f (λ _. tt) k

pub cond-Ends :
    {A : Type 0} (P : A → Type 0) (b : Bool) (x y : Result A)
    → (b ≡ true → Ends P (λ _. Unit {0}) x)
    → (b ≡ false → Ends P (λ _. Unit {0}) y)
    → Ends P (λ _. Unit {0}) (cond b x y)
cond-Ends P true x y h k = h refl
cond-Ends P false x y h k = k refl
