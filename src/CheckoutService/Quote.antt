-- ===== src/CheckoutService/Quote.antt =====
-- The quote of app/services/checkout_service.py against the order that the same lines make.
use oorvashee_backend.Prelude.{
  ◌≡◌, refl, inl, inr, true, false, List, [], ◌∷◌, arith, Option-cases, not-false, or-left,
  or-right,
}
use oorvashee_backend.Exceptions.{Result, ok, err, ◌>>=◌}
use oorvashee_backend.Exceptions.Loops.{Ends, Ends-then, Ends-of_ok}
use oorvashee_backend.Database.{Db}
use oorvashee_backend.CheckoutSessionService.{variant_of, product_of}
use oorvashee_backend.CheckoutPaymentService.{subtotal_of}
use oorvashee_backend.CheckoutService.{
  QuoteLine, QuoteLineRead, CheckoutQuoteRead, quote_line, quote_lines, quote, total_of,
  any_unavailable, order_item, order_items,
}

-- The call returns, and its value satisfies `P`.
abbrev pub Returns {ℓ} : {A : Type ℓ} → (A → Type 0) → Result A → Type 0
Returns P = Ends P (λ _. ⊥)

Returns-bind {ℓ κ} :
    {A : Type ℓ} {B : Type κ} (P : A → Type 0) (Q : B → Type 0) (r : Result A) (f : A → Result B)
    → Returns P r
    → ((a : A) → P a → Returns Q (f a))
    → Returns Q (r >>= f)
Returns-bind P Q (ok a) f h k = k a h
Returns-bind P Q (err e) f h k = absurd h

module _ (db : Db) where
  abbrev LineAgrees : QuoteLine → QuoteLineRead → Type 0
  LineAgrees l r = r.available ≡ true → Returns (λ i. i.line_total ≡ r.line_total) (order_item db l)

  abbrev Agrees : List QuoteLine → List QuoteLineRead → Type 0
  Agrees lines reads =
      any_unavailable reads ≡ false
      → Returns (λ items. subtotal_of items ≡ total_of reads) (order_items db lines)

  -- A line that is quoted as available makes an item at the quoted price.
  quote_line-order_item : (l : QuoteLine) → Ends (LineAgrees l) (λ _. Unit {0}) (quote_line db l)
  unfolding quote_line order_item
  quote_line-order_item l = elim (Option-cases (variant_of l.variant_id db.variants)) [
    | inl e ↦ rw e tt
    | inr (v, e) ↦ elim (Option-cases (product_of v.product_id db.products)) [
      | inl f ↦ rw (e, f) tt
      | inr (p, f) ↦ rw (e, f) (ground arith)
    ]
  ]

  quote_lines-order_items :
      (lines : List QuoteLine) → Ends (Agrees lines) (λ _. Unit {0}) (quote_lines db lines)
  unfolding quote_lines order_items
  quote_lines-order_items [] = λ _. refl
  quote_lines-order_items (l ∷ lines) =
      Ends-then (Agrees (l ∷ lines)) (λ _. Unit {0}) (quote_line db l) _ (λ _ _. tt)
        λ r e.
          Ends-then (Agrees (l ∷ lines)) (λ _. Unit {0}) (quote_lines db lines) _ (λ _ _. tt)
            λ reads f none_gone.
              Returns-bind (λ i. i.line_total ≡ r.line_total)
                (λ items. subtotal_of items ≡ total_of (r ∷ reads)) (order_item db l) _
                (Ends-of_ok (LineAgrees l) (λ _. Unit {0}) _ r (quote_line-order_item l) e
                  (not-false _ (or-left _ _ none_gone)))
                λ i p.
                  Returns-bind (λ items. subtotal_of items ≡ total_of reads)
                    (λ items. subtotal_of items ≡ total_of (r ∷ reads)) (order_items db lines) _
                    (Ends-of_ok (Agrees lines) (λ _. Unit {0}) _ reads
                      (quote_lines-order_items lines) f (or-right _ _ none_gone))
                    λ items q. omega (arith, p, q)

  -- A quote without an unavailable item keeps its word: on the same tables the same lines make the
  -- items of an order, whose subtotal is the quoted total.
  pub quote-order_items :
      (lines : List QuoteLine) (q : CheckoutQuoteRead)
      → quote db lines ≡ ok q
      → q.has_unavailable_items ≡ false
      → Returns (λ items. subtotal_of items ≡ q.total) (order_items db lines)
  unfolding quote
  quote-order_items lines q =
      Ends-of_ok
        (λ q.
          q.has_unavailable_items ≡ false
          → Returns (λ items. subtotal_of items ≡ q.total) (order_items db lines))
        (λ _. Unit {0}) (quote db lines) q
        (Ends-then {A = List QuoteLineRead}
          (λ q.
            q.has_unavailable_items ≡ false
            → Returns (λ items. subtotal_of items ≡ q.total) (order_items db lines))
          (λ _. Unit {0}) (quote_lines db lines) _ (λ _ _. tt)
          λ reads e.
            Ends-of_ok (Agrees lines) (λ _. Unit {0}) _ reads (quote_lines-order_items lines) e)
