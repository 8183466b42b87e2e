-- ===== src/Examples/Cash.antt =====
-- The theorems on cash orders and quotes, on the example shop.
use oorvashee_backend.Prelude.{ℕ, ◌≡◌, refl, some, none, List, [], ◌∷◌, true, false}
use oorvashee_backend.Prelude.Int.{pos, ◌+ℤ◌, ◌-ℤ◌}
use oorvashee_backend.Models.Enums.{PaymentMethod, StockMovementReason, AuditAction}
use oorvashee_backend.Models.Stock.{Stock}
use oorvashee_backend.Models.Order.{Order}
use oorvashee_backend.Exceptions.{Result, ok, err, AppError}
use oorvashee_backend.Database.{Db}
use oorvashee_backend.InventoryService.{StockRequirement, movement, minus, decrement, restock}
use oorvashee_backend.InventoryService.Shelves.{shelf_of}
use oorvashee_backend.InventoryService.Returns.{restock-decrement}
use oorvashee_backend.OrderRepository.{get_order}
use oorvashee_backend.CheckoutPaymentService.{NewIds, subtotal_of}
use oorvashee_backend.CheckoutService.{
  QuoteLine, CheckoutQuoteRead, new_order, quote, order_items, place_order,
}
use oorvashee_backend.CheckoutService.Cash.{cancel_order-place_order}
use oorvashee_backend.CheckoutService.Quote.{Returns, quote-order_items}
use oorvashee_backend.AdminOrderService.Actions.{cancel_order, cancelled_order, cancellation_of}
use oorvashee_backend.AdminOrderService.{admin_audit}
use oorvashee_backend.Examples.{necklace, shelf, shop}

abbrev two_pieces : List StockRequirement
two_pieces = record { variant_id = 1; quantity = 2 } ∷ []

-- The shelf with other numbers.
abbrev less_shelf : Stock
less_shelf = record {
  inventory = record necklace { stock = pos 8 } ∷ [];
  movements = movement 1 (minus 2) StockMovementReason.order_placed (some 50) (some 7) ∷ [];
}

abbrev refilled_shelf : Stock
refilled_shelf = record {
  inventory = necklace ∷ [];
  movements =
      movement 1 (pos 2) StockMovementReason.order_cancelled (some 50) (some 9)
      ∷ less_shelf.movements;
}

two_taken : decrement 50 (some 7) StockMovementReason.order_placed two_pieces shelf ≡ ok less_shelf
unfolding decrement ◌-ℤ◌
two_taken = refl

two_returned :
    restock 50 (some 9) StockMovementReason.order_cancelled two_pieces less_shelf
    ≡ ok refilled_shelf
unfolding restock ◌+ℤ◌
two_returned = refl

restock-decrement_example : shelf_of 1 refilled_shelf ≡ shelf_of 1 shelf
restock-decrement_example =
    restock-decrement 50 50 (some 7) (some 9) StockMovementReason.order_placed
      StockMovementReason.order_cancelled two_pieces shelf less_shelf refilled_shelf two_taken
      two_returned 1

abbrev two_necklaces : List QuoteLine
two_necklaces = record { variant_id = 1; quantity = 2 } ∷ []

abbrev quoted : CheckoutQuoteRead
quoted = record {
  items =
      record {
        variant_id = 1;
        unit_price = 120000;
        quantity = 2;
        line_total = 240000;
        available = true;
        available_stock = pos 8;
      }
      ∷ [];
  subtotal = 240000;
  total = 240000;
  has_unavailable_items = false;
}

two_quoted : quote shop two_necklaces ≡ ok quoted
unfolding quote ◌-ℤ◌
two_quoted = refl

quote-order_items_example :
    Returns (λ items. subtotal_of items ≡ 240000) (order_items shop two_necklaces)
quote-order_items_example = quote-order_items shop two_necklaces quoted two_quoted refl

abbrev cash_ids : NewIds
cash_ids = record { order_id = 50; order_number = 1050; payment_id = 60 }

abbrev no_gateway : ℕ → Result ℕ
no_gateway paise = err AppError.integration

abbrev cash_order : Order
cash_order = new_order cash_ids (some 7) PaymentMethod.cod (
    record {
      product_id = 20;
      variant_id = 1;
      unit_price = 120000;
      quantity = 2;
      line_total = 240000;
    }
    ∷ [])

abbrev cash_shop : Db
cash_shop = record shop { stock = less_shelf; orders = cash_order ∷ [] }

cash_placed :
    place_order no_gateway cash_ids (some 7) PaymentMethod.cod two_necklaces shop
    ≡ ok ((cash_order, none), cash_shop)
unfolding place_order decrement ◌-ℤ◌
cash_placed = refl

abbrev called_off : Db
called_off = record cash_shop {
  stock = refilled_shelf;
  orders = cancelled_order 700 cash_order ∷ [];
  audits = admin_audit AuditAction.status_changed 9 50 (cancellation_of cash_order) ∷ [];
}

cash_cancelled : cancel_order 700 9 50 cash_shop ≡ ok called_off
unfolding cancel_order restock ◌+ℤ◌
cash_cancelled = refl

cancel_order-place_order_example : shelf_of 1 called_off.stock ≡ shelf_of 1 shop.stock
unfolding get_order
cancel_order-place_order_example =
    cancel_order-place_order no_gateway cash_ids (some 7) two_necklaces 700 9 shop cash_shop
      called_off (cash_order, none) refl refl cash_placed cash_cancelled 1
