-- ===== src/InventoryService.antt =====
-- app/services/inventory_service.py: the single owner of stock mutations. Each method is its loop
-- over the requirements and the flush that ends it. `locks.get(v)` finds the row of `v` that the
-- query locked, which is its row in the table, if it has one: `lock_inventory_rows` is in `Locks`.
pub mod Rows
pub mod Constraints
pub mod Ledger
pub mod Sale
pub mod Availability
pub mod Shelves
pub mod Returns
pub mod Locks
use oorvashee_backend.Prelude.{
  ℕ, ◌+◌, ◌^◌, Bool, ◌&&◌, Option, none, some, List, [], ◌∷◌, ltb, ◌==◌, if◌then◌else◌,
}
use oorvashee_backend.Prelude.Int.{ℤ, pos, negsuc, ◌+ℤ◌, ◌-ℤ◌, ltb_ℤ, leb_ℤ, min_ℤ, max_ℤ}
use oorvashee_backend.Models.Enums.{StockMovementReason}
use oorvashee_backend.Models.Stock.{Inventory, StockMovement, Stock}
use oorvashee_backend.Exceptions.{Result, ok, err, AppError, ◌>>=◌, ◌>>◌, raise_if, or_raise}
use oorvashee_backend.Exceptions.Loops.{for_each}

-- One line-item's claim on stock.
pub record StockRequirement : Type 0 where
  pub variant_id : ℕ
  pub quantity : ℕ

-- `locks.get(variant_id)`; `variant_id` is unique in the table.
unfoldable pub inventory_of : ℕ → List Inventory → Option Inventory
inventory_of v [] = none
inventory_of v (r ∷ rows) = if r.variant_id == v then some r else inventory_of v rows

-- `inv.stock if inv is not None else 0`.
abbrev pub stock_at : Option Inventory → ℤ
stock_at none = pos 0
stock_at (some inv) = inv.stock

-- The assignments to a row's attributes, written to the table.
unfoldable pub put_inventory : Inventory → List Inventory → List Inventory
put_inventory r [] = []
put_inventory r (q ∷ rows) =
    if q.variant_id == r.variant_id then r ∷ rows else q ∷ put_inventory r rows

-- Assign to a row and add the audit row of the change.
unfoldable pub write : Inventory → StockMovement → Stock → Stock
unfolding put_inventory
write r m s = record { inventory = put_inventory r s.inventory; movements = m ∷ s.movements }

-- The columns are 32-bit; these are the CHECK constraints of `inventory`.
abbrev pub int4_limit : ℕ
int4_limit = 2 ^ 31

abbrev pub fits_int4 : ℤ → Bool
fits_int4 (pos n) = ltb n int4_limit
fits_int4 (negsuc n) = ltb n int4_limit

unfoldable pub check_row : Inventory → Result (Unit {0})
check_row r =
    if fits_int4 r.stock && fits_int4 r.reserved && ltb r.sold_quantity int4_limit
    then (if leb_ℤ (pos 0) r.stock && leb_ℤ (pos 0) r.reserved && leb_ℤ r.reserved r.stock
        then ok tt
        else err AppError.check_violation)
    else err AppError.integer_out_of_range

unfoldable pub check_rows : List Inventory → Result (Unit {0})
unfolding check_row
check_rows [] = ok tt
check_rows (r ∷ rows) = let rest = check_rows rows in check_row r >>= λ _. rest

-- `session.flush()`: the database accepts the rows, or the statement fails.
unfoldable pub flush : Stock → Result Stock
unfolding check_rows
flush s = check_rows s.inventory >> ok s

unfoldable pub ensure_available : Inventory → ℕ → Result (Unit {0})
ensure_available inv requested =
    raise_if (ltb_ℤ (inv.stock -ℤ inv.reserved) (pos requested)) AppError.out_of_stock

abbrev pub movement : ℕ → ℤ → StockMovementReason → Option ℕ → Option ℕ → StockMovement
movement v d reason order actor = record {
  variant_id = v;
  delta = d;
  reason = reason;
  order_id = order;
  actor_user_id = actor;
}

abbrev pub minus : ℕ → ℤ
minus n = pos 0 -ℤ pos n

-- The reservation is consumed as far as it goes, and what is short is taken from the stock.
abbrev pub consume_row : Inventory → ℕ → Inventory
consume_row inv quantity =
    let consumed = min_ℤ (pos quantity) inv.reserved in
    let short = pos quantity -ℤ consumed in
    let stock = inv.stock -ℤ consumed in
    record inv {
      reserved = inv.reserved -ℤ consumed;
      stock = if ltb_ℤ (pos 0) short then stock -ℤ short else stock;
    }

-- The stored `reserved` counter is clamped to what is left.
abbrev pub sell_row : Inventory → ℕ → Inventory
sell_row inv quantity =
    let left = inv.stock -ℤ pos quantity in
    record inv {
      stock = left;
      sold_quantity = inv.sold_quantity + quantity;
      reserved = if ltb_ℤ left inv.reserved then left else inv.reserved;
    }

module _ (order_id : ℕ) (actor_user_id : Option ℕ) where
  unfoldable pub reserve_line : StockRequirement → Stock → Result Stock
  unfolding inventory_of write ensure_available
  reserve_line req s = do
    inv ← or_raise (inventory_of req.variant_id s.inventory) AppError.out_of_stock
    ensure_available inv req.quantity
    ok (
        write (record inv { reserved = inv.reserved +ℤ pos req.quantity })
          (movement req.variant_id (pos 0) StockMovementReason.order_placed (some order_id)
            actor_user_id)
          s)

  unfoldable pub reserve : List StockRequirement → Stock → Result Stock
  unfolding reserve_line for_each flush
  reserve requirements s = for_each reserve_line requirements s >>= flush

  module _ (reason : StockMovementReason) where
    unfoldable pub decrement_line : StockRequirement → Stock → Result Stock
    unfolding inventory_of write ensure_available
    decrement_line req s = do
      inv ← or_raise (inventory_of req.variant_id s.inventory) AppError.out_of_stock
      ensure_available inv req.quantity
      ok (
          write (record inv { stock = inv.stock -ℤ pos req.quantity })
            (movement req.variant_id (minus req.quantity) reason (some order_id) actor_user_id) s)

    unfoldable pub decrement : List StockRequirement → Stock → Result Stock
    unfolding decrement_line for_each flush
    decrement requirements s = for_each decrement_line requirements s >>= flush

    abbrev restock_row : StockRequirement → Option Inventory → Stock → Result Stock
    restock_row req none s = ok s
    restock_row req (some inv) s = ok (
        write (record inv { stock = inv.stock +ℤ pos req.quantity })
          (movement req.variant_id (pos req.quantity) reason (some order_id) actor_user_id) s)

    unfoldable pub restock_line : StockRequirement → Stock → Result Stock
    unfolding inventory_of write
    restock_line req s = restock_row req (inventory_of req.variant_id s.inventory) s

    unfoldable pub restock : List StockRequirement → Stock → Result Stock
    unfolding restock_line for_each flush
    restock requirements s = for_each restock_line requirements s >>= flush

module _ (order_id : ℕ) where
  module _ (reason : StockMovementReason) where
    abbrev release_row : StockRequirement → Option Inventory → Stock → Result Stock
    release_row req none s = ok s
    release_row req (some inv) s = ok (
        write (record inv { reserved = max_ℤ (pos 0) (inv.reserved -ℤ pos req.quantity) })
          (movement req.variant_id (pos 0) reason (some order_id) none) s)

    unfoldable pub release_line : StockRequirement → Stock → Result Stock
    unfolding inventory_of write
    release_line req s = release_row req (inventory_of req.variant_id s.inventory) s

    unfoldable pub release_reservation : List StockRequirement → Stock → Result Stock
    unfolding release_line for_each flush
    release_reservation requirements s = for_each release_line requirements s >>= flush

  unfoldable pub consume_line : StockRequirement → Stock → Result Stock
  unfolding inventory_of write
  consume_line req s = do
    inv ← or_raise (inventory_of req.variant_id s.inventory) AppError.out_of_stock
    ok (
        write (consume_row inv req.quantity)
          (movement req.variant_id (minus req.quantity) StockMovementReason.order_placed
            (some order_id) none)
          s)

  unfoldable pub consume_reservation : List StockRequirement → Stock → Result Stock
  unfolding consume_line for_each flush
  consume_reservation requirements s = for_each consume_line requirements s >>= flush

  unfoldable pub commit_line : StockRequirement → Stock → Result Stock
  unfolding inventory_of write
  commit_line req s = do
    inv ← or_raise (inventory_of req.variant_id s.inventory) AppError.out_of_stock
    raise_if (ltb_ℤ inv.stock (pos req.quantity)) AppError.out_of_stock
    ok (
        write (sell_row inv req.quantity)
          (movement req.variant_id (minus req.quantity) StockMovementReason.order_placed
            (some order_id) none)
          s)

  unfoldable pub commit_sale : List StockRequirement → Stock → Result Stock
  unfolding commit_line for_each flush
  commit_sale requirements s = for_each commit_line requirements s >>= flush
