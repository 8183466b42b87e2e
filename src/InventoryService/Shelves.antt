-- ===== src/InventoryService/Shelves.antt =====
-- The stock of each variant as a column, where it has a row, and what one written row does to it.
use oorvashee_backend.Prelude.{
  ℕ, ◌+◌, ◌≡◌, ◌≢◌, ◌⊎◌, refl, sym, ap, ◌∙◌, inl, inr, Option, none, some, ◌==◌, if◌then◌else◌,
  arith, eq_or_ne,
}
use oorvashee_backend.Prelude.Int.{ℤ, pos, ◌+ℤ◌, ◌-ℤ◌, int_laws}
use oorvashee_backend.Models.Stock.{Inventory, StockMovement, Stock}
use oorvashee_backend.InventoryService.{StockRequirement, inventory_of, write}
use oorvashee_backend.InventoryService.Rows.{
  inventory_of-variant_id, inventory_of-put_self, inventory_of-put_ne,
}

abbrev pub stock_column : Option Inventory → Option ℤ
stock_column none = none
stock_column (some r) = some r.stock

-- The stock of a variant, where it has a row.
abbrev pub shelf_of : ℕ → Stock → Option ℤ
shelf_of v s = stock_column (inventory_of v s.inventory)

abbrev pub plus : ℕ → Option ℤ → Option ℤ
plus n none = none
plus n (some x) = some (x +ℤ pos n)

pub plus-zero : (o : Option ℤ) → o ≡ plus 0 o
plus-zero none = refl
plus-zero (some x) = ap some (omega int_laws)

pub plus-plus : (a b : ℕ) (o : Option ℤ) → plus a (plus b o) ≡ plus (a + b) o
plus-plus a b none = refl
plus-plus a b (some x) = ap some (omega int_laws)

pub plus-swap : (a b : ℕ) (o : Option ℤ) → plus a (plus b o) ≡ plus (b + a) o
plus-swap a b none = refl
plus-swap a b (some x) = ap some (omega int_laws)

minus_plus : (x y : ℤ) → x ≡ (x -ℤ y) +ℤ y
minus_plus x y = omega int_laws

abbrev pub line_demand : ℕ → StockRequirement → ℕ
line_demand v req = if req.variant_id == v then req.quantity else 0

line_self : (req : StockRequirement) (v : ℕ) → req.variant_id ≡ v → line_demand v req ≡ req.quantity
line_self req v eq = ground arith

line_other : (req : StockRequirement) (v : ℕ) → req.variant_id ≢ v → line_demand v req ≡ 0
line_other req v ne = ground arith

-- From `s` to `t` every variant's shelf has gained what is given for it.
abbrev pub Adds : (ℕ → ℕ) → Stock → Stock → Type 0
Adds gain s t = (v : ℕ) → shelf_of v t ≡ plus (gain v) (shelf_of v s)

module _ (req : StockRequirement) (s : Stock) (inv : Inventory) (m : StockMovement)
    (found : inventory_of req.variant_id s.inventory ≡ some inv) where
  found_id : inv.variant_id ≡ req.variant_id
  found_id = inventory_of-variant_id req.variant_id s.inventory inv found

  -- The row of the requirement is written.
  write_shelf :
      (x : ℤ) (v : ℕ)
      → ((req.variant_id ≡ v)
          × (shelf_of v s ≡ some inv.stock)
          × (shelf_of v (write (record inv { stock = x }) m s) ≡ some x))
        ⊎ ((req.variant_id ≢ v)
            × (shelf_of v (write (record inv { stock = x }) m s) ≡ shelf_of v s))
  unfolding write
  write_shelf x v = elim (eq_or_ne req.variant_id v) [
    | inl eq ↦ inl (
      eq,
      ap stock_column (ap (λ i. inventory_of i s.inventory) (sym eq) ∙ found),
      ap stock_column (
          inventory_of-put_self v (record inv { stock = x }) s.inventory (found_id ∙ eq) (λ n. cc)),
    )
    | inr ne ↦ inr (
      ne,
      ap stock_column (
          inventory_of-put_ne v (record inv { stock = x }) s.inventory
            (λ n. ne (sym found_id ∙ n))),
    )
  ]

  pub taken-Adds :
      Adds
        (λ v. line_demand v req)
        (write (record inv { stock = inv.stock -ℤ pos req.quantity }) m s)
        s
  taken-Adds v = elim (write_shelf (inv.stock -ℤ pos req.quantity) v) [
    | inl (eq, before, after) ↦
        before
        ∙ ap some (minus_plus inv.stock (pos req.quantity))
        ∙ sym (ap (λ n. plus n (some (inv.stock -ℤ pos req.quantity))) (line_self req v eq))
        ∙ sym (ap (plus (line_demand v req)) after)
    | inr (ne, same) ↦
        sym same
        ∙ plus-zero _
        ∙ sym (
            ap
              (λ n.
                plus n
                  (shelf_of v (write (record inv { stock = inv.stock -ℤ pos req.quantity }) m s)))
              (line_other req v ne))
  ]

  pub returned-Adds :
      Adds
        (λ v. line_demand v req)
        s
        (write (record inv { stock = inv.stock +ℤ pos req.quantity }) m s)
  returned-Adds v = elim (write_shelf (inv.stock +ℤ pos req.quantity) v) [
    | inl (eq, before, after) ↦
        after
        ∙ sym (ap (λ n. plus n (some inv.stock)) (line_self req v eq))
        ∙ sym (ap (plus (line_demand v req)) before)
    | inr (ne, same) ↦
        same ∙ plus-zero _ ∙ sym (ap (λ n. plus n (shelf_of v s)) (line_other req v ne))
  ]

-- A line whose variant has no row gives nothing back, and there is no shelf to miss it.
pub missing-Adds :
    (req : StockRequirement) (s : Stock)
    → inventory_of req.variant_id s.inventory ≡ none
    → Adds (λ v. line_demand v req) s s
missing-Adds req s gone v = elim (eq_or_ne req.variant_id v) [
  | inl eq ↦
      let empty : shelf_of v s ≡ none =
        ap stock_column (ap (λ i. inventory_of i s.inventory) (sym eq) ∙ gone) in
      empty ∙ sym (ap (plus (line_demand v req)) empty)
  | inr ne ↦ plus-zero _ ∙ sym (ap (λ n. plus n (shelf_of v s)) (line_other req v ne))
]
