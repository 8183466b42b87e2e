-- ===== src/InventoryService/Locks.antt =====
-- `lock_inventory_rows` of app/services/inventory_service.py, and the order in which it locks.
use oorvashee_backend.Prelude.{
  ℕ, ◌<◌, ◌≡◌, refl, ap, ◌∙◌, inl, inr, ◌⊎◌, Bool, true, ◌||◌, Option, none, some, List, [], ◌∷◌,
  ltb, ◌==◌, if◌then◌else◌, arith, elem, All, map, Option-cases,
}
use oorvashee_backend.Models.Stock.{Inventory}
use oorvashee_backend.InventoryService.{inventory_of}
use oorvashee_backend.InventoryService.Rows.{inventory_of-variant_id}

-- An id is put where it belongs, once.
unfoldable pub insert_id : ℕ → List ℕ → List ℕ
insert_id v [] = v ∷ []
insert_id v (w ∷ ids) =
    let rest = insert_id v ids in
    if v == w then w ∷ ids else if ltb v w then v ∷ w ∷ ids else w ∷ rest

-- `sorted(set(variant_ids))`.
unfoldable pub lock_order : List ℕ → List ℕ
unfolding insert_id
lock_order [] = []
lock_order (v ∷ ids) = insert_id v (lock_order ids)

abbrev add_row : Option Inventory → List Inventory → List Inventory
add_row none rows = rows
add_row (some r) rows = r ∷ rows

unfoldable pub rows_of : List ℕ → List Inventory → List Inventory
unfolding inventory_of
rows_of [] table = []
rows_of (v ∷ ids) table = add_row (inventory_of v table) (rows_of ids table)

-- The query locks and returns the rows in the order of their ids, which are unique.
unfoldable pub lock_inventory_rows : List ℕ → List Inventory → List Inventory
unfolding lock_order rows_of
lock_inventory_rows variant_ids table = rows_of (lock_order variant_ids) table

abbrev pub IsAbove : ℕ → List ℕ → Type 0
IsAbove v ids = All (λ w. v < w) ids

-- The ids rise, each one once.
abbrev pub IsRising : List ℕ → Type 0
IsRising [] = Unit
IsRising (v ∷ ids) = IsAbove v ids × IsRising ids

insert_id-IsAbove : (u v : ℕ) (ids : List ℕ) → u < v → IsAbove u ids → IsAbove u (insert_id v ids)
unfolding insert_id
insert_id-IsAbove u v [] h k = (h, tt)
insert_id-IsAbove u v (w ∷ ids) h k = ground (arith, insert_id-IsAbove u v ids h k.1)

IsAbove-weaken : (u v : ℕ) (ids : List ℕ) → u < v → IsAbove v ids → IsAbove u ids
IsAbove-weaken u v [] h k = tt
IsAbove-weaken u v (w ∷ ids) h k = (omega (arith, h, k.0), IsAbove-weaken u v ids h k.1)

insert_id-IsRising : (v : ℕ) (ids : List ℕ) → IsRising ids → IsRising (insert_id v ids)
unfolding insert_id
insert_id-IsRising v [] h = (tt, tt)
insert_id-IsRising v (w ∷ ids) h =
    ground (arith, insert_id-IsRising v ids h.1, insert_id-IsAbove w v ids, IsAbove-weaken v w ids)

lock_order-IsRising : (ids : List ℕ) → IsRising (lock_order ids)
unfolding lock_order
lock_order-IsRising [] = tt
lock_order-IsRising (v ∷ ids) = insert_id-IsRising v (lock_order ids) (lock_order-IsRising ids)

elem-insert_id : (u v : ℕ) (ids : List ℕ) → elem u (insert_id v ids) ≡ (u == v || elem u ids)
unfolding insert_id
elem-insert_id u v [] = ground arith
elem-insert_id u v (w ∷ ids) = ground (arith, elem-insert_id u v ids)

pub elem-lock_order : (u : ℕ) (ids : List ℕ) → elem u (lock_order ids) ≡ elem u ids
unfolding lock_order
elem-lock_order u [] = refl
elem-lock_order u (v ∷ ids) =
    elem-insert_id u v (lock_order ids) ∙ ap (λ b. u == v || b) (elem-lock_order u ids)

-- One caller has the row of `held` and asks for the row of `wanted` later on.
abbrev pub LocksBefore : ℕ → ℕ → List ℕ → Type 0
LocksBefore held wanted [] = ⊥
LocksBefore held wanted (v ∷ ids) =
    ((v ≡ held) × (elem wanted ids ≡ true)) ⊎ LocksBefore held wanted ids

above-elem : (v w : ℕ) (ids : List ℕ) → IsAbove v ids → elem w ids ≡ true → v < w
above-elem v w [] h e = cc
above-elem v w (x ∷ ids) h e = ground (arith, h, above-elem v w ids h.1)

rising-LocksBefore :
    (held wanted : ℕ) (ids : List ℕ) → IsRising ids → LocksBefore held wanted ids → held < wanted
rising-LocksBefore held wanted [] h l = absurd l
rising-LocksBefore held wanted (v ∷ ids) h (inl (e, l)) =
    omega (arith, e, above-elem v wanted ids h.0 l)
rising-LocksBefore held wanted (v ∷ ids) h (inr l) = rising-LocksBefore held wanted ids h.1 l

abbrev pub row_id : Inventory → ℕ
row_id r = r.variant_id

rows_of-IsAbove :
    (u : ℕ) (ids : List ℕ) (table : List Inventory)
    → IsAbove u ids
    → IsAbove u (map row_id (rows_of ids table))
unfolding rows_of
rows_of-IsAbove u [] table h = tt
rows_of-IsAbove u (v ∷ ids) table h = elim (Option-cases (inventory_of v table)) [
  | inl e ↦ rw e (rows_of-IsAbove u ids table h.1)
  | inr (r, e) ↦
      rw e
        (omega (arith, h.0, inventory_of-variant_id v table r e), rows_of-IsAbove u ids table h.1)
]

rows_of-IsRising :
    (ids : List ℕ) (table : List Inventory)
    → IsRising ids
    → IsRising (map row_id (rows_of ids table))
unfolding rows_of
rows_of-IsRising [] table h = tt
rows_of-IsRising (v ∷ ids) table h = elim (Option-cases (inventory_of v table)) [
  | inl e ↦ rw e (rows_of-IsRising ids table h.1)
  | inr (r, e) ↦
      let same : r.variant_id ≡ v = inventory_of-variant_id v table r e in
      rw e (
        rows_of-IsAbove r.variant_id ids table (ground (arith, same, h.0)),
        rows_of-IsRising ids table h.1,
      )
]

locked-IsRising :
    (ids : List ℕ) (table : List Inventory) → IsRising (map row_id (lock_inventory_rows ids table))
unfolding lock_inventory_rows
locked-IsRising ids table = rows_of-IsRising (lock_order ids) table (lock_order-IsRising ids)

-- Of two transactions that each call lock_inventory_rows once, with whatever ids: where one holds the
-- row of `a` when it comes to lock the row of `b`, the other does not hold the row of `b` when it comes
-- to lock the row of `a`.
pub no_deadlock :
    (ids ids' : List ℕ) (table : List Inventory) (a b : ℕ)
    → LocksBefore a b (map row_id (lock_inventory_rows ids table))
    → ¬ LocksBefore b a (map row_id (lock_inventory_rows ids' table))
no_deadlock ids ids' table a b one other = omega (
  arith,
  rising-LocksBefore a b _ (locked-IsRising ids table) one,
  rising-LocksBefore b a _ (locked-IsRising ids' table) other,
)

found-add_row :
    (v w : ℕ) (o x : Option Inventory) (rest : List Inventory) (b : Bool)
    → ((r : Inventory) → o ≡ some r → r.variant_id ≡ w)
    → (v ≡ w → x ≡ o)
    → inventory_of v rest ≡ (if b then x else none)
    → inventory_of v (add_row o rest) ≡ (if v == w || b then x else none)
unfolding inventory_of
found-add_row v w none x rest b id same h = ground (arith, same, h)
found-add_row v w (some r) x rest b id same h = ground (arith, id r refl, same, h)

found-rows_of :
    (v : ℕ) (ids : List ℕ) (table : List Inventory)
    → inventory_of v (rows_of ids table) ≡ (if elem v ids then inventory_of v table else none)
unfolding rows_of
found-rows_of v [] table = ground arith
found-rows_of v (w ∷ ids) table =
    found-add_row v w (inventory_of w table) (inventory_of v table) (rows_of ids table) (elem v ids)
      (λ r. inventory_of-variant_id w table r) (ap (λ i. inventory_of i table))
      (found-rows_of v ids table)

-- `locks.get(v)` for a variant that was asked for is its row in the table, if it has one.
pub lock_inventory_rows-inventory_of :
    (v : ℕ) (ids : List ℕ) (table : List Inventory)
    → elem v ids ≡ true
    → inventory_of v (lock_inventory_rows ids table) ≡ inventory_of v table
unfolding lock_inventory_rows
lock_inventory_rows-inventory_of v ids table asked =
    found-rows_of v (lock_order ids) table ∙ rw (elem-lock_order v ids, asked) refl
