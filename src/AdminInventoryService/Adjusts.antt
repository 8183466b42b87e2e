-- ===== src/AdminInventoryService/Adjusts.antt =====
-- `adjust` of app/services/admin_inventory_service.py: what it does to the stock, and what it raises.
use oorvashee_backend.Prelude.{
  ℕ, ◌≡◌, ◌≢◌, ◌⊎◌, refl, sym, ◌∙◌, ap, true, not, inl, inr, none, some, arith, Bool-cases,
}
use oorvashee_backend.Prelude.Int.{ℤ, pos, ◌-ℤ◌, ◌≤ℤ◌, ltb_ℤ, max_ℤ, int_laws}
use oorvashee_backend.Models.Stock.{Inventory, Stock}
use oorvashee_backend.Models.Catalog.{ProductVariant}
use oorvashee_backend.Models.Audit.{Metadata}
use oorvashee_backend.Exceptions.{AppError, ok}
use oorvashee_backend.Exceptions.Loops.{
  Ends, Ends-or_raise, Ends-raise_if, Ends-then, Ends-of_err, Ends-any, Ends-weaken,
}
use oorvashee_backend.Database.{Db}
use oorvashee_backend.InventoryService.{inventory_of, stock_at, write, flush, movement}
use oorvashee_backend.InventoryService.Rows.{
  inventory_of-variant_id, inventory_of-put_self, inventory_of-put_ne,
}
use oorvashee_backend.InventoryService.Ledger.{stock_of, IsBalanced, write-IsBalanced}
use oorvashee_backend.InventoryService.Constraints.{
  IsValid, IsNoViolation, put_inventory-IsValid, flush-KeepsChecks, inventory_of-IsValidRow,
}
use oorvashee_backend.InventoryService.Availability.{recompute-same}
use oorvashee_backend.ReservationRepository.{active_reserved_for_variant}
use oorvashee_backend.CheckoutSessionService.{variant_of}
use oorvashee_backend.AdminInventoryService.{
  StockAdjustmentRequest, StockAdjustmentResult, compute_target_stock, adjust, settle_adjustment,
  apply_adjustment, is_zero, is_admin_pickable, stock_audit,
}

pub flush_same : (s t : Stock) → flush s ≡ ok t → t ≡ s
unfolding flush
flush_same s t e = ground arith

-- The errors of the guards, which nothing has been written for.
abbrev pub IsGuard : AppError → Type 0
IsGuard AppError.reason_not_allowed = Unit
IsGuard AppError.not_found = Unit
IsGuard AppError.adjustment_negative_stock = Unit
IsGuard AppError.adjustment_below_reserved = Unit
IsGuard _ = ⊥

not_zero : (t s : ℤ) → is_zero (t -ℤ s) ≡ true → t ≡ s
unfolding ◌-ℤ◌
not_zero t s h = ground arith

module _ (now v : ℕ) (body : StockAdjustmentRequest) (actor : ℕ) (db : Db) where
  abbrev pub target_of : Inventory → ℤ
  target_of inv = compute_target_stock body.mode body.value inv.stock

  abbrev pub derived : ℕ
  derived = active_reserved_for_variant now none v db.reservations

  abbrev pub written : Inventory → Stock
  written inv =
      write (record inv { stock = target_of inv })
        (movement inv.variant_id (target_of inv -ℤ inv.stock) body.reason none (some actor))
        db.stock

  abbrev audited : Inventory → Stock → Db
  audited inv stock =
      stock_audit inv.variant_id actor
        (Metadata.stock_change inv.stock (target_of inv) derived body.reason)
        (record db { stock = stock })

  -- What an adjustment that passes its guards knows of the row.
  pub record Passes (inv : Inventory) : Type 0 where
    pub found : inventory_of v db.stock.inventory ≡ some inv
    pub same_id : inv.variant_id ≡ v
    pub natural : pos 0 ≤ℤ target_of inv
    pub backed : inv.reserved ≤ℤ target_of inv
    pub held : pos derived ≤ℤ target_of inv

  -- What an adjustment answers, and what it leaves: the new row is written, or nothing changes and the
  -- stock was the target already.
  pub record Adjusted (inv : Inventory) (r : StockAdjustmentResult) (db' : Db) : Type 0 where
    pub before : r.stock_before ≡ inv.stock
    pub after : r.stock_after ≡ target_of inv
    pub stock : (db'.stock ≡ written inv) ⊎ ((db'.stock ≡ db.stock) × (target_of inv ≡ inv.stock))
    pub reservations : db'.reservations ≡ db.reservations
    pub sessions : db'.sessions ≡ db.sessions

  module _ (P : StockAdjustmentResult × Db → Type 0) (E : AppError → Type 0)
      (guards : (e : AppError) → IsGuard e → E e)
      (flushed : (inv : Inventory) → Passes inv → Ends (λ _. Unit {0}) E (flush (written inv)))
      (keep : (inv : Inventory) (r : StockAdjustmentResult) (db' : Db)
        → Passes inv
        → Adjusted inv r db'
        → P (r, db')) where
    apply-Ends :
        (variant : ProductVariant) (inv : Inventory)
        → Passes inv
        → Ends P E (apply_adjustment actor variant body inv derived (target_of inv) db)
    unfolding apply_adjustment
    apply-Ends variant inv p =
        Ends-then P E (flush (written inv)) _
          (λ e. Ends-of_err (λ _. Unit {0}) E (flush (written inv)) e (flushed inv p))
          λ stock e.
            let (moved, reservations, sessions) =
              recompute-same (some actor) variant.product_id (audited inv stock) in
            keep inv _ _ p (record {
              before = refl;
              after = refl;
              stock = inl (moved ∙ flush_same (written inv) stock e);
              reservations = reservations;
              sessions = sessions;
            })

    settle-Ends :
        (variant : ProductVariant) (inv : Inventory)
        → Passes inv
        → Ends P E (settle_adjustment actor variant body inv derived (target_of inv) db)
    unfolding settle_adjustment
    settle-Ends variant inv p = elim (Bool-cases (is_zero (target_of inv -ℤ inv.stock))) [
      | inl e ↦
          let same : target_of inv ≡ inv.stock = not_zero (target_of inv) inv.stock e in
          rw e (
            keep inv _ _ p (record {
              before = refl;
              after = sym same;
              stock = inr (refl, same);
              reservations = refl;
              sessions = refl;
            }))
      | inr e ↦ rw e (apply-Ends variant inv p)
    ]

    -- To show something of an adjustment, show it of a row that passes the guards.
    pub adjust-Ends : Ends P E (adjust now v body actor db)
    unfolding adjust
    adjust-Ends =
        Ends-raise_if P E (not (is_admin_pickable body.reason)) AppError.reason_not_allowed _
          (λ _. guards AppError.reason_not_allowed tt)
          λ _.
            Ends-or_raise P E (variant_of v db.variants) AppError.not_found _
              (λ _. guards AppError.not_found tt)
              λ variant _.
                Ends-or_raise P E (inventory_of v db.stock.inventory) AppError.not_found _
                  (λ _. guards AppError.not_found tt)
                  λ inv found.
                    Ends-raise_if P E (ltb_ℤ (target_of inv) (pos 0))
                      AppError.adjustment_negative_stock _
                      (λ _. guards AppError.adjustment_negative_stock tt)
                      λ natural.
                        Ends-raise_if P E (ltb_ℤ (target_of inv) (max_ℤ inv.reserved (pos derived)))
                          AppError.adjustment_below_reserved _
                          (λ _. guards AppError.adjustment_below_reserved tt)
                          λ backed. settle-Ends variant inv (record {
                            found = found;
                            same_id = inventory_of-variant_id v db.stock.inventory inv found;
                            natural = ground arith;
                            backed = ground arith;
                            held = ground arith;
                          })

-- The stock of the variant is taken from where it stood to the target, which no active reservation
-- exceeds, and the stock of every other variant is as it was.
pub record Targets (now v : ℕ) (body : StockAdjustmentRequest) (db : Db)
    (r : StockAdjustmentResult × Db) : Type 0 where
  pub before : r.0.stock_before ≡ stock_of v db.stock
  pub after : r.0.stock_after ≡ compute_target_stock body.mode body.value (stock_of v db.stock)
  pub reached : stock_of v r.1.stock ≡ r.0.stock_after
  pub others : (w : ℕ) → v ≢ w → stock_of w r.1.stock ≡ stock_of w db.stock
  pub backed : pos (active_reserved_for_variant now none v db.reservations) ≤ℤ r.0.stock_after

abbrev target_at : StockAdjustmentRequest → ℤ → ℤ
target_at body s = compute_target_stock body.mode body.value s

guard-IsNoViolation : (e : AppError) → IsGuard e → IsNoViolation e
guard-IsNoViolation AppError.check_violation g = absurd g
guard-IsNoViolation e g = λ p. cc

module _ (now v : ℕ) (body : StockAdjustmentRequest) (actor : ℕ) (db : Db) where
  stock-found : (inv : Inventory) → Passes now v body actor db inv → inv.stock ≡ stock_of v db.stock
  stock-found inv p = rw p.found refl

  pub stock-written :
      (inv : Inventory)
      → Passes now v body actor db inv
      → stock_of v (written now v body actor db inv) ≡ target_of now v body actor db inv
  unfolding write
  stock-written inv p =
      ap stock_at (inventory_of-put_self v _ db.stock.inventory p.same_id (λ n. cc (p.found)))

  pub other-written :
      (inv : Inventory)
      → Passes now v body actor db inv
      → (w : ℕ) → v ≢ w
      → stock_of w (written now v body actor db inv) ≡ stock_of w db.stock
  unfolding write
  other-written inv p w n =
      ap stock_at (inventory_of-put_ne w _ db.stock.inventory (λ e. n (sym p.same_id ∙ e)))

  -- An adjustment that goes through takes the stock of its variant, and of no other, to the target
  -- that the mode and the value ask for; the active reservations do not exceed that.
  pub adjust-Targets : Ends (Targets now v body db) (λ _. Unit {0}) (adjust now v body actor db)
  adjust-Targets =
      adjust-Ends now v body actor db (Targets now v body db) (λ _. Unit {0}) (λ _ _. tt)
        (λ inv p. Ends-any (flush (written now v body actor db inv)))
        λ inv r db' p q. elim q.stock [
          | inl e ↦ record {
            before = q.before ∙ stock-found inv p;
            after = q.after ∙ ap (target_at body) (stock-found inv p);
            reached = ap (stock_of v) e ∙ stock-written inv p ∙ sym q.after;
            others = λ w n. ap (stock_of w) e ∙ other-written inv p w n;
            backed = rw q.after p.held;
          }
          | inr (e, same) ↦ record {
            before = q.before ∙ stock-found inv p;
            after = q.after ∙ ap (target_at body) (stock-found inv p);
            reached = ap (stock_of v) e ∙ sym (stock-found inv p) ∙ sym same ∙ sym q.after;
            others = λ w n. ap (stock_of w) e;
            backed = rw q.after p.held;
          }
        ]

  -- From rows that satisfy the CHECK constraints an adjustment ends with rows that satisfy them, or
  -- raises an error that is not a violated CHECK.
  pub adjust-KeepsChecks :
      IsValid db.stock → Ends (λ r. IsValid r.1.stock) IsNoViolation (adjust now v body actor db)
  unfolding write
  adjust-KeepsChecks h =
      adjust-Ends now v body actor db (λ r. IsValid r.1.stock) IsNoViolation guard-IsNoViolation
        (λ inv p.
          Ends-weaken IsValid (λ _. Unit {0}) IsNoViolation
            (flush (written now v body actor db inv)) (λ _ _. tt)
            (flush-KeepsChecks (written now v body actor db inv) (written-IsValid inv p)))
        λ inv r db' p q. elim q.stock [ inl e ↦ rw e (written-IsValid inv p) | inr (e, _) ↦ rw e h ]
    where
      written-IsValid :
          (inv : Inventory)
          → Passes now v body actor db inv
          → IsValid (written now v body actor db inv)
      written-IsValid inv p =
          put_inventory-IsValid (record inv { stock = target_of now v body actor db inv })
            db.stock.inventory
            ((inventory_of-IsValidRow v db.stock.inventory inv h p.found).0, p.backed) h

  -- An adjustment keeps the ledger: the stock of every variant is its opening stock plus the deltas
  -- of its movements.
  pub adjust-Balances :
      (opening : ℕ → ℤ)
      → IsBalanced opening db.stock
      → Ends (λ r. IsBalanced opening r.1.stock) (λ _. Unit {0}) (adjust now v body actor db)
  adjust-Balances opening h =
      adjust-Ends now v body actor db (λ r. IsBalanced opening r.1.stock) (λ _. Unit {0})
        (λ _ _. tt) (λ inv p. Ends-any (flush (written now v body actor db inv)))
        λ inv r db' p q. elim q.stock [
          | inl e ↦ rw e (
              write-IsBalanced opening inv
                (record inv { stock = target_of now v body actor db inv }) _ db.stock
                (ap (λ i. inventory_of i db.stock.inventory) p.same_id ∙ p.found) refl
                (omega int_laws) h)
          | inr (e, _) ↦ rw e h
        ]
