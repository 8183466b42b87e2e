-- ===== src/AdminCategoryService/Forest.antt =====
-- The hierarchy of the categories (`_validate_parent` of app/services/admin_category_service.py): chains of
-- parents.
use mathlib.Core.Path.{subst}
use oorvashee_backend.Prelude.{
  ℕ, ◌≡◌, ◌≢◌, refl, sym, ap, ◌∙◌, inl, inr, Option, none, some, List, [], ◌∷◌, arith, eq_or_ne,
}
use oorvashee_backend.Models.Category.{Category}
use oorvashee_backend.Exceptions.{ok}
use oorvashee_backend.CategoryRepository.{get_category, put_category, parent_of}
use oorvashee_backend.CategoryRepository.Descendants.{Below, descendant_ids_ends}
use oorvashee_backend.AdminCategoryService.{validate_parent, guard_cycle}

-- The chain of parents of an id ends at an id that has none.
pub data Grounded (rows : List Category) : ℕ → Type 0 where
  top : {x : ℕ} → parent_of x rows ≡ none → Grounded rows x
  under : {x p : ℕ} → parent_of x rows ≡ some p → Grounded rows p → Grounded rows x

abbrev pub IsForest : List Category → Type 0
IsForest rows = (x : ℕ) → Grounded rows x

pub parent_of-put_self :
    (c : Category) (rows : List Category)
    → get_category c.id rows ≢ none
    → parent_of c.id (put_category c rows) ≡ c.parent_id
unfolding get_category put_category
parent_of-put_self c [] h = absurd (h refl)
parent_of-put_self c (q ∷ rows) h = ground (arith, parent_of-put_self c rows)

pub parent_of-put_ne :
    (c : Category) (rows : List Category) (x : ℕ)
    → c.id ≢ x
    → parent_of x (put_category c rows) ≡ parent_of x rows
unfolding get_category put_category
parent_of-put_ne c [] x n = refl
parent_of-put_ne c (q ∷ rows) x n = ground (arith, parent_of-put_ne c rows x n)

module _ (rows rows' : List Category) (m : ℕ)
    (others : (x : ℕ) → m ≢ x → parent_of x rows' ≡ parent_of x rows) where
  -- The chain of an id that is neither `m` nor below it is as it was.
  apart : {x : ℕ} → Grounded rows x → m ≢ x → ¬ (Below rows m x) → Grounded rows' x
  apart {x} (top e) n b = Grounded.top (others x n ∙ e)
  apart {x} (under {p = p} e g) n b =
      Grounded.under (others x n ∙ e)
        (apart g (λ same. b (Below.child (e ∙ ap some (sym same)))) (λ c. b (Below.deeper e c)))

  -- With the chain of `m` ended, all end.
  joined : Grounded rows' m → {x : ℕ} → Grounded rows x → Grounded rows' x
  joined g {x} (top e) = elim (eq_or_ne m x) [
    | inl same ↦ subst (Grounded rows') same g
    | inr n ↦ Grounded.top (others x n ∙ e)
  ]
  joined g {x} (under {p = p} e h) = elim (eq_or_ne m x) [
    | inl same ↦ subst (Grounded rows') same g
    | inr n ↦ Grounded.under (others x n ∙ e) (joined g h)
  ]

  -- `m` is moved under a category that is not below it.
  pub moved-IsForest :
      (q : ℕ)
      → parent_of m rows' ≡ some q
      → m ≢ q
      → ¬ (Below rows m q)
      → IsForest rows
      → IsForest rows'
  moved-IsForest q e n b h x = joined (Grounded.under e (apart (h q) n b)) (h x)

  -- Or it is made a top.
  pub detached-IsForest : parent_of m rows' ≡ none → IsForest rows → IsForest rows'
  detached-IsForest e h x = joined (Grounded.top e) (h x)

-- The chains follow the parents only.
pub same-Grounded :
    (rows rows' : List Category)
    → ((x : ℕ) → parent_of x rows' ≡ parent_of x rows)
    → {x : ℕ} → Grounded rows x
    → Grounded rows' x
same-Grounded rows rows' same {x} (top e) = Grounded.top (same x ∙ e)
same-Grounded rows rows' same {x} (under e g) =
    Grounded.under (same x ∙ e) (same-Grounded rows rows' same g)

-- What the validation of a parent has made sure of.
pub validated-apart :
    (q m : ℕ) (rows : List Category)
    → validate_parent q (some m) rows ≡ ok tt
    → (m ≢ q) × ¬ (Below rows m q)
unfolding validate_parent guard_cycle get_category
validated-apart q m rows h =
    let (ids, ends, has) = descendant_ids_ends rows m in
    (λ same. ground (arith), λ b. ground (arith, has q b))

pub validated-found :
    (q : ℕ) (moving : Option ℕ) (rows : List Category)
    → validate_parent q moving rows ≡ ok tt
    → get_category q rows ≢ none
unfolding validate_parent
validated-found q moving rows h n = ground (arith)
