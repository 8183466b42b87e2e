-- ===== src/CategoryRepository/Descendants.antt =====
-- `descendant_ids` of app/repositories/category_repo.py: the rounds of its walk, and what it finds.
use oorvashee_backend.Prelude.{
  ℕ, zero, suc, ◌+◌, ◌≤◌, ◌<◌, ◌≡◌, ◌≢◌, ◌⊎◌, refl, ap, inl, inr, true, false, ◌||◌, none, some,
  List, [], ◌∷◌, ◌++◌, ◌==◌, arith, elem, length, Bool-cases, List-cases,
}
use oorvashee_backend.Models.Category.{Category}
use oorvashee_backend.CategoryRepository.{
  get_category, parent_of, new_children, descend, descendant_ids,
}
use oorvashee_backend.CategoryRepository.Depth.{unmet, unmet-le, unmet-more}

pub elem-append : (x : ℕ) (xs ys : List ℕ) → elem x (xs ++ ys) ≡ (elem x xs || elem x ys)
elem-append x [] ys = refl
elem-append x (y ∷ xs) ys = ground (arith, elem-append x xs ys)

unmet-append : (xs seen : List ℕ) (rows : List Category) → unmet (xs ++ seen) rows ≤ unmet seen rows
unmet-append [] seen rows = omega arith
unmet-append (x ∷ xs) seen rows =
    omega (arith, unmet-append xs seen rows, unmet-more x (xs ++ seen) rows)

-- A child that a round finds is a row, and was not met.
new_children-unmet :
    (root : ℕ) (result frontier : List ℕ) (rows : List Category) (x : ℕ) (rest : List ℕ)
    → new_children root result frontier rows ≡ x ∷ rest
    → (get_category x rows ≢ none) × (elem x result ≡ false)
unfolding new_children get_category
new_children-unmet root result frontier [] x rest h = cc
new_children-unmet root result frontier (c ∷ rows) x rest h =
    ground (arith, new_children-unmet root result frontier rows x rest)

unmet-append_found :
    (x : ℕ) (xs seen : List ℕ) (rows : List Category)
    → elem x xs ≡ true
    → get_category x rows ≢ none
    → elem x seen ≡ false
    → unmet (xs ++ seen) rows < unmet seen rows
unfolding get_category
unmet-append_found x xs seen [] e h new = absurd (h refl)
unmet-append_found x xs seen (c ∷ rows) e h new = elim (Bool-cases (c.id == x)) [
  | inl same ↦
      let eq : c.id ≡ x = ground arith in
      ground (arith, elem-append c.id xs seen, unmet-append xs seen rows)
  | inr other ↦
      ground
        (arith, elem-append c.id xs seen, unmet-append_found x xs seen rows e (rw other at h) new)
]

-- A row whose parent stands in the frontier is found, unless it was met.
new_children-has :
    (root : ℕ) (result frontier : List ℕ) (rows : List Category) (x p : ℕ)
    → parent_of x rows ≡ some p
    → elem p frontier ≡ true
    → (elem x (new_children root result frontier rows) || elem x result || x == root) ≡ true
unfolding new_children get_category
new_children-has root result frontier [] x p e h = cc
new_children-has root result frontier (c ∷ rows) x p e h =
    ground (arith, new_children-has root result frontier rows x p)

-- The proper descendants of a row: their chain of parents leads to it.
pub data Below (rows : List Category) (root : ℕ) : ℕ → Type 0 where
  child : {x : ℕ} → parent_of x rows ≡ some root → Below rows root x
  deeper : {x p : ℕ} → parent_of x rows ≡ some p → Below rows root p → Below rows root x

module _ (rows : List Category) (root : ℕ) where
  -- A row that was met has had its children met, or stands in the frontier.
  record Inv (result frontier : List ℕ) : Type 0 where
    closed :
        (x p : ℕ)
        → parent_of x rows ≡ some p
        → (elem p result || p == root) ≡ true
        → (elem p frontier ≡ true) ⊎ ((elem x result || x == root) ≡ true)

  Inv-step :
      (result frontier : List ℕ)
      → Inv result frontier
      → let children = new_children root result frontier rows in Inv (children ++ result) children
  Inv-step result frontier h = record {
    closed = λ x p e met. ground (
      arith,
      h.closed x p e,
      new_children-has root result frontier rows x p e,
      elem-append p (new_children root result frontier rows) result,
      elem-append x (new_children root result frontier rows) result,
    );
  }

  descend_ends :
      (rounds : ℕ) (result frontier : List ℕ)
      → Inv result frontier
      → unmet result rows + 1 < rounds
      → (ids : List ℕ) × (descend rounds rows root result frontier ≡ some ids) × Inv ids []
  unfolding descend
  descend_ends rounds result [] i h = (result, refl, i)
  descend_ends zero result (f ∷ frontier) i h = absurd (omega arith)
  descend_ends (suc rounds) result (f ∷ frontier) i h =
      elim (List-cases (new_children root result (f ∷ frontier) rows)) [
        | inl none_left ↦
            let last : Inv result [] = rw none_left at (Inv-step result (f ∷ frontier) i) in
            (result, rw (descend, none_left) (ap (λ l. some (l ++ result)) none_left), last)
        | inr (x, rest, e) ↦
            let (row, new) = new_children-unmet root result (f ∷ frontier) rows x rest e in
            descend_ends rounds (new_children root result (f ∷ frontier) rows ++ result)
              (new_children root result (f ∷ frontier) rows) (Inv-step result (f ∷ frontier) i)
              (omega (
                arith,
                unmet-append_found x (new_children root result (f ∷ frontier) rows) result rows
                    (rw e (ground arith)) row new,
              ))
      ]

  complete :
      (ids : List ℕ) → Inv ids [] → {x : ℕ} → Below rows root x → (elem x ids || x == root) ≡ true
  complete ids i (child {x} e) = ground (arith, i.closed x root e)
  complete ids i (deeper {x} {p} e b) = ground (arith, i.closed x p e (complete ids i b))

  -- `descendant_ids` ends within as many rounds as the table has rows, and two more, whatever the
  -- table holds; all descendants of the root are found, but for the root itself if it is one.
  pub descendant_ids_ends :
      (ids : List ℕ) × (descendant_ids root rows ≡ some ids)
      × ((x : ℕ) → Below rows root x → (elem x ids || x == root) ≡ true)
  unfolding descendant_ids
  descendant_ids_ends =
      let (ids, ends, i) =
        descend_ends (length rows + 2) [] (root ∷ [])
          (record { closed = λ x p e met. ground arith }) (omega (arith, unmet-le [] rows)) in
      (ids, ends, λ x. complete ids i {x = x})
