-- ===== src/Prelude/Rows.antt =====
-- Tables as lists of rows: the statements `WHERE … SET …`, `count(*)`, `ORDER BY … LIMIT 1`.
use Prim.Native.Nat.{ℕ, suc}
use mathlib.Core.Path.{◌≡◌, refl}
use mathlib.Core.Bool.{Bool, true, false}
use mathlib.Core.Option.{Option, none, some}
use mathlib.Core.List.{List, [], ◌∷◌}
use r_orchestrator.Prelude.Tests.{if◌then◌else◌}

module _ {ℓ} {A : Type ℓ} where
  abbrev pub length : List A → ℕ
  length [] = 0
  length (x ∷ xs) = suc (length xs)

  -- The rows that a condition selects.
  abbrev pub rows_where : (A → Bool) → List A → List A
  rows_where p [] = []
  rows_where p (x ∷ xs) = let rest = rows_where p xs in if p x then x ∷ rest else rest

  -- The first row that a condition selects.
  abbrev pub row_where : (A → Bool) → List A → Option A
  row_where p [] = none
  row_where p (x ∷ xs) = if p x then some x else row_where p xs

  abbrev pub count_where : (A → Bool) → List A → ℕ
  count_where p [] = 0
  count_where p (x ∷ xs) = let rest = count_where p xs in if p x then suc rest else rest

  abbrev pub update_where : (A → Bool) → (A → A) → List A → List A
  update_where p f [] = []
  update_where p f (x ∷ xs) = (if p x then f x else x) ∷ update_where p f xs

  -- The row that comes first in an order given by "strictly before"; of equals, the earlier.
  abbrev pub least_row : (A → A → Bool) → List A → Option A
  least_row before [] = none
  least_row before (x ∷ xs) = elim (least_row before xs) [
    | none ↦ some x
    | some y ↦ some (if before y x then y else x)
  ]

  abbrev pub one_of : (A → A → Bool) → A → List A → Bool
  one_of same a [] = false
  one_of same a (x ∷ xs) = if same a x then true else one_of same a xs

  abbrev pub insert_row : (A → A → Bool) → A → List A → List A
  insert_row before a [] = a ∷ []
  insert_row before a (x ∷ xs) =
      let rest = insert_row before a xs in if before x a then x ∷ rest else a ∷ x ∷ xs

  -- `ORDER BY`, without a limit.
  abbrev pub sorted_rows : (A → A → Bool) → List A → List A
  sorted_rows before [] = []
  sorted_rows before (x ∷ xs) = insert_row before x (sorted_rows before xs)

  -- A property of every row.
  abbrev pub All {κ} : (A → Type κ) → List A → Type κ
  All P [] = Unit
  All P (x ∷ xs) = P x × All P xs

  pub rows_where-All : (p : A → Bool) (xs : List A) → All (λ x. p x ≡ true) (rows_where p xs)
  rows_where-All p [] = tt
  rows_where-All p (x ∷ xs) = pick (p x) refl (rows_where-All p xs)
    where
      pick :
          (b : Bool)
          → p x ≡ b
          → All (λ y. p y ≡ true) (rows_where p xs)
          → All (λ y. p y ≡ true) (if b then x ∷ rows_where p xs else rows_where p xs)
      pick true e rest = (e, rest)
      pick false e rest = rest
