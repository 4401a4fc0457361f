-- ===== src/Prelude/Least.antt =====
-- The row that `ORDER BY … LIMIT 1` takes.
use mathlib.Core.Path.{◌≡◌, refl, sym, ◌∙◌, ap}
use mathlib.Core.Logic.{◌≢◌, inl, inr}
use mathlib.Core.Bool.{Bool, true, false}
use mathlib.Core.Option.{none, some}
use mathlib.Core.List.{List, [], ◌∷◌}
use native.Mathlib.Omega.{arith}
use r_orchestrator.Prelude.Tests.{Option-cases, some_inj, if◌then◌else◌}
use r_orchestrator.Prelude.Rows.{least_row}
use r_orchestrator.Prelude.Members.{In}

-- An order that rows can be sorted by: strict, with ties.
pub record IsOrder {A : Type 0} (before : A → A → Bool) : Type 0 where
  pub irreflexive : (a : A) → before a a ≡ false
  pub asymmetric : (a b : A) → before a b ≡ true → before b a ≡ false
  pub connected : (a b c : A) → before a b ≡ false → before b c ≡ false → before a c ≡ false

module _ {A : Type 0} (before : A → A → Bool) where
  pub least_row-none : (a : A) (xs : List A) → In a xs → least_row before xs ≢ none
  least_row-none a [] m e = m
  least_row-none a (x ∷ xs) m e = elim (Option-cases (least_row before xs)) [
    | inl h ↦ ground arith
    | inr (y, h) ↦ ground arith
  ]

  module _ (order : IsOrder before) where
    later_row :
        (y z r x : A) (ys : List A) (b : Bool)
        → before z y ≡ b
        → (if b then z else y) ≡ r
        → ((u : A) → In u ys → before u z ≡ false)
        → In x (y ∷ ys)
        → before x r ≡ false
    later_row y z r x ys true h e ih (inl m) =
        ap (λ a. before a r) m ∙ ap (before y) (sym e) ∙ order.asymmetric z y h
    later_row y z r x ys true h e ih (inr m) = ap (before x) (sym e) ∙ ih x m
    later_row y z r x ys false h e ih (inl m) = ap (λ a. before a r) (m ∙ e) ∙ order.irreflexive r
    later_row y z r x ys false h e ih (inr m) =
        ap (before x) (sym e) ∙ order.connected x z y (ih x m) h

    -- No row comes before it.
    pub least_row-first :
        (r : A) (xs : List A)
        → least_row before xs ≡ some r
        → (x : A) → In x xs
        → before x r ≡ false
    least_row-first r [] e x m = absurd m
    least_row-first r (y ∷ ys) e x m = elim (Option-cases (least_row before ys)) [
      | inl h ↦ only (some_inj y r (rw h at e)) m (λ k. least_row-none x ys k h)
      | inr (z, h) ↦
          later_row y z r x ys (before z y) refl (some_inj _ r (rw h at e)) (least_row-first z ys h)
            m
    ]
      where
        only : y ≡ r → In x (y ∷ ys) → (In x ys → ⊥) → before x r ≡ false
        only k (inl same) none_there = ap (λ a. before a r) (same ∙ k) ∙ order.irreflexive r
        only k (inr there) none_there = absurd (none_there there)
