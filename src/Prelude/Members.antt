-- ===== src/Prelude/Members.antt =====
-- Rows of a table, and what a search, a count, a least row and an update say of them.
use Prim.Native.Nat.{◌<◌}
use mathlib.Core.Path.{◌≡◌, refl, sym, ◌∙◌, ap}
use mathlib.Core.Logic.{◌⊎◌, inl, inr}
use mathlib.Core.Bool.{true≢false, Bool, true, false, ◌&&◌}
use mathlib.Core.Option.{some}
use mathlib.Core.List.{List, [], ◌∷◌}
use native.Mathlib.Omega.{arith}
use r_orchestrator.Prelude.Tests.{Bool-cases, Option-cases, some_inj, if◌then◌else◌}
use r_orchestrator.Prelude.Rows.{row_where, count_where, rows_where, update_where, least_row}

module _ {A : Type 0} where
  -- A row stands in a table.
  abbrev pub In : A → List A → Type 0
  In a [] = ⊥
  In a (x ∷ xs) = (a ≡ x) ⊎ In a xs

  pub count_where-In :
      (p : A → Bool) (a : A) (xs : List A) → In a xs → p a ≡ true → 0 < count_where p xs
  count_where-In p a [] m e = absurd m
  count_where-In p a (x ∷ xs) (inl h) e = ground (arith, ap p h)
  count_where-In p a (x ∷ xs) (inr m) e = ground (arith, count_where-In p a xs m e)

  pub row_where-In :
      (p : A → Bool) (a : A) (xs : List A) → row_where p xs ≡ some a → In a xs × (p a ≡ true)
  row_where-In p a [] e = cc
  row_where-In p a (x ∷ xs) e = elim (Bool-cases (p x)) [
    | inl h ↦ (inl (ground arith), ground (arith, ap p (hit h)))
    | inr h ↦ let m = row_where-In p a xs (ground arith) in (inr m.0, m.1)
  ]
    where
      hit : p x ≡ true → x ≡ a
      hit h = ground arith

  pub least_row-In :
      (before : A → A → Bool) (a : A) (xs : List A) → least_row before xs ≡ some a → In a xs
  least_row-In before a [] e = cc
  least_row-In before a (x ∷ xs) e = elim (Option-cases (least_row before xs)) [
    | inl h ↦ inl (ground arith)
    | inr (y, h) ↦ elim (Bool-cases (before y x)) [
      | inl b ↦ inr (least_row-In before a xs (ground arith))
      | inr b ↦ inl (ground arith)
    ]
  ]

  -- A search by a stronger condition that the found row meets finds the same row.
  pub row_where-stronger :
      (p q : A → Bool) (a : A) (xs : List A)
      → row_where p xs ≡ some a
      → q a ≡ true
      → row_where (λ x. q x && p x) xs ≡ some a
  row_where-stronger p q a [] e h = cc
  row_where-stronger p q a (x ∷ xs) e h = elim (Bool-cases (p x)) [
    | inl b ↦ ground (arith, ap q (hit b))
    | inr b ↦ ground (arith, row_where-stronger p q a xs)
  ]
    where
      hit : p x ≡ true → x ≡ a
      hit b = ground arith

  pub count_where-zero :
      (p : A → Bool) (xs : List A) → ((a : A) → In a xs → p a ≡ false) → count_where p xs ≡ 0
  count_where-zero p [] h = refl
  count_where-zero p (x ∷ xs) h =
      ground (arith, h x (inl refl), count_where-zero p xs (λ a m. h a (inr m)))

  pub update_where-none :
      (p : A → Bool) (f : A → A) (xs : List A)
      → ((a : A) → In a xs → p a ≡ false)
      → update_where p f xs ≡ xs
  update_where-none p f [] h = refl
  update_where-none p f (x ∷ xs) h =
      ground (arith, h x (inl refl), update_where-none p f xs (λ a m. h a (inr m)))

  -- The row that an UPDATE leaves of one row.
  pub update_where-In :
      (p : A → Bool) (f : A → A) (a : A) (xs : List A)
      → In a (update_where p f xs)
      → (x : A) × In x xs × (a ≡ (if p x then f x else x))
  update_where-In p f a [] m = absurd m
  update_where-In p f a (x ∷ xs) (inl h) = (x, inl refl, h)
  update_where-In p f a (x ∷ xs) (inr m) =
      let (y, there, e) = update_where-In p f a xs m in (y, inr there, e)

  pub In-update_where :
      (p : A → Bool) (f : A → A) (a : A) (xs : List A)
      → In a xs
      → p a ≡ true
      → In (f a) (update_where p f xs)
  In-update_where p f a [] m h = absurd m
  In-update_where p f a (x ∷ xs) (inl e) h = inl (rw (sym (ap p e) ∙ h) (ap f e))
  In-update_where p f a (x ∷ xs) (inr m) h = inr (In-update_where p f a xs m h)

  -- An UPDATE of the row that a search finds.
  pub row_where-updated :
      (p u : A → Bool) (f : A → A) (a : A) (xs : List A)
      → row_where p xs ≡ some a
      → u a ≡ true
      → p (f a) ≡ true
      → ((x : A) → p x ≡ false → u x ≡ false)
      → row_where p (update_where u f xs) ≡ some (f a)
  row_where-updated p u f a [] e h k only = cc
  row_where-updated p u f a (x ∷ xs) e h k only = elim (Bool-cases (p x)) [
    | inl b ↦
        let eq = some_inj x a (rw b at e) in
        rw (ap u eq ∙ h, ap p (ap f eq) ∙ k) (ap (λ y. some (f y)) eq)
    | inr b ↦ ground (arith, only x b, row_where-updated p u f a xs)
  ]

  -- An UPDATE of other rows than those that a search looks for.
  pub row_where-other :
      (p u : A → Bool) (f : A → A) (xs : List A)
      → ((x : A) → u x ≡ true → (p x ≡ false) × (p (f x) ≡ false))
      → row_where p (update_where u f xs) ≡ row_where p xs
  row_where-other p u f [] other = refl
  row_where-other p u f (x ∷ xs) other = elim (Bool-cases (u x)) [
    | inl b ↦ rw (b, (other x b).0, (other x b).1) (row_where-other p u f xs other)
    | inr b ↦ rw b (ap (λ rest. if p x then some x else rest) (row_where-other p u f xs other))
  ]

  pub rows_where-In :
      (p : A → Bool) (a : A) (xs : List A) → In a (rows_where p xs) → In a xs × (p a ≡ true)
  rows_where-In p a [] m = absurd m
  rows_where-In p a (x ∷ xs) m = picked (p x) refl (rows_where-In p a xs) m
    where
      picked :
          (b : Bool)
          → p x ≡ b
          → (In a (rows_where p xs) → In a xs × (p a ≡ true))
          → In a (if b then x ∷ rows_where p xs else rows_where p xs)
          → In a (x ∷ xs) × (p a ≡ true)
      picked true e ih (inl h) = (inl h, ap p h ∙ e)
      picked true e ih (inr m) = let rest = ih m in (inr rest.0, rest.1)
      picked false e ih m = let rest = ih m in (inr rest.0, rest.1)

  pub In-rows_where :
      (p : A → Bool) (a : A) (xs : List A) → In a xs → p a ≡ true → In a (rows_where p xs)
  In-rows_where p a [] m h = absurd m
  In-rows_where p a (x ∷ xs) m h = placed (p x) refl (In-rows_where p a xs) m
    where
      placed :
          (b : Bool)
          → p x ≡ b
          → (In a xs → p a ≡ true → In a (rows_where p xs))
          → In a (x ∷ xs)
          → In a (if b then x ∷ rows_where p xs else rows_where p xs)
      placed true e ih (inl k) = inl k
      placed true e ih (inr k) = inr (ih k h)
      placed false e ih (inl k) = absurd (true≢false (sym h ∙ ap p k ∙ e))
      placed false e ih (inr k) = ih k h
