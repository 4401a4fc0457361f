-- ===== src/Prelude/Sorted.antt =====
-- sorted_texts sorts.
use Prim.Native.Nat.{ℕ, compare as compare_ℕ, Ordering}
use Prim.Native.Char.{code}
use Prim.Native.String.compare
use Prim.Native.String.{String, compare, then as both}
use mathlib.Core.Path.{◌≡◌, refl}
use mathlib.Core.Bool.{Bool, true, false}
use mathlib.Core.List.{List, [], ◌∷◌, Perm}
use mathlib.Core.List.Perm
use native.Mathlib.Omega.{arith}
use text.Mathlib.Text.{is_lt}
use r_orchestrator.Prelude.Tests.{if◌then◌else◌}
use r_orchestrator.Prelude.Rows.{insert_row, sorted_rows}
use r_orchestrator.Prelude.Texts.{text_before, sorted_texts}

no_less : is_lt Ordering.gt ≡ true → ⊥
no_less e = cc

asym_step :
    (m n : ℕ) (p q : Ordering)
    → (is_lt p ≡ true → is_lt q ≡ false)
    → is_lt (both (compare_ℕ m n) p) ≡ true
    → is_lt (both (compare_ℕ n m) q) ≡ false
asym_step m n p q h e = ground arith

before_asym : (s t : String) → text_before s t ≡ true → text_before t s ≡ false
before_asym String.[] String.[] e = refl
before_asym String.[] (String.◌∷◌ d t) e = rw (compare.cons-nil d t) refl
before_asym (String.◌∷◌ c s) String.[] e =
    rw (compare.nil-cons c s) (absurd (no_less (rw (compare.cons-nil c s) at e)))
before_asym (String.◌∷◌ c s) (String.◌∷◌ d t) e = rw (compare.cons-cons d c t s) (
    asym_step (code c) (code d) (compare s t) (compare t s) (before_asym s t)
      (rw (compare.cons-cons c d s t) at e))

-- No text stands behind a greater one.
abbrev pub IsSorted : List String → Type 0
IsSorted [] = Unit
IsSorted (x ∷ []) = Unit
IsSorted (x ∷ y ∷ ys) = (text_before y x ≡ false) × IsSorted (y ∷ ys)

behind :
    (x y z : String) (us vs : List String) (b : Bool)
    → text_before z y ≡ false
    → text_before y x ≡ true
    → IsSorted (if b then z ∷ us else x ∷ vs)
    → IsSorted (y ∷ (if b then z ∷ us else x ∷ vs))
behind x y z us vs true h e k = (h, k)
behind x y z us vs false h e k = (before_asym y x e, k)

placed :
    (x y : String) (ys us : List String) (b : Bool)
    → text_before y x ≡ b
    → IsSorted (y ∷ ys)
    → (text_before y x ≡ true → IsSorted (y ∷ us))
    → IsSorted (if b then y ∷ us else x ∷ y ∷ ys)
placed x y ys us true e h k = k e
placed x y ys us false e h k = (e, h)

insert-IsSorted :
    (x : String) (ys : List String) → IsSorted ys → IsSorted (insert_row text_before x ys)
insert-IsSorted x [] h = tt
insert-IsSorted x (y ∷ []) h =
    placed x y [] (x ∷ []) (text_before y x) refl h (λ e. (before_asym y x e, tt))
insert-IsSorted x (y ∷ z ∷ zs) (h, k) =
    placed x y (z ∷ zs) (insert_row text_before x (z ∷ zs)) (text_before y x) refl (h, k)
      (λ e.
        behind x y z (insert_row text_before x zs) (z ∷ zs) (text_before z x) h e
          (insert-IsSorted x (z ∷ zs) k))

pub sorted_texts-IsSorted : (xs : List String) → IsSorted (sorted_texts xs)
sorted_texts-IsSorted [] = tt
sorted_texts-IsSorted (x ∷ xs) = insert-IsSorted x (sorted_texts xs) (sorted_texts-IsSorted xs)

module _ {A : Type 0} (before : A → A → Bool) where
  swapped :
      (x y : A) (ys us : List A)
      → Perm us (x ∷ ys)
      → (b : Bool) → Perm (if b then y ∷ us else x ∷ y ∷ ys) (x ∷ y ∷ ys)
  swapped x y ys us p true = Perm.trans (Perm.cons y p) (Perm.swap x y ys)
  swapped x y ys us p false = Perm.rfl

  insert-Perm : (x : A) (ys : List A) → Perm (insert_row before x ys) (x ∷ ys)
  insert-Perm x [] = Perm.rfl
  insert-Perm x (y ∷ ys) = swapped x y ys _ (insert-Perm x ys) (before y x)

  pub sorted_rows-Perm : (xs : List A) → Perm (sorted_rows before xs) xs
  sorted_rows-Perm [] = Perm.rfl
  sorted_rows-Perm (x ∷ xs) =
      Perm.trans (insert-Perm x (sorted_rows before xs)) (Perm.cons x (sorted_rows-Perm xs))
