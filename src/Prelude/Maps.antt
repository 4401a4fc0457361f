-- ===== src/Prelude/Maps.antt =====
-- Go maps with string keys, as association lists.
use Prim.Native.String.{String}
use mathlib.Core.Path.{◌≡◌, refl}
use mathlib.Core.Option.{Option, none, some}
use mathlib.Core.List.{List, [], ◌∷◌}
use native.Mathlib.Omega.{arith}
use text.Mathlib.Text.{◌==◌}
use text.Mathlib.TextEquality.{eq_iff}
use mathlib.Core.Logic.{◌≢◌, inl, inr}
use mathlib.Core.Bool.{false}
use r_orchestrator.Prelude.Tests.{Bool-cases, if◌then◌else◌}

abbrev pub Dict {ℓ} : Type ℓ → Type ℓ
Dict V = List (String × V)

module _ {ℓ} {V : Type ℓ} where
  -- v, ok := m[k]
  unfoldable pub at_key : String → Dict V → Option V
  at_key k [] = none
  at_key k ((j, v) ∷ m) = if j == k then some v else at_key k m

  -- m[k] = v
  unfoldable pub with_key : String → V → Dict V → Dict V
  with_key k v [] = (k, v) ∷ []
  with_key k v ((j, w) ∷ m) = if j == k then (k, v) ∷ m else (j, w) ∷ with_key k v m

  -- delete(m, k)
  unfoldable pub without_key : String → Dict V → Dict V
  without_key k [] = []
  without_key k ((j, v) ∷ m) = let rest = without_key k m in if j == k then rest else (j, v) ∷ rest

  unfoldable pub keys : Dict V → List String
  keys [] = []
  keys ((j, v) ∷ m) = j ∷ keys m

  pub at_key-with_key :
      (k j : String) (v : V) (m : Dict V)
      → at_key j (with_key k v m) ≡ (if k == j then some v else at_key j m)
  unfolding at_key with_key
  at_key-with_key k j v [] = refl
  at_key-with_key k j v ((i, w) ∷ m) =
      ground (arith, eq_iff k j, eq_iff i k, eq_iff i j, at_key-with_key k j v m)

  pub at_key-without_key :
      (k j : String) (m : Dict V)
      → at_key j (without_key k m) ≡ (if k == j then none else at_key j m)
  unfolding at_key without_key
  at_key-without_key k j [] = ground arith
  at_key-without_key k j ((i, w) ∷ m) =
      ground (arith, eq_iff k j, eq_iff i k, eq_iff i j, at_key-without_key k j m)

  pub at_key-stored : (k : String) (v : V) (m : Dict V) → at_key k (with_key k v m) ≡ some v
  at_key-stored k v m = ground (arith, eq_iff k k, at_key-with_key k k v m)

pub same_text-false : (a b : String) → a ≢ b → (a == b) ≡ false
same_text-false a b h = elim (Bool-cases (a == b)) [
  | inl e ↦ absurd (h (ground (arith, eq_iff a b)))
  | inr e ↦ e
]
