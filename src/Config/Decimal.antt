-- ===== src/Config/Decimal.antt =====
-- envOrInt against the numbers that its text spells.
use Prim.Native.Char.{code}
use text.Mathlib.TextLemmas.{cons-ne-nil}
use r_orchestrator.Prelude.{
  ℕ, ◌+◌, ◌-◌, ◌*◌, ◌%◌, ◌^◌, ◌≡◌, refl, sym, ◌∙◌, ap, String, Bool, true, false, not, ◌&&◌, none,
  some, Option, leb, ◌==◌, if◌then◌else◌, arith, same_text, eq_iff, Bool-cases, inl, inr,
}
use r_orchestrator.Config.{parse_digits, parsed_or, env_or_int}

-- The text has no character that is no digit.
abbrev pub all_digits : String → Bool
all_digits String.[] = true
all_digits (String.◌∷◌ c s) = (leb b'0' (code c) && leb (code c) b'9') && all_digits s

-- The number that digits spell behind `n`, with no bound.
abbrev pub spelled : ℕ → String → ℕ
spelled n String.[] = n
spelled n (String.◌∷◌ c s) = spelled (n * 10 + (code c - b'0')) s

mod_step :
    (m n d : ℕ) → (m % 2 ^ 64) ≡ (n % 2 ^ 64) → ((m * 10 + d) % 2 ^ 64) ≡ ((n * 10 + d) % 2 ^ 64)
mod_step m n d h = omega arith

spelled_mod :
    (s : String) (m n : ℕ)
    → (m % 2 ^ 64) ≡ (n % 2 ^ 64)
    → (spelled m s % 2 ^ 64) ≡ (spelled n s % 2 ^ 64)
spelled_mod String.[] m n h = h
spelled_mod (String.◌∷◌ c s) m n h = spelled_mod s _ _ (mod_step m n (code c - b'0') h)

mod_idem : (n : ℕ) → ((n % 2 ^ 64) % 2 ^ 64) ≡ (n % 2 ^ 64)
mod_idem n = omega arith

guarded :
    (b a : Bool) (p : Option ℕ) (x y : ℕ)
    → p ≡ (if a then some x else none)
    → x ≡ y
    → (if b then p else none) ≡ (if b && a then some y else none)
guarded b a p x y h e = ground arith

parse_digits_lem :
    (s : String) (v : ℕ)
    → (v % 2 ^ 64) ≡ v
    → parse_digits v s ≡ (if all_digits s then some (spelled v s % 2 ^ 64) else none)
unfolding parse_digits
parse_digits_lem String.[] v h = ap some (sym h)
parse_digits_lem (String.◌∷◌ c s) v h =
    let n = v * 10 + (code c - b'0') in
    guarded _ (all_digits s) _ _ _ (parse_digits_lem s (n % 2 ^ 64) (mod_idem n))
      (spelled_mod s (n % 2 ^ 64) n (mod_idem n))

chosen :
    (a : Bool) (x fallback : ℕ)
    → parsed_or fallback (if a then some x else none) ≡ (if a && not (x == 0) then x else fallback)
unfolding parsed_or
chosen true x fallback = ground arith
chosen false x fallback = refl

-- envOrInt returns the number that its text spells, modulo 2^64, if the text is all digits and that
-- is not 0, and the fallback otherwise.
pub env_or_int-spelled :
    (text : String) (fallback : ℕ)
    → env_or_int text fallback ≡ (
        if all_digits text && not ((spelled 0 text % 2 ^ 64) == 0)
        then spelled 0 text % 2 ^ 64
        else fallback)
unfolding env_or_int
env_or_int-spelled String.[] fallback = refl
env_or_int-spelled (String.◌∷◌ c s) fallback = elim (Bool-cases (same_text (String.◌∷◌ c s) "")) [
  | inl b ↦ absurd (cons-ne-nil c s ((eq_iff (String.◌∷◌ c s) "").0 b))
  | inr b ↦ rw b (
      ap (parsed_or fallback) (parse_digits_lem (String.◌∷◌ c s) 0 refl)
      ∙ chosen (all_digits (String.◌∷◌ c s)) _ fallback)
]
