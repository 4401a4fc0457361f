-- ===== src/Auth/Sound.antt =====
-- ValidateToken accepts a call only by a header that carries the expected token.
use Prim.Native.Char.{code}
use Prim.Native.String.{◌++◌}
use text.Mathlib.TextLemmas.{nil-append, cons-append}
use text.Mathlib.TextEquality.{Char-path}
use r_orchestrator.Prelude.{
  ◌≡◌, ◌≢◌, ◌⊎◌, inl, inr, refl, sym, ap, ◌∙◌, String, Bool, true, false, Option, none, some, List,
  [], ◌∷◌, if◌then◌else◌, ◌==◌, Dict, In, cut_prefix, same_text, eq_iff, arith, some_inj,
  Bool-cases, Option-cases, same_number,
}
use r_orchestrator.Auth.{
  accepted, token_mismatch, compared, values_of, bearer_token, first_bearer, first_value,
  check_headers, validate_token,
}

mismatch≢accepted : token_mismatch ≡ accepted → ⊥
mismatch≢accepted e = cc

guarded_some :
    {A : Type 0} (b : Bool) (x : Option A) (a : A)
    → (if b then x else none) ≡ some a
    → (b ≡ true) × (x ≡ some a)
guarded_some true x a e = (refl, e)
guarded_some false x a e = cc

cut_prefix_lem : (s p t : String) → cut_prefix s p ≡ some t → s ≡ p ++ t
unfolding cut_prefix
cut_prefix_lem s String.[] t e = some_inj s t e ∙ sym (nil-append t)
cut_prefix_lem String.[] (String.◌∷◌ d p) t e = cc
cut_prefix_lem (String.◌∷◌ c s) (String.◌∷◌ d p) t e =
    let (same, rest) = guarded_some (code c == code d) (cut_prefix s p) t e in
    let h = Char-path c d ((same_number (code c) (code d)).0 same) in
    let k = cut_prefix_lem s p t rest in cc (cons-append d p t)

not_empty : (v t : String) → (if same_text v "" then none else some v) ≡ some t → (v ≡ t) × (t ≢ "")
not_empty v t e = elim (Bool-cases (same_text v "")) [
  | inl b ↦ ground (arith, eq_iff v "")
  | inr b ↦ let same : v ≡ t = ground arith in (same, λ h. ground (arith, eq_iff v "", same ∙ h))
]

bearer_token_lem : (v t : String) → bearer_token v ≡ some t → (v ≡ "Bearer " ++ t) × (t ≢ "")
bearer_token_lem v t e = elim (Option-cases (cut_prefix v "Bearer ")) [
  | inl h ↦ cc
  | inr (u, h) ↦
      let (same, given) = not_empty u t (rw (h, bearer_token) at e) in
      (cut_prefix_lem v "Bearer " u h ∙ ap (λ x. "Bearer " ++ x) same, given)
]

first_bearer_lem :
    (vs : List String) (t : String) → first_bearer vs ≡ some t → In ("Bearer " ++ t) vs × (t ≢ "")
unfolding first_bearer
first_bearer_lem [] t e = cc
first_bearer_lem (v ∷ vs) t e = elim (Option-cases (bearer_token v)) [
  | inl h ↦ let (m, given) = first_bearer_lem vs t (rw (h, first_bearer) at e) in (inr m, given)
  | inr (u, h) ↦
      let found = bearer_token_lem v t (h ∙ rw (h, first_bearer) at e) in
      (inl (sym found.0), found.1)
]

first_value_lem : (vs : List String) (t : String) → first_value vs ≡ some t → t ≢ ""
first_value_lem [] t e = cc
first_value_lem (v ∷ vs) t e = (not_empty v t e).1

compared_lem : (t want : String) → compared t want ≡ accepted → t ≡ want
compared_lem t want e = elim (Bool-cases (same_text t want)) [
  | inl b ↦ (eq_iff t want).0 b
  | inr b ↦ absurd (mismatch≢accepted (rw b at e))
]

-- A header of the call carries the expected token.
abbrev pub Carries : Dict (List String) → String → Type 0
Carries md want =
    In ("Bearer " ++ want) (values_of "authorization" md)
    ⊎ (first_value (values_of "x-agent-token" md) ≡ some want)
    ⊎ (first_value (values_of "agent-token" md) ≡ some want)

check_header_lem :
    (key : String) (keys : List String) (md : Dict (List String)) (want : String)
    → check_headers (key ∷ keys) md want ≡ accepted
    → ((want ≢ "") × (first_value (values_of key md) ≡ some want))
      ⊎ (check_headers keys md want ≡ accepted)
unfolding check_headers
check_header_lem key keys md want e = elim (Option-cases (first_value (values_of key md))) [
  | inl h ↦ inr (rw (h, check_headers) at e)
  | inr (t, h) ↦
      let same = compared_lem t want (rw (h, check_headers) at e) in
      let found = h ∙ ap some same in inl (first_value_lem (values_of key md) want found, found)
]

no_headers : (md : Dict (List String)) (want : String) → check_headers [] md want ≡ accepted → ⊥
unfolding check_headers
no_headers md want e = cc

-- If ValidateToken accepts the metadata of a call, the expected token is not empty, and is a bearer
-- token of an authorization value or the first value of x-agent-token or agent-token.
pub validate_token_sound :
    (md : Dict (List String)) (want : String)
    → validate_token (some md) want ≡ accepted
    → (want ≢ "") × Carries md want
unfolding validate_token
validate_token_sound md want e = elim (Option-cases (first_bearer (values_of "authorization" md))) [
  | inr (t, h) ↦
      let same = compared_lem t want (rw (h, validate_token) at e) in
      let (m, given) = first_bearer_lem _ want (h ∙ ap some same) in (given, inl m)
  | inl h ↦
      elim (check_header_lem "x-agent-token" ("agent-token" ∷ []) md want
        (rw (h, validate_token) at e)) [
          | inl (given, found) ↦ (given, inr (inl found))
          | inr f ↦ elim (check_header_lem "agent-token" [] md want f) [
            | inl (given, found) ↦ (given, inr (inr found))
            | inr g ↦ absurd (no_headers md want g)
          ]
        ]
]
