-- ===== src/Auth.antt =====
-- internal/auth/token.go: the bearer token in the metadata of a call. gRPC keeps the keys in lower
-- case; `none` is a context without metadata.
pub mod Sound
use Prim.Native.Char.{code}
use Prim.Native.String.{◌++◌}
use text.Mathlib.TextLemmas.{nil-append, cons-append}
use r_orchestrator.Prelude.{
  ℕ, String, Bool, true, false, not, ◌&&◌, Option, none, some, List, [], ◌∷◌, if◌then◌else◌, Dict,
  at_key, cut_prefix, same_text,
}

pub data Verdict : Type 0 where
  accepted token_mismatch metadata_required : Verdict

abbrev pub compared : (token want : String) → Verdict
compared token want = if same_text token want then accepted else token_mismatch

-- md.Get.
unfoldable pub values_of : String → Dict (List String) → List String
values_of key md = elim (at_key key md) [ none ↦ [] | some values ↦ values ]

abbrev pub bearer_token : String → Option String
bearer_token value = elim (cut_prefix value "Bearer ") [
  | none ↦ none
  | some token ↦ if same_text token "" then none else some token
]

-- The loop over the values of "authorization".
unfoldable pub first_bearer : List String → Option String
first_bearer [] = none
first_bearer (v ∷ vs) = elim (bearer_token v) [ none ↦ first_bearer vs | some token ↦ some token ]

abbrev pub first_value : List String → Option String
first_value [] = none
first_value (v ∷ vs) = if same_text v "" then none else some v

-- The loop over the two header names.
unfoldable pub check_headers : List String → Dict (List String) → (want : String) → Verdict
unfolding values_of
check_headers [] md want = metadata_required
check_headers (key ∷ keys) md want = elim (first_value (values_of key md)) [
  | none ↦ check_headers keys md want
  | some token ↦ compared token want
]

-- ValidateToken.
unfoldable pub validate_token : Option (Dict (List String)) → (want : String) → Verdict
unfolding first_bearer check_headers values_of
validate_token none want = metadata_required
validate_token (some md) want = elim (first_bearer (values_of "authorization" md)) [
  | none ↦ check_headers ("x-agent-token" ∷ "agent-token" ∷ []) md want
  | some token ↦ compared token want
]
