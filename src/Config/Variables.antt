-- ===== src/Config/Variables.antt =====
-- load_env.go: the environment that LoadEnvVariable leaves.
use r_orchestrator.Prelude.{
  ◌≡◌, ◌≢◌, refl, subst, sym, ◌∙◌, ap, String, Bool, true, false, none, some, inl, inr,
  if◌then◌else◌, Dict, at_key, same_text, Bool-cases,
}
use mathlib.Core.Bool.{true≢false}
use r_orchestrator.Action.{ok}
use r_orchestrator.Action.Success.{ok≢err, ok_inj}
use r_orchestrator.Config.Start.{
  EnvFile, loaded, absent, broken, find_env_file, with_file, load_result, load_env_variable,
}

-- What a program reads of its variables when the .env file may have been loaded: a variable that
-- was set is as it was; one that was not is as the file has it, unless ENV is "prod"; and one that
-- neither has is as it was.
pub record Provides (is_set : String → Bool) (before after : String → String) (file : EnvFile)
    : Type 0 where
  pub kept : (name : String) → is_set name ≡ true → after name ≡ before name
  pub production : before "ENV" ≡ "prod" → (name : String) → after name ≡ before name
  pub without_file : file ≡ absent → (name : String) → after name ≡ before name
  pub filled :
      same_text (before "ENV") "prod" ≡ false
      → (vars : Dict String) → file ≡ loaded vars
      → (name value : String) → is_set name ≡ false
      → at_key name vars ≡ some value
      → after name ≡ value
  pub unknown :
      (vars : Dict String)
      → file ≡ loaded vars
      → (name : String) → at_key name vars ≡ none
      → after name ≡ before name

loaded_inj : (vars vars' : Dict String) → loaded vars ≡ loaded vars' → vars ≡ vars'
loaded_inj vars vars' e = cc

loaded≢absent : (vars : Dict String) → loaded vars ≢ absent
loaded≢absent vars e = cc

with_file-set :
    (is_set : String → Bool) (getenv : String → String) (vars : Dict String) (name : String)
    → is_set name ≡ true
    → with_file is_set getenv vars name ≡ getenv name
with_file-set is_set getenv vars name h = rw h refl

with_file-filled :
    (is_set : String → Bool) (getenv : String → String) (vars : Dict String) (name value : String)
    → is_set name ≡ false
    → at_key name vars ≡ some value
    → with_file is_set getenv vars name ≡ value
with_file-filled is_set getenv vars name value h e = rw (h, e) refl

with_file-unknown :
    (is_set : String → Bool) (getenv : String → String) (vars : Dict String) (name : String)
    → at_key name vars ≡ none
    → with_file is_set getenv vars name ≡ getenv name
with_file-unknown is_set getenv vars name e = elim (Bool-cases (is_set name)) [
  | inl h ↦ with_file-set is_set getenv vars name h
  | inr h ↦ rw (h, e) refl
]

module _ (is_set : String → Bool) (before : String → String) where
  unchanged-Provides :
      (file : EnvFile) (prod : Bool)
      → same_text (before "ENV") "prod" ≡ prod
      → (prod ≡ false → (vars : Dict String) → file ≡ loaded vars → ⊥)
      → Provides is_set before before file
  unchanged-Provides file prod h none_loaded = record {
    kept = λ name k. refl;
    production = λ k name. refl;
    without_file = λ k name. refl;
    filled = λ k vars e. absurd (none_loaded (sym h ∙ k) vars e);
    unknown = λ vars e name k. refl;
  }

  loaded-Provides :
      (vars : Dict String)
      → same_text (before "ENV") "prod" ≡ false
      → Provides is_set before (with_file is_set before vars) (loaded vars)
  loaded-Provides vars h = record {
    kept = λ name k. with_file-set is_set before vars name k;
    production = λ k. absurd (true≢false (sym (ap (λ t. same_text t "prod") k) ∙ h));
    without_file = λ e name. absurd (loaded≢absent vars e);
    filled = λ k vars' e name value u v.
        with_file-filled is_set before vars name value u
          (ap (at_key name) (loaded_inj vars vars' e) ∙ v);
    unknown = λ vars' e name v.
        with_file-unknown is_set before vars name (ap (at_key name) (loaded_inj vars vars' e) ∙ v);
  }

  result-Provides :
      (file : EnvFile) (after : String → String)
      → same_text (before "ENV") "prod" ≡ false
      → load_result is_set before file ≡ ok after
      → Provides is_set before after file
  result-Provides (loaded vars) after h e =
      subst (λ f. Provides is_set before f (loaded vars)) (ok_inj e) (loaded-Provides vars h)
  result-Provides absent after h e =
      subst (λ f. Provides is_set before f absent) (ok_inj e)
        (unchanged-Provides absent false h (λ _ vars k. cc))
  result-Provides broken after h e = absurd (ok≢err (sym e))

  pub load_env_variable-Provides :
      (missing : String → Bool) (load : String → EnvFile) (after : String → String)
      → load_env_variable is_set before missing load ≡ ok after
      → Provides is_set before after (load (find_env_file missing 10 ".env"))
  unfolding load_env_variable
  load_env_variable-Provides missing load after e =
      elim (Bool-cases (same_text (before "ENV") "prod")) [
        | inl h ↦
            subst (λ f. Provides is_set before f (load (find_env_file missing 10 ".env")))
              (ok_inj (sym (chosen h) ∙ e)) (unchanged-Provides _ true h (λ k vars _. true≢false k))
        | inr h ↦ result-Provides _ after h (sym (chosen h) ∙ e)
      ]
    where
      chosen :
          {b : Bool}
          → same_text (before "ENV") "prod" ≡ b
          → load_env_variable is_set before missing load ≡ (
              if b
              then ok before
              else load_result is_set before (load (find_env_file missing 10 ".env")))
      chosen h =
          ap
            (λ b.
              if b
              then ok before
              else load_result is_set before (load (find_env_file missing 10 ".env")))
            h
