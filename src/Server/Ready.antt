-- ===== src/Server/Ready.antt =====
-- A server that has started.
use r_orchestrator.Prelude.{
  ◌≡◌, refl, sym, ◌∙◌, ap, subst, Bool, String, Option, none, some, at_key-stored, [],
}
use r_orchestrator.World.{World, Outside}
use r_orchestrator.Action.{Action, Error, Result, ok, err, raise, pure, maybe, returned}
use r_orchestrator.Action.Success.{ok≢err, ok_inj, bind-success, guard-success}
use r_orchestrator.Config.{Config}
use r_orchestrator.Config.Bounds.{IsUsable, load_from_env-IsUsable}
use r_orchestrator.Config.Start.{find_env_file}
use r_orchestrator.Config.Variables.{Provides, load_env_variable-Provides}
use r_orchestrator.Backend.{get, register, backend_kind_kubernetes}
use r_orchestrator.Backend.K8
use r_orchestrator.Backend.K8.{KubeConfigs, provider_for, new_k8s_provider, k8s_provider}
use r_orchestrator.Server.{
  Surroundings, Started, k8s_config, server_registry, start_serving, start_backend, start,
}

module _ {A B : Type 0} {o : Outside} {w v : World} where
  maybe-success :
      (x : Option A) (e : Error) (f : A → Action B) {b : B}
      → maybe x (raise e) f o w ≡ (ok b, v)
      → (a : A) × (x ≡ some a) × (f a o w ≡ (ok b, v))
  unfolding maybe raise
  maybe-success none e f h = absurd (ok≢err (sym (ap (λ y. y.0) h)))
  maybe-success (some a) e f h = (a, refl, h)

returned-ok :
    {A : Type 0} (r : Result A) (o : Outside) (w : World) (a : A)
    → (returned r o w).0 ≡ ok a
    → r ≡ ok a
unfolding returned pure raise
returned-ok (ok x) o w a h = h
returned-ok (err e) o w a h = absurd (ok≢err (sym h))

pure-ok : {A : Type 0} (a b : A) (o : Outside) (w v : World) → pure a o w ≡ (ok b, v) → a ≡ b
unfolding pure
pure-ok a b o w v h = ok_inj (ap (λ y. y.0) h)

provider_for_lem :
    {A B : Type 0} (f : A → Option B) (cfg : K8.Config) (x : Option A) (client : B)
    (kept : K8.Config)
    → provider_for f cfg x ≡ some (client, kept)
    → cfg ≡ kept
provider_for_lem f cfg none client kept h = cc
provider_for_lem {B} f cfg (some c) client kept h = made (f c) h
  where
    made :
        (x : Option B)
        → (elim x as (λ _. Option (B × K8.Config)) [
          | none ↦ none
          | some client ↦ some (client, cfg)
        ])
          ≡ some (client, kept)
        → cfg ≡ kept
    made none h = cc
    made (some b) h = cc

new_k8s_provider_lem :
    {A B : Type 0} (k : KubeConfigs A) (f : A → Option B) (cfg : K8.Config) (client : B)
    (kept : K8.Config)
    → new_k8s_provider k f cfg ≡ some (client, kept)
    → cfg ≡ kept
unfolding new_k8s_provider
new_k8s_provider_lem k f cfg client kept h = provider_for_lem f cfg _ client kept h

-- The settings are usable ones of the environment with the variables of the .env file.
abbrev pub IsLoaded : Surroundings → Config → Type 0
IsLoaded s cfg =
    (getenv : String → String) × Provides s.is_set s.environment.getenv getenv
      (s.load_file (find_env_file s.missing 10 ".env"))
    × IsUsable (record s.environment { getenv = getenv }) cfg

-- What the poller and the recycler of a started server rely on.
pub record IsReady (s : Surroundings) (st : Started) : Type 0 where
  pub usable : IsLoaded s st.config
  pub kubernetes :
      get st.registry backend_kind_kubernetes ≡ some (k8s_provider (k8s_config st.config))

registered :
    (cfg : K8.Config) → get (server_registry cfg) backend_kind_kubernetes ≡ some (k8s_provider cfg)
unfolding get server_registry register
registered cfg = at_key-stored backend_kind_kubernetes (k8s_provider cfg) []

module _ (s : Surroundings) (o : Outside) (st : Started) where
  serving-IsReady :
      (b : Bool) (cfg : Config) (kcfg : K8.Config) (w v : World)
      → k8s_config cfg ≡ kcfg
      → IsLoaded s cfg
      → start_serving b cfg kcfg o w ≡ (ok st, v)
      → IsReady s st
  unfolding start_serving
  serving-IsReady b cfg kcfg w v same usable e =
      let (_, f) = guard-success _ _ _ e in
      let (_, _, g) = bind-success _ _ f in
      subst (IsReady s) (pure-ok _ _ o _ v g) (record {
        usable = usable;
        kubernetes = registered kcfg ∙ ap (λ c. some (k8s_provider c)) (sym same);
      })

  backend-IsReady :
      (cfg : Config) (w v : World)
      → IsLoaded s cfg
      → start_backend s cfg o w ≡ (ok st, v)
      → IsReady s st
  unfolding start_backend
  backend-IsReady cfg w v usable e =
      let (_, _, f) = bind-success _ _ e in
      let ((client, kcfg), made, g) = maybe-success _ _ _ f in
      serving-IsReady _ cfg kcfg _ v (new_k8s_provider_lem _ _ _ client kcfg made) usable g

  -- If the server has started, its settings are such as LoadFromEnv promises of an environment in
  -- which each variable is as it was if it was set, if ENV is prod or if the .env file is absent or
  -- lacks it, and as the .env file has it otherwise; and its registry gives for "kubernetes" the
  -- provider with the settings of the server.
  pub start-IsReady : (w v : World) → start s o w ≡ (ok st, v) → IsReady s st
  unfolding start
  start-IsReady w v e =
      let (getenv, set, f) = bind-success _ _ e in
      let (cfg, loaded, g) = bind-success _ _ f in
      let (_, opened) = guard-success _ _ _ g in
      let (_, migrated) = guard-success _ _ _ opened in
      backend-IsReady cfg _ v
        (
          getenv,
          load_env_variable-Provides s.is_set s.environment.getenv s.missing s.load_file getenv
              (returned-ok _ o _ getenv set),
          load_from_env-IsUsable (record s.environment { getenv = getenv }) cfg
              (returned-ok _ o _ cfg loaded),
        )
        migrated
