-- ===== src/Config/Bounds.antt =====
-- What LoadFromEnv promises of the settings it returns.
use r_orchestrator.Prelude.{
  ℕ, ◌*◌, ◌^◌, ◌<◌, ◌≡◌, ◌≢◌, refl, sym, String, Bool, true, false, Option, none, some, List, [],
  ◌∷◌, if◌then◌else◌, All, subst, arith, ℤ, same_text, eq_iff, Bool-cases, inl, inr,
}
use r_orchestrator.Action.{Result, ok, err, refused}
use r_orchestrator.Action.Success.{ok≢err, ok_inj}
use r_orchestrator.Config.{
  Environment, Config, env_or_int, positive_or, duration_or, env_or_duration, loaded_config,
  require, load_from_env, required_variables, second,
}

-- Settings that the pollers and timers can work with.
pub record IsUsable (env : Environment) (cfg : Config) : Type 0 where
  pub required : All (λ v. env.getenv v ≢ "") required_variables
  pub cycle_above : 0 < cfg.cluster.billing_cycle_seconds
  pub cycle_below : cfg.cluster.billing_cycle_seconds < 2 ^ 63
  pub advance_above : 0 < cfg.cluster.billing_advance_seconds
  pub advance_below : cfg.cluster.billing_advance_seconds < 2 ^ 63
  pub timeout_above : 0 < cfg.cluster.agent_heartbeat_timeout
  pub grace_above : 0 < cfg.cluster.agent_disconnect_grace
  pub token : cfg.cluster.agent_token ≢ ""

positive_or-bounds :
    (v f : ℕ) → 0 < f → f < 2 ^ 63 → (0 < positive_or v f) × (positive_or v f < 2 ^ 63)
positive_or-bounds v f a b = ground arith

duration_or-above : (f : ℕ) (d : Option ℤ) → 0 < f → 0 < duration_or f d
duration_or-above f none h = h
duration_or-above f (some (ℤ.pos n)) h = ground arith
duration_or-above f (some (ℤ.negsuc n)) h = h

env_or_duration-above :
    (env : Environment) (text : String) (f : ℕ) → 0 < f → 0 < env_or_duration env text f
unfolding env_or_duration
env_or_duration-above env text f h = elim (Bool-cases (same_text text "")) [
  | inl b ↦ rw b h
  | inr b ↦ rw b (duration_or-above f (env.parse_duration text) h)
]

guard-passed :
    (b : Bool) (rest : Result Config) (cfg : Config)
    → (if b then err refused else rest) ≡ ok cfg
    → (b ≡ false) × (rest ≡ ok cfg)
guard-passed true rest cfg e = absurd (ok≢err (sym e))
guard-passed false rest cfg e = (refl, e)

require-success :
    (env : Environment) (vs : List String) (cfg : Config)
    → require env vs ≡ ok cfg
    → All (λ v. env.getenv v ≢ "") vs × (cfg ≡ loaded_config env)
unfolding require
require-success env [] cfg e = (tt, sym (ok_inj e))
require-success env (v ∷ vs) cfg e =
    let (given, found) = guard-passed (same_text (env.getenv v) "") (require env vs) cfg e in
    let (rest, same) = require-success env vs cfg found in
    (((λ h. ground (arith, eq_iff (env.getenv v) "")), rest), same)

loaded-IsUsable :
    (env : Environment)
    → All (λ v. env.getenv v ≢ "") required_variables
    → IsUsable env (loaded_config env)
unfolding loaded_config
loaded-IsUsable env all =
    let cycle =
      positive_or-bounds (env_or_int (env.getenv "CLUSTER_BILLING_CYCLE_SECONDS") 3600) 3600
        (omega arith) (omega arith) in
    let advance =
      positive_or-bounds (env_or_int (env.getenv "CLUSTER_BILLING_ADVANCE_SECONDS") 180) 180
        (omega arith) (omega arith) in
    record {
      required = all;
      cycle_above = cycle.0;
      cycle_below = cycle.1;
      advance_above = advance.0;
      advance_below = advance.1;
      timeout_above = env_or_duration-above env _ (90 * second) (omega arith);
      grace_above = env_or_duration-above env _ (300 * second) (omega arith);
      token = all.1.1.1.1.1.0;
    }

-- If LoadFromEnv succeeds, every required variable was given, the billing cycle and the billing
-- advance are between 1 and 2^63 - 1, the heartbeat timeout and the grace period are positive, and
-- the agent token is not empty.
pub load_from_env-IsUsable :
    (env : Environment) (cfg : Config) → load_from_env env ≡ ok cfg → IsUsable env cfg
unfolding load_from_env
load_from_env-IsUsable env cfg e =
    let (all, same) = require-success env required_variables cfg e in
    subst (IsUsable env) (sym same) (loaded-IsUsable env all)
