-- ===== src/Action/Success.antt =====
-- What the steps of an action that succeeds have done.
use r_orchestrator.Prelude.{◌≡◌, refl, sym, ◌∙◌, ap, Bool, true, false}
use r_orchestrator.World.{World, Outside}
use r_orchestrator.Action.{Action, Error, Result, ok, err, raise, when◌then◌else◌, and_then, ◌>>=◌}
use r_orchestrator.Action.Quiet.{bind-ok}

module _ {A : Type 0} where
  pub ok≢err : {a : A} {x : Error} → ok a ≡ err x → ⊥
  ok≢err p = cc

  pub ok_inj : {a b : A} → ok a ≡ ok b → a ≡ b
  ok_inj p = cc

module _ {A B : Type 0} {o : Outside} {v : World} where
  and_then-success :
      (r : Result A) (u : World) (f : A → Action B) {b : B}
      → and_then r f o u ≡ (ok b, v)
      → (a : A) × (r ≡ ok a) × (f a o u ≡ (ok b, v))
  and_then-success (ok a) u f e = (a, refl, e)
  and_then-success (err x) u f e = absurd (ok≢err (sym (ap (λ y. y.0) e)))

module _ {A B : Type 0} {o : Outside} {w v : World} where
  -- The step after one whose outcome is known.
  pub after-step :
      (m : Action A) (f : A → Action B) {a : A} {u : World} {b : B}
      → m o w ≡ (ok a, u)
      → (m >>= f) o w ≡ (ok b, v)
      → f a o u ≡ (ok b, v)
  after-step m f h e = sym (bind-ok m f h) ∙ e

  pub bind-success :
      (m : Action A) (f : A → Action B) {b : B}
      → (m >>= f) o w ≡ (ok b, v)
      → (a : A) × ((m o w).0 ≡ ok a) × (f a o (m o w).1 ≡ (ok b, v))
  unfolding ◌>>=◌
  bind-success m f e = and_then-success (m o w).0 (m o w).1 f e

module _ {A : Type 0} {o : Outside} {w v : World} where
  pub guard-success :
      (b : Bool) (x : Error) (n : Action A) {a : A}
      → (when b then raise x else n) o w ≡ (ok a, v)
      → (b ≡ false) × (n o w ≡ (ok a, v))
  unfolding when◌then◌else◌ raise
  guard-success true x n e = absurd (ok≢err (sym (ap (λ y. y.0) e)))
  guard-success false x n e = (refl, e)
