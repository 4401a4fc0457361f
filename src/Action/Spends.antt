-- ===== src/Action/Spends.antt =====
-- How many statements an action sends, whatever fails and whoever else writes.
use r_orchestrator.Prelude.{
  ℕ, suc, ◌+◌, ◌≤◌, ◌-◌, ◌≡◌, refl, Bool, true, false, Option, none, some, arith, if◌then◌else◌,
}
use r_orchestrator.World.{Db, World, Outside}
use r_orchestrator.Action.{
  Action, Error, Result, ok, err, pure, raise, when◌then◌else◌, maybe, and_then, ◌>>=◌, statement,
  settle, transaction, catch_up,
}

-- At most `k` statements.
pub record Spends (k : ℕ) {A : Type 0} (m : Action A) : Type 0 where
  pub at : (o : Outside) (w : World) → (m o w).1.stmt ≤ w.stmt + k

module _ {A : Type 0} where
  pub Spends-pure : (a : A) → Spends 0 (pure a)
  unfolding pure
  Spends-pure a = record { at = λ o w. omega arith }

  pub Spends-raise : (e : Error) → Spends 0 (raise {A = A} e)
  unfolding raise
  Spends-raise e = record { at = λ o w. omega arith }

  pub Spends-more : (j k : ℕ) (m : Action A) → j ≤ k → Spends j m → Spends k m
  Spends-more j k m h s = record { at = λ o w. let e = s.at o w in omega arith }

  pub Spends-when :
      (k : ℕ) (b : Bool) (m n : Action A)
      → Spends k m
      → Spends k n
      → Spends k (when b then m else n)
  unfolding when◌then◌else◌
  Spends-when k true m n s t = s
  Spends-when k false m n s t = t

  either :
      (b : Bool) (x y : Result A × World) (n : ℕ)
      → x.1.stmt ≡ suc n
      → y.1.stmt ≡ suc n
      → (if b then x else y).1.stmt ≤ n + 1
  either true x y n h k = omega arith
  either false x y n h k = omega arith

  pub Spends-statement : (f : Outside → World → Db → A × Db) → Spends 1 (statement f)
  unfolding statement
  Spends-statement f = record { at = λ o w. either (o.sql_fails w.stmt) _ _ w.stmt refl refl }

  settle-stmt : (r : Result A) (before : Db) (w : World) → (settle r before w).1.stmt ≡ w.stmt
  settle-stmt (ok a) before w = refl
  settle-stmt (err e) before w = refl

  pub Spends-transaction : (k : ℕ) (m : Action A) → Spends k m → Spends k (transaction m)
  unfolding transaction
  Spends-transaction k m s = record {
    at = λ o w.
        let (r, v) = m o w in
        let e = settle-stmt r (catch_up o w.stmt (v.stmt - w.stmt) w.db) v in
        let h = s.at o w in omega arith;
  }

module _ {A B : Type 0} where
  and_then-stmt :
      (f : A → Action B) (k : ℕ)
      → ((a : A) → Spends k (f a))
      → (o : Outside) (r : Result A) (v : World) → (and_then r f o v).1.stmt ≤ v.stmt + k
  and_then-stmt f k s o (ok a) v = (s a).at o v
  and_then-stmt f k s o (err e) v = omega arith

  pub Spends-bind :
      (j k : ℕ) (m : Action A) (f : A → Action B)
      → Spends j m
      → ((a : A) → Spends k (f a))
      → Spends (j + k) (m >>= f)
  unfolding ◌>>=◌
  Spends-bind j k m f s t = record {
    at = λ o w.
        let (r, v) = m o w in let h = s.at o w in let e = and_then-stmt f k t o r v in omega arith;
  }

  pub Spends-maybe :
      (k : ℕ) (x : Option A) (m : Action B) (f : A → Action B)
      → Spends k m
      → ((a : A) → Spends k (f a))
      → Spends k (maybe x m f)
  unfolding maybe
  Spends-maybe k none m f s t = s
  Spends-maybe k (some a) m f s t = t a
