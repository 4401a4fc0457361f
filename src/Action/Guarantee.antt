-- ===== src/Action/Guarantee.antt =====
-- A relation that an action keeps between the database before and after it, if all others keep
-- it too: one rule for each way to build an action.
use r_orchestrator.Prelude.{ℕ, zero, suc, ◌-◌, ◌≡◌, refl, Bool, true, false, Option, none, some}
use r_orchestrator.World.{Db, World, Outside}
use r_orchestrator.Action.{
  when◌then◌else◌, maybe, returned, Error, Result, ok, err, Action, pure, raise, gets, and_then,
  ◌>>=◌, attempt, elsewhere, statement, catch_up, settle, transaction,
}
use r_orchestrator.Action.Evolves.{Preorder}

-- Other transactions keep to the relation.
abbrev pub Relies : (Db → Db → Type 0) → Outside → Type 0
Relies R o = (n : ℕ) (db : Db) → R db (o.others n db)

pub record Guarantees (R : Db → Db → Type 0) {A : Type 0} (m : Action A) : Type 0 where
  pub at : (o : Outside) → Relies R o → (w : World) → R w.db (m o w).1.db

module _ {R : Db → Db → Type 0} (P : Preorder R) where
  module _ {A : Type 0} where
    pub Guarantees-pure : (a : A) → Guarantees R (pure a)
    unfolding pure
    Guarantees-pure a = record { at = λ o h w. P.reflexive w.db }

    pub Guarantees-raise : (e : Error) → Guarantees R (raise {A = A} e)
    unfolding raise
    Guarantees-raise e = record { at = λ o h w. P.reflexive w.db }

    pub Guarantees-gets : (f : Outside → World → A) → Guarantees R (gets f)
    unfolding gets
    Guarantees-gets f = record { at = λ o h w. P.reflexive w.db }

    pub Guarantees-elsewhere : (f : World → World) (a : A) → Guarantees R (elsewhere f a)
    unfolding elsewhere
    Guarantees-elsewhere f a = record { at = λ o h w. P.reflexive w.db }

    pub Guarantees-returned : (r : Result A) → Guarantees R (returned r)
    unfolding returned
    Guarantees-returned (ok a) = Guarantees-pure a
    Guarantees-returned (err e) = Guarantees-raise e

    pub Guarantees-attempt : (m : Action A) → Guarantees R m → Guarantees R (attempt m)
    unfolding attempt
    Guarantees-attempt m g = record { at = λ o h w. g.at o h w }

    pub Guarantees-when :
        (b : Bool) (m n : Action A)
        → Guarantees R m
        → Guarantees R n
        → Guarantees R (when b then m else n)
    unfolding when◌then◌else◌
    Guarantees-when true m n gm gn = gm
    Guarantees-when false m n gm gn = gn

    pub Guarantees-statement :
        (f : Outside → World → Db → A × Db)
        → ((o : Outside) (w : World) (db : Db) → R db (f o w db).1)
        → Guarantees R (statement f)
    unfolding statement
    Guarantees-statement f h = record { at = λ o rely w. one o rely w (o.sql_fails w.stmt) refl }
      where
        one :
            (o : Outside)
            → Relies R o
            → (w : World) (b : Bool) → o.sql_fails w.stmt ≡ b
            → R w.db (statement f o w).1.db
        one o rely w true e = rw (e, statement) (rely w.stmt w.db)
        one o rely w false e =
            rw (e, statement) (P.transitive _ _ _ (rely w.stmt w.db) (h o w (o.others w.stmt w.db)))

  pub catch_up-R : (o : Outside) → Relies R o → (n k : ℕ) (db : Db) → R db (catch_up o n k db)
  unfolding catch_up
  catch_up-R o h n zero db = P.reflexive db
  catch_up-R o h n (suc k) db =
      P.transitive _ _ _ (h n db) (catch_up-R o h (suc n) k (o.others n db))

  settle-R :
      {A : Type 0} (r : Result A) (start before : Db) (w : World)
      → R start before
      → R start w.db
      → R start (settle r before w).1.db
  settle-R (ok a) start before w p q = q
  settle-R (err e) start before w p q = p

  pub Guarantees-transaction :
      {A : Type 0} (m : Action A) → Guarantees R m → Guarantees R (transaction m)
  unfolding transaction
  Guarantees-transaction m g = record {
    at = λ o h w.
        let (r, w') = m o w in
        settle-R r w.db (catch_up o w.stmt (w'.stmt - w.stmt) w.db) w'
          (catch_up-R o h w.stmt (w'.stmt - w.stmt) w.db) (g.at o h w);
  }

  module _ {A B : Type 0} where
    and_then-R :
        (f : A → Action B)
        → ((a : A) → Guarantees R (f a))
        → (o : Outside) → Relies R o
        → (start : Db) (r : Result A) (w : World) → R start w.db
        → R start (and_then r f o w).1.db
    and_then-R f g o h start (ok a) w p = P.transitive _ _ _ p ((g a).at o h w)
    and_then-R f g o h start (err e) w p = p

    pub Guarantees-bind :
        (m : Action A) (f : A → Action B)
        → Guarantees R m
        → ((a : A) → Guarantees R (f a))
        → Guarantees R (m >>= f)
    unfolding ◌>>=◌
    Guarantees-bind m f gm gf = record {
      at = λ o h w. let (r, w') = m o w in and_then-R f gf o h w.db r w' (gm.at o h w);
    }

module _ {R : Db → Db → Type 0} {A B : Type 0} where
  -- A match on an optional value.
  pub Guarantees-maybe :
      (x : Option A) (n : Action B) (f : A → Action B)
      → Guarantees R n
      → ((a : A) → Guarantees R (f a))
      → Guarantees R (maybe x n f)
  unfolding maybe
  Guarantees-maybe none n f gn gf = gn
  Guarantees-maybe (some a) n f gn gf = gf a

pub ruleset guarantee_rules = (
  Guarantees-pure, Guarantees-raise, Guarantees-gets, Guarantees-elsewhere, Guarantees-returned,
  Guarantees-attempt, Guarantees-when, Guarantees-maybe, Guarantees-transaction, Guarantees-bind,
)

-- What every value that an action returns satisfies.
pub record Yields {A : Type 0} (Q : A → Type 0) (m : Action A) : Type 0 where
  pub at : (o : Outside) (w : World) (a : A) → (m o w).0 ≡ ok a → Q a

module _ {R : Db → Db → Type 0} (P : Preorder R) where
  module _ {A B : Type 0} where
    and_then-yielded :
        (Q : A → Type 0) (f : A → Action B)
        → ((a : A) → Q a → Guarantees R (f a))
        → (o : Outside) → Relies R o
        → (start : Db) (r : Result A) (w : World) → ((a : A) → r ≡ ok a → Q a)
        → R start w.db
        → R start (and_then r f o w).1.db
    and_then-yielded Q f g o h start (ok a) w q p = P.transitive _ _ _ p ((g a (q a refl)).at o h w)
    and_then-yielded Q f g o h start (err e) w q p = p

    -- The rest of the block may use what the first action's value satisfies.
    pub Guarantees-bind_yielded :
        (Q : A → Type 0) (m : Action A) (f : A → Action B)
        → Guarantees R m
        → Yields Q m
        → ((a : A) → Q a → Guarantees R (f a))
        → Guarantees R (m >>= f)
    unfolding ◌>>=◌
    Guarantees-bind_yielded Q m f gm y gf = record {
      at = λ o h w.
          let (r, w') = m o w in
          and_then-yielded Q f gf o h w.db r w' (λ a e. y.at o w a e) (gm.at o h w);
    }
