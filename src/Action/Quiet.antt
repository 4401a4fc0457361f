-- ===== src/Action/Quiet.antt =====
-- Runs in which no statement fails and no other transaction commits: what each statement makes
-- of the world. The laws are stated by `after`, the world after one statement.
use r_orchestrator.Prelude.{ℕ, zero, suc, ◌-◌, ◌≡◌, refl, sym, ap, ◌∙◌, Bool, true, false}
use r_orchestrator.World.{Db, World, Outside}
use r_orchestrator.Action.{
  Action, Error, Result, ok, err, pure, raise, gets, when◌then◌else◌, ◌>>=◌, attempt, statement,
  catch_up, transaction,
}
use mathlib.Core.Bool.{true≢false}

pub record IsQuiet (o : Outside) : Type 0 where
  pub no_failure : (n : ℕ) → o.sql_fails n ≡ false
  pub alone : (n : ℕ) (db : Db) → o.others n db ≡ db

abbrev pub after : World → Db → World
after w db = record w { stmt = suc w.stmt; db = db }

pub statement-quiet :
    {A : Type 0} (o : Outside)
    → IsQuiet o
    → (f : Outside → World → Db → A × Db) (w : World)
    → statement f o w ≡ (ok (f o w w.db).0, after w (f o w w.db).1)
unfolding statement
statement-quiet o q f w = rw (q.no_failure w.stmt, q.alone w.stmt w.db)

module _ {A B : Type 0} {o : Outside} {w w' : World} where
  pub bind-ok :
      (m : Action A) {a : A} (f : A → Action B) → m o w ≡ (ok a, w') → (m >>= f) o w ≡ f a o w'
  unfolding ◌>>=◌
  bind-ok m f e = rw e

  pub bind-err :
      (m : Action A) {x : Error} (f : A → Action B)
      → m o w ≡ (err x, w')
      → (m >>= f) o w ≡ (err x, w')
  unfolding ◌>>=◌
  bind-err m f e = rw e

module _ {A : Type 0} {o : Outside} {w w' : World} where
  pub attempt-eq : (m : Action A) {r : Result A} → m o w ≡ (r, w') → attempt m o w ≡ (ok r, w')
  unfolding attempt
  attempt-eq m e = rw e

  pub transaction-ok : (m : Action A) {a : A} → m o w ≡ (ok a, w') → transaction m o w ≡ (ok a, w')
  unfolding transaction
  transaction-ok m e = rw e

-- A failed transaction takes back all of its own writes: what is left is what the others have
-- made of the database in the meantime.
pub transaction-err :
    {A : Type 0} (o : Outside) (m : Action A) (w w' : World) (x : Error)
    → m o w ≡ (err x, w')
    → transaction m o w ≡ (err x, record w' { db = catch_up o w.stmt (w'.stmt - w.stmt) w.db })
transaction-err o m w w' x e = unfold transaction in rw e

catch_up-quiet : (o : Outside) → IsQuiet o → (n k : ℕ) (db : Db) → catch_up o n k db ≡ db
unfolding catch_up
catch_up-quiet o q n zero db = refl
catch_up-quiet o q n (suc k) db = rw (q.alone n db) (catch_up-quiet o q (suc n) k db)

pub transaction-err_quiet :
    {A : Type 0} (o : Outside)
    → IsQuiet o
    → (m : Action A) (w w' : World) (x : Error) → m o w ≡ (err x, w')
    → transaction m o w ≡ (err x, record w' { db = w.db })
transaction-err_quiet o q m w w' x e =
    transaction-err o m w w' x e
    ∙ ap (λ d. (err x, record w' { db = d })) (catch_up-quiet o q w.stmt (w'.stmt - w.stmt) w.db)

-- The action ends with the result `r` and the database `d`, and changes nothing else of the world
-- than the count of statements.
abbrev pub Ends : {A : Type 0} → Action A → Outside → World → Result A → Db → Type 0
Ends m o w r d = (n : ℕ) × (m o w ≡ (r, record w { stmt = n; db = d }))

module _ {A B : Type 0} {o : Outside} {w : World} where
  pub Ends-bind :
      (m : Action A) (f : A → Action B) {a : A} {d d' : Db} {r : Result B}
      → Ends m o w (ok a) d
      → ((n : ℕ) → Ends (f a) o (record w { stmt = n; db = d }) r d')
      → Ends (m >>= f) o w r d'
  Ends-bind m f (n, e) g = let (k, e') = g n in (k, bind-ok m f e ∙ e')

  pub Ends-bind_err :
      (m : Action A) (f : A → Action B) {x : Error} {d : Db}
      → Ends m o w (err x) d
      → Ends (m >>= f) o w (err x) d
  Ends-bind_err m f (n, e) = (n, bind-err m f e)

module _ {A : Type 0} {o : Outside} {w : World} where
  pub Ends-attempt :
      (m : Action A) {r : Result A} {d : Db} → Ends m o w r d → Ends (attempt m) o w (ok r) d
  Ends-attempt m (n, e) = (n, attempt-eq m e)

  pub Ends-transaction :
      (m : Action A) {a : A} {d : Db} → Ends m o w (ok a) d → Ends (transaction m) o w (ok a) d
  Ends-transaction m (n, e) = (n, transaction-ok m e)

  pub Ends-transaction_err :
      IsQuiet o
      → (m : Action A) {x : Error} {d : Db} → Ends m o w (err x) d
      → Ends (transaction m) o w (err x) w.db
  Ends-transaction_err q m {x} (n, e) = (n, transaction-err_quiet o q m w _ x e)

  pub Ends-when :
      (b : Bool) (m n : Action A) {r : Result A} {d : Db}
      → (b ≡ true → Ends m o w r d)
      → (b ≡ false → Ends n o w r d)
      → Ends (when b then m else n) o w r d
  unfolding when◌then◌else◌
  Ends-when true m n f g = f refl
  Ends-when false m n f g = g refl

  pub Ends-then :
      (b : Bool) (m n : Action A) {r : Result A} {d : Db}
      → b ≡ true
      → Ends m o w r d
      → Ends (when b then m else n) o w r d
  Ends-then b m n h f = Ends-when b m n (λ _. f) (λ e. absurd (true≢false (sym h ∙ e)))

  pub Ends-else :
      (b : Bool) (m n : Action A) {r : Result A} {d : Db}
      → b ≡ false
      → Ends n o w r d
      → Ends (when b then m else n) o w r d
  Ends-else b m n h f = Ends-when b m n (λ e. absurd (true≢false (sym e ∙ h))) (λ _. f)

module _ {A : Type 0} (o : Outside) (w : World) where
  pub Ends-pure : (a : A) → Ends (pure a) o w (ok a) w.db
  unfolding pure
  Ends-pure a = (w.stmt, refl)

  pub Ends-raise : (x : Error) → Ends (raise {A = A} x) o w (err x) w.db
  unfolding raise
  Ends-raise x = (w.stmt, refl)

  pub Ends-gets : (f : Outside → World → A) → Ends (gets f) o w (ok (f o w)) w.db
  unfolding gets
  Ends-gets f = (w.stmt, refl)
