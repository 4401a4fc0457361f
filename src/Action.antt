-- ===== src/Action.antt =====
-- An action reads the code outside, changes the world, and returns a value or an error. What was
-- done before an error stays done, but for what a transaction takes back.
pub mod Atomic
pub mod Evolves
pub mod Guarantee
pub mod Quiet
pub mod Spends
pub mod Success
use r_orchestrator.Prelude.{
  ℕ, zero, suc, ◌+◌, ◌-◌, String, Bool, true, false, Option, none, some, List, [], ◌∷◌,
  if◌then◌else◌,
}
use r_orchestrator.World.{Db, World, Outside}

pub data Code : Type 0 where
  failed_precondition invalid_argument not_found internal permission_denied unauthenticated : Code

-- The errors that the program tells apart. `record_not_found` is gorm.ErrRecordNotFound, wrapped
-- or not; `refused` any error made by fmt.Errorf alone; `unavailable` one of a foreign client.
-- `api_not_found` and `already_exists` are the two that apierrors tells apart.
pub data Error : Type 0 where
  record_not_found database refused unavailable deadline_exceeded : Error
  tenant_not_found task_not_found agent_not_found identity_conflict : Error
  api_not_found already_exists : Error
  grpc : Code → Error

pub data Result {ℓ} (A : Type ℓ) : Type ℓ where
  ok : A → Result A
  err : Error → Result A

abbrev pub Action : Type 0 → Type 0
Action A = Outside → World → Result A × World

module _ {A : Type 0} where
  unfoldable pub pure : A → Action A
  pure a o w = (ok a, w)

  unfoldable pub raise : Error → Action A
  raise e o w = (err e, w)

  unfoldable pub gets : (Outside → World → A) → Action A
  gets f o w = (ok (f o w), w)

module _ {A : Type 0} where
  -- A branch of a block. It stays folded, as the match below does, until an action is run.
  infix 1 when◌then◌else◌
  unfoldable pub when◌then◌else◌ : Bool → Action A → Action A → Action A
  when b then m else n = if b then m else n

  -- `return err`.
  unfoldable pub returned : Result A → Action A
  unfolding pure raise
  returned (ok a) = pure a
  returned (err e) = raise e

-- `maybe x m f` matches on an optional value.
unfoldable pub maybe : {A B : Type 0} → Option A → Action B → (A → Action B) → Action B
maybe none m f = m
maybe (some a) m f = f a

module _ {A B : Type 0} where
  abbrev pub and_then : Result A → (A → Action B) → Action B
  and_then (ok a) f o w = f a o w
  and_then (err e) f o w = (err e, w)

  infixl 10 ◌>>=◌ ◌>>◌
  unfoldable pub ◌>>=◌ : Action A → (A → Action B) → Action B
  unfolding pure raise gets when◌then◌else◌ maybe returned
  ◌>>=◌ m f o w = let (r, w') = m o w in and_then r f o w'

  abbrev pub ◌>>◌ : Action A → Action B → Action B
  m >> n = m >>= λ _. n

-- What `k` statements of others make of a database, from the n-th on.
unfoldable pub catch_up : Outside → ℕ → ℕ → Db → Db
catch_up o n zero db = db
catch_up o n (suc k) db = catch_up o (suc n) k (o.others n db)

module _ {A : Type 0} where
  -- `err` as a value.
  unfoldable pub attempt : Action A → Action (Result A)
  attempt m o w = let (r, w') = m o w in (ok r, w')

  -- A change of the parts of the world that are not the database.
  unfoldable pub elsewhere : (World → World) → A → Action A
  elsewhere f a o w = (ok a, record (f w) { db = w.db })

  -- One SQL statement: it sees what the others have committed, and is atomic.
  unfoldable pub statement : (Outside → World → Db → A × Db) → Action A
  statement f o w =
      let seen = o.others w.stmt w.db in
      let next = record w { stmt = suc w.stmt } in
      if o.sql_fails w.stmt
      then (err database, record next { db = seen })
      else let (a, db') = f o w seen in (ok a, record next { db = db' })

  abbrev pub settle : Result A → Db → World → Result A × World
  settle (ok a) before w = (ok a, w)
  settle (err e) before w = (err e, record w { db = before })

  -- db.Transaction: an error takes back this transaction's writes, and nobody else's.
  unfoldable pub transaction : Action A → Action A
  unfolding catch_up
  transaction m o w = let (r, w') = m o w in settle r (catch_up o w.stmt (w'.stmt - w.stmt) w.db) w'

abbrev pub now : Action ℕ
now = gets (λ o w. w.clock)
