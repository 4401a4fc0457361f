-- ===== src/Action/Atomic.antt =====
-- Actions that leave the database as it was if they fail, when nobody else writes.
use r_orchestrator.Prelude.{◌≡◌, refl, ◌∙◌, Option, none, some, ◌-◌}
use r_orchestrator.World.{Db, World, Outside}
use r_orchestrator.Action.{
  Action, Error, Result, ok, err, pure, maybe, and_then, ◌>>=◌, settle, transaction, catch_up,
}
use r_orchestrator.Action.Evolves.{Preorder}
use r_orchestrator.Action.Guarantee.{Relies, Guarantees, catch_up-R}

-- The database is the one that it was.
abbrev pub Same : Db → Db → Type 0
Same c d = d ≡ c

pub Same-Preorder : Preorder Same
Same-Preorder = record { reflexive = λ c. refl; transitive = λ b c d p q. q ∙ p }

pub record IsAtomic {A : Type 0} (m : Action A) : Type 0 where
  pub at :
      (o : Outside)
      → Relies Same o
      → (w : World) (e : Error) → (m o w).0 ≡ err e
      → Same w.db (m o w).1.db

-- An action that only reads is atomic.
pub IsAtomic-reads : {A : Type 0} (m : Action A) → Guarantees Same m → IsAtomic m
IsAtomic-reads m g = record { at = λ o h w e f. g.at o h w }

settle-Same :
    {A : Type 0} (r : Result A) (start before : Db) (w : World) (e : Error)
    → before ≡ start
    → (settle r before w).0 ≡ err e
    → Same start (settle r before w).1.db
settle-Same (ok a) start before w e h f = cc
settle-Same (err x) start before w e h f = h

pub IsAtomic-transaction : {A : Type 0} (m : Action A) → IsAtomic (transaction m)
unfolding transaction
IsAtomic-transaction m = record {
  at = λ o h w e f.
      let (r, w') = m o w in
      settle-Same r w.db (catch_up o w.stmt (w'.stmt - w.stmt) w.db) w' e
        (catch_up-R Same-Preorder o h w.stmt (w'.stmt - w.stmt) w.db) f;
}

module _ {A B : Type 0} where
  and_then-Same :
      (f : A → Action B)
      → ((a : A) → IsAtomic (f a))
      → (o : Outside) → Relies Same o
      → (start : Db) (r : Result A) (w : World) (e : Error) → Same start w.db
      → (and_then r f o w).0 ≡ err e
      → Same start (and_then r f o w).1.db
  and_then-Same f g o h start (ok a) w e p q = (g a).at o h w e q ∙ p
  and_then-Same f g o h start (err x) w e p q = p

  -- What only reads, and then an atomic action.
  pub IsAtomic-after :
      (m : Action A) (f : A → Action B)
      → Guarantees Same m
      → ((a : A) → IsAtomic (f a))
      → IsAtomic (m >>= f)
  unfolding ◌>>=◌
  IsAtomic-after m f gm gf = record {
    at = λ o h w e q. let (r, w') = m o w in and_then-Same f gf o h w.db r w' e (gm.at o h w) q;
  }

  and_then-pure :
      (f : A → B) (o : Outside) (start : Db) (r : Result A) (w : World) (e : Error)
      → ((x : Error) → r ≡ err x → Same start w.db)
      → (and_then r (λ a. pure (f a)) o w).0 ≡ err e
      → Same start (and_then r (λ a. pure (f a)) o w).1.db
  unfolding pure
  and_then-pure f o start (ok a) w e p q = cc
  and_then-pure f o start (err x) w e p q = p x refl

  -- An atomic action, and then its answer.
  pub IsAtomic-answer : (m : Action A) (f : A → B) → IsAtomic m → IsAtomic (m >>= λ a. pure (f a))
  unfolding ◌>>=◌
  IsAtomic-answer m f g = record {
    at =
        λ o h w e q. let (r, w') = m o w in and_then-pure f o w.db r w' e (λ x p. g.at o h w x p) q;
  }

  pub IsAtomic-maybe :
      (x : Option A) (m : Action B) (f : A → Action B)
      → IsAtomic m
      → ((a : A) → IsAtomic (f a))
      → IsAtomic (maybe x m f)
  unfolding maybe
  IsAtomic-maybe none m f gm gf = gm
  IsAtomic-maybe (some a) m f gm gf = gf a
