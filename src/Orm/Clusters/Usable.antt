-- ===== src/Orm/Clusters/Usable.antt =====
-- GetOrCreateActiveCluster when no statement fails and nobody else writes.
use r_orchestrator.Prelude.{
  rows_where-In, ℕ, suc, ◌≡◌, refl, ap, ◌∙◌, Bool, true, false, not, ◌&&◌, Option, none, some, List,
  [], ◌∷◌, ◌++◌, arith, ◌==◌, if◌then◌else◌, row_where, rows_where, least_row, least_row-In, In,
  inl, inr, In-update_where, and_true, Bool-cases, Option-cases, sym, ◌≢◌, update_where,
}
use r_orchestrator.Model.{Cluster, terminated, same_cluster_status}
use r_orchestrator.World.{Db, World, Outside}
use r_orchestrator.Action.{ok, Action, maybe, pure, gets, when◌then◌else◌, ◌>>=◌, ◌>>◌, elsewhere}
use r_orchestrator.Action.Quiet.{IsQuiet, after, bind-ok, attempt-eq, statement-quiet}
use r_orchestrator.Orm.{update_clusters, query, or_not_found}
use r_orchestrator.Orm.Quiet.{found, query-quiet, or_not_found-eq}
use r_orchestrator.Orm.Shards.{new_uuid}
use r_orchestrator.Orm.Clusters.{
  NewCluster, row_of, newest_first, insert_cluster, create, get_by_tenant, reactivated,
  reuse_terminated, create_or_reuse, or_create, get_or_create_active_cluster,
}

abbrev pub is_usable : ℕ → Cluster → Bool
is_usable tenant_id c = c.tenant_id == tenant_id && not (same_cluster_status c.status terminated)

-- The action returns a row of the table that satisfies a condition, and changes nothing of the world
-- but the tables and the counts of statements and of UUIDs.
abbrev pub ReturnsRow : Action Cluster → Outside → World → (Cluster → Bool) → Type 0
ReturnsRow m o w p =
    (c : Cluster) × (d : Db) × (n : ℕ) × (k : ℕ) × (m o w
      ≡ (ok c, record w { stmt = n; uuids = k; db = d }))
    × In c d.clusters
    × (p c ≡ true)

ReturnsRow-bind :
    {A : Type 0} {o : Outside} {w : World} {p : Cluster → Bool} {a : A} {n k : ℕ} {d : Db}
    (m : Action A) (f : A → Action Cluster)
    → m o w ≡ (ok a, record w { stmt = n; uuids = k; db = d })
    → ReturnsRow (f a) o (record w { stmt = n; uuids = k; db = d }) p
    → ReturnsRow (m >>= f) o w p
ReturnsRow-bind m f e (c, d', n', k', e', there, holds) =
    (c, d', n', k', bind-ok m f e ∙ e', there, holds)

pure-returns :
    (o : Outside) {p : Cluster → Bool} (c : Cluster) (w : World)
    → In c w.db.clusters
    → p c ≡ true
    → ReturnsRow (pure c) o w p
unfolding pure
pure-returns o c w m h = (c, w.db, w.stmt, w.uuids, refl, m, h)

some≢none : {A : Type 0} (a : A) → ◌≢◌ {A = Option A} (some a) none
some≢none a e = cc

insert_cluster-new :
    (c : Cluster) (db : Db)
    → row_where (λ x. x.tenant_id == c.tenant_id) db.clusters ≡ none
    → insert_cluster c db ≡ (some c, record db { clusters = db.clusters ++ c ∷ [] })
insert_cluster-new c db e = rw (insert_cluster, e) refl

insert_cluster-taken :
    (c x : Cluster) (db : Db)
    → row_where (λ x. x.tenant_id == c.tenant_id) db.clusters ≡ some x
    → insert_cluster c db ≡ (none, db)
insert_cluster-taken c x db e = rw (insert_cluster, e) refl

new_uuid_eq :
    (o : Outside) (w : World) (id : ℕ)
    → o.new_uuid w.uuids ≡ some id
    → new_uuid o w ≡ (ok id, record w { uuids = suc w.uuids })
unfolding new_uuid ◌>>=◌ gets elsewhere maybe pure
new_uuid_eq o w id works = rw works refl

module _ {A : Type 0} where
  In-last : (a : A) (xs : List A) → In a (xs ++ a ∷ [])
  In-last a [] = inl refl
  In-last a (x ∷ xs) = inr (In-last a xs)

  least_some : (before : A → A → Bool) (x : A) (xs : List A) → least_row before (x ∷ xs) ≢ none
  least_some before x xs e = elim (Option-cases (least_row before xs)) [
    | inl h ↦ ground arith
    | inr (y, h) ↦ ground arith
  ]

  least_none :
      (before : A → A → Bool) (p : A → Bool) (xs : List A)
      → least_row before (rows_where p xs) ≡ none
      → row_where p xs ≡ none
  least_none before p [] e = refl
  least_none before p (x ∷ xs) e = elim (Bool-cases (p x)) [
    | inl h ↦ absurd (
        least_some before x (rows_where p xs) (
          ap (λ b. least_row before (if b then x ∷ rows_where p xs else rows_where p xs)) (sym h)
          ∙ e))
    | inr h ↦
        ap (λ b. if b then some x else row_where p xs) h
        ∙ least_none before p xs (
            ap (λ b. least_row before (if b then x ∷ rows_where p xs else rows_where p xs)) (sym h)
            ∙ e)
  ]

module _ {o : Outside} (q : IsQuiet o) where
  update_clusters-quiet :
      (w : World) (p : Cluster → Bool) (f : Cluster → Cluster)
      → (n : ℕ) × (update_clusters p f o w
          ≡ (ok n, after w (record w.db { clusters = update_where p f w.db.clusters })))
  unfolding update_clusters
  update_clusters-quiet w p f = (_, statement-quiet o q _ w)

  first_by :
      (w : World) (before : Cluster → Cluster → Bool) (p : Cluster → Bool)
      → (query (λ o db. least_row before (rows_where p db.clusters)) >>= or_not_found) o w
        ≡ (found (least_row before (rows_where p w.db.clusters)), after w w.db)
  first_by w before p = bind-ok _ or_not_found (query-quiet q w _) ∙ or_not_found-eq q w _ _

  module _ (c : NewCluster) (usable : same_cluster_status c.status terminated ≡ false) where
    -- The branch for a duplicate key.
    reuse-returns :
        (x : Cluster) (w : World)
        → In x w.db.clusters
        → (x.tenant_id == c.tenant_id) ≡ true
        → ReturnsRow (reuse_terminated c (ok x)) o w (is_usable c.tenant_id)
    unfolding reuse_terminated when◌then◌else◌ pure
    reuse-returns x w m own = elim (Bool-cases (same_cluster_status x.status terminated)) [
      | inl h ↦
          let (n, e) = update_clusters-quiet w (λ y. y.id == x.id) (reactivated c) in
          (
            reactivated c x,
            record w.db {
              clusters = update_where (λ y. y.id == x.id) (reactivated c) w.db.clusters;
            },
            _,
            _,
            chosen h ∙ bind-ok _ _ e,
            In-update_where (λ y. y.id == x.id) (reactivated c) x w.db.clusters m (same x.id),
            and_true _ _ own (ap not usable),
          )
      | inr h ↦ (x, w.db, _, _, chosen h, m, and_true _ _ own (ap not h))
    ]
      where
        chosen :
            {b : Bool}
            → same_cluster_status x.status terminated ≡ b
            → reuse_terminated c (ok x) o w
              ≡ (when b
                    then (update_clusters (λ y. y.id == x.id) (reactivated c)
                        >> pure (reactivated c x))
                    else pure x)
                  o w
        chosen e =
            ap
              (λ b.
                (when b
                    then (update_clusters (λ y. y.id == x.id) (reactivated c)
                        >> pure (reactivated c x))
                    else pure x)
                  o w)
              e

        same : (n : ℕ) → (n == n) ≡ true
        same n = ground arith

    created-returns :
        (x : Cluster) (w : World)
        → In x w.db.clusters
        → is_usable c.tenant_id x ≡ true
        → ReturnsRow (create_or_reuse c (some x)) o w (is_usable c.tenant_id)
    unfolding create_or_reuse
    created-returns = pure-returns o

    -- After an INSERT that found the key taken.
    refetch-returns :
        (w : World) (x : Cluster)
        → row_where (λ x. x.tenant_id == c.tenant_id) w.db.clusters ≡ some x
        → ReturnsRow (create_or_reuse c none) o w (is_usable c.tenant_id)
    unfolding create_or_reuse
    refetch-returns w x e = elim (Option-cases newest) [
      | inl h ↦ absurd (some≢none x (sym e ∙ least_none newest_first _ w.db.clusters h))
      | inr (y, h) ↦
          let (m, own) = rows_where-In same_tenant y w.db.clusters (least_row-In _ y _ h) in
          ReturnsRow-bind _ (reuse_terminated c)
            (attempt-eq _
              (first_by w newest_first same_tenant ∙ ap (λ r. (found r, after w w.db)) h))
            (reuse-returns y (after w w.db) m own)
    ]
      where
        same_tenant : Cluster → Bool
        same_tenant x = x.tenant_id == c.tenant_id

        newest : Option Cluster
        newest = least_row newest_first (rows_where same_tenant w.db.clusters)

    -- The branch in which no cluster of the tenant is usable.
    create-returns :
        (w : World) (id : ℕ)
        → o.new_uuid w.uuids ≡ some id
        → ReturnsRow (create c >>= create_or_reuse c) o w (is_usable c.tenant_id)
    unfolding create
    create-returns w id works = elim (Option-cases (row_where same_tenant w.db.clusters)) [
      | inl h ↦
          ReturnsRow-bind _ (create_or_reuse c)
            (stated ∙ ap (λ r. (ok r.0, after drawn r.1)) (insert_cluster-new row w.db h))
            (created-returns row _ (In-last row w.db.clusters)
              (and_true _ _ (same c.tenant_id) (ap not usable)))
      | inr (x, h) ↦
          ReturnsRow-bind _ (create_or_reuse c)
            (stated ∙ ap (λ r. (ok r.0, after drawn r.1)) (insert_cluster-taken row x w.db h))
            (refetch-returns _ x h)
    ]
      where
        same_tenant : Cluster → Bool
        same_tenant x = x.tenant_id == c.tenant_id

        row : Cluster
        row = row_of c id w.clock

        same : (n : ℕ) → (n == n) ≡ true
        same n = ground arith

        drawn : World
        drawn = record w { uuids = suc w.uuids }

        stated :
            create c o w ≡ (ok (insert_cluster row w.db).0, after drawn (insert_cluster row w.db).1)
        stated = bind-ok _ _ (new_uuid_eq o w id works) ∙ statement-quiet o q _ drawn

    -- With no failing statement and no other writer, and a UUID to draw, GetOrCreateActiveCluster
    -- with a status other than TERMINATED returns a cluster of the tenant that is not TERMINATED
    -- and that stands so in the table, be it one that was there, a new one, or a TERMINATED one
    -- that is used again.
    pub get_or_create-usable :
        (w : World) (id : ℕ)
        → o.new_uuid w.uuids ≡ some id
        → ReturnsRow (get_or_create_active_cluster c) o w (is_usable c.tenant_id)
    unfolding get_or_create_active_cluster get_by_tenant or_create
    get_or_create-usable w id works = elim (Option-cases newest) [
      | inl h ↦
          ReturnsRow-bind _ (or_create c)
            (attempt-eq _ (
              first_by w newest_first (is_usable c.tenant_id)
              ∙ ap (λ r. (found r, after w w.db)) h))
            (create-returns (after w w.db) id works)
      | inr (x, h) ↦
          let (m, own) =
            rows_where-In (is_usable c.tenant_id) x w.db.clusters (least_row-In _ x _ h) in
          ReturnsRow-bind _ (or_create c)
            (attempt-eq _ (
              first_by w newest_first (is_usable c.tenant_id)
              ∙ ap (λ r. (found r, after w w.db)) h))
            (pure-returns o x (after w w.db) m own)
    ]
      where
        newest : Option Cluster
        newest = least_row newest_first (rows_where (is_usable c.tenant_id) w.db.clusters)
