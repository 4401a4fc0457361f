-- ===== src/ClusterService/Billing.antt =====
-- RenewBilling and the recycler when no statement fails and nobody else writes.
use r_orchestrator.Prelude.{
  ℕ, suc, ◌<◌, ◌^◌, arith, ◌+◌, ◌*◌, ◌≡◌, ap, ◌∙◌, some, ◌==◌, row_where, row_where-In,
  row_where-updated,
}
use r_orchestrator.Model.{Cluster}
use r_orchestrator.World.{Db, World, Outside}
use r_orchestrator.Action.{ok}
use r_orchestrator.Action.Quiet.{IsQuiet, statement-quiet, Ends, Ends-bind, Ends-pure}
use r_orchestrator.Orm.{update_clusters}
use r_orchestrator.Orm.Quiet.{found, query-quiet, or_not_found-eq}
use r_orchestrator.AgentService.{second}
use r_orchestrator.ClusterService.{add_seconds, renew_billing}

unwrapped : (t n : ℕ) → n * second < 2 ^ 63 → add_seconds t n ≡ t + n * 1000000000
unwrapped t n h = ground arith

-- The billing boundary is one billing cycle later.
abbrev pub renewed : Cluster → Cluster
renewed c = record c {
  next_billing_boundary_at = c.next_billing_boundary_at + c.billing_cycle_seconds * 1000000000;
}

module _ {o : Outside} (q : IsQuiet o) (w : World) (i : ℕ) (c : Cluster)
    (row : row_where (λ x. x.id == i) w.db.clusters ≡ some c) where
  -- With no failing statement and no other writer, and a billing cycle of less than 2^63
  -- nanoseconds, RenewBilling moves the billing boundary of the cluster by one billing cycle, and
  -- leaves the rest of its row.
  pub renew-moves :
      c.billing_cycle_seconds * 1000000000 < 2 ^ 63
      → (d : Db) × Ends (renew_billing i) o w (ok tt) d
        × (row_where (λ x. x.id == i) d.clusters ≡ some (renewed c))
  unfolding renew_billing update_clusters
  renew-moves bounded = (
    _,
    Ends-bind _ _ (suc w.stmt, query-quiet q w _)
        λ n.
          Ends-bind _ _
            (n, or_not_found-eq q w _ _ ∙ ap (λ x. (found x, record w { stmt = n })) row)
            λ n. Ends-bind _ _ (suc n, statement-quiet o q _ _) (λ n. Ends-pure _ _ _),
    row_where-updated (λ x. x.id == i) (λ x. x.id == i)
          (λ x. record x {
            next_billing_boundary_at =
                add_seconds c.next_billing_boundary_at c.billing_cycle_seconds;
          })
          c w.db.clusters row (row_where-In _ c w.db.clusters row).1
          (row_where-In _ c w.db.clusters row).1 (λ x h. h)
        ∙ ap (λ t. some (record c { next_billing_boundary_at = t }))
            (unwrapped c.next_billing_boundary_at c.billing_cycle_seconds bounded),
  )
