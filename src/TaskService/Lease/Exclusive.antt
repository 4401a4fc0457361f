-- ===== src/TaskService/Lease/Exclusive.antt =====
-- Two calls of LeaseNextShard, one after the other, and a lease that is taken back.
use r_orchestrator.Prelude.{
  ℕ, ◌≡◌, refl, sym, ap, ◌∙◌, subst, String, Bool, true, false, ◌&&◌, some, List, arith, ◌==◌,
  if◌then◌else◌, In, inl, inr, Option-cases, update_where-In,
}
use r_orchestrator.Model.{ShardStatus, TaskShard, same_shard_status}
use r_orchestrator.World.{World, Outside}
use r_orchestrator.Action.{ok}
use r_orchestrator.Action.Quiet.{IsQuiet}
use r_orchestrator.Action.Success.{ok≢err, ok_inj}
use r_orchestrator.Orm.Quiet.{touched}
use r_orchestrator.TaskService.Lease.{Leased, lease_next_shard}
use r_orchestrator.TaskService.Lease.Picks.{picked-IsEligible}
use r_orchestrator.TaskService.Lease.Grants.{
  picked, granted, granted_shard, leased_shards, leased_db, is_free, lease_next_shard-grants,
  lease_next_shard_nothing,
}

leased≢queued : ShardStatus.leased ≡ ShardStatus.queued → ⊥
leased≢queued p = cc

-- A lease that ends with a grant is the one of the row that the query takes.
lease-granted :
    {o : Outside} (q : IsQuiet o) (w v : World) (tenant_id : ℕ) (backend_name agent_id : String)
    (l : Leased)
    → lease_next_shard tenant_id backend_name agent_id o w ≡ (ok l, v)
    → (r : Leased) × (picked o tenant_id backend_name w.db ≡ some r)
      × (l ≡ granted agent_id r)
      × (v.db ≡ leased_db agent_id w.clock r w.db)
lease-granted {o} q w v tenant_id backend_name agent_id l e =
    elim (Option-cases (picked o tenant_id backend_name w.db)) [
      | inl h ↦
          let (n, f) = lease_next_shard_nothing q w tenant_id backend_name agent_id h in
          absurd (ok≢err (ap (λ x. x.0) (sym e ∙ f)))
      | inr (r, h) ↦
          let (n, f) = lease_next_shard-grants q w tenant_id backend_name agent_id r h in
          let g = sym e ∙ f in (r, h, ok_inj (ap (λ x. x.0) g), ap (λ x. x.1.db) g)
    ]

-- A QUEUED row of the table after a lease is not the leased one.
queued-other :
    (agent_id : String) (t : ℕ) (shard s : TaskShard) (ss : List TaskShard)
    → In s (leased_shards agent_id t shard ss)
    → s.status ≡ ShardStatus.queued
    → (s.id == shard.id) ≡ false
queued-other agent_id t shard s ss m e =
    let (x, there, f) =
      update_where-In (is_free shard) (touched t (granted_shard agent_id)) s ss m in
    other x (is_free shard x) refl f
  where
    other :
        (x : TaskShard) (b : Bool)
        → is_free shard x ≡ b
        → s ≡ (if b then touched t (granted_shard agent_id) x else x)
        → (s.id == shard.id) ≡ false
    other x true h f = absurd (leased≢queued (sym (ap (λ y. y.status) f) ∙ e))
    other x false h f = rw f (free_id x.status h (sym (ap (λ y. y.status) f) ∙ e))
      where
        free_id :
            (status : ShardStatus)
            → (x.id == shard.id && same_shard_status status ShardStatus.queued) ≡ false
            → status ≡ ShardStatus.queued
            → (x.id == shard.id) ≡ false
        free_id status h k = ground arith

-- With no failing statement and no other writer, two grants of LeaseNextShard in succession are of
-- two shards, for whatever tenants, backends and agents they are.
pub leases_differ :
    {o : Outside} (q : IsQuiet o) (w v u : World) (tenant₁ tenant₂ : ℕ)
    (backend₁ backend₂ agent₁ agent₂ : String) (l₁ l₂ : Leased)
    → lease_next_shard tenant₁ backend₁ agent₁ o w ≡ (ok l₁, v)
    → lease_next_shard tenant₂ backend₂ agent₂ o v ≡ (ok l₂, u)
    → (l₂.shard.id == l₁.shard.id) ≡ false
leases_differ {o} q w v u tenant₁ tenant₂ backend₁ backend₂ agent₁ agent₂ l₁ l₂ e₁ e₂ =
    let (r₁, _, g₁, d₁) = lease-granted q w v tenant₁ backend₁ agent₁ l₁ e₁ in
    let (r₂, p₂, g₂, _) = lease-granted q v u tenant₂ backend₂ agent₂ l₂ e₂ in
    let (there, el) = picked-IsEligible tenant₂ backend₂ v.db o r₂ p₂ in
    rw (g₁, g₂)
      (queued-other agent₁ w.clock r₁.shard r₂.shard w.db.shards
        (subst (λ d. In r₂.shard d.shards) d₁ there) el.shard_queued)
