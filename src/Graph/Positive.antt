-- ===== src/Graph/Positive.antt =====
-- CreateTenant and the numbers of agents.
use r_orchestrator.Prelude.{
  ℕ, ◌<◌, ◌≡◌, refl, String, Bool, true, false, not, Option, List, [], ◌∷◌, ◌++◌, All, ℤ,
  is_above_zero, magnitude, arith,
}
use r_orchestrator.World.{Db, World, Outside}
use r_orchestrator.Action.{Action, refused, raise, when◌then◌else◌}
use r_orchestrator.Action.Evolves.{Preorder}
use r_orchestrator.Action.Guarantee.{Relies, Guarantees, Guarantees-bind, Guarantees-when}
use r_orchestrator.Orm.Reads.{reading_rules, insert_new-Guarantees}
use r_orchestrator.Orm.Tenants
use r_orchestrator.Graph.{Copies, CreateTenantInput, copied, resolve_create_tenant}

-- Every tenant may have agents.
abbrev pub Staffed : Db → Type 0
Staffed db = All (λ t. 0 < t.max_agents) db.tenants

abbrev pub StaysStaffed : Db → Db → Type 0
StaysStaffed c d = Staffed c → Staffed d

StaysStaffed-Preorder : Preorder StaysStaffed
StaysStaffed-Preorder = record { reflexive = λ c h. h; transitive = λ b c d p q h. q (p h) }

All-append_one :
    {A : Type 0} (P : A → Type 0) (xs : List A) (a : A) → All P xs → P a → All P (xs ++ a ∷ [])
All-append_one P [] a h p = (p, tt)
All-append_one P (x ∷ xs) a (h, k) p = (h, All-append_one P xs a k p)

create-StaysStaffed :
    (name backend : String) (n : ℕ)
    → 0 < n
    → Guarantees StaysStaffed (Tenants.create name backend n)
unfolding Tenants.create
create-StaysStaffed name backend n h =
    Guarantees-when StaysStaffed-Preorder _ _ _ (search (reading_rules, StaysStaffed-Preorder)) (
      Guarantees-bind StaysStaffed-Preorder _ _ (search (reading_rules, StaysStaffed-Preorder))
        λ id.
          Guarantees-bind StaysStaffed-Preorder _ _
            (insert_new-Guarantees StaysStaffed-Preorder _ _
              (λ w db all. All-append_one (λ t. 0 < t.max_agents) db.tenants _ all h))
            (λ _. search (reading_rules, StaysStaffed-Preorder)))

above : (z : ℤ) → is_above_zero z ≡ true → 0 < magnitude z
above (ℤ.pos n) h = ground arith
above (ℤ.negsuc n) h = cc

copied-StaysStaffed : {A : Type 0} (x : Option A) → Guarantees StaysStaffed (copied x)
unfolding copied
copied-StaysStaffed x = search (reading_rules, StaysStaffed-Preorder)

guarded :
    {A : Type 0} (b : Bool) (m : Action A)
    → (b ≡ true → Guarantees StaysStaffed m)
    → Guarantees StaysStaffed (when not b then raise refused else m)
unfolding when◌then◌else◌
guarded true m g = g refl
guarded false m g = search (reading_rules, StaysStaffed-Preorder)

create_tenant-Guarantees :
    (copies : Copies) (input : CreateTenantInput)
    → Guarantees StaysStaffed (resolve_create_tenant copies input)
unfolding resolve_create_tenant
create_tenant-Guarantees copies input = guarded (is_above_zero input.max_agents) _ λ h.
    Guarantees-bind StaysStaffed-Preorder _ _ (create-StaysStaffed _ _ _ (above input.max_agents h))
      (λ t. copied-StaysStaffed _)

-- If every tenant has a positive number of agents, and the commits of others keep that, then so it
-- is after CreateTenant, whatever its input, and whether it succeeds or not.
pub resolve_create_tenant-Staffed :
    (o : Outside)
    → Relies StaysStaffed o
    → (copies : Copies) (input : CreateTenantInput) (w : World) → Staffed w.db
    → Staffed (resolve_create_tenant copies input o w).1.db
resolve_create_tenant-Staffed o rely copies input w h =
    (create_tenant-Guarantees copies input).at o rely w h
