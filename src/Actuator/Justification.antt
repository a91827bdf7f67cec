-- ===== src/Actuator/Justification.antt =====
-- What justifies the deletion of a load balancer in a history of calls.
use gardener_extension_priva.Base.{String, ◌≡◌, refl, ap, ◌∙◌, sym, List, [], ◌++◌}
use mathlib.Core.List.{append_assoc}
use gardener_extension_priva.OpenStack.{LoadBalancer}
use gardener_extension_priva.World.{Call, Env}
use gardener_extension_priva.World.Reads.{IsRead, CoversReads}
use gardener_extension_priva.LoadBalancer.Lookup.Source.{OnlyValid}
use gardener_extension_priva.Actuator.{name_lb}

module _ (env : Env) where
  -- Before, a listing of the name answered with one valid load balancer, the one with this ID.
  abbrev pub Listed : String → String → List Call → Type 0
  Listed name id h =
      (lb : LoadBalancer) × (newer : List Call) × (before : List Call) × (h ≡ newer ++ before)
      × OnlyValid env name lb before
      × (lb.id ≡ id)

  -- A deletion is justified by such a listing for a namespace that is served.
  abbrev pub Justified : (String → Type 0) → Call → List Call → Type 0
  Justified Served (Call.delete_load_balancer _ id cascade) h =
      (namespace : String) × Served namespace × Listed (name_lb namespace) id h
  Justified Served _ h = Unit

  pub Listed-newer :
      (name id : String) (newer h : List Call) → Listed name id h → Listed name id (newer ++ h)
  Listed-newer name id newer h (lb, new, before, e, v, same) = (
    lb,
    newer ++ new,
    before,
    ap (λ t. newer ++ t) e ∙ sym (append_assoc newer new before),
    v,
    same,
  )

  pub OnlyValid-Listed :
      (name : String) (lb : LoadBalancer) (h : List Call)
      → OnlyValid env name lb h
      → Listed name lb.id h
  OnlyValid-Listed name lb h v = (lb, [], h, refl, v, refl)

  pub reads_Justified :
      (Served : String → Type 0) (c : Call) (h : List Call) → IsRead c → Justified Served c h
  reads_Justified Served (Call.delete_load_balancer _ _ _) h r = absurd (cc r)
  reads_Justified Served _ h r = tt

-- Deletions are of one load balancer, and made where `E` holds; other calls are free.
abbrev pub Deletes : Type 0 → LoadBalancer → Call → Type 0
Deletes E lb (Call.delete_load_balancer _ id cascade) = (id ≡ lb.id) × E
Deletes E lb _ = Unit

pub Deletes-covers : (E : Type 0) (lb : LoadBalancer) → CoversReads (Deletes E lb)
Deletes-covers E lb (Call.delete_load_balancer _ _ _) r = absurd (cc r)
Deletes-covers E lb _ r = tt

-- Calls that are neither of a load balancer's deletion: what a creation makes.
abbrev pub KeepsAll : Call → Type 0
KeepsAll (Call.delete_load_balancer _ _ _) = ⊥
KeepsAll _ = Unit

pub KeepsAll-covers : CoversReads KeepsAll
KeepsAll-covers (Call.delete_load_balancer _ _ _) r = absurd (cc r)
KeepsAll-covers _ r = tt
