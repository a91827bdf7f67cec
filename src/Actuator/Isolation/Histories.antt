-- ===== src/Actuator/Isolation/Histories.antt =====
-- The histories of calls of a controller that runs for long (pkg/controller): it reconciles, deletes,
-- restores and migrates the Extensions of the namespaces that it serves, and checks their health, in
-- any order. The environment may change between any two calls.
use gardener_extension_priva.Base.{String, Bool, ◌≡◌, List, [], ◌∷◌, ◌++◌, subst}
use gardener_extension_priva.Fault.{Error}
use gardener_extension_priva.OpenStack.{ServiceClient}
use gardener_extension_priva.Kube.{Extension}
use gardener_extension_priva.World.{Call}
use gardener_extension_priva.World.Reads.{IsRead}
use gardener_extension_priva.World.Guards.{
  Sound, Guards, Guards-Emits, Anyhow, Anything, Ensures-Anything,
}
use gardener_extension_priva.Wait.{WaitLaws}
use gardener_extension_priva.Actuator.{Runtime, name_lb, reconcile, delete, restore, migrate}
use gardener_extension_priva.Actuator.Justification.{Listed, Justified, reads_Justified}
use gardener_extension_priva.Actuator.Isolation.{reconcile-Guards, delete-Guards}
use gardener_extension_priva.HealthCheck.{DefaultHealthChecker, check}
use gardener_extension_priva.HealthCheck.Laws.{check-Emits}

module _ (rt : Runtime) (is_api_not_found : Error → Bool) (Served : String → Type 0) where
  -- One call of the controllers, from a history to the next, however it ends.
  pub data Step (h h' : List Call) : Type 0 where
    reconciled : (ex : Extension) → Served ex.namespace → (reconcile rt ex h).1 ≡ h' → Step h h'
    deleted : (ex : Extension) → Served ex.namespace → (delete rt ex h).1 ≡ h' → Step h h'
    restored : (ex : Extension) → Served ex.namespace → (restore rt ex h).1 ≡ h' → Step h h'
    migrated : (ex : Extension) → Served ex.namespace → (migrate rt ex h).1 ≡ h' → Step h h'
    checked :
        (checker : DefaultHealthChecker) (namespace : String)
        → (check rt.env rt.codec is_api_not_found checker namespace h).1 ≡ h'
        → Step h h'

  pub data Reach : List Call → Type 0 where
    start : Reach []
    next : (h h' : List Call) → Reach h → Step h h' → Reach h'

  module _ (laws : WaitLaws rt.wait) where
    abbrev IsSound : List Call → Type 0
    IsSound h = Sound (Justified rt.env Served) h

    check-Guards :
        (checker : DefaultHealthChecker) (namespace : String)
        → Guards
            (Justified rt.env Served)
            Anyhow
            Anything
            (check rt.env rt.codec is_api_not_found checker namespace)
    check-Guards checker namespace =
        Guards-Emits IsRead _ (λ c newer h k r. reads_Justified rt.env Served c (newer ++ h) r)
          (check-Emits rt.env rt.codec is_api_not_found checker namespace) (Ensures-Anything _)

    Step-Sound : {h h' : List Call} → Step h h' → IsSound h → IsSound h'
    unfolding restore migrate
    Step-Sound {h} (Step.reconciled ex served e) s =
        subst IsSound e ((reconcile-Guards Served rt laws ex served).at h s tt).0
    Step-Sound {h} (Step.restored ex served e) s =
        subst IsSound e ((reconcile-Guards Served rt laws ex served).at h s tt).0
    Step-Sound {h} (Step.deleted ex served e) s =
        subst IsSound e ((delete-Guards Served rt laws ex served).at h s tt).0
    Step-Sound {h} (Step.migrated ex served e) s =
        subst IsSound e ((delete-Guards Served rt laws ex served).at h s tt).0
    Step-Sound {h} (Step.checked checker namespace e) s =
        subst IsSound e ((check-Guards checker namespace).at h s tt).0

    Reach-Sound : {h : List Call} → Reach h → IsSound h
    Reach-Sound Reach.start = tt
    Reach-Sound (Reach.next h h' r step) = Step-Sound step (Reach-Sound r)

    Sound-part :
        (c : Call) (newer before : List Call)
        → IsSound (newer ++ c ∷ before)
        → Justified rt.env Served c before
    Sound-part c [] before s = s.0
    Sound-part c (d ∷ newer) before s = Sound-part c newer before s.1

    -- Under the laws of `wait`: in every history of a controller that serves the Extensions of some
    -- namespaces, in any order and however its operations end, each deletion of a load balancer comes
    -- after a listing of the name of one of these namespaces, which was answered with load balancers
    -- of which this one alone is not deleted or being deleted.
    pub deletes_own :
        (newer before : List Call) (client : ServiceClient) (id : String) (cascade : Bool)
        → Reach (newer ++ Call.delete_load_balancer client id cascade ∷ before)
        → (namespace : String) × Served namespace × Listed rt.env (name_lb namespace) id before
    deletes_own newer before client id cascade r =
        Sound-part (Call.delete_load_balancer client id cascade) newer before (Reach-Sound r)
