-- ===== src/Tests/Lifecycle.antt =====
-- The life of an Extension in the cloud of Tests.Phases.
use gardener_extension_priva.Base.{◌≡◌, refl, List, [], ◌∷◌}
use gardener_extension_priva.Tests.Cloud.{pending_lb}
use gardener_extension_priva.Fault.{returned, failed}
use gardener_extension_priva.Actuator.Progress.Deletion.{recreate_error}
use gardener_extension_priva.Actuator.Progress.Situations.{immutable_error}
use gardener_extension_priva.Actuator.Lifecycle.{Pending, Phase, Incident, Event}
use gardener_extension_priva.Actuator.Lifecycle.Cloud.{run, perform}
use gardener_extension_priva.Actuator.Lifecycle.Refinement.{phase_at, run_refines, reconcile_heals}
use gardener_extension_priva.Tests.Phases.{site, cloud}

abbrev pending : Pending
pending = record { lb = pending_lb; valid = refl; immutable = refl }

-- A load balancer is created, breaks, is deleted and created again, is left alone while it is pending,
-- and is deleted in the end.
abbrev life : List Event
life =
    Event.reconciling
    ∷ Event.happens Incident.breaks
    ∷ Event.reconciling
    ∷ Event.restoring
    ∷ Event.happens (Incident.stalls pending)
    ∷ Event.deleting
    ∷ Event.happens Incident.recovers
    ∷ Event.migrating
    ∷ []

run_refines_example :
    ((run site life (Phase.vacant, [])).0
      ≡ returned tt
        ∷ returned tt
        ∷ failed (recreate_error "shoot--a")
        ∷ returned tt
        ∷ returned tt
        ∷ failed (immutable_error pending_lb)
        ∷ returned tt
        ∷ returned tt
        ∷ [])
    × (phase_at cloud (run site life (Phase.vacant, [])).1 ≡ Phase.vacant)
unfolding cloud
run_refines_example = run_refines site cloud life (Phase.vacant, [])

-- From a load balancer in ERROR on.
reconcile_heals_example :
    let m = (perform site Event.reconciling (Phase.failing, [])).1 in
    let r = perform site Event.reconciling m in
    (r.0 ≡ returned tt) × (phase_at cloud r.1 ≡ Phase.serving)
unfolding cloud
reconcile_heals_example = reconcile_heals site cloud (Phase.failing, []) λ q e. cc e
