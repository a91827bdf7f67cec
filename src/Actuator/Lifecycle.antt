-- ===== src/Actuator/Lifecycle.antt =====
-- What the Actuator promises, without OpenStack's calls: the load balancer of an Extension is in one
-- of four phases, and each of `Reconcile`, `Delete`, `Restore` and `Migrate` (actuator.go) has one
-- result and leads to one phase.
pub mod Cloud
pub mod Refinement
use gardener_extension_priva.Base.{String, ◌≡◌, true, List, [], ◌∷◌}
use gardener_extension_priva.Fault.{Error, errorf, Outcome, returned, failed}
use gardener_extension_priva.OpenStack.{LoadBalancer}
use gardener_extension_priva.LoadBalancer.Lookup.{is_valid}
use gardener_extension_priva.LoadBalancer.Deletion.{is_immutable}
use gardener_extension_priva.Actuator.Progress.Deletion.{recreate_error}
use gardener_extension_priva.Actuator.Progress.Situations.{not_active_error, immutable_error}

-- A load balancer that is neither ACTIVE nor in ERROR, and not on its way out either.
pub record Pending : Type 0 where
  pub lb : LoadBalancer
  pub valid : is_valid lb ≡ true
  pub immutable : is_immutable lb ≡ true

-- There is no load balancer, or it is ACTIVE, or in ERROR, or in a status between.
pub data Phase : Type 0 where
  vacant serving failing : Phase
  stalled : Pending → Phase

-- What happens to a load balancer at OpenStack by itself.
pub data Incident : Type 0 where
  breaks recovers vanishes : Incident
  stalls : Pending → Incident

-- What the controller does, or what happens at OpenStack.
pub data Event : Type 0 where
  reconciling deleting restoring migrating : Event
  happens : Incident → Event

-- The phase after an incident: what is not there stays so.
abbrev pub struck : Incident → Phase → Phase
struck i Phase.vacant = Phase.vacant
struck Incident.breaks p = Phase.failing
struck Incident.recovers p = Phase.serving
struck Incident.vanishes p = Phase.vacant
struck (Incident.stalls q) p = Phase.stalled q

-- The result and the phase after a reconciliation for the namespace.
abbrev pub kept_up : String → Phase → Outcome (Unit {0}) × Phase
kept_up namespace Phase.vacant = (returned tt, Phase.serving)
kept_up namespace Phase.serving = (returned tt, Phase.serving)
kept_up namespace Phase.failing = (failed (recreate_error namespace), Phase.vacant)
kept_up namespace (Phase.stalled q) = (failed (not_active_error q.lb), Phase.stalled q)

-- The result and the phase after a deletion.
abbrev pub taken_down : Phase → Outcome (Unit {0}) × Phase
taken_down Phase.vacant = (returned tt, Phase.vacant)
taken_down Phase.serving = (returned tt, Phase.vacant)
taken_down Phase.failing = (returned tt, Phase.vacant)
taken_down (Phase.stalled q) = (failed (immutable_error q.lb), Phase.stalled q)

-- An incident has no result of the controller, and is recorded as a success.
abbrev pub next : String → Event → Phase → Outcome (Unit {0}) × Phase
next namespace Event.reconciling p = kept_up namespace p
next namespace Event.restoring p = kept_up namespace p
next namespace Event.deleting p = taken_down p
next namespace Event.migrating p = taken_down p
next namespace (Event.happens i) p = (returned tt, struck i p)

-- The results of a sequence of events, and the phase at its end.
abbrev pub follow : String → List Event → Phase → List (Outcome (Unit {0})) × Phase
follow namespace [] p = ([], p)
follow namespace (e ∷ es) p =
    let (o, p') = next namespace e p in let (os, p'') = follow namespace es p' in (o ∷ os, p'')
