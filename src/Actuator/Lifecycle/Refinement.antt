-- ===== src/Actuator/Lifecycle/Refinement.antt =====
-- The Actuator (pkg/controller/lifecycle/actuator.go) beside the phases of Actuator.Lifecycle.
use gardener_extension_priva.Base.{String, ◌≡◌, ◌≢◌, refl, ◌∙◌, ap, List, [], ◌∷◌}
use gardener_extension_priva.Fault.{Outcome, failed, returned}
use gardener_extension_priva.World.{Call, writes}
use gardener_extension_priva.Kube.{Extension}
use gardener_extension_priva.Wait.{WaitLaws}
use gardener_extension_priva.LoadBalancer.Runs.{Connected}
use gardener_extension_priva.Actuator.Runs.{Settings, config_in}
use gardener_extension_priva.Actuator.{Runtime, reconcile, delete, restore, migrate}
use gardener_extension_priva.Actuator.Progress.Situations.{
  Serving-reconcile, Serving-delete, Failing-reconcile, Failing-delete, Stalled-reconcile,
  Stalled-delete, Vacant-reconcile, Vacant-delete, not_active_error, immutable_error,
}
use gardener_extension_priva.Actuator.Progress.Deletion.{recreate_error}
use gardener_extension_priva.Actuator.Lifecycle.{
  Pending, Phase, Event, kept_up, taken_down, next, follow,
}
use gardener_extension_priva.Actuator.Lifecycle.Cloud.{Moment, Site, Cloud, perform, run}

-- The phase of the cloud at a moment.
abbrev pub phase_at :
    {namespace : String} {site : Site namespace} → Cloud site → Moment site → Phase
phase_at cloud (st, h) = cloud.phase st (writes h)

module _ {namespace : String} (site : Site namespace) (cloud : Cloud site) (st : site.State)
    (h : List Call) where
  abbrev w : List Call
  w = writes h

  abbrev rt : Runtime
  rt = site.rt st

  abbrev ex : Extension
  ex = site.ex st w

  abbrev s : Settings rt ex
  s = site.settings st w

  abbrev laws : WaitLaws rt.wait
  laws = site.laws st

  abbrev c : Connected rt.env (config_in rt ex s)
  c = site.connected st w

  -- A result and a phase, as an operation leaves them.
  abbrev Follows : Outcome (Unit {0}) × List Call → Outcome (Unit {0}) × Phase → Type 0
  Follows r (o, p) = (r.0 ≡ o) × (cloud.phase st (writes r.1) ≡ p)

  reconcile_refines :
      (p : Phase) → cloud.phase st w ≡ p → Follows (reconcile rt ex h) (kept_up namespace p)
  reconcile_refines Phase.vacant e =
      let (v, then_serves) = cloud.lacks st w e in
      let (o, ws) = Vacant-reconcile rt ex s laws c w h refl v in
      (o, ap (cloud.phase st) ws ∙ then_serves)
  reconcile_refines Phase.serving e =
      let (v, still, gone) = cloud.serves st w e in
      let (o, ws) = Serving-reconcile rt ex s laws c w h refl v in
      (o, ap (cloud.phase st) ws ∙ still)
  reconcile_refines Phase.failing e =
      let (v, gone) = cloud.fails st w e in
      let (o, ws) = Failing-reconcile rt ex s laws c w h refl v in
      (o ∙ ap (λ n. failed (recreate_error n)) (site.named st w), ap (cloud.phase st) ws ∙ gone)
  reconcile_refines (Phase.stalled q) e =
      let (v, same) = cloud.stalls st w q e in
      let (o, ws) = Stalled-reconcile rt ex s laws c w h refl v in
      (o ∙ ap (λ l. failed (not_active_error l)) same, ap (cloud.phase st) ws ∙ e)

  delete_refines : (p : Phase) → cloud.phase st w ≡ p → Follows (delete rt ex h) (taken_down p)
  delete_refines Phase.vacant e =
      let (v, then_serves) = cloud.lacks st w e in
      let (o, ws) = Vacant-delete rt ex s laws c w h refl v in (o, ap (cloud.phase st) ws ∙ e)
  delete_refines Phase.serving e =
      let (v, still, gone) = cloud.serves st w e in
      let (o, ws) = Serving-delete rt ex s laws c w h refl v in (o, ap (cloud.phase st) ws ∙ gone)
  delete_refines Phase.failing e =
      let (v, gone) = cloud.fails st w e in
      let (o, ws) = Failing-delete rt ex s laws c w h refl v in (o, ap (cloud.phase st) ws ∙ gone)
  delete_refines (Phase.stalled q) e =
      let (v, same) = cloud.stalls st w q e in
      let (o, ws) = Stalled-delete rt ex s laws c w h refl v in
      (o ∙ ap (λ l. failed (immutable_error l)) same, ap (cloud.phase st) ws ∙ e)

module _ {namespace : String} (site : Site namespace) (cloud : Cloud site) where
  perform_refines :
      (e : Event) (m : Moment site)
      → let r = perform site e m in
        (r.0 ≡ (next namespace e (phase_at cloud m)).0)
        × (phase_at cloud r.1 ≡ (next namespace e (phase_at cloud m)).1)
  unfolding restore migrate
  perform_refines Event.reconciling (st, h) = reconcile_refines site cloud st h _ refl
  perform_refines Event.restoring (st, h) = reconcile_refines site cloud st h _ refl
  perform_refines Event.deleting (st, h) = delete_refines site cloud st h _ refl
  perform_refines Event.migrating (st, h) = delete_refines site cloud st h _ refl
  perform_refines (Event.happens i) (st, h) = (refl, cloud.strikes i st (writes h))

  -- In a cloud that answers in each phase as the situation says, and takes up what is written: any
  -- sequence of reconciliations, deletions, restorations, migrations and incidents, from any history
  -- of calls and incidents on, ends in the results that the phases say, one for each event, and in
  -- the phase that they say.
  pub run_refines :
      (es : List Event) (m : Moment site)
      → ((run site es m).0 ≡ (follow namespace es (phase_at cloud m)).0)
        × (phase_at cloud (run site es m).1 ≡ (follow namespace es (phase_at cloud m)).1)
  run_refines [] m = (refl, refl)
  run_refines (e ∷ es) m =
      let (o, p) = perform_refines e m in
      let (os, q) = run_refines es (perform site e m).1 in
      (
        ap (λ x. x ∷ (run site es (perform site e m).1).0) o
            ∙ ap (λ xs. (next namespace e (phase_at cloud m)).0 ∷ xs)
                (os ∙ ap (λ r. (follow namespace es r).0) p),
        q ∙ ap (λ r. (follow namespace es r).1) p,
      )

  -- In such a cloud, unless the load balancer is in a status other than ACTIVE and ERROR, two
  -- reconciliations in a row, from any history of calls and incidents on, end with a load balancer
  -- that serves, and the second one returns without an error.
  pub reconcile_heals :
      (m : Moment site)
      → ((q : Pending) → phase_at cloud m ≢ Phase.stalled q)
      → let m' = (perform site Event.reconciling m).1 in
        let r = perform site Event.reconciling m' in
        (r.0 ≡ returned tt) × (phase_at cloud r.1 ≡ Phase.serving)
  reconcile_heals m unstalled =
      let (o, p) = perform_refines Event.reconciling m in
      let m' = (perform site Event.reconciling m).1 in
      let (o', p') = perform_refines Event.reconciling m' in
      let (e, e') = heals (phase_at cloud m) unstalled in
      (o' ∙ ap (λ r. (kept_up namespace r).0) p ∙ e, p' ∙ ap (λ r. (kept_up namespace r).1) p ∙ e')
    where
      heals :
          (p : Phase)
          → ((q : Pending) → p ≢ Phase.stalled q)
          → let p' = (kept_up namespace p).1 in
            ((kept_up namespace p').0 ≡ returned tt) × ((kept_up namespace p').1 ≡ Phase.serving)
      heals Phase.vacant u = (refl, refl)
      heals Phase.serving u = (refl, refl)
      heals Phase.failing u = (refl, refl)
      heals (Phase.stalled q) u = absurd (u q refl)
