-- ===== src/Tests/Deleting.antt =====
-- A deletion, and a reconciliation of a load balancer in ERROR.
use gardener_extension_priva.Base.{◌≡◌, refl, true, [], ◌∷◌}
use gardener_extension_priva.Fault.{returned, failed, err_default_404, is_not_found}
use gardener_extension_priva.OpenStack.{LoadBalancer}
use gardener_extension_priva.World.{Call, writes}
use gardener_extension_priva.Actuator.{delete, reconcile}
use gardener_extension_priva.Actuator.Progress.Deletion.{
  Deletable, recreate_error, delete_done, reconcile_broken,
}
use gardener_extension_priva.Tests.Cloud.{active_lb, extension_of, polling-WaitLaws, the_client}
use gardener_extension_priva.Tests.Progress.{runtime, settings, connected}

abbrev pub broken_lb : LoadBalancer
broken_lb = record active_lb { provisioning_status = "ERROR" }

pub gone : is_not_found err_default_404 ≡ true
unfolding is_not_found
gone = refl

module _ (lb : LoadBalancer) where
  abbrev deletable :
      Deletable
        (runtime (lb ∷ []))
        (extension_of "private")
        (settings (lb ∷ []) true "private" refl)
        polling-WaitLaws
        (connected (lb ∷ []) true "private" refl)
        []
        lb
  deletable = record {
    accepted = λ h p. refl;
    answer = err_default_404;
    gone = gone;
    reads = λ h p. rw p refl;
  }

delete_done_example :
    let r = delete (runtime (active_lb ∷ [])) (extension_of "private") [] in
    (r.0 ≡ returned tt) × (writes r.1 ≡ Call.delete_load_balancer the_client "lb-1" true ∷ [])
delete_done_example =
    delete_done (runtime (active_lb ∷ [])) (extension_of "private")
      (settings (active_lb ∷ []) true "private" refl) polling-WaitLaws
      (connected (active_lb ∷ []) true "private" refl) [] active_lb (deletable active_lb)
      (active_lb ∷ []) [] refl (λ h p. rw p refl) refl refl

reconcile_broken_example :
    let rt = runtime (broken_lb ∷ []) in
    let r = reconcile rt (extension_of "private") [] in
    (r.0 ≡ failed (recreate_error "shoot--a"))
    × (writes r.1 ≡ Call.delete_load_balancer the_client "lb-1" true ∷ [])
reconcile_broken_example =
    reconcile_broken (runtime (broken_lb ∷ [])) (extension_of "private")
      (settings (broken_lb ∷ []) true "private" refl) polling-WaitLaws
      (connected (broken_lb ∷ []) true "private" refl) [] broken_lb (deletable broken_lb)
      (broken_lb ∷ []) [] refl (λ h p. rw p refl) refl refl
