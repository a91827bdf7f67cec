-- ===== src/Actuator/Progress/Deletion.antt =====
-- What `Delete`, and `Reconcile` on a load balancer in ERROR, achieve in a cloud that answers.
use gardener_extension_priva.Base.{
  String, zero, ◌≡◌, refl, ap, true, false, none, some, List, [], ◌∷◌, ◌<>◌, keep, arith, ◌==◌,
  ==_of_eq,
}
use gardener_extension_priva.Constants.{provisioning_active_status, provisioning_error_status}
use gardener_extension_priva.Fault.{Error, errorf, ok, err, returned, failed, is_not_found}
use gardener_extension_priva.OpenStack.{LoadBalancer}
use gardener_extension_priva.Kube.{Extension}
use gardener_extension_priva.World.{Call, writes}
use gardener_extension_priva.World.Runs.{
  Answers, Runs, Runs-elim, Runs-pure, Runs-fail, Runs-on_error, Runs-attempt, Runs-if_true,
  Runs-if_false, Runs-write, Runs-bind, Runs-after, Runs-stop,
}
use gardener_extension_priva.Wait.{WaitLaws}
use gardener_extension_priva.LoadBalancer.Lookup.{is_valid}
use gardener_extension_priva.LoadBalancer.Waiting.{wait_loadbalancer_deleted}
use gardener_extension_priva.LoadBalancer.Waiting.Progress.{wait_deleted_reached}
use gardener_extension_priva.LoadBalancer.Deletion.{
  is_immutable, delete_and_wait, delete_load_balancer,
}
use gardener_extension_priva.LoadBalancer.Runs.{
  Connected, initial_client-Runs, load_balancer_client-Runs, lookup_found-Runs,
}
use gardener_extension_priva.Actuator.{
  Runtime, name_lb, require_active, delete_broken, bring_up, reconcile, delete,
}
use gardener_extension_priva.Actuator.Runs.{
  Settings, config_in, cluster-Runs, config-Runs, found-Runs, reconcile-Runs,
}

-- the error after the deletion of a load balancer in ERROR
abbrev pub recreate_error : String → Error
recreate_error namespace =
    errorf
      ("load balancer for extension private-network [ns=%s] current provisioning status is %s, "
        <> "deleted it and recreate")
      (namespace ∷ provisioning_error_status ∷ [])

module _ (rt : Runtime) (ex : Extension) (s : Settings rt ex) (laws : WaitLaws rt.wait)
    (c : Connected rt.env (config_in rt ex s)) (w : List Call) where
  abbrev pub Lists : List LoadBalancer → Type 0
  Lists lbs =
      Answers rt.env w (Call.list_load_balancers c.compute (name_lb ex.namespace)) (ok (ok lbs))

  -- The load balancer can be deleted, and a read after that answers that there is none.
  pub record Deletable (lb : LoadBalancer) : Type 0 where
    pub accepted : Answers rt.env w (Call.delete_load_balancer c.compute lb.id true) none
    pub answer : Error
    pub gone : is_not_found answer ≡ true
    pub reads :
        Answers rt.env
          (Call.delete_load_balancer c.compute lb.id true ∷ w)
          (Call.get_load_balancer c.compute lb.id)
          (err answer)

  module _ (lb : LoadBalancer) (d : Deletable lb) where
    abbrev pub deletion : Call
    deletion = Call.delete_load_balancer c.compute lb.id true

    wait_deleted-Runs :
        Runs
          (deletion ∷ w)
          (wait_loadbalancer_deleted rt.env rt.wait c.compute lb.id)
          (returned tt)
          []
    wait_deleted-Runs = record {
      at = λ h p. (
        Call.get_load_balancer c.compute lb.id ∷ h,
        wait_deleted_reached rt.env c.compute lb.id rt.wait laws h zero d.answer (omega arith)
            (λ i q. absurd (omega arith)) (d.reads h p) d.gone,
        p,
      );
    }

    delete-Runs :
        is_immutable lb ≡ false
        → Runs w
            (delete_load_balancer rt.env rt.wait (config_in rt ex s) lb true)
            (returned tt)
            (deletion ∷ [])
    unfolding delete_load_balancer delete_and_wait
    delete-Runs mutable =
        Runs-after _ _ c.provider _ _ (initial_client-Runs rt.env (config_in rt ex s) c) (
          Runs-after _ _ c.compute _ _ (load_balancer_client-Runs rt.env (config_in rt ex s) c _) (
            Runs-if_false _ _ _ _ _ mutable (
              Runs-bind _ _ none _ _ [] (Runs-write rt.env deletion _ refl d.accepted)
                (Runs-after _ _ tt _ _ (Runs-pure tt) wait_deleted-Runs))))

    -- Under the laws of `wait`, in a cloud that can be reached and whose answers depend on what
    -- was written, with settings that can be read: where the load balancer of the Extension is
    -- found in a mutable status, its deletion is accepted, and a read of it after that answers
    -- that there is none, `Delete` returns without an error, and its only write is the deletion of
    -- this load balancer, with everything that belongs to it.
    pub delete_done :
        (lbs : List LoadBalancer) (h : List Call)
        → writes h ≡ w
        → Lists lbs
        → keep is_valid lbs ≡ lb ∷ []
        → is_immutable lb ≡ false
        → ((delete rt ex h).0 ≡ returned tt) × (writes (delete rt ex h).1 ≡ deletion ∷ w)
    unfolding delete
    delete_done lbs h before all one mutable = Runs-elim h before (
        Runs-after _ _ s.cluster _ _ (cluster-Runs rt ex s) (
          Runs-after _ _ (config_in rt ex s) _ _ (Runs-on_error _ _ _ _ (config-Runs rt ex s)) (
            Runs-after _ _ (ok lb) _ _
              (Runs-attempt _ _ _ (lookup_found-Runs rt.env (config_in rt ex s) c _ lbs lb all one))
              (delete-Runs mutable))))

    pub broken_mutable :
        lb.provisioning_status ≡ provisioning_error_status → is_immutable lb ≡ false
    broken_mutable broken =
        let p : (lb.provisioning_status == provisioning_error_status) ≡ true = ==_of_eq broken in
        ground arith

    bring_up-Runs :
        lb.provisioning_status ≡ provisioning_error_status
        → Runs w
            (bring_up rt ex s.spec (some s.state) (config_in rt ex s) s.ranges lb)
            (failed (recreate_error ex.namespace))
            (deletion ∷ [])
    unfolding bring_up require_active delete_broken
    bring_up-Runs broken = Runs-stop _ _ _ _ (
        Runs-if_false _ _ _ _ _ (ap (λ t. t == provisioning_active_status) broken) (
          Runs-if_true _ _ _ _ _ (==_of_eq broken) (
            Runs-bind _ _ tt _ _ [] (Runs-on_error _ _ _ _ (delete-Runs (broken_mutable broken)))
              (Runs-fail _))))

    -- Under the laws of `wait`, in a cloud that can be reached and whose answers depend on what
    -- was written, with settings that can be read: where the load balancer of the Extension is
    -- found in ERROR, its deletion is accepted, and a read of it after that answers that there is
    -- none, `Reconcile` deletes it, with everything that belongs to it, makes no other write, and
    -- fails with the error that says that it is to be created again.
    pub reconcile_broken :
        (lbs : List LoadBalancer) (h : List Call)
        → writes h ≡ w
        → Lists lbs
        → keep is_valid lbs ≡ lb ∷ []
        → lb.provisioning_status ≡ provisioning_error_status
        → ((reconcile rt ex h).0 ≡ failed (recreate_error ex.namespace))
          × (writes (reconcile rt ex h).1 ≡ deletion ∷ w)
    reconcile_broken lbs h before all one broken = Runs-elim h before (
        reconcile-Runs rt ex s lb (failed (recreate_error ex.namespace)) [] (deletion ∷ [])
          (found-Runs rt ex s c lb lbs all one) (bring_up-Runs broken))
