-- ===== src/Actuator/Progress/Situations.antt =====
-- The situations that `Reconcile` and `Delete` find at OpenStack, each with what the cloud answers in
-- it: the load balancer serves, is in ERROR, is in a status between, or is not there.
use gardener_extension_priva.Base.{
  ◌≡◌, true, false, arith, List, [], ◌∷◌, ◌++◌, keep, ◌==◌, ==_of_eq,
}
use gardener_extension_priva.Constants.{
  flavor_type, provisioning_active_status, provisioning_error_status,
}
use gardener_extension_priva.Fault.{Error, errorf, ok, err, returned, failed, err_not_found}
use gardener_extension_priva.OpenStack.{LoadBalancer, Subnet, Flavor}
use gardener_extension_priva.Kube.{Extension}
use gardener_extension_priva.World.{Call, writes}
use gardener_extension_priva.World.Runs.{
  Answers, Runs-elim, Runs-elim_append, Runs-pure, Runs-fail, Runs-on_error, Runs-attempt,
  Runs-attempt_failed, Runs-if_true, Runs-if_false, Runs-after, Runs-stop,
}
use gardener_extension_priva.Wait.{WaitLaws}
use gardener_extension_priva.FloatingSubnet.{network_opts}
use gardener_extension_priva.LoadBalancer.Lookup.{is_valid}
use gardener_extension_priva.LoadBalancer.Creation.{is_worker_subnet}
use gardener_extension_priva.LoadBalancer.Deletion.{is_immutable, delete_load_balancer}
use gardener_extension_priva.LoadBalancer.Runs.{
  Connected, Running, initial_client-Runs, load_balancer_client-Runs, lookup_found-Runs,
  lookup_none-Runs,
}
use gardener_extension_priva.Actuator.{Runtime, require_active, bring_up, reconcile, delete}
use gardener_extension_priva.Actuator.Runs.{
  Settings, config_in, cluster-Runs, config-Runs, found-Runs, reconcile-Runs,
}
use gardener_extension_priva.Actuator.Progress.Raising.{Raising, raised, Raising-Runs}
use gardener_extension_priva.Actuator.Progress.Creation.{is_named, creation, created-Runs}
use gardener_extension_priva.Actuator.Progress.Deletion.{
  Lists, Deletable, deletion, broken_mutable, recreate_error, delete_done, reconcile_broken,
}

abbrev pub not_active_error : LoadBalancer → Error
not_active_error lb =
    errorf "load balancer %s is not ACTIVE, current provisioning status: %s"
      (lb.id ∷ lb.provisioning_status ∷ [])

abbrev pub immutable_error : LoadBalancer → Error
immutable_error lb =
    errorf "load balancer %s is in immutable status, current provisioning status: %s"
      (lb.id ∷ lb.provisioning_status ∷ [])

not_active :
    (lb : LoadBalancer)
    → is_immutable lb ≡ true
    → (lb.provisioning_status == provisioning_active_status) ≡ false
not_active lb e = ground arith

not_broken :
    (lb : LoadBalancer)
    → is_immutable lb ≡ true
    → (lb.provisioning_status == provisioning_error_status) ≡ false
not_broken lb e = ground arith

active_mutable :
    (lb : LoadBalancer)
    → lb.provisioning_status ≡ provisioning_active_status
    → is_immutable lb ≡ false
active_mutable lb active =
    let p : (lb.provisioning_status == provisioning_active_status) ≡ true = ==_of_eq active in
    ground arith

module _ (rt : Runtime) (ex : Extension) (s : Settings rt ex) (laws : WaitLaws rt.wait)
    (c : Connected rt.env (config_in rt ex s)) where
  -- The load balancer is ACTIVE, serves, and can be deleted.
  pub record Serving (w : List Call) : Type 0 where
    pub lbs : List LoadBalancer
    pub lb : LoadBalancer
    pub lists : Lists rt ex s laws c w lbs
    pub one : keep is_valid lbs ≡ lb ∷ []
    pub raising : Raising rt ex s laws c lb w
    pub deletable : Deletable rt ex s laws c w lb

  -- The load balancer is in ERROR, and can be deleted.
  pub record Failing (w : List Call) : Type 0 where
    pub lbs : List LoadBalancer
    pub lb : LoadBalancer
    pub lists : Lists rt ex s laws c w lbs
    pub one : keep is_valid lbs ≡ lb ∷ []
    pub broken : lb.provisioning_status ≡ provisioning_error_status
    pub deletable : Deletable rt ex s laws c w lb

  -- The load balancer is neither ACTIVE nor in ERROR.
  pub record Stalled (w : List Call) : Type 0 where
    pub lbs : List LoadBalancer
    pub lb : LoadBalancer
    pub lists : Lists rt ex s laws c w lbs
    pub one : keep is_valid lbs ≡ lb ∷ []
    pub immutable : is_immutable lb ≡ true

  -- There is no load balancer, and one can be created: it is then ACTIVE and serves.
  pub record Vacant (w : List Call) : Type 0 where
    pub lbs : List LoadBalancer
    pub subnets : List Subnet
    pub subnets' : List Subnet
    pub subnet : Subnet
    pub flavors : List Flavor
    pub flavors' : List Flavor
    pub flavor : Flavor
    pub made : LoadBalancer
    pub lb : LoadBalancer
    pub lists : Lists rt ex s laws c w lbs
    pub none_valid : keep is_valid lbs ≡ []
    pub lists_subnets :
        Answers rt.env w (Call.list_subnets c.network (network_opts "")) (ok (ok subnets))
    pub first : keep (is_worker_subnet s.worker.network) subnets ≡ subnet ∷ subnets'
    pub lists_flavors : Answers rt.env w (Call.list_flavors c.compute) (ok (ok flavors))
    pub kind : keep (is_named flavor_type) flavors ≡ flavor ∷ flavors'
    pub makes : Answers rt.env w (creation rt ex s laws c lb w subnet.id flavor.id) (ok made)
    pub same : made.id ≡ lb.id
    pub running : Running rt.env c.compute lb (creation rt ex s laws c lb w subnet.id flavor.id ∷ w)
    pub raising : Raising rt ex s laws c lb (creation rt ex s laws c lb w subnet.id flavor.id ∷ w)

  module _ (w h : List Call) (before : writes h ≡ w) where
    -- `Reconcile` brings a load balancer that serves up to date.
    pub Serving-reconcile :
        (v : Serving w)
        → ((reconcile rt ex h).0 ≡ returned tt)
          × (writes (reconcile rt ex h).1 ≡ raised rt ex s laws c v.raising ++ w)
    Serving-reconcile v = Runs-elim_append [] (raised rt ex s laws c v.raising) h before (
        reconcile-Runs rt ex s v.lb (returned tt) [] (raised rt ex s laws c v.raising)
          (found-Runs rt ex s c v.lb v.lbs v.lists v.one) (Raising-Runs rt ex s laws c v.raising))

    -- `Reconcile` makes a load balancer where there is none.
    pub Vacant-reconcile :
        (v : Vacant w)
        → ((reconcile rt ex h).0 ≡ returned tt)
          × (writes (reconcile rt ex h).1
              ≡ raised rt ex s laws c v.raising
                ++ creation rt ex s laws c v.lb w v.subnet.id v.flavor.id ∷ w)
    Vacant-reconcile v =
        let made : List Call = creation rt ex s laws c v.lb w v.subnet.id v.flavor.id ∷ [] in
        Runs-elim_append made (raised rt ex s laws c v.raising) h before (
          reconcile-Runs rt ex s v.lb (returned tt) made (raised rt ex s laws c v.raising)
            (created-Runs rt ex s laws c v.lb w v.lbs v.subnets v.subnets' v.subnet v.flavors
              v.flavors' v.flavor v.made v.lists v.none_valid v.lists_subnets v.first
              v.lists_flavors v.kind v.makes v.same v.running)
            (Raising-Runs rt ex s laws c v.raising))

    -- `Delete` has nothing to do where there is no load balancer.
    pub Vacant-delete :
        Vacant w → ((delete rt ex h).0 ≡ returned tt) × (writes (delete rt ex h).1 ≡ w)
    unfolding delete
    Vacant-delete v = Runs-elim h before (
        Runs-after _ _ s.cluster _ _ (cluster-Runs rt ex s) (
          Runs-after _ _ (config_in rt ex s) _ _ (Runs-on_error _ _ _ _ (config-Runs rt ex s)) (
            Runs-after _ _ (err err_not_found) _ _
              (Runs-attempt_failed _ _ _
                (lookup_none-Runs rt.env (config_in rt ex s) c _ v.lbs v.lists v.none_valid))
              (Runs-pure tt))))

    -- `Reconcile` reports a load balancer that is in a status between, and leaves it alone.
    pub Stalled-reconcile :
        (v : Stalled w)
        → ((reconcile rt ex h).0 ≡ failed (not_active_error v.lb))
          × (writes (reconcile rt ex h).1 ≡ w)
    unfolding bring_up require_active
    Stalled-reconcile v =
        let inactive : (v.lb.provisioning_status == provisioning_active_status) ≡ false =
          not_active v.lb v.immutable in
        let unbroken : (v.lb.provisioning_status == provisioning_error_status) ≡ false =
          not_broken v.lb v.immutable in
        Runs-elim h before (
          reconcile-Runs rt ex s v.lb (failed (not_active_error v.lb)) [] []
            (found-Runs rt ex s c v.lb v.lbs v.lists v.one)
            (Runs-stop _ _ _ _
              (Runs-if_false _ _ _ _ _ inactive (Runs-if_false _ _ _ _ _ unbroken (Runs-fail _)))))

    -- So does `Delete`.
    pub Stalled-delete :
        (v : Stalled w)
        → ((delete rt ex h).0 ≡ failed (immutable_error v.lb)) × (writes (delete rt ex h).1 ≡ w)
    unfolding delete delete_load_balancer
    Stalled-delete v = Runs-elim h before (
        Runs-after _ _ s.cluster _ _ (cluster-Runs rt ex s) (
          Runs-after _ _ (config_in rt ex s) _ _ (Runs-on_error _ _ _ _ (config-Runs rt ex s)) (
            Runs-after _ _ (ok v.lb) _ _
              (Runs-attempt _ _ _
                (lookup_found-Runs rt.env (config_in rt ex s) c _ v.lbs v.lb v.lists v.one))
              (Runs-after _ _ c.provider _ _ (initial_client-Runs rt.env (config_in rt ex s) c) (
                Runs-after _ _ c.compute _ _
                  (load_balancer_client-Runs rt.env (config_in rt ex s) c _)
                  (Runs-if_true _ _ _ _ _ v.immutable (Runs-fail _)))))))

    pub Serving-delete :
        (v : Serving w)
        → ((delete rt ex h).0 ≡ returned tt)
          × (writes (delete rt ex h).1 ≡ deletion rt ex s laws c w v.lb v.deletable ∷ w)
    Serving-delete v =
        delete_done rt ex s laws c w v.lb v.deletable v.lbs h before v.lists v.one
          (active_mutable v.lb v.raising.active)

    pub Failing-delete :
        (v : Failing w)
        → ((delete rt ex h).0 ≡ returned tt)
          × (writes (delete rt ex h).1 ≡ deletion rt ex s laws c w v.lb v.deletable ∷ w)
    Failing-delete v =
        delete_done rt ex s laws c w v.lb v.deletable v.lbs h before v.lists v.one
          (broken_mutable rt ex s laws c w v.lb v.deletable v.broken)

    pub Failing-reconcile :
        (v : Failing w)
        → ((reconcile rt ex h).0 ≡ failed (recreate_error ex.namespace))
          × (writes (reconcile rt ex h).1 ≡ deletion rt ex s laws c w v.lb v.deletable ∷ w)
    Failing-reconcile v =
        reconcile_broken rt ex s laws c w v.lb v.deletable v.lbs h before v.lists v.one v.broken
