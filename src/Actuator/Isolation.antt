-- ===== src/Actuator/Isolation.antt =====
-- The deletions that `Reconcile` and `Delete` (pkg/controller/lifecycle/actuator.go) make, and what
-- stands before them in the history of calls.
pub mod Histories
use gardener_extension_priva.Base.{
  String, ◌≡◌, refl, ap, ◌∙◌, sym, subst, Bool, true, false, Option, none, some, List, [], ◌∷◌,
  ◌++◌, ◌==◌, eq_iff, ==_of_eq, arith, if◌then◌else◌,
}
use mathlib.Core.List.{append_assoc}
use gardener_extension_priva.Constants.{provisioning_active_status, provisioning_error_status}
use gardener_extension_priva.Fault.{Error, Result, ok, err, is_err_not_found, errorf}
use gardener_extension_priva.OpenStack.{LoadBalancer}
use gardener_extension_priva.Kube.{Extension}
use gardener_extension_priva.World.{
  Call, Env, M, is_write, pure, fail, ask, or_fail, non_nil, on_error, attempt, handle,
}
use gardener_extension_priva.World.Emits.{
  Emits, emits_rules, Emits-pure, Emits-fail, Emits-or_fail, Emits-non_nil, Emits-on_error,
  Emits-attempt, Emits-if,
}
use gardener_extension_priva.World.Ensures.{
  Post, Ensures, Ensures-pure, Ensures-fail, Ensures-non_nil, Ensures-weaken, Ensures-if,
}
use gardener_extension_priva.World.Reads.{IsRead, CoversReads}
use gardener_extension_priva.World.Guards.{
  Sound, Guards, Anyhow, Anything, OnOk, Ensures-Anything, Ensures-attempt_ok, Guards-Emits,
  Guards-pure, Guards-fail, Guards-non_nil, Guards-if, Guards-bind, Guards-after,
}
use gardener_extension_priva.Wait.{WaitLaws}
use gardener_extension_priva.IpNet.{IpNet, string_slice}
use gardener_extension_priva.Config.{ExtensionSpec, ExtensionState, PrivateNetworkConfig}
use gardener_extension_priva.Config.Laws.{get_cluster-Emits, get_global_config-Emits}
use gardener_extension_priva.LoadBalancer.Calls.{
  get_load_balancer_by_name-Emits, create_load_balancer-Emits, delete_load_balancer-Emits,
}
use gardener_extension_priva.LoadBalancer.Lookup.{get_load_balancer_by_name}
use gardener_extension_priva.LoadBalancer.Lookup.Source.{OnlyValid, get_by_name-OnlyValid}
use gardener_extension_priva.LoadBalancer.Creation.{create_load_balancer}
use gardener_extension_priva.LoadBalancer.Creation.Laws.{IsBuilt, create-IsBuilt}
use gardener_extension_priva.LoadBalancer.Deletion.{delete_load_balancer}
use gardener_extension_priva.FloatingAddress.Calls.{attach_floating_ip-Emits}
use gardener_extension_priva.Actuator.{
  Runtime, name_lb, lookup_error, find_or_create, bring_up, reconcile, delete, restore, migrate,
}
use gardener_extension_priva.Actuator.Calls.{find_vip-Emits, bring_up-Emits}
use gardener_extension_priva.Actuator.Justification.{
  Listed, Justified, Listed-newer, OnlyValid-Listed, reads_Justified, Deletes, Deletes-covers,
  KeepsAll, KeepsAll-covers,
}

module _ (Served : String → Type 0) (rt : Runtime) (laws : WaitLaws rt.wait) where
  KeepsAll-Justified : (c : Call) (h : List Call) → KeepsAll c → Justified rt.env Served c h
  KeepsAll-Justified (Call.delete_load_balancer _ _ _) h p = absurd p
  KeepsAll-Justified _ h p = tt

  module _ (ex : Extension) (served : Served ex.namespace) where
    -- A load balancer in ERROR was listed under the name of the Extension.
    abbrev Owned : LoadBalancer → List Call → Type 0
    Owned lb h =
        lb.provisioning_status ≡ provisioning_error_status
        → Listed rt.env (name_lb ex.namespace) lb.id h

    Deletes-Justified :
        (E : Type 0) (lb : LoadBalancer) (c : Call) (newer h : List Call)
        → (E → Listed rt.env (name_lb ex.namespace) lb.id h)
        → Deletes E lb c
        → Justified rt.env Served c (newer ++ h)
    Deletes-Justified E lb (Call.delete_load_balancer _ id cascade) newer h k (same, e) = (
      ex.namespace,
      served,
      rw same (Listed-newer rt.env (name_lb ex.namespace) lb.id newer h (k e)),
    )
    Deletes-Justified E lb _ newer h k p = tt

    bring_up-Guards :
        (ext_spec : ExtensionSpec) (ext_state : Option ExtensionState)
        (config : PrivateNetworkConfig) (ranges : IpNet rt.net) (lb : LoadBalancer)
        → Guards
            (Justified rt.env Served)
            (Owned lb)
            Anything
            (bring_up rt ex ext_spec ext_state config ranges lb)
    bring_up-Guards ext_spec ext_state config ranges lb =
        Guards-Emits (Deletes (lb.provisioning_status ≡ provisioning_error_status) lb) _
          (Deletes-Justified _ lb)
          (bring_up-Emits _ (Deletes-covers _ lb) rt laws ex ext_spec ext_state config ranges lb
            (λ broken client. (refl, (eq_iff _ _).0 broken)) (λ client id cidrs. tt)
            (λ checked.
              attach_floating_ip-Emits _ (Deletes-covers _ lb) rt.env rt.patterns rt.codec checked
                config ex (λ s client id p q. tt) (λ s client l id p q found. tt)
                (λ s client l pool network_lb subnet p q found. tt))
            (λ json. tt))
          (Ensures-Anything _)

    -- what was found is owned, and what was created is ACTIVE
    abbrev Obtained : Option LoadBalancer → List Call → Type 0
    Obtained found h = (lb : LoadBalancer) → found ≡ some lb → Owned lb h

    IsBuilt-Obtained :
        (found : Option LoadBalancer) (h : List Call)
        → IsBuilt rt.env rt.wait laws found h
        → Obtained found h
    IsBuilt-Obtained found h (client, id, (l, before, e, answer, same, active)) lb p broken =
        let here : l ≡ lb = cc in
        let clash : provisioning_active_status ≡ provisioning_error_status =
          sym active ∙ ap (λ b. b.provisioning_status) here ∙ broken in
        let differ : false ≡ true = ==_of_eq clash in absurd (cc differ)

    lookup-Guards :
        (config : PrivateNetworkConfig)
        → Guards
            (Justified rt.env Served)
            Anyhow
            (OnOk λ lb h. Listed rt.env (name_lb ex.namespace) lb.id h)
            (attempt (get_load_balancer_by_name rt.env config (name_lb ex.namespace)))
    lookup-Guards config =
        Guards-Emits IsRead _ (λ c newer h k r. reads_Justified rt.env Served c (newer ++ h) r)
          (Emits-attempt _ (get_load_balancer_by_name-Emits IsRead (λ c r. r) rt.env config _))
          (Ensures-attempt_ok _ (
            Ensures-weaken _ _ (λ lb h v. OnlyValid-Listed rt.env (name_lb ex.namespace) lb h v)
              (get_by_name-OnlyValid rt.env (name_lb ex.namespace) config)))

    find_or_create-Guards :
        (config : PrivateNetworkConfig) (vips : List String) (ranges : IpNet rt.net)
        → Guards (Justified rt.env Served) Anyhow Obtained (find_or_create rt ex config vips ranges)
    unfolding find_or_create
    find_or_create-Guards config vips ranges = Guards-bind _ _ _ (lookup-Guards config) after_lookup
      where
        creating : Guards (Justified rt.env Served) Anyhow Obtained (
            create_load_balancer rt.env rt.wait config vips
              (name_lb ex.namespace)
              (λ port. string_slice rt.net (rt.order port) ranges))
        creating =
            Guards-Emits KeepsAll _ (λ c newer h k p. KeepsAll-Justified c (newer ++ h) p)
              (create_load_balancer-Emits KeepsAll KeepsAll-covers rt.env rt.wait laws config vips _
                _ λ client flavor subnet. tt)
              (Ensures-weaken _ _ IsBuilt-Obtained
                (create-IsBuilt rt.env rt.wait laws config vips _ _))

        after_lookup :
            (found : Result LoadBalancer)
            → Guards
                (Justified rt.env Served)
                (OnOk (λ lb h. Listed rt.env (name_lb ex.namespace) lb.id h) found)
                Obtained
                (handle found
                  (λ lb. pure (some lb))
                  λ e.
                    if is_err_not_found e
                    then create_load_balancer rt.env rt.wait config vips
                        (name_lb ex.namespace)
                        (λ port. string_slice rt.net (rt.order port) ranges)
                    else fail (lookup_error rt ex e))
        after_lookup (ok lb) = Guards-pure (some lb) λ h listed l p broken.
            let same : lb ≡ l = cc in
            subst (λ x. Listed rt.env (name_lb ex.namespace) x.id h) same listed
        after_lookup (err e) =
            Guards-if (is_err_not_found e) _ _ creating (Guards-fail (lookup_error rt ex e))

    reads : (c : Call) (h : List Call) → IsRead c → Justified rt.env Served c h
    reads c h r = reads_Justified rt.env Served c h r

    pub reconcile-Guards : Guards (Justified rt.env Served) Anyhow Anything (reconcile rt ex)
    unfolding reconcile
    reconcile-Guards =
        Guards-after _ _ reads (get_cluster-Emits IsRead (λ c r. r) rt.env ex) λ cluster.
          Guards-after _ _ reads (Emits-or_fail _ _) λ read_spec.
            Guards-after _ _ reads (Emits-or_fail _ _) λ ext_state.
              Guards-after _ _ reads (find_vip-Emits IsRead (λ c r. r) rt laws _) λ vips.
                Guards-after _ _ reads
                  (Emits-on_error _ _
                    (get_global_config-Emits IsRead (λ c r. r) rt.env rt.codec ex))
                  λ config. Guards-after _ _ reads (Emits-non_nil read_spec) λ ext_spec.
                    Guards-after _ _ reads (Emits-or_fail _ _) λ ranges.
                      Guards-bind Obtained _ _ (find_or_create-Guards config vips ranges) λ found.
                        Guards-bind Owned _ _
                          (Guards-non_nil found λ lb h e obtained. obtained lb e)
                          λ lb. bring_up-Guards ext_spec ext_state config ranges lb

    pub delete-Guards : Guards (Justified rt.env Served) Anyhow Anything (delete rt ex)
    unfolding delete
    delete-Guards =
        Guards-after _ _ reads (get_cluster-Emits IsRead (λ c r. r) rt.env ex) λ cluster.
          Guards-after _ _ reads
            (Emits-on_error _ _ (get_global_config-Emits IsRead (λ c r. r) rt.env rt.codec ex))
            λ config. Guards-bind _ _ _ (lookup-Guards config) (after_lookup config)
      where
        after_lookup :
            (config : PrivateNetworkConfig) (found : Result LoadBalancer)
            → Guards
                (Justified rt.env Served)
                (OnOk (λ lb h. Listed rt.env (name_lb ex.namespace) lb.id h) found)
                Anything
                (handle found
                  (λ lb. delete_load_balancer rt.env rt.wait config lb true)
                  λ e. if is_err_not_found e then pure tt else fail (lookup_error rt ex e))
        after_lookup config (ok lb) =
            Guards-Emits (Deletes (Unit {0}) lb) _
              (λ c newer h k p. Deletes-Justified (Unit {0}) lb c newer h (λ u. k) p)
              (delete_load_balancer-Emits _ (Deletes-covers (Unit {0}) lb) rt.env rt.wait laws
                config lb true λ client. (refl, tt))
              (Ensures-Anything _)
        after_lookup config (err e) =
            Guards-if (is_err_not_found e) _ _ (Guards-pure tt λ h k. tt)
              (Guards-fail (lookup_error rt ex e))
