-- ===== src/Actuator/Calls.antt =====
-- Which calls `Reconcile` and `Delete` make, from what may be written.
use gardener_extension_priva.Base.{String, ◌≡◌, true, Option, none, some, List, [], ◌∷◌, ◌++◌, ◌==◌}
use gardener_extension_priva.Constants.{provisioning_active_status, provisioning_error_status}
use gardener_extension_priva.Fault.{Error, is_err_not_found}
use gardener_extension_priva.OpenStack.{LoadBalancer, ServiceClient}
use gardener_extension_priva.Kube.{Extension, Service}
use gardener_extension_priva.World.{Call, M}
use gardener_extension_priva.World.Emits.{
  Emits, Emits-pure, Emits-bind, Emits-if, Emits-if_of, Emits-on_error, Emits-attempt, Emits-handle,
  Emits-non_nil, emits_rules,
}
use gardener_extension_priva.World.Reads.{CoversReads}
use gardener_extension_priva.IpNet.{IpNet, string_slice}
use gardener_extension_priva.Config.{ExtensionSpec, ExtensionState, PrivateNetworkConfig}
use gardener_extension_priva.Config.Laws.{get_cluster-Emits, get_global_config-Emits}
use gardener_extension_priva.Wait.{WaitLaws}
use gardener_extension_priva.LoadBalancer.Creation.{create_load_balancer}
use gardener_extension_priva.LoadBalancer.Calls.{
  get_load_balancer_by_name-Emits, delete_load_balancer-Emits, check_load_balancer-Emits,
}
use gardener_extension_priva.FloatingAddress.{attach_floating_ip}
use gardener_extension_priva.Actuator.{
  Runtime, name_lb, selected_ip, with_selected, collect_vips, patched, with_state, is_unhealthy,
  find_vip_lb_istio, update_status, find_or_create, delete_broken, require_active, require_healthy,
  bring_up, delete,
}

module _ (P : Call → Type 0) (covers : CoversReads P) (rt : Runtime) (laws : WaitLaws rt.wait) where
  pub with_selected-Emits :
      (o : Option (Option String)) (acc : List String) (next : List String → M (List String))
      → ((l : List String) → Emits P (next l))
      → Emits P (with_selected o acc next)
  with_selected-Emits none acc next e = e acc
  with_selected-Emits (some ip) acc next e =
      Emits-bind _ _ (Emits-non_nil ip) λ a. e (acc ++ a ∷ [])

  pub collect_vips-Emits :
      (items : List Service) (acc : List String) → Emits P (collect_vips items acc)
  unfolding collect_vips
  collect_vips-Emits [] acc = search emits_rules
  collect_vips-Emits (svc ∷ items) acc =
      with_selected-Emits (selected_ip svc) acc _ λ l. collect_vips-Emits items l

  pub find_vip-Emits : (namespace : String) → Emits P (find_vip_lb_istio rt namespace)
  unfolding find_vip_lb_istio
  find_vip-Emits namespace = search (emits_rules, covers, collect_vips-Emits)

  module _ (ex : Extension) where
    patched-Emits : (o : Option Error) → Emits P (patched o)
    patched-Emits none = search emits_rules
    patched-Emits (some e) = search emits_rules

    pub update_status-Emits :
        (state : ExtensionState)
        → ((json : String) → P (Call.patch_status (with_state ex json)))
        → Emits P (update_status rt ex state)
    unfolding update_status
    update_status-Emits state write = search (emits_rules, write, patched-Emits)

    pub find_or_create-Emits :
        (config : PrivateNetworkConfig) (vips : List String) (ranges : IpNet rt.net)
        → Emits P (
            create_load_balancer rt.env rt.wait config vips
              (name_lb ex.namespace)
              (λ port. string_slice rt.net (rt.order port) ranges))
        → Emits P (find_or_create rt ex config vips ranges)
    unfolding find_or_create
    find_or_create-Emits config vips ranges create =
        Emits-bind _ _ (Emits-attempt _ (get_load_balancer_by_name-Emits P covers rt.env config _))
          λ found.
            Emits-handle found _ _ (λ lb. search emits_rules)
              λ e. Emits-if (is_err_not_found e) _ _ create (search emits_rules)

    pub delete_broken-Emits :
        (config : PrivateNetworkConfig) (lb : LoadBalancer)
        → ((client : ServiceClient) → P (Call.delete_load_balancer client lb.id true))
        → Emits P (delete_broken rt ex config lb)
    unfolding delete_broken
    delete_broken-Emits config lb write =
        Emits-bind _ _
          (Emits-on_error _ _
            (delete_load_balancer-Emits P covers rt.env rt.wait laws config lb true write))
          λ _. search emits_rules

    pub require_active-Emits :
        (config : PrivateNetworkConfig) (lb : LoadBalancer)
        → ((lb.provisioning_status == provisioning_error_status) ≡ true
            → (client : ServiceClient) → P (Call.delete_load_balancer client lb.id true))
        → Emits P (require_active rt ex config lb)
    unfolding require_active
    require_active-Emits config lb write =
        Emits-if (lb.provisioning_status == provisioning_active_status) _ _ (Emits-pure tt) (
          Emits-if_of (lb.provisioning_status == provisioning_error_status) _ _
            (λ broken. delete_broken-Emits config lb (write broken)) (λ p. search emits_rules))

    pub require_healthy-Emits : (lb : LoadBalancer) → Emits P (require_healthy rt ex lb)
    unfolding require_healthy
    require_healthy-Emits lb =
        Emits-if (is_unhealthy lb) _ _ (search (emits_rules, covers)) (search emits_rules)

    -- the second half of `Reconcile`, from what its parts write
    pub bring_up-Emits :
        (ext_spec : ExtensionSpec) (ext_state : Option ExtensionState)
        (config : PrivateNetworkConfig) (ranges : IpNet rt.net) (lb : LoadBalancer)
        → ((lb.provisioning_status == provisioning_error_status) ≡ true
            → (client : ServiceClient) → P (Call.delete_load_balancer client lb.id true))
        → ((client : ServiceClient) (id : String) (cidrs : List String)
            → P (Call.update_listener client id cidrs))
        → ((checked : Option LoadBalancer)
            → Emits P (attach_floating_ip rt.env rt.patterns rt.codec checked config ex))
        → ((json : String) → P (Call.patch_status (with_state ex json)))
        → Emits P (bring_up rt ex ext_spec ext_state config ranges lb)
    unfolding bring_up
    bring_up-Emits ext_spec ext_state config ranges lb deletes updates attaches patches =
        Emits-bind _ _ (require_active-Emits config lb deletes) λ _.
          Emits-bind _ _
            (Emits-on_error _ _ (
              check_load_balancer-Emits P covers rt.env rt.wait laws lb config _
                λ client id. updates client id _))
            λ checked. Emits-bind _ _ (Emits-on_error _ _ (attaches checked)) λ float_ip.
              Emits-bind _ _ (Emits-non_nil checked) λ current.
                Emits-bind _ _ (require_healthy-Emits current) λ _.
                  Emits-bind _ _ (Emits-non_nil ext_state) λ state. update_status-Emits _ patches

  pub delete-Emits :
      (ex : Extension)
      → ((client : ServiceClient) (id : String) → P (Call.delete_load_balancer client id true))
      → Emits P (delete rt ex)
  unfolding delete
  delete-Emits ex write = Emits-bind _ _ (get_cluster-Emits P covers rt.env ex) λ cluster.
      Emits-bind _ _ (Emits-on_error _ _ (get_global_config-Emits P covers rt.env rt.codec ex))
        λ config.
          Emits-bind _ _
            (Emits-attempt _ (get_load_balancer_by_name-Emits P covers rt.env config _))
            λ found.
              Emits-handle found _ _
                (λ lb.
                  delete_load_balancer-Emits P covers rt.env rt.wait laws config lb true
                    λ client. write client lb.id)
                λ e. Emits-if (is_err_not_found e) _ _ (search emits_rules) (search emits_rules)
