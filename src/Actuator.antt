-- ===== src/Actuator.antt =====
-- pkg/controller/lifecycle/actuator.go: `Reconcile`, `Delete`, `Restore` and `Migrate` of the
-- actuator for Extension resources.
pub mod Istio
pub mod Calls
pub mod Costs
pub mod Justification
pub mod Isolation
pub mod Laws
pub mod Known
pub mod Status
pub mod Safety
pub mod Runs
pub mod Lifecycle
pub mod Progress
use gardener_extension_priva.Base.{
  ℕ, ◌+◌, String, Bool, true, false, not, ◌&&◌, ◌||◌, Option, none, some, List, [], ◌∷◌, ◌++◌, ◌<>◌,
  ltb, ◌==◌, if◌then◌else◌,
}
use gardener_extension_priva.Constants.{
  prefix_lb, namespace_istio_ingress, key_istio, provisioning_active_status,
  provisioning_error_status, operation_error_status, operation_offline_status,
  create_lb_operating_timeout, cluster_type_private, cluster_type_public,
}
use gardener_extension_priva.Fault.{Error, errorf, errorf_cause, Result, ok, err, is_err_not_found}
use gardener_extension_priva.OpenStack.{LoadBalancer}
use gardener_extension_priva.Kube.{RawExtension, Extension, Cluster, Shoot, Service}
use gardener_extension_priva.World.{
  Call, Env, M, pure, fail, panic, ask, or_fail, non_nil, on_error, attempt, handle, ◌>>=◌, ◌>>◌,
}
use gardener_extension_priva.FloatingSubnet.{Patterns}
use gardener_extension_priva.IpNet.{Net, IpNet, string_slice}
use gardener_extension_priva.Config.{
  ExtensionSpec, ExtensionState, PrivateNetworkConfig, Codec, read_extension_spec,
  get_extension_state, get_cluster_for_extension, get_global_config_for_private_network,
  get_load_balancer_source_ranges,
}
use gardener_extension_priva.Wait.{Wait}
use gardener_extension_priva.LoadBalancer.Lookup.{get_load_balancer_by_name}
use gardener_extension_priva.LoadBalancer.Creation.{create_load_balancer}
use gardener_extension_priva.LoadBalancer.Deletion.{delete_load_balancer}
use gardener_extension_priva.LoadBalancer.Listeners.{check_load_balancer}
use gardener_extension_priva.FloatingAddress.{attach_floating_ip}

-- What the program runs on: the environment that answers its calls, and the libraries that are not
-- its own. `order site` is the order in which Go ranges over a map of source ranges, at the place
-- that builds the listener of a port, and at 0 for `CheckLoadBalancer`.
pub record Runtime : Type 1 where
  pub env : Env
  pub wait : Wait
  pub codec : Codec
  pub patterns : Patterns
  pub net : Net
  pub order : ℕ → List String → List String

abbrev pub name_lb : String → String
name_lb namespace = prefix_lb <> ("-" <> namespace)

-- What a service gives to the list of VIPs: nothing if it is not selected; otherwise its first
-- ingress address, which may be missing.
abbrev pub selected_ip : Service → Option (Option String)
selected_ip svc =
    if svc.service_type == "LoadBalancer" && svc.app_selector == key_istio
    then some (elim svc.ingress [ [] ↦ none | ip ∷ ips ↦ some ip ])
    else none

-- one round of the loop over the services: what is gathered so far goes on to the next round
abbrev pub with_selected :
    Option (Option String) → List String → (List String → M (List String)) → M (List String)
with_selected none istio_ip_list next = next istio_ip_list
with_selected (some ip) istio_ip_list next = do
  address ← non_nil ip
  next (istio_ip_list ++ address ∷ [])

unfoldable pub collect_vips : List Service → List String → M (List String)
collect_vips [] istio_ip_list = pure istio_ip_list
collect_vips (svc ∷ items) istio_ip_list =
    with_selected (selected_ip svc) istio_ip_list λ gathered. collect_vips items gathered

-- read only in messages, behind the check that the shoot is there
abbrev shoot_name : Cluster → String
shoot_name cluster = elim cluster.shoot [ none ↦ "" | some shoot ↦ shoot.name ]

-- nil only beside an error, which has ended the reconciliation before this is read
abbrev lb_id : Option LoadBalancer → String
lb_id none = ""
lb_id (some lb) = lb.id

abbrev patched : Option Error → M (Unit {0})
patched none = pure tt
patched (some e) = fail e

-- The state that a reconciliation writes, over the one that it read.
unfoldable pub new_state : ExtensionSpec → LoadBalancer → String → ExtensionState → ExtensionState
new_state ext_spec lb float_ip ext_state =
    if ext_spec.private_cluster
    then record ext_state {
      cluster_type = cluster_type_private;
      internal_address_load_balancer = some lb.vip_address;
      external_address_load_balancer = none;
    }
    else record ext_state {
      cluster_type = cluster_type_public;
      internal_address_load_balancer = some lb.vip_address;
      external_address_load_balancer = some float_ip;
    }

abbrev pub with_state : Extension → String → Extension
with_state ex state_json = record ex { state = some (record { raw = some state_json }) }

abbrev pub is_unhealthy : LoadBalancer → Bool
is_unhealthy lb =
    lb.operating_status == operation_error_status || lb.operating_status == operation_offline_status

module _ (rt : Runtime) where
  open rt use {env, wait, codec, patterns, net, order}

  -- `findVipLBistio`
  unfoldable pub find_vip_lb_istio : String → M (List String)
  find_vip_lb_istio istio_namespace = do
    got ← ask env (Call.list_services istio_namespace)
    items ←
        or_fail (errorf_cause "failed to list services in namespace %s: %v" (istio_namespace ∷ []))
          got
    collect_vips items []

  unfoldable pub update_status : Extension → ExtensionState → M (Unit {0})
  update_status ex state = do
    state_json ← or_fail (λ e. e) (codec.marshal_extension_state state)
    refused ← ask env (Call.patch_status (with_state ex state_json))
    patched refused

  abbrev config_error : Cluster → Error → Error
  config_error cluster =
      errorf_cause "error to get private network configuration for shoot %s: [%v]"
        (shoot_name cluster ∷ [])

  abbrev pub lookup_error : Extension → Error → Error
  lookup_error ex =
      errorf_cause "error getting loadbalancer for extension %s: [%v]" (ex.namespace ∷ [])

  unfoldable pub find_or_create :
      Extension → PrivateNetworkConfig → List String → IpNet net → M (Option LoadBalancer)
  find_or_create ex config vip_lb_istio ranges = do
    found ← attempt (get_load_balancer_by_name env config (name_lb ex.namespace))
    handle found (λ lb. pure (some lb))
        λ e.
          if is_err_not_found e
          then create_load_balancer env wait config vip_lb_istio (name_lb ex.namespace)
              (λ port. string_slice net (order port) ranges)
          else fail (lookup_error ex e)

  -- A load balancer in ERROR is deleted, and the reconciliation fails so that it is run again.
  unfoldable pub delete_broken : Extension → PrivateNetworkConfig → LoadBalancer → M (Unit {0})
  delete_broken ex config lb = do
    on_error
        (errorf_cause "error to delete the error Loadbalancer [ID=%s] [Name=%s]: [%v]"
          (lb.id ∷ lb.name ∷ []))
        (delete_load_balancer env wait config lb true)
    fail (
        errorf
          ("load balancer for extension private-network [ns=%s] current provisioning status is %s, "
            <> "deleted it and recreate")
          (ex.namespace ∷ provisioning_error_status ∷ []))

  unfoldable pub require_active : Extension → PrivateNetworkConfig → LoadBalancer → M (Unit {0})
  require_active ex config lb =
      if lb.provisioning_status == provisioning_active_status
      then pure tt
      else if lb.provisioning_status == provisioning_error_status
      then delete_broken ex config lb
      else fail (
          errorf "load balancer %s is not ACTIVE, current provisioning status: %s"
            (lb.id ∷ lb.provisioning_status ∷ []))

  -- Times are compared after the timeout is added, so that no subtraction stops at zero. The location
  -- "UTC" is always known, so that its error does not occur.
  unfoldable pub require_healthy : Extension → LoadBalancer → M (Unit {0})
  require_healthy ex lb =
      if is_unhealthy lb
      then (do
        now ← ask env Call.now
        if ltb (lb.created_at + create_lb_operating_timeout) now
            then fail (
                errorf "LB [ID=%s] in namespace %s is not healthy: Operating Status [%s]"
                  (lb.id ∷ ex.namespace ∷ lb.operating_status ∷ []))
            else pure tt)
      else pure tt

  -- the second half of `Reconcile`, from a load balancer that was found or created
  unfoldable pub bring_up :
      Extension
      → ExtensionSpec
      → Option ExtensionState
      → PrivateNetworkConfig
      → IpNet net
      → LoadBalancer
      → M (Unit {0})
  bring_up ex ext_spec ext_state config ranges lb = do
    require_active ex config lb
    checked ←
        on_error
          (errorf_cause "error to check existed Loadbalancer [Name=%s] in extesion %s: [%v]"
            (name_lb ex.namespace ∷ ex.namespace ∷ []))
          (check_load_balancer env wait lb config (string_slice net (order 0) ranges))
    float_ip ←
        on_error
          (errorf_cause "error to attach floating IP for LB [ID=%s]: [%v]" (lb_id checked ∷ []))
          (attach_floating_ip env patterns codec checked config ex)
    current ← non_nil checked
    require_healthy ex current
    state ← non_nil ext_state
    update_status ex (new_state ext_spec current float_ip state)

  unfoldable pub reconcile : Extension → M (Unit {0})
  reconcile ex = do
    cluster ← get_cluster_for_extension env ex
    read_spec ← or_fail (λ e. e) (read_extension_spec codec ex)
    ext_state ← or_fail (λ e. e) (get_extension_state codec ex)
    vip_lb_istio ← find_vip_lb_istio namespace_istio_ingress
    config ← on_error (config_error cluster) (get_global_config_for_private_network env codec ex)
    ext_spec ← non_nil read_spec
    ranges ←
        or_fail
          (errorf_cause "error to get LB source ranges ipv4 for extension [ns=%s]: [%v]"
            (ex.namespace ∷ []))
          (get_load_balancer_source_ranges net ext_spec config)
    found ← find_or_create ex config vip_lb_istio ranges
    lb ← non_nil found
    bring_up ex ext_spec ext_state config ranges lb

  unfoldable pub delete : Extension → M (Unit {0})
  delete ex = do
    cluster ← get_cluster_for_extension env ex
    config ← on_error (config_error cluster) (get_global_config_for_private_network env codec ex)
    found ← attempt (get_load_balancer_by_name env config (name_lb ex.namespace))
    handle found (λ lb. delete_load_balancer env wait config lb true)
        λ e. if is_err_not_found e then pure tt else fail (lookup_error ex e)

  unfoldable pub restore : Extension → M (Unit {0})
  restore ex = reconcile ex

  unfoldable pub migrate : Extension → M (Unit {0})
  migrate ex = delete ex
