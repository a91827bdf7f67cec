-- ===== src/Tests/Reconciling.antt =====
-- Runs of the actuator.
use gardener_extension_priva.Base.{◌≡◌, refl, List, [], ◌⊎◌, keep, false, true, String, ◌∷◌}
use gardener_extension_priva.Fault.{Outcome, returned, is_not_found}
use gardener_extension_priva.World.{
  Call, ask, or_fail, pure, fail, non_nil, on_error, attempt, ◌>>=◌,
}
use gardener_extension_priva.Config.{
  read_extension_spec, get_extension_state, get_cluster_for_extension,
  get_global_config_for_private_network, cloud_conf_of, get_load_balancer_source_ranges,
}
use gardener_extension_priva.IpNet.{store, string_slice, parse_ip_nets}
use gardener_extension_priva.Text.{trim_space}
use gardener_extension_priva.LoadBalancer.Clients.{
  initial_client_openstack, load_balancer_client, network_client,
}
use gardener_extension_priva.LoadBalancer.Waiting.{
  wait_active_and_get_load_balancer, wait_loadbalancer_deleted,
}
use gardener_extension_priva.LoadBalancer.Lookup.{
  get_load_balancers, find_load_balancer, get_load_balancer_by_name,
}
use gardener_extension_priva.LoadBalancer.Listeners.{
  collect_pages, get_listener_by_name, get_listeners, update_allowed_cidrs, check_listener,
  check_listeners, check_load_balancer,
}
use gardener_extension_priva.FloatingAddress.{
  get_floating_ips, get_floating_ip_by_port_id, detach_floating_ip, attach_floating_ip,
}
use gardener_extension_priva.Actuator.{
  collect_vips, find_vip_lb_istio, find_or_create, require_active, require_healthy, new_state,
  update_status, bring_up, reconcile, delete, name_lb,
}
use gardener_extension_priva.Tests.Cloud.{
  calm, runtime_of, extension_of, polling-WaitLaws, small_codec-CodecLaws, the_client, vanished,
}
use gardener_extension_priva.Actuator.Status.{Reports, reconcile-Reports}
use gardener_extension_priva.World.Emits.{Emits}
use gardener_extension_priva.LoadBalancer.Deletion.{delete_load_balancer, delete_and_wait}
use gardener_extension_priva.Actuator.Safety.{
  Allowed, OnlyDeletes, reconcile-Allowed, delete-OnlyDeletes,
}
use gardener_extension_priva.Actuator.Laws.{NothingFound, FoundThenGone, delete_lem}
use gardener_extension_priva.Actuator.Istio.{
  gathered, first_addresses, is_istio, find_vip_lb_istio_lem,
}
use gardener_extension_priva.Actuator.Justification.{Listed}
use gardener_extension_priva.Actuator.Isolation.Histories.{Step, Reach, deletes_own}

-- The calls of a reconciliation of a private cluster, and its outcome.
run : Outcome (Unit {0}) × List Call
unfolding reconcile bring_up find_or_create require_active require_healthy new_state update_status
    collect_vips find_vip_lb_istio read_extension_spec get_extension_state get_cluster_for_extension
    get_global_config_for_private_network cloud_conf_of get_load_balancer_source_ranges store
    string_slice parse_ip_nets trim_space initial_client_openstack load_balancer_client
    network_client wait_active_and_get_load_balancer get_load_balancers find_load_balancer
    get_load_balancer_by_name collect_pages get_listener_by_name get_listeners update_allowed_cidrs
    check_listener check_listeners check_load_balancer get_floating_ips get_floating_ip_by_port_id
    detach_floating_ip attach_floating_ip ask or_fail pure fail non_nil on_error attempt ◌>>=◌
run = reconcile (runtime_of calm) (extension_of "private") []

run_returned : run.0 ≡ returned tt
unfolding run
run_returned = refl

reconcile-Reports_example : Reports (runtime_of calm) (extension_of "private") [] run.1
unfolding run
reconcile-Reports_example =
    reconcile-Reports (runtime_of calm) (extension_of "private") [] polling-WaitLaws
      small_codec-CodecLaws run.1 refl

reconcile-Allowed_example :
    Emits
      (Allowed (runtime_of calm) (extension_of "private"))
      (reconcile (runtime_of calm) (extension_of "private"))
reconcile-Allowed_example =
    reconcile-Allowed (runtime_of calm) polling-WaitLaws (extension_of "private")

delete-OnlyDeletes_example :
    Emits OnlyDeletes (delete (runtime_of vanished) (extension_of "private"))
delete-OnlyDeletes_example =
    delete-OnlyDeletes (runtime_of vanished) polling-WaitLaws (extension_of "private")

-- The calls of a deletion of a load balancer that is there.
deleting : Outcome (Unit {0}) × List Call
unfolding delete delete_load_balancer delete_and_wait get_cluster_for_extension
    get_global_config_for_private_network cloud_conf_of initial_client_openstack
    load_balancer_client get_load_balancers find_load_balancer get_load_balancer_by_name
    wait_loadbalancer_deleted is_not_found ask or_fail pure fail non_nil on_error attempt ◌>>=◌
deleting = delete (runtime_of vanished) (extension_of "private") []

delete_example :
    NothingFound (runtime_of vanished) (extension_of "private") deleting.1
    ⊎ FoundThenGone (runtime_of vanished) (extension_of "private") deleting.1
unfolding deleting
delete_example =
    delete_lem (runtime_of vanished) (extension_of "private") polling-WaitLaws [] deleting.1 refl

find_vip_lb_istio_example : find_vip_lb_istio (runtime_of calm) "istio-ingress" [] ≡ (
  gathered [] (first_addresses (keep is_istio calm.services)),
  Call.list_services "istio-ingress" ∷ [],
)
find_vip_lb_istio_example = find_vip_lb_istio_lem (runtime_of calm) "istio-ingress" []

-- The calls before the deletion, of a controller that serves one namespace.
abbrev two_back : List Call → List Call
two_back (c ∷ d ∷ h) = h
two_back h = []

abbrev IsShootA : String → Type 0
IsShootA namespace = namespace ≡ "shoot--a"

deletes_own_example :
    (namespace : String) × IsShootA namespace
    × Listed (runtime_of vanished).env (name_lb namespace) "lb-1" (two_back deleting.1)
unfolding deleting
deletes_own_example =
    deletes_own (runtime_of vanished) (λ e. false) IsShootA polling-WaitLaws
      (Call.get_load_balancer the_client "lb-1" ∷ []) (two_back deleting.1) the_client "lb-1" true
      (Reach.next [] deleting.1 Reach.start (Step.deleted (extension_of "private") refl refl))
