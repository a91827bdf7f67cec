-- ===== src/Tests/Balancing.antt =====
-- Runs of the load balancer's operations.
use gardener_extension_priva.Base.{◌≡◌, refl, List, [], ◌∷◌, none, Option, true, ◌↔◌, ◌≢◌}
use gardener_extension_priva.Fault.{
  Outcome, returned, failed, is_not_found, err_not_found, Error, panicked,
}
use gardener_extension_priva.OpenStack.{LoadBalancer}
use gardener_extension_priva.World.{Call, writes, ask, or_fail, pure, fail, ◌>>=◌}
use gardener_extension_priva.LoadBalancer.Clients.{
  initial_client_openstack, load_balancer_client, network_client,
}
use gardener_extension_priva.LoadBalancer.Waiting.{
  wait_active_and_get_load_balancer, wait_loadbalancer_deleted,
}
use gardener_extension_priva.LoadBalancer.Creation.{
  create_load_balancer, find_subnet_by_cidr, get_flavor_id_by_type, first_subnet, first_flavor,
}
use gardener_extension_priva.LoadBalancer.Deletion.{delete_load_balancer, delete_and_wait}
use gardener_extension_priva.LoadBalancer.Waiting.Laws.{
  wait_active_lem, wait_deleted_lem, ReadGone, ReadActive, Repeats, get,
}
use gardener_extension_priva.LoadBalancer.Lookup.{is_valid, find_load_balancer}
use gardener_extension_priva.LoadBalancer.Lookup.Laws.{find_load_balancer_iff, SplitAt, Rejects}
use gardener_extension_priva.LoadBalancer.Deletion.Laws.{delete_immutable_lem}
use gardener_extension_priva.Tests.Cloud.{
  calm, env_of, polling, polling-WaitLaws, active_lb, small_config, vanished, the_client,
  pending_lb,
}
use gardener_extension_priva.Constants.{steps, wait_loadbalancer_delete_steps}

wait_active_example :
    (lb : Option LoadBalancer) × (e : Option Error) × (h' : List Call)
    × (wait_active_and_get_load_balancer (env_of calm) polling the_client "lb-1" []
        ≡ (returned (lb, e), h'))
    × Repeats (get (env_of calm) the_client "lb-1") steps [] h'
    × (e ≡ none → ReadActive (env_of calm) the_client "lb-1" lb h')
wait_active_example = wait_active_lem (env_of calm) the_client "lb-1" polling polling-WaitLaws []

wait_deleted_example :
    let r = wait_loadbalancer_deleted (env_of vanished) polling the_client "lb-1" [] in
    Repeats (get (env_of vanished) the_client "lb-1") wait_loadbalancer_delete_steps [] r.1
    × (r.0 ≢ panicked)
    × (r.0 ≡ returned tt → ReadGone (env_of vanished) the_client "lb-1" none r.1)
wait_deleted_example =
    wait_deleted_lem (env_of vanished) the_client "lb-1" polling polling-WaitLaws []

find_load_balancer_example :
    ((lb : LoadBalancer)
      → ((find_load_balancer (env_of calm) the_client "n" []).0 ≡ returned lb)
        ↔ SplitAt is_valid lb (active_lb ∷ []))
    × (((find_load_balancer (env_of calm) the_client "n" []).0 ≡ failed err_not_found)
        ↔ Rejects is_valid (active_lb ∷ []))
find_load_balancer_example =
    find_load_balancer_iff (env_of calm) the_client "n" [] (active_lb ∷ []) refl

creation : Outcome (Option LoadBalancer) × List Call
unfolding create_load_balancer initial_client_openstack load_balancer_client network_client
    find_subnet_by_cidr get_flavor_id_by_type first_subnet first_flavor
    wait_active_and_get_load_balancer ask or_fail pure fail ◌>>=◌
creation =
    create_load_balancer (env_of calm) polling small_config ("10.1.0.1" ∷ []) "n" (λ port. []) []

deletion : Outcome (Unit {0}) × List Call
unfolding delete_load_balancer delete_and_wait initial_client_openstack load_balancer_client
    wait_loadbalancer_deleted is_not_found ask or_fail pure fail ◌>>=◌
deletion = delete_load_balancer (env_of vanished) polling small_config active_lb true []

delete_immutable_example :
    let r = delete_load_balancer (env_of calm) polling small_config pending_lb true [] in
    (r.0 ≢ returned tt) × (writes r.1 ≡ [])
delete_immutable_example =
    delete_immutable_lem (env_of calm) polling small_config pending_lb true [] refl
