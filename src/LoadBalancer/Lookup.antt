-- ===== src/LoadBalancer/Lookup.antt =====
-- `GetLoadbalancerByName`: the one load balancer of a name that is not deleted or being deleted.
pub mod Laws
pub mod Source
use gardener_extension_priva.Base.{String, Bool, not, ◌&&◌, List, [], ◌∷◌, keep, ◌==◌}
use gardener_extension_priva.Fault.{Error, err_not_found, err_multiple_results, errorf_cause}
use gardener_extension_priva.OpenStack.{ServiceClient, LoadBalancer}
use gardener_extension_priva.World.{Call, Env, M, pure, fail, ask, or_fail, ◌>>=◌}
use gardener_extension_priva.Config.{PrivateNetworkConfig}
use gardener_extension_priva.LoadBalancer.Clients.{initial_client_openstack, load_balancer_client}

abbrev pub is_valid : LoadBalancer → Bool
is_valid lb =
    not (lb.provisioning_status == "DELETED") && not (lb.provisioning_status == "PENDING_DELETE")

abbrev pub single : List LoadBalancer → M LoadBalancer
single [] = fail err_not_found
single (lb ∷ []) = pure lb
single (lb ∷ lb' ∷ lbs) = fail err_multiple_results

module _ (env : Env) where
  unfoldable pub get_load_balancers : ServiceClient → String → M (List LoadBalancer)
  get_load_balancers client name = do
    listed ← ask env (Call.list_load_balancers client name)
    all_pages ← or_fail (λ e. e) listed
    or_fail (λ e. e) all_pages

  -- `getLoadbalancerByName`
  unfoldable pub find_load_balancer : ServiceClient → String → M LoadBalancer
  find_load_balancer client name = do
    all_load_balancers ← get_load_balancers client name
    single (keep is_valid all_load_balancers)

  unfoldable pub get_load_balancer_by_name : PrivateNetworkConfig → String → M LoadBalancer
  get_load_balancer_by_name config name = do
    provider ← initial_client_openstack env config
    client ← load_balancer_client env config "failed to create network client: %v" provider
    find_load_balancer client name
