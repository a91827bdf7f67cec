-- ===== src/LoadBalancer/Clients.antt =====
-- `InitialClientOpenstack`, and the service clients that the functions of pkg/helper make from it.
use gardener_extension_priva.Base.{String, []}
use gardener_extension_priva.Fault.{errorf_cause}
use gardener_extension_priva.OpenStack.{ProviderClient, ServiceClient, AuthOptions}
use gardener_extension_priva.World.{Call, Env, M, ask, or_fail, ◌>>=◌}
use gardener_extension_priva.Config.{PrivateNetworkConfig}

abbrev pub auth_options : PrivateNetworkConfig → AuthOptions
auth_options config = record {
  identity_endpoint = config.auth_opt.endpoint;
  username = config.auth_opt.username;
  password = config.auth_opt.password;
  domain_name = config.auth_opt.domain_name;
  tenant_id = config.auth_opt.tenant_id;
}

module _ (env : Env) (config : PrivateNetworkConfig) where
  unfoldable pub initial_client_openstack : M ProviderClient
  initial_client_openstack = do
    authenticated ← ask env (Call.authenticated_client (auth_options config))
    or_fail (errorf_cause "Failed to authenticate: %v" []) authenticated

  -- openstack.NewNetworkV2, with the message of the caller
  unfoldable pub network_client : String → ProviderClient → M ServiceClient
  network_client message provider = do
    made ← ask env (Call.new_network_v2 provider config.auth_opt.region)
    or_fail (errorf_cause message []) made

  -- openstack.NewLoadBalancerV2
  unfoldable pub load_balancer_client : String → ProviderClient → M ServiceClient
  load_balancer_client message provider = do
    made ← ask env (Call.new_load_balancer_v2 provider config.auth_opt.region)
    or_fail (errorf_cause message []) made
