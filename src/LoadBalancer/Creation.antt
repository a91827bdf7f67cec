-- ===== src/LoadBalancer/Creation.antt =====
-- `CreateLoadBalancer`, with what it looks up and the listeners that it asks for.
pub mod Laws
use gardener_extension_priva.Base.{
  ℕ, zero, suc, ◌/◌, ◌%◌, String, Bool, true, false, ◌&&◌, Option, none, some, List, [], ◌∷◌, ◌<>◌,
  map, nat_eq, ltb, ◌==◌, if◌then◌else◌,
}
use gardener_extension_priva.Fault.{Error, errorf, errorf_cause, Result, ok, err}
use gardener_extension_priva.OpenStack.{
  ServiceClient, Subnet, LoadBalancer, Flavor, MemberOpts, MonitorCreateOpts, PoolCreateOpts,
  ListenerCreateOpts, LoadBalancerCreateOpts,
}
use gardener_extension_priva.FloatingSubnet.{network_opts}
use gardener_extension_priva.World.{Call, Env, M, pure, fail, ask, or_fail, ◌>>=◌, ◌>>◌}
use gardener_extension_priva.Config.{Networks, PrivateNetworkConfig}
use gardener_extension_priva.Wait.{Wait}
use gardener_extension_priva.LoadBalancer.Clients.{
  initial_client_openstack, network_client, load_balancer_client,
}
use gardener_extension_priva.LoadBalancer.Waiting.{wait_active_and_get_load_balancer}

abbrev digit : ℕ → String
digit n =
    if nat_eq n 0
    then "0"
    else if nat_eq n 1
    then "1"
    else if nat_eq n 2
    then "2"
    else if nat_eq n 3
    then "3"
    else if nat_eq n 4
    then "4"
    else if nat_eq n 5
    then "5"
    else if nat_eq n 6
    then "6"
    else if nat_eq n 7
    then "7"
    else if nat_eq n 8
    then "8"
    else "9"

digits : ℕ → ℕ → String
digits zero n = ""
digits (suc fuel) n =
    let front = digits fuel (n / 10) in if ltb n 10 then digit n else front <> digit (n % 10)

-- the verb %d; a number has fewer digits than its value plus one
unfoldable pub decimal : ℕ → String
unfolding digits
decimal n = digits (suc n) n

abbrev pub port_name : String → ℕ → String
port_name name protocol_port = name <> ("-" <> decimal protocol_port)

-- `buildListeners`; `allowed_cidrs` is the slice made of the source ranges
unfoldable pub build_listeners :
    String → String → List String → List String → ℕ → ListenerCreateOpts
build_listeners name pool_member_subnet_id vip_lb_istio allowed_cidrs protocol_port = record {
  name = port_name name protocol_port;
  protocol = "TCP";
  protocol_port = protocol_port;
  allowed_cidrs = allowed_cidrs;
  default_pool = some (record {
    name = port_name name protocol_port;
    protocol = "TCP";
    lb_method = "ROUND_ROBIN";
    members =
        map
          (λ vip. record {
            address = vip;
            protocol_port = protocol_port;
            name = none;
            subnet_id = some pool_member_subnet_id;
          })
          vip_lb_istio;
    monitor = some (record {
      name = name;
      monitor_type = "TCP";
      delay = 5;
      timeout = 10;
      max_retries = 4;
      max_retries_down = 3;
    });
  });
}

-- Each call ranges over the map of source ranges anew: `cidrs` gives the slice made for a port.
unfoldable pub create_opts :
    PrivateNetworkConfig
    → String
    → String
    → List String
    → String
    → (ℕ → List String)
    → LoadBalancerCreateOpts
unfolding build_listeners
create_opts config flavor_id subnet_id istio_vip name cidrs = record {
  name = name;
  description = "Loadbalancer for private network cluster";
  provider = "amphora";
  flavor_id = flavor_id;
  vip_network_id = config.worker_network.id;
  vip_subnet_id = subnet_id;
  listeners =
      build_listeners name config.istio_subnet_id istio_vip (cidrs 443) 443
      ∷ build_listeners name config.istio_subnet_id istio_vip (cidrs 8443) 8443
      ∷ build_listeners name config.istio_subnet_id istio_vip (cidrs 8132) 8132
      ∷ [];
}

abbrev pub is_worker_subnet : Networks → Subnet → Bool
is_worker_subnet network s = s.network_id == network.id && s.cidr == network.workers

unfoldable pub first_subnet : Networks → List Subnet → M Subnet
first_subnet network [] = fail (
    errorf "unable to find the match subnet for network ID = %s - %s"
      (network.id ∷ network.workers ∷ []))
first_subnet network (s ∷ subnets) =
    let rest = first_subnet network subnets in if is_worker_subnet network s then pure s else rest

unfoldable pub first_flavor : String → List Flavor → M String
first_flavor type_name [] = fail (errorf "Not found flavor ID with type %s" (type_name ∷ []))
first_flavor type_name (f ∷ flavors) =
    let rest = first_flavor type_name flavors in if f.name == type_name then pure f.id else rest

module _ (env : Env) where
  unfoldable pub find_subnet_by_cidr : ServiceClient → Networks → M Subnet
  find_subnet_by_cidr client network = do
    listed ← ask env (Call.list_subnets client (network_opts ""))
    all_pages ← or_fail (errorf_cause "Failed to list subnets: %v" []) listed
    all_subnets ← or_fail (errorf_cause "Failed to extract subnets: %v" []) all_pages
    first_subnet network all_subnets

  unfoldable pub get_flavor_id_by_type : ServiceClient → String → M String
  get_flavor_id_by_type client type_name = do
    listed ← ask env (Call.list_flavors client)
    all_pages ← or_fail (errorf_cause "Failed to list flavors: %v" []) listed
    all_flavors ← or_fail (errorf_cause "Failed to extract flavors: %v" []) all_pages
    first_flavor type_name all_flavors

  abbrev pub created : Option LoadBalancer × Option Error → M (Option LoadBalancer)
  created (lb, none) = pure lb
  created (lb, some e) =
      fail (errorf_cause "error creating Loadbalancer for Private Network: [%v]" [] e)

  unfoldable pub create_load_balancer :
      Wait
      → PrivateNetworkConfig
      → List String
      → String
      → (ℕ → List String)
      → M (Option LoadBalancer)
  create_load_balancer wait config istio_vip name cidrs = do
    provider ← initial_client_openstack env config
    client_network ← network_client env config "failed to create network client: %v" provider
    client_lb ← load_balancer_client env config "failed to create network client: %v" provider
    subnet_worker ← find_subnet_by_cidr client_network config.worker_network
    flavor_id ← get_flavor_id_by_type client_lb config.flavor_type
    let opts = create_opts config flavor_id subnet_worker.id istio_vip name cidrs
    made ← ask env (Call.create_load_balancer client_lb opts)
    lb ← or_fail (λ e. e) made
    waited ← wait_active_and_get_load_balancer env wait client_lb lb.id
    created waited
