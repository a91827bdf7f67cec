-- ===== src/World/Calls.antt =====
-- The calls on OpenStack (through gophercloud), on Kubernetes and on the clock.
use gardener_extension_priva.Base.{ℕ, String, Bool, true, false, List, Option, keep}
use gardener_extension_priva.Fault.{Error, Result}
use gardener_extension_priva.OpenStack.{
  ProviderClient, ServiceClient, AuthOptions, Subnet, SubnetListOpts, Network, LoadBalancer, Flavor,
  Listener, ListenerListOpts, LoadBalancerCreateOpts, FloatingIp, FloatingIpListOpts,
  FloatingIpCreateOpts, PortForwarding,
}
use gardener_extension_priva.Kube.{Extension, Cluster, Infrastructure, Service, Secret}

pub data Call : Type 0 where
  authenticated_client : AuthOptions → Call
  new_network_v2 new_load_balancer_v2 : ProviderClient → String → Call
  list_subnets : ServiceClient → SubnetListOpts → Call
  get_network : ServiceClient → String → Call
  list_networks : ServiceClient → String → Call
  list_load_balancers : ServiceClient → String → Call
  get_load_balancer : ServiceClient → String → Call
  create_load_balancer : ServiceClient → LoadBalancerCreateOpts → Call
  delete_load_balancer : ServiceClient → String → Bool → Call
  list_flavors : ServiceClient → Call
  list_listeners : ServiceClient → ListenerListOpts → Call
  each_page_listeners : ServiceClient → ListenerListOpts → Call
  update_listener : ServiceClient → String → List String → Call
  list_floating_ips : ServiceClient → FloatingIpListOpts → Call
  update_floating_ip : ServiceClient → String → Option String → Call
  create_floating_ip : ServiceClient → FloatingIpCreateOpts → Call
  list_port_forwardings : ServiceClient → String → Call
  get_cluster : String → Call
  get_infrastructure : String → String → Call
  get_extension : String → String → Call
  get_secret : String → String → Call
  list_services : String → Call
  patch_status : Extension → Call
  now : Call

-- `List(…).AllPages()` gives pages or an error, and the pages are extracted or are malformed.
abbrev pub Pages : Type 0 → Type 0
Pages A = Result (Result (List A))

-- A listing by `EachPage` answers with its pages in order, each fetched and extracted or an error.
abbrev pub Response : Call → Type 0
Response (Call.authenticated_client _) = Result ProviderClient
Response (Call.new_network_v2 _ _) = Result ServiceClient
Response (Call.new_load_balancer_v2 _ _) = Result ServiceClient
Response (Call.list_subnets _ _) = Pages Subnet
Response (Call.get_network _ _) = Result Network
Response (Call.list_networks _ _) = Pages Network
Response (Call.list_load_balancers _ _) = Pages LoadBalancer
Response (Call.get_load_balancer _ _) = Result LoadBalancer
Response (Call.create_load_balancer _ _) = Result LoadBalancer
Response (Call.delete_load_balancer _ _ _) = Option Error
Response (Call.list_flavors _) = Pages Flavor
Response (Call.list_listeners _ _) = Pages Listener
Response (Call.each_page_listeners _ _) = List (Result (List Listener))
Response (Call.update_listener _ _ _) = Result Listener
Response (Call.list_floating_ips _ _) = Pages FloatingIp
Response (Call.update_floating_ip _ _ _) = Result FloatingIp
Response (Call.create_floating_ip _ _) = Result FloatingIp
Response (Call.list_port_forwardings _ _) = Pages PortForwarding
Response (Call.get_cluster _) = Result Cluster
Response (Call.get_infrastructure _ _) = Result Infrastructure
Response (Call.get_extension _ _) = Result Extension
Response (Call.get_secret _ _) = Result Secret
Response (Call.list_services _) = Result (List Service)
Response (Call.patch_status _) = Option Error
Response Call.now = ℕ

abbrev pub Env : Type 0
Env = (c : Call) → List Call → Response c

-- The calls that change something outside the program.
abbrev pub is_write : Call → Bool
is_write (Call.create_load_balancer _ _) = true
is_write (Call.delete_load_balancer _ _ _) = true
is_write (Call.update_listener _ _ _) = true
is_write (Call.update_floating_ip _ _ _) = true
is_write (Call.create_floating_ip _ _) = true
is_write (Call.patch_status _) = true
is_write _ = false

-- The writes among the calls made, newest first.
abbrev pub writes : List Call → List Call
writes = keep is_write
