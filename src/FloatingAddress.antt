-- ===== src/FloatingAddress.antt =====
-- pkg/helper/openstack.go: the floating IP of a load balancer, `AttachFloatingIP` and
-- `GetFloatingIPLoadbalancer`.
pub mod Calls
pub mod Costs
pub mod Reuse
pub mod Breaks
pub mod Panics
pub mod Creation
pub mod Runs
use gardener_extension_priva.Base.{
  String, Bool, true, false, ◌&&◌, Option, none, some, List, [], ◌∷◌, ◌<>◌, ◌==◌, if◌then◌else◌,
}
use gardener_extension_priva.Fault.{Error, errorf, errorf_cause, Result, ok, err}
use gardener_extension_priva.OpenStack.{
  ServiceClient, Subnet, Network, LoadBalancer, FloatingIp, FloatingIpListOpts,
  FloatingIpCreateOpts, PortForwarding,
}
use gardener_extension_priva.Kube.{Extension}
use gardener_extension_priva.World.{
  Call, Env, Pages, M, pure, fail, panic, ask, or_fail, non_nil, on_error, attempt, handle, ◌>>=◌,
  ◌>>◌,
}
use gardener_extension_priva.FloatingSubnet.{FloatingSubnetSpec, Patterns, spec_subnets_for_network}
use gardener_extension_priva.Config.{
  ExtensionSpec, PrivateNetworkConfig, Codec, read_extension_spec,
}
use gardener_extension_priva.LoadBalancer.Clients.{initial_client_openstack, network_client}

abbrev pub fip_message : Extension → String
fip_message ex = "Floating IP for Private Kubernetes Cluster service from cluster " <> ex.namespace

abbrev pub no_filter : FloatingIpListOpts
no_filter = record { floating_network_id = ""; status = ""; port_id = ""; project_id = "" }

abbrev pub by_port : String → FloatingIpListOpts
by_port port_id = record {
  floating_network_id = "";
  status = "";
  port_id = port_id;
  project_id = "";
}

abbrev pub available_in : Network → Network → FloatingIpListOpts
available_in pool network_lb = record {
  floating_network_id = pool.id;
  status = "DOWN";
  port_id = "";
  project_id = network_lb.project_id;
}

-- The error of `AllPages` is dropped, and the nil page fails the type assertion of the extraction.
abbrev pub extract_dropping_error : Pages FloatingIp → M (List FloatingIp)
extract_dropping_error (err e) = panic
extract_dropping_error (ok page) = or_fail (λ e. e) page

abbrev pub head_or_nil : List FloatingIp → Option FloatingIp
head_or_nil [] = none
head_or_nil (ip ∷ ips) = some ip

abbrev pub first_network : String → List Network → M Network
first_network name [] = fail (errorf "not found network name %s" (name ∷ []))
first_network name (network ∷ networks) = pure network

abbrev pub is_free : FloatingIp → List PortForwarding → Bool
is_free fip [] = fip.port_id == ""
is_free fip (pf ∷ pfs) = false

module _ (env : Env) where
  -- `updateFloatingIP`: a request with the port. Without one the code means to detach the address,
  -- but `UpdateOpts` leaves a nil `port_id` out, and the request asks for no change.
  unfoldable pub update_floating_ip : ServiceClient → FloatingIp → Option String → M FloatingIp
  update_floating_ip client fip port_id = do
    updated ← ask env (Call.update_floating_ip client fip.id port_id)
    or_fail (errorf_cause "error updating LB floatingip %+v: %v" []) updated

  unfoldable pub get_floating_ips : ServiceClient → FloatingIpListOpts → M (List FloatingIp)
  get_floating_ips client opts = do
    listed ← ask env (Call.list_floating_ips client opts)
    extract_dropping_error listed

  unfoldable pub get_floating_ip_by_port_id : ServiceClient → String → M (Option FloatingIp)
  get_floating_ip_by_port_id client port_id = do
    ips ← get_floating_ips client (by_port port_id)
    pure (head_or_nil ips)

  unfoldable pub create_floating_ip : ServiceClient → FloatingIpCreateOpts → M FloatingIp
  create_floating_ip net_client opts = do
    made ← ask env (Call.create_floating_ip net_client opts)
    or_fail (errorf_cause "error creating LB floatingip: %s" []) made

  unfoldable pub get_network_by_name : ServiceClient → String → M Network
  get_network_by_name net_client name = do
    listed ← ask env (Call.list_networks net_client name)
    all_pages ← or_fail (errorf_cause "failed to list networks: %v" []) listed
    all_networks ← or_fail (errorf_cause "failed to extract networks: %v" []) all_pages
    first_network name all_networks

  -- One round of the loop: the description that the code sets on its copy of the address is not sent.
  unfoldable pub attach_if_free :
      ServiceClient
      → String
      → FloatingIp
      → List PortForwarding
      → Option FloatingIp
      → M (Option FloatingIp)
  attach_if_free client port_id fip all_pfs float_ip =
      if is_free fip all_pfs
      then (do updated ← update_floating_ip client fip (some port_id); pure (some updated))
      else pure float_ip

  -- The loop over the available addresses goes on after an address is attached, and what `floatIP`
  -- points to in the end is the last one.
  unfoldable pub attach_available :
      ServiceClient → String → String → List FloatingIp → Option FloatingIp → M (Option FloatingIp)
  attach_available client pool_id port_id [] float_ip = pure float_ip
  attach_available client pool_id port_id (fip ∷ fips) float_ip = do
    listed ← ask env (Call.list_port_forwardings client fip.id)
    all_pages ←
        or_fail
          (errorf_cause
            "failed when trying to list port forwarding of floating IP in pool %s, error: %v"
            (pool_id ∷ []))
          listed
    all_pfs ← or_fail (λ e. e) all_pages
    float_ip' ← attach_if_free client port_id fip all_pfs float_ip
    attach_available client pool_id port_id fips float_ip'

  -- The loop over the matching subnets, which ends at the first success: the pointer and the error
  -- that it leaves, from those that it started with. Beside an error the pointer is not read again,
  -- and stands here as nil.
  unfoldable pub create_in_subnets :
      ServiceClient
      → FloatingIpCreateOpts
      → List Subnet
      → Option FloatingIp × Option Error
      → M (Option FloatingIp × Option Error)
  create_in_subnets client opts [] last = pure last
  create_in_subnets client opts (subnet ∷ subnets) last = do
    tried ← attempt (create_floating_ip client (record opts { subnet_id = subnet.id }))
    handle tried (λ fip. pure (some fip, none))
        λ e. create_in_subnets client opts subnets (none, some e)

  abbrev pub created_or_fail : String → Option FloatingIp × Option Error → M FloatingIp
  created_or_fail pool_id (fip, none) = non_nil fip
  created_or_fail pool_id (fip, some e) =
      fail (
        errorf_cause "no free subnet matching found for network %s (last error %s)" (pool_id ∷ [])
          e)

  abbrev pub some_subnets : String → List Subnet → M (List Subnet)
  some_subnets pool_id [] = fail (errorf "no subnet matching found for network %s" (pool_id ∷ []))
  some_subnets pool_id (subnet ∷ subnets) = pure (subnet ∷ subnets)

  abbrev pub create_opts : Network → Network → LoadBalancer → Extension → FloatingIpCreateOpts
  create_opts pool network_lb lb ex = record {
    floating_network_id = pool.id;
    port_id = lb.vip_port_id;
    description = fip_message ex;
    project_id = network_lb.project_id;
    subnet_id = "";
  }

  abbrev pub any_subnet : FloatingSubnetSpec
  any_subnet = record { subnet_id = ""; subnet = ""; subnet_tags = "" }

  -- the creation of an address, where no available one was attached
  unfoldable pub create_in_pool :
      Patterns → ServiceClient → Network → Network → LoadBalancer → Extension → M FloatingIp
  create_in_pool patterns client pool network_lb lb ex = do
    matching ← spec_subnets_for_network env client patterns (some any_subnet) pool.id
    found_subnets ← some_subnets pool.id matching
    last ← create_in_subnets client (create_opts pool network_lb lb ex) found_subnets (none, none)
    created_or_fail pool.id last

  abbrev pub or_create : M FloatingIp → Option FloatingIp → M FloatingIp
  or_create create none = create
  or_create create (some fip) = pure fip

  -- the part of `AttachFloatingIP` for a public cluster whose port has no address
  unfoldable pub obtain_floating_ip :
      Patterns → ServiceClient → PrivateNetworkConfig → LoadBalancer → Extension → M FloatingIp
  obtain_floating_ip patterns client config lb ex = do
    got ← ask env (Call.get_network client config.worker_network.id)
    network_lb ←
        or_fail
          (errorf_cause
            "failed to get network of Loadbalancer for finding floating ip with ID '%s': %v"
            (config.worker_network.id ∷ []))
          got
    pool ← get_network_by_name client config.floating_pool_name
    available_ips ←
        on_error
          (errorf_cause "failed when trying to get available floating IP in pool %s, error: %v"
            (pool.id ∷ []))
          (get_floating_ips client (available_in pool network_lb))
    float_ip ← attach_available client pool.id lb.vip_port_id available_ips none
    or_create (create_in_pool patterns client pool network_lb lb ex) float_ip

  -- The part for a private cluster: an address that is still attached is updated without a port,
  -- which is meant to detach it.
  unfoldable pub detach_floating_ip : ServiceClient → LoadBalancer → Option FloatingIp → M String
  detach_floating_ip client lb none = pure lb.vip_address
  detach_floating_ip client lb (some fip) = do
    on_error (errorf_cause "erorr to detach fip from LB [ID=%s] private cluster: [%v]" (lb.id ∷ []))
        (do update_floating_ip client fip none; pure tt)
    pure lb.vip_address

  unfoldable pub attached_or_obtained :
      Patterns
      → ServiceClient
      → PrivateNetworkConfig
      → LoadBalancer
      → Extension
      → Option FloatingIp
      → M String
  attached_or_obtained patterns client config lb ex (some fip) = pure fip.floating_ip
  attached_or_obtained patterns client config lb ex none = do
    fip ← obtain_floating_ip patterns client config lb ex
    pure fip.floating_ip

  unfoldable pub attach_floating_ip :
      Patterns → Codec → Option LoadBalancer → PrivateNetworkConfig → Extension → M String
  attach_floating_ip patterns codec lb config ex = do
    provider ← initial_client_openstack env config
    client ← network_client env config "failed to create network client: %v" provider
    current ← non_nil lb
    spec ← or_fail (λ e. e) (read_extension_spec codec ex)
    float_ip ←
        on_error
          (errorf_cause "failed when getting floating IP for port %s: %v"
            (current.vip_port_id ∷ []))
          (get_floating_ip_by_port_id client current.vip_port_id)
    ext_spec ← non_nil spec
    if ext_spec.private_cluster
        then detach_floating_ip client current float_ip
        else attached_or_obtained patterns client config current ex float_ip

  unfoldable pub first_with_fixed_ip : LoadBalancer → List FloatingIp → M String
  first_with_fixed_ip lb [] =
      fail (errorf "Unable to get floating IP of Loadbalancer [ID=%s]: NOT FOUND" (lb.id ∷ []))
  first_with_fixed_ip lb (fip ∷ fips) =
      let rest = first_with_fixed_ip lb fips in
      if fip.fixed_ip == lb.vip_address then pure fip.floating_ip else rest

  -- `GetFloatingIPLoadbalancer`
  unfoldable pub get_floating_ip_load_balancer : PrivateNetworkConfig → LoadBalancer → M String
  get_floating_ip_load_balancer config lb = do
    provider ←
        on_error
          (errorf_cause "Failed to create provider for get Floating IP of LB [ID=%s]: [%v]"
            (lb.id ∷ []))
          (initial_client_openstack env config)
    client ← network_client env config "Failed to create networking client: %v" provider
    listed ← ask env (Call.list_floating_ips client no_filter)
    all_pages ← or_fail (errorf_cause "Failed to list floating IPs: %v" []) listed
    all_floating_ips ← or_fail (errorf_cause "Failed to extract floating IPs: %v" []) all_pages
    first_with_fixed_ip lb all_floating_ips
