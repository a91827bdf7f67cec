-- ===== src/OpenStack.antt =====
-- The objects of gophercloud that pkg/helper/openstack.go reads and sends, with the fields that it
-- uses. A client is a handle that the library hands out.
use gardener_extension_priva.Base.{ℕ, String, List, Option}

-- gophercloud.ProviderClient, gophercloud.ServiceClient
pub record ProviderClient : Type 0 where
  pub handle : ℕ

pub record ServiceClient : Type 0 where
  pub handle : ℕ

-- gophercloud.AuthOptions
pub record AuthOptions : Type 0 where
  pub identity_endpoint : String
  pub username : String
  pub password : String
  pub domain_name : String
  pub tenant_id : String

pub record Subnet : Type 0 where
  pub id : String
  pub network_id : String
  pub name : String
  pub cidr : String
  pub tags : List String

-- subnets.ListOpts
pub record SubnetListOpts : Type 0 where
  pub network_id : String
  pub tags : String
  pub tags_any : String
  pub not_tags : String
  pub not_tags_any : String

pub record Network : Type 0 where
  pub id : String
  pub project_id : String

-- `created_at` in nanoseconds since the zero time
pub record LoadBalancer : Type 0 where
  pub id : String
  pub name : String
  pub vip_address : String
  pub vip_port_id : String
  pub provisioning_status : String
  pub operating_status : String
  pub created_at : ℕ

pub record Flavor : Type 0 where
  pub id : String
  pub name : String

pub record Listener : Type 0 where
  pub id : String
  pub name : String
  pub allowed_cidrs : List String

-- listeners.ListOpts
pub record ListenerListOpts : Type 0 where
  pub name : String
  pub loadbalancer_id : String

-- pools.BatchUpdateMemberOpts
pub record MemberOpts : Type 0 where
  pub address : String
  pub protocol_port : ℕ
  pub name : Option String
  pub subnet_id : Option String

-- monitors.CreateOpts
pub record MonitorCreateOpts : Type 0 where
  pub name : String
  pub monitor_type : String
  pub delay : ℕ
  pub timeout : ℕ
  pub max_retries : ℕ
  pub max_retries_down : ℕ

-- pools.CreateOpts
pub record PoolCreateOpts : Type 0 where
  pub name : String
  pub protocol : String
  pub lb_method : String
  pub members : List MemberOpts
  pub monitor : Option MonitorCreateOpts

-- listeners.CreateOpts
pub record ListenerCreateOpts : Type 0 where
  pub name : String
  pub protocol : String
  pub protocol_port : ℕ
  pub allowed_cidrs : List String
  pub default_pool : Option PoolCreateOpts

-- loadbalancers.CreateOpts
pub record LoadBalancerCreateOpts : Type 0 where
  pub name : String
  pub description : String
  pub provider : String
  pub flavor_id : String
  pub vip_network_id : String
  pub vip_subnet_id : String
  pub listeners : List ListenerCreateOpts

pub record FloatingIp : Type 0 where
  pub id : String
  pub description : String
  pub floating_ip : String
  pub port_id : String
  pub fixed_ip : String

-- floatingips.ListOpts
pub record FloatingIpListOpts : Type 0 where
  pub floating_network_id : String
  pub status : String
  pub port_id : String
  pub project_id : String

-- floatingips.CreateOpts
pub record FloatingIpCreateOpts : Type 0 where
  pub floating_network_id : String
  pub port_id : String
  pub description : String
  pub project_id : String
  pub subnet_id : String

pub record PortForwarding : Type 0 where
  pub id : String
