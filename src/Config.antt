-- ===== src/Config.antt =====
-- The settings that a reconciliation works from: pkg/extensionspec/extensionspec.go,
-- pkg/helper/config.go, pkg/helper/cluster.go, pkg/helper/infrastructure.go, and the state that
-- pkg/controller/lifecycle/actuator.go keeps in an Extension.
pub mod Laws
use gardener_extension_priva.Base.{
  ℕ, String, Bool, false, Option, none, some, List, [], ◌∷◌, ◌++◌, ◌<>◌,
}
use gardener_extension_priva.Constants.{
  config_namespace, secret_config, flavor_type, default_load_balancer_source_ranges_ipv4,
}
use gardener_extension_priva.Fault.{
  Error, errorf, errorf_cause, err_cluster_object_not_complete, Result, ok, err,
}
use gardener_extension_priva.Kube.{
  RawExtension, Extension, Cluster, Seed, Shoot, Infrastructure, Secret,
}
use gardener_extension_priva.World.{Call, Env, M, pure, fail, ask, or_fail, non_nil, ◌>>=◌, ◌>>◌}
use gardener_extension_priva.IpNet.{Net, IpNet, parse_ip_nets}

-- a nil slice of CIDRs is `none`
pub record ExtensionSpec : Type 0 where
  pub private_cluster : Bool
  pub alow_cidrs : Option (List String)

pub record ExtensionState : Type 0 where
  pub internal_address_load_balancer : Option String
  pub external_address_load_balancer : Option String
  pub cluster_type : String

pub record Global : Type 0 where
  pub auth_url : String
  pub username : String
  pub password : String
  pub region : String
  pub tenant_id : String
  pub domain_name : String
  pub tenant_name : String

pub record LoadBalancerSection : Type 0 where
  pub monitor_timeout : String
  pub monitor_max_retries : ℕ
  pub network_id : String
  pub subnet_id : String
  pub floating_network_id : String
  pub floating_subnet_id : String
  pub lb_provider : String

pub record CloudConfig : Type 0 where
  pub global : Global
  pub load_balancer : LoadBalancerSection

pub record Networks : Type 0 where
  pub id : String
  pub workers : String

pub record NetworkWorker : Type 0 where
  pub network : Networks
  pub floating_pool_name : String

pub record AuthOpt : Type 0 where
  pub endpoint : String
  pub username : String
  pub password : String
  pub domain_name : String
  pub tenant_id : String
  pub region : String

pub record PrivateNetworkConfig : Type 0 where
  pub auth_opt : AuthOpt
  pub worker_network : Networks
  pub istio_subnet_id : String
  pub flavor_type : String
  pub floating_pool_name : String

-- `encoding/json` and gcfg at the types above. A JSON text read into a pointer may make it nil. gcfg
-- fills what it can, and its error is dropped by the code.
pub record Codec : Type 0 where
  pub unmarshal_extension_spec : String → Result (Option ExtensionSpec)
  pub unmarshal_extension_state : String → Result (Option ExtensionState)
  pub marshal_extension_state : ExtensionState → Result String
  pub unmarshal_network_worker : String → Result NetworkWorker
  pub read_cloud_config : String → CloudConfig × Option Error

-- x != nil && x.Raw != nil
abbrev pub raw_text : Option RawExtension → Option String
raw_text none = none
raw_text (some x) = x.raw

abbrev pub zero_extension_spec : ExtensionSpec
zero_extension_spec = record { private_cluster = false; alow_cidrs = none }

abbrev pub zero_extension_state : ExtensionState
zero_extension_state = record {
  internal_address_load_balancer = none;
  external_address_load_balancer = none;
  cluster_type = "";
}

abbrev zero_network_worker : NetworkWorker
zero_network_worker = record { network = record { id = ""; workers = "" }; floating_pool_name = "" }

module _ (codec : Codec) where
  open codec use {
    unmarshal_extension_spec, unmarshal_extension_state, unmarshal_network_worker,
    read_cloud_config,
  }

  -- The specification in an Extension, as `Reconcile` and `AttachFloatingIP` read it.
  unfoldable pub read_extension_spec : Extension → Result (Option ExtensionSpec)
  read_extension_spec ex = elim (raw_text ex.provider_config) [
    | none ↦ ok (some zero_extension_spec)
    | some raw ↦ unmarshal_extension_spec raw
  ]

  -- `getExtensionState`
  unfoldable pub get_extension_state : Extension → Result (Option ExtensionState)
  get_extension_state ex = elim (raw_text ex.state) [
    | none ↦ ok (some zero_extension_state)
    | some raw ↦ unmarshal_extension_state raw
  ]

  abbrev pub read_network_worker : Option String → Result NetworkWorker
  read_network_worker none = ok zero_network_worker
  read_network_worker (some raw) = unmarshal_network_worker raw

abbrev pub auth_opt_of : CloudConfig → AuthOpt
auth_opt_of cfg = record {
  endpoint = cfg.global.auth_url;
  username = cfg.global.username;
  password = cfg.global.password;
  domain_name = cfg.global.domain_name;
  tenant_id = cfg.global.tenant_id;
  region = cfg.global.region;
}

abbrev pub config_of : CloudConfig → NetworkWorker → PrivateNetworkConfig
config_of cfg net_spec = record {
  auth_opt = auth_opt_of cfg;
  worker_network = net_spec.network;
  istio_subnet_id = cfg.load_balancer.subnet_id;
  flavor_type = flavor_type;
  floating_pool_name = net_spec.floating_pool_name;
}

-- The text under `cloud.conf`, or an error: shared with the health check, which has the same lines.
unfoldable pub cloud_conf_of : Secret → Result String
cloud_conf_of secret = elim secret.cloud_conf [
  | none ↦ err (errorf "cloud.conf key not found in the secret" [])
  | some encoded_data ↦ ok encoded_data
]

module _ (env : Env) where
  abbrev pub complete : Cluster → Option Seed → Option Shoot → M Cluster
  complete cluster (some seed) (some shoot) = pure cluster
  complete cluster _ _ = fail err_cluster_object_not_complete

  unfoldable pub get_cluster_for_extension : Extension → M Cluster
  get_cluster_for_extension extension = do
    got ← ask env (Call.get_cluster extension.namespace)
    cluster ← or_fail (λ e. e) got
    complete cluster cluster.seed cluster.shoot

  unfoldable pub get_infrastructure_for_extension : Extension → String → M Infrastructure
  get_infrastructure_for_extension extension shoot_name = do
    got ← ask env (Call.get_infrastructure extension.namespace shoot_name)
    or_fail (λ e. e) got

  unfoldable pub get_global_config_for_private_network : Codec → Extension → M PrivateNetworkConfig
  get_global_config_for_private_network codec extension = do
    cluster ← get_cluster_for_extension extension
    shoot ← non_nil cluster.shoot
    net_spec ← or_fail (λ e. e) (read_network_worker codec (raw_text shoot.infrastructure_config))
    got ← ask env (Call.get_secret config_namespace secret_config)
    secret ← or_fail (λ e. e) got
    encoded_data ← or_fail (λ e. e) (cloud_conf_of secret)
    let cfg = (codec.read_cloud_config encoded_data).0
    pure (config_of cfg net_spec)

unfoldable pub source_range_specs : ExtensionSpec → PrivateNetworkConfig → List String
source_range_specs ext_spec config = elim ext_spec.alow_cidrs [
  | none ↦ default_load_balancer_source_ranges_ipv4 ∷ []
  | some cidrs ↦ cidrs ++ config.worker_network.workers ∷ []
]

abbrev source_range_error : List String → Error → Error
source_range_error specs =
    errorf_cause
      ("extension.Spec.allowCIDRs: %v is not valid. Expecting a list of IP ranges. "
        <> "For example, 10.0.0.0/24. Error msg: %v")
      specs

module _ (net : Net) where
  unfoldable pub get_load_balancer_source_ranges :
      ExtensionSpec → PrivateNetworkConfig → Result (IpNet net)
  unfolding source_range_specs
  get_load_balancer_source_ranges ext_spec config =
      let specs = source_range_specs ext_spec config in
      elim (parse_ip_nets net specs) [
        | err e ↦ err (source_range_error specs e)
        | ok ipnets ↦ ok ipnets
      ]
