-- ===== src/Constants.antt =====
-- pkg/constants/const.go. A `time.Duration` is a number of nanoseconds.
use gardener_extension_priva.Base.{ℕ, ◌*◌, String}

abbrev pub second : ℕ
second = 1000000000

abbrev pub minute : ℕ
minute = 60 * second

abbrev pub extension_type : String
extension_type = "private-network"

abbrev pub suffix : String
suffix = "-extension-service"

abbrev pub create_lb_operating_timeout : ℕ
create_lb_operating_timeout = 15 * minute

abbrev pub key_istio : String
key_istio = "istio-ingressgateway"

abbrev pub namespace_istio_ingress : String
namespace_istio_ingress = "istio-ingress"

abbrev pub provisioning_active_status : String
provisioning_active_status = "ACTIVE"

abbrev pub provisioning_error_status : String
provisioning_error_status = "ERROR"

abbrev pub operating_online_status : String
operating_online_status = "ONLINE"

abbrev pub operation_error_status : String
operation_error_status = "ERROR"

abbrev pub operation_offline_status : String
operation_offline_status = "OFFLINE"

abbrev pub prefix_lb : String
prefix_lb = "private_network"

abbrev pub cluster_type_public : String
cluster_type_public = "Public"

abbrev pub cluster_type_private : String
cluster_type_private = "Private"

abbrev pub secret_config : String
secret_config = "external-openstack-cloud-config-private"

abbrev pub config_namespace : String
config_namespace = "kube-system"

abbrev pub flavor_type : String
flavor_type = "basic"

abbrev pub default_load_balancer_source_ranges_ipv4 : String
default_load_balancer_source_ranges_ipv4 = "0.0.0.0/0"

abbrev pub wait_loadbalancer_init_delay : ℕ
wait_loadbalancer_init_delay = 1 * second

-- The factor 1.2, in tenths.
abbrev pub wait_loadbalancer_factor : ℕ
wait_loadbalancer_factor = 12

abbrev pub wait_loadbalancer_delete_steps : ℕ
wait_loadbalancer_delete_steps = 12

abbrev pub steps : ℕ
steps = 25
