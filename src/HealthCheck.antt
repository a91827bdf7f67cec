-- ===== src/HealthCheck.antt =====
-- pkg/controller/healthcheck/util.go: the health check of an extension's load balancer.
pub mod Laws
pub mod Soundness
use gardener_extension_priva.Base.{
  String, Bool, Option, none, some, List, [], ◌∷◌, ◌<>◌, ◌||◌, ◌==◌, if◌then◌else◌,
}
use gardener_extension_priva.Constants.{
  config_namespace, secret_config, provisioning_active_status, provisioning_error_status,
  operating_online_status, operation_error_status, operation_offline_status,
}
use gardener_extension_priva.Fault.{Error, errorf_cause, Result, ok, err, is_err_not_found}
use gardener_extension_priva.OpenStack.{LoadBalancer}
use gardener_extension_priva.Kube.{Extension}
use gardener_extension_priva.World.{Call, Env, M, pure, fail, ask, or_fail, attempt, handle, ◌>>=◌}
use gardener_extension_priva.Config.{
  CloudConfig, PrivateNetworkConfig, Codec, auth_opt_of, cloud_conf_of,
}
use gardener_extension_priva.LoadBalancer.Lookup.{get_load_balancer_by_name}

pub record DefaultHealthChecker : Type 0 where
  pub prefix_lb_name : String
  pub extension_name : String

unfoldable pub new_loadbalancer_checker : String → String → DefaultHealthChecker
new_loadbalancer_checker prefix_name ex_name = record {
  prefix_lb_name = prefix_name;
  extension_name = ex_name;
}

pub data ConditionStatus : Type 0 where
  condition_true condition_false condition_progressing : ConditionStatus

-- A detail keeps its format and its arguments, and is `none` where the code sets none.
pub record SingleCheckResult : Type 0 where
  pub status : ConditionStatus
  pub detail : Option (String × List String)

abbrev pub result_of : ConditionStatus → String → List String → SingleCheckResult
result_of status format args = record { status = status; detail = some (format, args) }

-- The verdict on a load balancer that was found.
unfoldable pub verdict : String → String → LoadBalancer → SingleCheckResult
verdict name_lb namespace lb =
    let args = name_lb ∷ namespace ∷ lb.operating_status ∷ [] in
    if lb.provisioning_status == provisioning_active_status
    then (if lb.operating_status == operating_online_status
        then record { status = condition_true; detail = none }
        else if lb.operating_status == operation_error_status
            || lb.operating_status == operation_offline_status
        then result_of condition_false "Operating status of LB [Name=%s] in namespace %q is %s" args
        else result_of condition_progressing
            "Operating status of LB [Name=%s] in namespace %q is not Active: Status=%s" args)
    else if lb.provisioning_status == provisioning_error_status
    then result_of condition_false "Provisioning status of LB [Name=%s] in namespace %q is %s" args
    else result_of condition_progressing
        "Provisioning status of LB [Name=%s] in namespace %q is not Active: Status=%s" args

-- The health check sets only the credentials.
abbrev check_config : CloudConfig → PrivateNetworkConfig
check_config cfg = record {
  auth_opt = auth_opt_of cfg;
  worker_network = record { id = ""; workers = "" };
  istio_subnet_id = "";
  flavor_type = "";
  floating_pool_name = "";
}

-- `is_api_not_found` is apierrors.IsNotFound.
module _ (env : Env) (codec : Codec) (is_api_not_found : Error → Bool) where
  unfoldable pub check_load_balancer_health :
      DefaultHealthChecker → String → Extension → M SingleCheckResult
  check_load_balancer_health checker namespace extension = do
    got ← ask env (Call.get_secret config_namespace secret_config)
    secret ← or_fail (λ e. e) got
    encoded_data ← or_fail (λ e. e) (cloud_conf_of secret)
    let config = check_config (codec.read_cloud_config encoded_data).0
    let name_lb = checker.prefix_lb_name <> ("-" <> namespace)
    found ← attempt (get_load_balancer_by_name env config name_lb)
    handle found (λ lb. pure (verdict name_lb namespace lb))
        λ e.
          if is_err_not_found e
          then pure (
              result_of condition_false
                "Not Found Loadbalancer [Name=%s] for private network extension in namespace %q"
                (name_lb ∷ namespace ∷ []))
          else fail (
              errorf_cause "error getting loadbalancer for extension %s: [%v]"
                (extension.namespace ∷ []) e)

  -- `Check`, for a request in a namespace
  unfoldable pub check : DefaultHealthChecker → String → M SingleCheckResult
  check checker namespace = do
    got ← ask env (Call.get_extension namespace checker.extension_name)
    handle got (λ extension. check_load_balancer_health checker namespace extension)
        λ e.
          if is_api_not_found e
          then pure (
              result_of condition_false "Private Network extension in namespace %q not found"
                (namespace ∷ []))
          else fail (
              errorf_cause
                "unable to check Loadbalancer. Failed to get extension in namespace %q: %w"
                (namespace ∷ []) e)
