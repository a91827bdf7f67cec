-- ===== src/Tests/Health.antt =====
-- The health check at a load balancer that is OFFLINE.
use gardener_extension_priva.Base.{false, [], List, none, refl}
use gardener_extension_priva.OpenStack.{LoadBalancer}
use gardener_extension_priva.World.{Call, ask, or_fail, pure, fail, attempt, ◌>>=◌}
use gardener_extension_priva.Fault.{Outcome}
use gardener_extension_priva.HealthCheck.{
  SingleCheckResult, check_load_balancer_health, ConditionStatus, DefaultHealthChecker, verdict,
  check,
}
use gardener_extension_priva.Config.{cloud_conf_of}
use gardener_extension_priva.LoadBalancer.Clients.{initial_client_openstack, load_balancer_client}
use gardener_extension_priva.LoadBalancer.Lookup.{
  get_load_balancers, find_load_balancer, get_load_balancer_by_name,
}
use gardener_extension_priva.LoadBalancer.Lookup.Source.{OnlyValid}
use gardener_extension_priva.HealthCheck.Soundness.{check_lem}
use gardener_extension_priva.HealthCheck.Laws.{IsHealthy}
use gardener_extension_priva.Tests.Cloud.{calm, env_of, small_codec, active_lb}

abbrev offline_lb : LoadBalancer
offline_lb = record active_lb { operating_status = "OFFLINE" }

abbrev checker : DefaultHealthChecker
checker = record { prefix_lb_name = "private_network"; extension_name = "private-network" }

-- The check of the load balancer of `calm`.
checked : Outcome SingleCheckResult × List Call
unfolding check check_load_balancer_health cloud_conf_of verdict initial_client_openstack
    load_balancer_client get_load_balancers find_load_balancer get_load_balancer_by_name ask or_fail
    pure fail attempt ◌>>=◌
checked = check (env_of calm) small_codec (λ e. false) checker "shoot--a" []

check_example :
    (lb : LoadBalancer) × OnlyValid (env_of calm) "private_network-shoot--a" lb checked.1
    × IsHealthy lb
unfolding checked
check_example =
    check_lem (env_of calm) small_codec (λ e. false) checker "shoot--a" [] checked.1
      (record { status = ConditionStatus.condition_true; detail = none }) refl refl
