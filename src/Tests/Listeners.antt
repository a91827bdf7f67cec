-- ===== src/Tests/Listeners.antt =====
-- Lookups of listeners, and a check that sets the ranges of one.
use gardener_extension_priva.World.{
  Call, writes, Env, ask, or_fail, pure, fail, non_nil, on_error, ◌>>=◌,
}
use gardener_extension_priva.Fault.{
  returned, ok, err, failed, consts_err_multiple_results, Outcome, err_default_404,
}
use gardener_extension_priva.Base.{some, refl, ◌≡◌, [], ◌∷◌, ◌↔◌, Option, List, arith}
use gardener_extension_priva.LoadBalancer.Runs.{Connected}
use gardener_extension_priva.LoadBalancer.Repair.{Checking, check_load_balancer_repairs}
use gardener_extension_priva.LoadBalancer.Listeners.{
  check_load_balancer, collect_pages, get_listener_by_name, get_listeners, update_allowed_cidrs,
  check_listener, check_listeners,
}
use gardener_extension_priva.Tests.Cloud.{
  env_of, calm, small_config, polling, polling-WaitLaws, active_lb, the_client, the_listener,
}
use gardener_extension_priva.OpenStack.{LoadBalancer}
use gardener_extension_priva.LoadBalancer.Clients.{initial_client_openstack, load_balancer_client}
use gardener_extension_priva.LoadBalancer.Waiting.{wait_active_and_get_load_balancer}
use gardener_extension_priva.LoadBalancer.Listeners.Pages.{
  HoldsOnly, get_listener_by_name_iff, get_listener_by_name_multiple,
}
use gardener_extension_priva.LoadBalancer.Listeners.Ranges.{
  AllRanged, check_load_balancer-AllRanged,
}

-- Two listeners of one name, on two pages, before a page that cannot be read.
abbrev doubled : Env
doubled (Call.each_page_listeners c o) h =
    ok (the_listener ∷ []) ∷ ok (the_listener ∷ []) ∷ err err_default_404 ∷ []
doubled c h = env_of calm c h

get_listener_by_name_iff_example :
    ((get_listener_by_name (env_of calm) the_client "l-443" "lb-1" []).0 ≡ returned the_listener)
    ↔ HoldsOnly the_listener (ok (the_listener ∷ []) ∷ [])
get_listener_by_name_iff_example =
    get_listener_by_name_iff (env_of calm) the_client "l-443" "lb-1" [] the_listener

get_listener_by_name_multiple_example :
    (get_listener_by_name doubled the_client "l-443" "lb-1" []).0
    ≡ failed consts_err_multiple_results
get_listener_by_name_multiple_example =
    get_listener_by_name_multiple doubled the_client "l-443" "lb-1" []
      ((the_listener ∷ []) ∷ (the_listener ∷ []) ∷ []) (err err_default_404 ∷ []) refl (omega arith)

checking : Outcome (Option LoadBalancer) × List Call
unfolding check_load_balancer get_listeners check_listeners check_listener get_listener_by_name
    collect_pages update_allowed_cidrs initial_client_openstack load_balancer_client
    wait_active_and_get_load_balancer ask or_fail pure fail non_nil on_error ◌>>=◌
checking = check_load_balancer (env_of calm) polling active_lb small_config ("10.0.0.0/24" ∷ []) []

check_load_balancer-AllRanged_example :
    AllRanged (env_of calm) polling polling-WaitLaws active_lb ("10.0.0.0/24" ∷ []) [] checking.1
unfolding checking
check_load_balancer-AllRanged_example =
    check_load_balancer-AllRanged (env_of calm) polling polling-WaitLaws active_lb
      ("10.0.0.0/24" ∷ []) small_config [] checking.1 (some active_lb) refl

abbrev calm_connected : Connected (env_of calm) small_config
calm_connected = record {
  provider = record { handle = 1 };
  compute = record { handle = 3 };
  network = record { handle = 2 };
  authenticates = λ h. refl;
  makes_compute = λ h. refl;
  makes_network = λ h. refl;
}

-- The one listener has no ranges, and is updated.
check_load_balancer_repairs_example :
    let r =
      check_load_balancer (env_of calm) polling active_lb small_config ("10.0.0.0/8" ∷ []) [] in
    (r.0 ≡ returned (some active_lb))
    × (writes r.1 ≡ Call.update_listener the_client "li-443" ("10.0.0.0/8" ∷ []) ∷ [])
check_load_balancer_repairs_example =
    check_load_balancer_repairs (env_of calm) small_config calm_connected polling polling-WaitLaws
      active_lb ("10.0.0.0/8" ∷ []) [] (the_listener ∷ [])
      (Call.update_listener the_client "li-443" ("10.0.0.0/8" ∷ []) ∷ []) [] refl (λ h q. refl)
      (Checking.repaired [] the_listener [] []
        (record {
          found = the_listener;
          updated = the_listener;
          pages = (the_listener ∷ []) ∷ [];
          paged = λ h q. refl;
          one = refl;
          differs = refl;
          accepted = λ h q. refl;
          running = record { active = refl; reads = λ h q. refl };
        })
        (Checking.done _))
