-- ===== src/Tests/Waits.antt =====
-- Waits for a load balancer that takes its time, and for one that never gets there.
use gardener_extension_priva.Base.{
  ℕ, zero, suc, ◌<◌, ◌≡◌, refl, Option, none, some, [], arith, length, ltb, if◌then◌else◌,
}
use gardener_extension_priva.Constants.{steps}
use gardener_extension_priva.Fault.{ok, err, returned, err_default_404, is_not_found, Result}
use gardener_extension_priva.OpenStack.{LoadBalancer}
use gardener_extension_priva.World.{Call, Env}
use gardener_extension_priva.LoadBalancer.Waiting.{
  get_call, active_timeout, wait_active_and_get_load_balancer, wait_loadbalancer_deleted,
}
use gardener_extension_priva.LoadBalancer.Waiting.Progress.{
  repeated, IsPending, IsFound, wait_active_reached, wait_active_timeout, wait_deleted_reached,
}
use gardener_extension_priva.Tests.Cloud.{
  Scenario, calm, env_of, polling, polling-WaitLaws, the_client, active_lb, pending_lb,
}

-- The third read of a load balancer finds what is given.
abbrev at_third : Result LoadBalancer → Env
at_third r (Call.get_load_balancer c i) h = if ltb (length h) 2 then ok pending_lb else r
at_third r c h = env_of calm c h

abbrev stuck : Scenario
stuck = record calm { read = ok pending_lb }

is_pending : IsPending (ok pending_lb)
is_pending = (pending_lb, refl, (λ e. absurd (cc e)), (λ e. absurd (cc e)))

IsPending-first :
    (r : Result LoadBalancer) (i : ℕ)
    → i < 2
    → IsPending (
        at_third r
          (get_call (at_third r) the_client "lb-1")
          (repeated (get_call (at_third r) the_client "lb-1") i []))
IsPending-first r zero lt = is_pending
IsPending-first r (suc zero) lt = is_pending
IsPending-first r (suc (suc i)) lt = absurd (omega arith)

IsFound-first :
    (r : Result LoadBalancer) (i : ℕ)
    → i < 2
    → IsFound (
        at_third r
          (get_call (at_third r) the_client "lb-1")
          (repeated (get_call (at_third r) the_client "lb-1") i []))
IsFound-first r i lt = let (l, e, _, _) = IsPending-first r i lt in (l, e)

wait_active_reached_example :
    wait_active_and_get_load_balancer (at_third (ok active_lb)) polling the_client "lb-1" [] ≡ (
      returned (some active_lb, none),
      repeated (get_call (at_third (ok active_lb)) the_client "lb-1") 3 [],
    )
wait_active_reached_example =
    wait_active_reached (at_third (ok active_lb)) the_client "lb-1" polling polling-WaitLaws [] 2
      active_lb (omega arith) (IsPending-first (ok active_lb)) refl refl

wait_active_timeout_example :
    (last : Option LoadBalancer) × (wait_active_and_get_load_balancer
        (env_of stuck)
        polling
        the_client
        "lb-1"
        []
      ≡ (
        returned (last, some (active_timeout "lb-1")),
        repeated (get_call (env_of stuck) the_client "lb-1") steps [],
      ))
wait_active_timeout_example =
    wait_active_timeout (env_of stuck) the_client "lb-1" polling polling-WaitLaws []
      (λ i lt. is_pending)

wait_deleted_reached_example :
    wait_loadbalancer_deleted (at_third (err err_default_404)) polling the_client "lb-1" []
    ≡ (returned tt, repeated (get_call (at_third (err err_default_404)) the_client "lb-1") 3 [])
unfolding is_not_found
wait_deleted_reached_example =
    wait_deleted_reached (at_third (err err_default_404)) the_client "lb-1" polling polling-WaitLaws
      [] 2 err_default_404 (omega arith) (IsFound-first (err err_default_404)) refl refl
