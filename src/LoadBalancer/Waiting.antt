-- ===== src/LoadBalancer/Waiting.antt =====
-- `WaitActiveAndGetLoadBalancer` and `waitLoadbalancerDeleted`: polls under a backoff. The polls
-- close over the load balancer that was read last.
pub mod Laws
pub mod Progress
pub mod Reads
use gardener_extension_priva.Base.{
  ℕ, String, Bool, true, false, Option, none, some, List, [], ◌∷◌, ◌==◌, if◌then◌else◌,
}
use gardener_extension_priva.Constants.{
  provisioning_active_status, provisioning_error_status, wait_loadbalancer_init_delay,
  wait_loadbalancer_factor, wait_loadbalancer_delete_steps, steps,
}
use gardener_extension_priva.Fault.{Error, errorf, Result, ok, err, returned, is_not_found}
use gardener_extension_priva.OpenStack.{ServiceClient, LoadBalancer}
use gardener_extension_priva.World.{Call, Env, M, pure, fail, ◌>>=◌}
use gardener_extension_priva.Wait.{Backoff, Condition, Wait}

-- What `Extract` leaves in the pointer: nil beside an error.
abbrev pub loaded : Result LoadBalancer → Option LoadBalancer
loaded (ok lb) = some lb
loaded (err e) = none

abbrev pub active_verdict : String → Result LoadBalancer → Bool × Option Error
active_verdict id (err e) = (false, some e)
active_verdict id (ok lb) =
    if lb.provisioning_status == provisioning_active_status
    then (true, none)
    else if lb.provisioning_status == provisioning_error_status
    then (true, some (errorf "Loadbalancer [ID=%s] has gone into ERROR state" (id ∷ [])))
    else (false, none)

abbrev pub deleted_verdict : Result LoadBalancer → Bool × Option Error
deleted_verdict (ok lb) = (false, none)
deleted_verdict (err e) = if is_not_found e then (true, none) else (false, some e)

abbrev pub active_backoff : Backoff
active_backoff = record {
  duration = wait_loadbalancer_init_delay;
  factor = wait_loadbalancer_factor;
  steps = steps;
}

abbrev pub deleted_backoff : Backoff
deleted_backoff = record {
  duration = wait_loadbalancer_init_delay;
  factor = wait_loadbalancer_factor;
  steps = wait_loadbalancer_delete_steps;
}

-- What a poll closes over: the pointer and the calls made so far.
abbrev pub Polled : Type 0
Polled = Option LoadBalancer × List Call

-- if wait.Interrupted(err) { err = timeout }
abbrev pub on_interrupt : (Error → Bool) → Error → Option Error → Option Error
on_interrupt interrupted timeout none = none
on_interrupt interrupted timeout (some e) = if interrupted e then some timeout else some e

module _ (env : Env) (client : ServiceClient) (id : String) where
  abbrev pub get_call : Call
  get_call = Call.get_load_balancer client id

  abbrev pub poll_active : Condition Polled
  poll_active (lb, h) =
      (active_verdict id (env get_call h), (loaded (env get_call h), get_call ∷ h))

  abbrev pub poll_deleted : Condition Polled
  poll_deleted (lb, h) = (deleted_verdict (env get_call h), (lb, get_call ∷ h))

abbrev pub active_timeout : String → Error
active_timeout id =
    errorf "timeout waiting for the loadbalancer %s reach %s state "
      (id ∷ provisioning_active_status ∷ [])

abbrev pub deleted_timeout : Error
deleted_timeout = errorf "loadbalancer failed to delete within the allotted time" []

abbrev pub error_or_done : Option Error → M (Unit {0})
error_or_done none = pure tt
error_or_done (some e) = fail e

module _ (env : Env) (wait : Wait) (client : ServiceClient) (id : String) where
  -- Both results: the pointer, which may be nil beside an error, and the error.
  unfoldable pub wait_active_and_get_load_balancer : M (Option LoadBalancer × Option Error)
  wait_active_and_get_load_balancer h =
      let (e, p) =
        wait.exponential_backoff Polled active_backoff (poll_active env client id) (none, h) in
      (returned (p.0, on_interrupt wait.interrupted (active_timeout id) e), p.1)

  unfoldable pub wait_loadbalancer_deleted : M (Unit {0})
  wait_loadbalancer_deleted h =
      let (e, p) =
        wait.exponential_backoff Polled deleted_backoff (poll_deleted env client id) (none, h) in
      error_or_done (on_interrupt wait.interrupted deleted_timeout e) p.1
