-- ===== src/LoadBalancer/Listeners/Laws.antt =====
-- That `CheckLoadBalancer` keeps its load balancer ACTIVE.
use gardener_extension_priva.Base.{String, ◌≡◌, refl, Option, none, some, List, [], ◌∷◌}
use gardener_extension_priva.Constants.{provisioning_active_status}
use gardener_extension_priva.Fault.{Error}
use gardener_extension_priva.OpenStack.{ServiceClient, LoadBalancer, Listener}
use gardener_extension_priva.World.{Call, Env, pure}
use gardener_extension_priva.World.Ensures.{
  Ensures, Ensures-pure, Ensures-fail, Ensures-bind, Ensures-then,
}
use gardener_extension_priva.Config.{PrivateNetworkConfig}
use gardener_extension_priva.Wait.{Wait, WaitLaws}
use gardener_extension_priva.LoadBalancer.Waiting.{wait_active_and_get_load_balancer}
use gardener_extension_priva.LoadBalancer.Waiting.Laws.{wait_active_lem}
use gardener_extension_priva.LoadBalancer.Listeners.{
  active_or_fail, check_listener, check_listeners, check_load_balancer,
}

abbrev pub IsActive : Option LoadBalancer → List Call → Type 0
IsActive lb h =
    (l : LoadBalancer) × (lb ≡ some l) × (l.provisioning_status ≡ provisioning_active_status)

module _ (env : Env) (wait : Wait) (laws : WaitLaws wait) (client : ServiceClient) where
  -- without an error, what was waited for is there
  pub waited-IsActive :
      (id : String)
      → Ensures
          (λ r h. r.1 ≡ none → IsActive r.0 h)
          (wait_active_and_get_load_balancer env wait client id)
  waited-IsActive id = record {
    at = λ h.
        let (lb, e, h', eq, reads, q) = wait_active_lem env client id wait laws h in
        rw eq (λ n. let (l, before, _, _, s, active) = q n in (l, s, active));
  }

  active_or_fail-none :
      (lb : Option LoadBalancer) (e : Option Error)
      → Ensures (λ _ _. e ≡ none) (active_or_fail lb e)
  active_or_fail-none lb none = Ensures-pure tt (λ h. refl)
  active_or_fail-none lb (some e) = Ensures-bind _ _ λ l. Ensures-fail _

  module _ (cidrs : List String) where
    check_listener-IsActive :
        (l : Listener) (lb : Option LoadBalancer)
        → Ensures IsActive (check_listener env wait client cidrs l lb)
    unfolding check_listener pure
    check_listener-IsActive l lb = Ensures-bind _ _ λ current. Ensures-bind _ _ λ listener_check.
        Ensures-bind _ _ λ _.
          Ensures-then (λ r h. r.1 ≡ none → IsActive r.0 h) _ _ (waited-IsActive current.id)
            λ waited h q.
              (Ensures-then (λ _ _. waited.1 ≡ none) _ _ (active_or_fail-none waited.0 waited.1)
                  (λ _ h' n. q n)).at
                h

    check_listeners-IsActive :
        (ls : List Listener) (lb : Option LoadBalancer)
        → IsActive lb []
        → Ensures IsActive (check_listeners env wait client cidrs ls lb)
    unfolding check_listeners
    check_listeners-IsActive [] lb a = Ensures-pure lb (λ h. a)
    check_listeners-IsActive (l ∷ ls) lb a =
        Ensures-then IsActive _ _ (check_listener-IsActive l lb)
          λ lb' h b. (check_listeners-IsActive ls lb' b).at h

-- Under the laws of `wait`, from a load balancer that is ACTIVE, a check that succeeds leaves one
-- that is ACTIVE, whatever happened to it in between.
pub check_load_balancer-IsActive :
    (env : Env) (wait : Wait) (laws : WaitLaws wait) (lb : LoadBalancer)
    (config : PrivateNetworkConfig) (cidrs : List String)
    → lb.provisioning_status ≡ provisioning_active_status
    → Ensures IsActive (check_load_balancer env wait lb config cidrs)
unfolding check_load_balancer
check_load_balancer-IsActive env wait laws lb config cidrs a = Ensures-bind _ _ λ provider.
    Ensures-bind _ _ λ client. Ensures-bind _ _ λ listeners.
      check_listeners-IsActive env wait laws client cidrs listeners (some lb) (lb, refl, a)
