-- ===== src/Actuator/Progress/Raising.antt =====
-- The second half of `Reconcile` on a load balancer that is ACTIVE, with what the cloud answers: it
-- repairs the listeners, gets the address, and patches the status.
use gardener_extension_priva.Base.{
  String, ◌≡◌, refl, false, none, some, List, [], ◌∷◌, ◌++◌, ==_of_eq,
}
use gardener_extension_priva.Constants.{provisioning_active_status}
use gardener_extension_priva.Fault.{ok, returned}
use gardener_extension_priva.OpenStack.{LoadBalancer, Listener}
use gardener_extension_priva.Kube.{Extension}
use gardener_extension_priva.World.{Call}
use gardener_extension_priva.World.Runs.{
  Answers, Runs, Runs-pure, Runs-or_fail, Runs-non_nil, Runs-on_error, Runs-if_true, Runs-if_false,
  Runs-write, Runs-bind, Runs-after,
}
use gardener_extension_priva.IpNet.{string_slice}
use gardener_extension_priva.Wait.{WaitLaws}
use gardener_extension_priva.LoadBalancer.Runs.{Connected}
use gardener_extension_priva.LoadBalancer.Repair.{Checking, check_load_balancer_repairs-Runs}
use gardener_extension_priva.Actuator.{
  Runtime, is_unhealthy, new_state, update_status, require_active, require_healthy, bring_up,
}
use gardener_extension_priva.Actuator.Runs.{Settings, config_in, patch}
use gardener_extension_priva.Actuator.Progress.Addressing.{Addressing, Addressing-Runs}

module _ (rt : Runtime) (ex : Extension) (s : Settings rt ex) (laws : WaitLaws rt.wait)
    (c : Connected rt.env (config_in rt ex s)) where
  -- The updates of listeners are `repairs`, and the writes for the address are `moves`.
  pub record Raising (lb : LoadBalancer) (w : List Call) : Type 0 where
    pub listeners : List Listener
    pub repairs : List Call
    pub moves : List Call
    pub address : String
    pub json : String
    pub active : lb.provisioning_status ≡ provisioning_active_status
    pub healthy : is_unhealthy lb ≡ false
    pub lists :
        Answers rt.env w
          (Call.list_listeners c.compute (record { name = ""; loadbalancer_id = lb.id }))
          (ok (ok listeners))
    pub checking :
        Checking rt.env rt.wait laws c.compute lb
          (string_slice rt.net (rt.order 0) s.ranges)
          w
          listeners
          repairs
    pub addressing : Addressing rt ex s c lb (repairs ++ w) address moves
    pub written : rt.codec.marshal_extension_state (new_state s.spec lb address s.state) ≡ ok json
    pub patches : Answers rt.env (moves ++ (repairs ++ w)) (patch rt ex s json) none

  module _ {lb : LoadBalancer} {w : List Call} (v : Raising lb w) where
    -- all writes, newest first
    abbrev pub raised : List Call
    raised = patch rt ex s v.json ∷ v.moves ++ v.repairs

    pub Raising-Runs :
        Runs w
          (bring_up rt ex s.spec (some s.state) (config_in rt ex s) s.ranges lb)
          (returned tt)
          raised
    unfolding bring_up require_active require_healthy update_status
    Raising-Runs =
        Runs-after _ _ tt _ _ (Runs-if_true _ _ _ _ _ (==_of_eq v.active) (Runs-pure tt)) (
          Runs-bind _ _ (some lb) _ v.repairs (patch rt ex s v.json ∷ v.moves)
            (Runs-on_error _ _ _ _ (
              check_load_balancer_repairs-Runs rt.env (config_in rt ex s) c rt.wait laws lb _
                v.listeners v.repairs v.lists v.checking))
            (Runs-bind _ _ v.address _ v.moves (patch rt ex s v.json ∷ [])
              (Runs-on_error _ _ _ _ (Addressing-Runs rt ex s c v.addressing))
              (Runs-after _ _ lb _ _ (Runs-non_nil _ _ refl) (
                Runs-after _ _ tt _ _ (Runs-if_false _ _ _ _ _ v.healthy (Runs-pure tt)) (
                  Runs-after _ _ s.state _ _ (Runs-non_nil _ _ refl) (
                    Runs-after _ _ v.json _ _ (Runs-or_fail _ _ _ v.written) (
                      Runs-bind _ _ none _ _ []
                        (Runs-write rt.env (patch rt ex s v.json) _ refl v.patches)
                        (Runs-pure tt))))))))
