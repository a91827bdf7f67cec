-- ===== src/Actuator/Progress.antt =====
-- What `Reconcile` achieves in a cloud that answers: it returns without an error, and the writes that
-- it makes are known.
pub mod Creation
pub mod Deletion
pub mod Addressing
pub mod Raising
pub mod Situations
use gardener_extension_priva.Base.{
  String, ◌≡◌, ◌≢◌, refl, ap, Bool, true, false, not, Option, none, some, List, [], ◌∷◌, ◌++◌, keep,
  All, ◌==◌, if◌then◌else◌,
}
use gardener_extension_priva.Constants.{flavor_type}
use gardener_extension_priva.Fault.{Error, ok, err, Outcome, returned, err_not_found}
use gardener_extension_priva.OpenStack.{
  LoadBalancer, Listener, FloatingIp, Subnet, Flavor, Network, LoadBalancerCreateOpts,
  FloatingIpCreateOpts,
}
use gardener_extension_priva.Kube.{Extension}
use gardener_extension_priva.World.{Call, M, writes, pure, fail}
use gardener_extension_priva.World.Runs.{
  Answers, Runs, Runs-elim, Runs-pure, Runs-fail, Runs-attempt, Runs-attempt_failed, Runs-after,
  Runs-bind, Runs-if_true,
}
use gardener_extension_priva.IpNet.{string_slice}
use gardener_extension_priva.Config.{Networks}
use gardener_extension_priva.Wait.{WaitLaws}
use gardener_extension_priva.FloatingSubnet.{
  network_opts, spec_subnets_for_network, matcher, matcher_configured, tweak_list_opts,
}
use gardener_extension_priva.FloatingSubnet.Listing.{spec_subnets_for_network_lem}
use gardener_extension_priva.LoadBalancer.Lookup.{is_valid, get_load_balancer_by_name}
use gardener_extension_priva.LoadBalancer.Creation.{
  is_worker_subnet, first_subnet, first_flavor, create_opts,
}
use gardener_extension_priva.LoadBalancer.Runs.{
  Connected, Running, IsCovered, lookup_found-Runs, lookup_none-Runs, create_load_balancer-Runs,
}
use gardener_extension_priva.FloatingAddress.{head_or_nil, available_in, any_subnet, fip_message}
use gardener_extension_priva.FloatingAddress.Runs.{
  at_port, attach_floating_ip-Runs, Settled, detach_none-Runs, attached-Runs, obtained-Runs,
}
use gardener_extension_priva.Actuator.{
  Runtime, name_lb, is_unhealthy, new_state, find_or_create, reconcile,
}
use gardener_extension_priva.Actuator.Runs.{
  Settings, config_in, patch, found-Runs, bring_up-Runs, reconcile-Runs,
}

-- The address that is reported where nothing has to change at the port: the internal one of a private
-- cluster without a floating IP, the floating one of a public cluster that has one.
abbrev pub fitting : LoadBalancer → Bool → List FloatingIp → Option String
fitting lb true [] = some lb.vip_address
fitting lb true (fip ∷ fips) = none
fitting lb false [] = none
fitting lb false (fip ∷ fips) = some fip.floating_ip

module _ (rt : Runtime) (ex : Extension) (s : Settings rt ex)
    (c : Connected rt.env (config_in rt ex s)) (lb : LoadBalancer) (w : List Call) where
  pub fitting-Settled :
      (fips : List FloatingIp) (address : String) (private : Bool)
      → fitting lb private fips ≡ some address
      → Settled rt.env rt.patterns rt.codec
          (config_in rt ex s)
          c
          lb
          ex
          w
          private
          (head_or_nil fips)
          address
          []
  fitting-Settled [] address true e =
      let p : lb.vip_address ≡ address = cc in
      rw⁻¹ p (detach_none-Runs rt.env rt.patterns rt.codec (config_in rt ex s) c lb ex w)
  fitting-Settled (fip ∷ fips) address true e = absurd (cc e)
  fitting-Settled [] address false e = absurd (cc e)
  fitting-Settled (fip ∷ fips) address false e =
      let p : fip.floating_ip ≡ address = cc in
      rw⁻¹ p (attached-Runs rt.env rt.patterns rt.codec (config_in rt ex s) c lb ex w fip)

module _ (rt : Runtime) (ex : Extension) (s : Settings rt ex) (laws : WaitLaws rt.wait)
    (c : Connected rt.env (config_in rt ex s)) (lb : LoadBalancer) {w : List Call}
    (running : Running rt.env c.compute lb w) where
  -- The load balancer is healthy, its listeners have the ranges, and the state can be stored.
  pub record Ready (w' : List Call) (address json : String) : Type 0 where
    pub listeners : List Listener
    pub healthy : is_unhealthy lb ≡ false
    pub lists :
        Answers rt.env w
          (Call.list_listeners c.compute (record { name = ""; loadbalancer_id = lb.id }))
          (ok (ok listeners))
    pub covered :
        All
          (IsCovered rt.env rt.wait laws c.compute lb running
            (string_slice rt.net (rt.order 0) s.ranges))
          listeners
    pub written : rt.codec.marshal_extension_state (new_state s.spec lb address s.state) ≡ ok json
    pub patches : Answers rt.env w' (patch rt ex s json) none

  -- Under the laws of `wait`, in a cloud that can be reached and whose answers depend on what was
  -- written, with settings that can be read: where the load balancer of the Extension is there,
  -- ACTIVE and healthy, its listeners have the source ranges, the floating IPs at its port fit the
  -- type of the cluster, and the patch of the status is accepted, `Reconcile` returns without an
  -- error, and this patch is the only write that it makes.
  pub reconcile_idle :
      (lbs : List LoadBalancer) (fips : List FloatingIp) (address json : String) (h : List Call)
      → writes h ≡ w
      → Answers rt.env w (Call.list_load_balancers c.compute (name_lb ex.namespace)) (ok (ok lbs))
      → keep is_valid lbs ≡ lb ∷ []
      → Answers rt.env w (at_port c.network lb) (ok (ok fips))
      → fitting lb s.spec.private_cluster fips ≡ some address
      → Ready w address json
      → ((reconcile rt ex h).0 ≡ returned tt)
        × (writes (reconcile rt ex h).1 ≡ patch rt ex s json ∷ w)
  reconcile_idle lbs fips address json h before lists one at fits r = Runs-elim h before (
      reconcile-Runs rt ex s lb (returned tt) [] (patch rt ex s json ∷ [])
        (found-Runs rt ex s c lb lbs lists one)
        (bring_up-Runs rt ex s laws c lb running r.healthy r.listeners address json [] r.lists
          r.covered
          (attach_floating_ip-Runs rt.env rt.patterns rt.codec (config_in rt ex s) c lb ex w s.spec
            fips address [] s.reads_spec at
            (fitting-Settled rt ex s c lb w fips address s.spec.private_cluster fits))
          r.written r.patches))
