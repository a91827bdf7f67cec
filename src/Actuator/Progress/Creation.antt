-- ===== src/Actuator/Progress/Creation.antt =====
-- What `Reconcile` achieves in a cloud that answers, where nothing is there yet.
use gardener_extension_priva.Base.{
  String, ◌≡◌, refl, Bool, true, false, none, some, List, [], ◌∷◌, keep, ◌==◌, if◌then◌else◌,
}
use gardener_extension_priva.Constants.{flavor_type}
use gardener_extension_priva.Fault.{ok, err, Outcome, returned, err_not_found}
use gardener_extension_priva.OpenStack.{
  LoadBalancer, FloatingIp, Subnet, Flavor, Network, LoadBalancerCreateOpts, FloatingIpCreateOpts,
}
use gardener_extension_priva.Kube.{Extension}
use gardener_extension_priva.World.{Call, M, writes, pure}
use gardener_extension_priva.World.Runs.{
  Answers, Runs, Runs-elim, Runs-pure, Runs-attempt_failed, Runs-after,
}
use gardener_extension_priva.IpNet.{string_slice}
use gardener_extension_priva.Config.{Networks}
use gardener_extension_priva.Wait.{WaitLaws}
use gardener_extension_priva.FloatingSubnet.{
  network_opts, spec_subnets_for_network, matcher, matcher_configured, tweak_list_opts,
}
use gardener_extension_priva.FloatingSubnet.Listing.{spec_subnets_for_network_lem}
use gardener_extension_priva.LoadBalancer.Lookup.{is_valid}
use gardener_extension_priva.LoadBalancer.Creation.{
  is_worker_subnet, first_subnet, first_flavor, create_opts,
}
use gardener_extension_priva.LoadBalancer.Runs.{
  Connected, Running, lookup_none-Runs, create_load_balancer-Runs,
}
use gardener_extension_priva.FloatingAddress.{available_in, any_subnet, fip_message}
use gardener_extension_priva.FloatingAddress.Runs.{at_port, attach_floating_ip-Runs, obtained-Runs}
use gardener_extension_priva.Actuator.{Runtime, name_lb, find_or_create, reconcile}
use gardener_extension_priva.Actuator.Runs.{
  Settings, config_in, patch, bring_up-Runs, reconcile-Runs,
}
use gardener_extension_priva.Actuator.Progress.{Ready}

-- the head of a filtered list, and a search for it
filter_step :
    {A B : Type 0} {w : List Call} (b : Bool) (x y : A) (xs rest : List A) (m n : M B)
    (o : Outcome B)
    → (x ≡ y → Runs w m o [])
    → (xs ≡ y ∷ rest → Runs w n o [])
    → (if b then x ∷ xs else xs) ≡ y ∷ rest
    → Runs w (if b then m else n) o []
filter_step true x y xs rest m n o f g e = f cc
filter_step false x y xs rest m n o f g e = g e

first_subnet-Runs :
    {w : List Call} (network : Networks) (subnets rest : List Subnet) (subnet : Subnet)
    → keep (is_worker_subnet network) subnets ≡ subnet ∷ rest
    → Runs w (first_subnet network subnets) (returned subnet) []
unfolding first_subnet
first_subnet-Runs network [] rest subnet e = absurd (cc e)
first_subnet-Runs network (s ∷ subnets) rest subnet e =
    filter_step (is_worker_subnet network s) s subnet (keep (is_worker_subnet network) subnets) rest
      (pure s) (first_subnet network subnets) _ (λ p. rw p (Runs-pure subnet))
      (first_subnet-Runs network subnets rest subnet) e

-- named by the type of flavor that the settings ask for
abbrev pub is_named : String → Flavor → Bool
is_named type_name f = f.name == type_name

first_flavor-Runs :
    {w : List Call} (type_name : String) (flavors rest : List Flavor) (flavor : Flavor)
    → keep (is_named type_name) flavors ≡ flavor ∷ rest
    → Runs w (first_flavor type_name flavors) (returned flavor.id) []
unfolding first_flavor
first_flavor-Runs type_name [] rest flavor e = absurd (cc e)
first_flavor-Runs type_name (f ∷ flavors) rest flavor e =
    filter_step (is_named type_name f) f flavor (keep (is_named type_name) flavors) rest (pure f.id)
      (first_flavor type_name flavors) _ (λ p. rw p (Runs-pure flavor.id))
      (first_flavor-Runs type_name flavors rest flavor) e

module _ (rt : Runtime) (ex : Extension) (s : Settings rt ex) where
  -- the request for the load balancer
  abbrev pub request : String → String → LoadBalancerCreateOpts
  request subnet_id flavor_id =
      create_opts (config_in rt ex s) flavor_id subnet_id s.vips (name_lb ex.namespace)
        (λ port. string_slice rt.net (rt.order port) s.ranges)

-- the request for a floating IP
abbrev pub address_in : Extension → LoadBalancer → Network → Network → String → FloatingIpCreateOpts
address_in ex lb pool network_lb subnet_id = record {
  floating_network_id = pool.id;
  port_id = lb.vip_port_id;
  description = fip_message ex;
  project_id = network_lb.project_id;
  subnet_id = subnet_id;
}

module _ (rt : Runtime) (ex : Extension) (s : Settings rt ex)
    (c : Connected rt.env (config_in rt ex s)) where
  pub subnets_of_pool-Runs :
      {w : List Call} (pool : Network) (subnet : Subnet) (subnets : List Subnet)
      → Answers rt.env w
          (Call.list_subnets c.network (network_opts pool.id))
          (ok (ok (subnet ∷ subnets)))
      → Runs w
          (spec_subnets_for_network rt.env c.network rt.patterns (some (any_subnet rt.env)) pool.id)
          (returned (subnet ∷ subnets))
          []
  unfolding matcher matcher_configured tweak_list_opts
  subnets_of_pool-Runs pool subnet subnets lists = record {
    at = λ h p. (
      Call.list_subnets c.network (network_opts pool.id) ∷ h,
      spec_subnets_for_network_lem rt.env c.network rt.patterns (any_subnet rt.env) pool.id h none
          subnet subnets refl (lists h p),
      p,
    );
  }

module _ (rt : Runtime) (ex : Extension) (s : Settings rt ex) (laws : WaitLaws rt.wait)
    (c : Connected rt.env (config_in rt ex s)) (lb : LoadBalancer) (w : List Call) where
  -- the call that creates the load balancer
  abbrev pub creation : String → String → Call
  creation subnet_id flavor_id =
      Call.create_load_balancer c.compute (request rt ex s subnet_id flavor_id)

  pub created-Runs :
      (lbs : List LoadBalancer) (subnets subnets' : List Subnet) (subnet : Subnet)
      (flavors flavors' : List Flavor) (flavor : Flavor) (made : LoadBalancer)
      → Answers rt.env w (Call.list_load_balancers c.compute (name_lb ex.namespace)) (ok (ok lbs))
      → keep is_valid lbs ≡ []
      → Answers rt.env w (Call.list_subnets c.network (network_opts "")) (ok (ok subnets))
      → keep (is_worker_subnet s.worker.network) subnets ≡ subnet ∷ subnets'
      → Answers rt.env w (Call.list_flavors c.compute) (ok (ok flavors))
      → keep (is_named flavor_type) flavors ≡ flavor ∷ flavors'
      → Answers rt.env w (creation subnet.id flavor.id) (ok made)
      → made.id ≡ lb.id
      → Running rt.env c.compute lb (creation subnet.id flavor.id ∷ w)
      → Runs w
          (find_or_create rt ex (config_in rt ex s) s.vips s.ranges)
          (returned (some lb))
          (creation subnet.id flavor.id ∷ [])
  unfolding find_or_create
  created-Runs lbs subnets subnets' subnet flavors flavors' flavor made lists none_valid
        lists_subnets first lists_flavors kind makes same running =
      Runs-after _ _ (err err_not_found) _ _
        (Runs-attempt_failed _ _ _
          (lookup_none-Runs rt.env (config_in rt ex s) c _ lbs lists none_valid))
        (create_load_balancer-Runs rt.env (config_in rt ex s) c rt.wait laws lb s.vips _ _ subnets
          subnet flavors flavor.id made lists_subnets
          (first_subnet-Runs _ subnets subnets' subnet first) lists_flavors
          (first_flavor-Runs _ flavors flavors' flavor kind) makes same running)

  -- Under the laws of `wait`, in a cloud that can be reached and whose answers depend on what was
  -- written, with settings that can be read: where no load balancer of the name is valid, the
  -- cluster is public, and, after the creation of the load balancer, there is no floating IP at
  -- its port and none available in the pool, `Reconcile` creates a load balancer in the first
  -- worker subnet, with the first flavor of the type that is asked for and the addresses of the
  -- Istio ingress as members, creates a floating IP for its port in the first subnet of the pool,
  -- patches the status with the new address, makes no other write, and returns without an error,
  -- if the cloud accepts these requests and the created load balancer is then read as ACTIVE and
  -- healthy with the ranges on its listeners.
  pub reconcile_from_nothing :
      (lbs : List LoadBalancer) (subnets subnets' pool_subnets : List Subnet)
      (subnet pool_subnet : Subnet) (flavors flavors' : List Flavor) (flavor : Flavor)
      (made : LoadBalancer) (network_lb pool : Network) (pools : List Network) (fip : FloatingIp)
      (json : String) (h : List Call)
      (running : Running rt.env c.compute lb (creation subnet.id flavor.id ∷ w))
      → writes h ≡ w
      → s.spec.private_cluster ≡ false
      → Answers rt.env w (Call.list_load_balancers c.compute (name_lb ex.namespace)) (ok (ok lbs))
      → keep is_valid lbs ≡ []
      → Answers rt.env w (Call.list_subnets c.network (network_opts "")) (ok (ok subnets))
      → keep (is_worker_subnet s.worker.network) subnets ≡ subnet ∷ subnets'
      → Answers rt.env w (Call.list_flavors c.compute) (ok (ok flavors))
      → keep (is_named flavor_type) flavors ≡ flavor ∷ flavors'
      → Answers rt.env w (creation subnet.id flavor.id) (ok made)
      → made.id ≡ lb.id
      → Answers rt.env (creation subnet.id flavor.id ∷ w) (at_port c.network lb) (ok (ok []))
      → Answers rt.env
          (creation subnet.id flavor.id ∷ w)
          (Call.get_network c.network s.worker.network.id)
          (ok network_lb)
      → Answers rt.env
          (creation subnet.id flavor.id ∷ w)
          (Call.list_networks c.network s.worker.floating_pool_name)
          (ok (ok (pool ∷ pools)))
      → Answers rt.env
          (creation subnet.id flavor.id ∷ w)
          (Call.list_floating_ips c.network (available_in pool network_lb))
          (ok (ok []))
      → Answers rt.env
          (creation subnet.id flavor.id ∷ w)
          (Call.list_subnets c.network (network_opts pool.id))
          (ok (ok (pool_subnet ∷ pool_subnets)))
      → Answers rt.env
          (creation subnet.id flavor.id ∷ w)
          (Call.create_floating_ip c.network (address_in ex lb pool network_lb pool_subnet.id))
          (ok fip)
      → Ready rt ex s laws c lb running
          (Call.create_floating_ip c.network (address_in ex lb pool network_lb pool_subnet.id)
            ∷ creation subnet.id flavor.id
            ∷ w)
          fip.floating_ip
          json
      → ((reconcile rt ex h).0 ≡ returned tt)
        × (writes (reconcile rt ex h).1
            ≡ patch rt ex s json
              ∷ Call.create_floating_ip c.network (address_in ex lb pool network_lb pool_subnet.id)
              ∷ creation subnet.id flavor.id
              ∷ w)
  reconcile_from_nothing lbs subnets subnets' pool_subnets subnet pool_subnet flavors flavors'
        flavor made network_lb pool pools fip json h running before public lists none_valid
        lists_subnets first lists_flavors kind makes same at got named free pool_lists obtains r =
      let ws : List Call =
        Call.create_floating_ip c.network (address_in ex lb pool network_lb pool_subnet.id) ∷ [] in
      Runs-elim h before (
        reconcile-Runs rt ex s lb (returned tt) _ _
          (created-Runs lbs subnets subnets' subnet flavors flavors' flavor made lists none_valid
            lists_subnets first lists_flavors kind makes same running)
          (bring_up-Runs rt ex s laws c lb running r.healthy r.listeners fip.floating_ip json ws
            r.lists r.covered
            (attach_floating_ip-Runs rt.env rt.patterns rt.codec (config_in rt ex s) c lb ex
              (creation subnet.id flavor.id ∷ w) s.spec [] fip.floating_ip ws s.reads_spec at
              (rw public (
                obtained-Runs rt.env rt.patterns rt.codec (config_in rt ex s) c lb ex
                  (creation subnet.id flavor.id ∷ w) network_lb pool pools pool_subnet pool_subnets
                  fip got named free
                  (subnets_of_pool-Runs rt ex s c pool pool_subnet pool_subnets pool_lists)
                  obtains)))
            r.written r.patches))
