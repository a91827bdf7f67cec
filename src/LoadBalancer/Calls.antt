-- ===== src/LoadBalancer/Calls.antt =====
-- Which calls the functions for load balancers make: the lookups and the waits only read.
use gardener_extension_priva.Base.{
  ℕ, String, ◌≡◌, refl, sym, subst, List, [], ◌∷◌, All, Bool, Option, none, some, ◌==◌,
}
use gardener_extension_priva.Fault.{Error, Result, ok, err}
use gardener_extension_priva.OpenStack.{
  ProviderClient, ServiceClient, LoadBalancer, Listener, Subnet, Flavor,
}
use gardener_extension_priva.World.{Call, Env}
use gardener_extension_priva.World.Emits.{
  Emits, Grown, Emits-pure, Emits-if, Emits-bind, Emits-on_error, emits_rules,
}
use gardener_extension_priva.World.Reads.{IsRead, CoversReads}
use gardener_extension_priva.Config.{PrivateNetworkConfig, Networks}
use gardener_extension_priva.Wait.{Wait, WaitLaws}
use gardener_extension_priva.LoadBalancer.Clients.{
  initial_client_openstack, network_client, load_balancer_client,
}
use gardener_extension_priva.LoadBalancer.Waiting.{
  wait_active_and_get_load_balancer, wait_loadbalancer_deleted,
}
use gardener_extension_priva.LoadBalancer.Waiting.Laws.{Repeats, wait_active_lem, wait_deleted_lem}
use gardener_extension_priva.LoadBalancer.Lookup.{
  single, get_load_balancers, find_load_balancer, get_load_balancer_by_name,
}
use gardener_extension_priva.LoadBalancer.Creation.{
  is_worker_subnet, first_subnet, first_flavor, find_subnet_by_cidr, get_flavor_id_by_type, created,
  create_opts, create_load_balancer,
}
use gardener_extension_priva.LoadBalancer.Deletion.{
  refuse_delete, delete_and_wait, delete_load_balancer,
}
use gardener_extension_priva.LoadBalancer.Listeners.{
  only_listener, active_or_fail, get_listener_by_name, get_listeners, update_allowed_cidrs,
  check_listener, check_listeners, check_load_balancer,
}

module _ (P : Call → Type 0) (covers : CoversReads P) (env : Env) where
  pub initial_client-Emits :
      (config : PrivateNetworkConfig) → Emits P (initial_client_openstack env config)
  unfolding initial_client_openstack
  initial_client-Emits config = search (emits_rules, covers)

  pub network_client-Emits :
      (config : PrivateNetworkConfig) (message : String) (p : ProviderClient)
      → Emits P (network_client env config message p)
  unfolding network_client
  network_client-Emits config message p = search (emits_rules, covers)

  pub load_balancer_client-Emits :
      (config : PrivateNetworkConfig) (message : String) (p : ProviderClient)
      → Emits P (load_balancer_client env config message p)
  unfolding load_balancer_client
  load_balancer_client-Emits config message p = search (emits_rules, covers)

  single-Emits : (lbs : List LoadBalancer) → Emits P (single lbs)
  single-Emits [] = search emits_rules
  single-Emits (lb ∷ []) = search emits_rules
  single-Emits (lb ∷ l ∷ lbs) = search emits_rules

  pub get_load_balancer_by_name-Emits :
      (config : PrivateNetworkConfig) (name : String)
      → Emits P (get_load_balancer_by_name env config name)
  unfolding get_load_balancer_by_name find_load_balancer get_load_balancers
  get_load_balancer_by_name-Emits config name =
      search (emits_rules, covers, single-Emits, initial_client-Emits, load_balancer_client-Emits)
        depth 12

  first_subnet-Emits : (network : Networks) (l : List Subnet) → Emits P (first_subnet network l)
  unfolding first_subnet
  first_subnet-Emits network [] = search emits_rules
  first_subnet-Emits network (s ∷ l) =
      Emits-if (is_worker_subnet network s) _ _ (Emits-pure s) (first_subnet-Emits network l)

  first_flavor-Emits : (name : String) (l : List Flavor) → Emits P (first_flavor name l)
  unfolding first_flavor
  first_flavor-Emits name [] = search emits_rules
  first_flavor-Emits name (f ∷ l) =
      Emits-if (f.name == name) _ _ (Emits-pure f.id) (first_flavor-Emits name l)

  pub find_subnet-Emits :
      (client : ServiceClient) (network : Networks)
      → Emits P (find_subnet_by_cidr env client network)
  unfolding find_subnet_by_cidr
  find_subnet-Emits client network = search (emits_rules, covers, first_subnet-Emits)

  pub get_flavor-Emits :
      (client : ServiceClient) (name : String) → Emits P (get_flavor_id_by_type env client name)
  unfolding get_flavor_id_by_type
  get_flavor-Emits client name = search (emits_rules, covers, first_flavor-Emits)

  Repeats-All : (c : Call) (calls : List Call) → P c → All (λ d. d ≡ c) calls → All P calls
  Repeats-All c [] p h = tt
  Repeats-All c (d ∷ calls) p h = (subst P (sym h.0) p, Repeats-All c calls p h.1)

  Repeats-Grown : (c : Call) (n : ℕ) (h h' : List Call) → IsRead c → Repeats c n h h' → Grown P h h'
  Repeats-Grown c n h h' r (calls, e, le, p) = (calls, e, Repeats-All c calls (covers c r) p)

  module _ (wait : Wait) (laws : WaitLaws wait) where
    pub wait_active-Emits :
        (client : ServiceClient) (id : String)
        → Emits P (wait_active_and_get_load_balancer env wait client id)
    wait_active-Emits client id = record {
      at = λ h.
          let (lb, e, h', eq, reads, q) = wait_active_lem env client id wait laws h in
          rw eq (Repeats-Grown _ _ h h' refl reads);
    }

    pub wait_deleted-Emits :
        (client : ServiceClient) (id : String)
        → Emits P (wait_loadbalancer_deleted env wait client id)
    wait_deleted-Emits client id = record {
      at = λ h. Repeats-Grown _ _ h _ refl (wait_deleted_lem env client id wait laws h).0;
    }

    created-Emits : (p : Option LoadBalancer × Option Error) → Emits P (created env p)
    created-Emits (lb, none) = search emits_rules
    created-Emits (lb, some e) = search emits_rules

    -- the one write of a creation, with the options that it is made with
    pub create_load_balancer-Emits :
        (config : PrivateNetworkConfig) (istio_vip : List String) (name : String)
        (cidrs : ℕ → List String)
        → ((client : ServiceClient) (flavor_id subnet_id : String)
            → P (
                Call.create_load_balancer client
                  (create_opts config flavor_id subnet_id istio_vip name cidrs)))
        → Emits P (create_load_balancer env wait config istio_vip name cidrs)
    unfolding create_load_balancer
    create_load_balancer-Emits config istio_vip name cidrs write =
        search
          (
            emits_rules, covers, write, initial_client-Emits, network_client-Emits,
            load_balancer_client-Emits, find_subnet-Emits, get_flavor-Emits, wait_active-Emits,
            created-Emits,
          )
          depth 20

    refuse_delete-Emits : (id : String) (o : Option Error) → Emits P (refuse_delete id o)
    refuse_delete-Emits id none = search emits_rules
    refuse_delete-Emits id (some e) = search emits_rules

    -- the one write of a deletion
    pub delete_load_balancer-Emits :
        (config : PrivateNetworkConfig) (lb : LoadBalancer) (cascade : Bool)
        → ((client : ServiceClient) → P (Call.delete_load_balancer client lb.id cascade))
        → Emits P (delete_load_balancer env wait config lb cascade)
    unfolding delete_load_balancer delete_and_wait
    delete_load_balancer-Emits config lb cascade write =
        search
          (
            emits_rules, covers, write, initial_client-Emits, load_balancer_client-Emits,
            wait_deleted-Emits, refuse_delete-Emits,
          )
          depth 20

    only_listener-Emits : (r : Result (List Listener)) → Emits P (only_listener r)
    only_listener-Emits (err e) = search emits_rules
    only_listener-Emits (ok []) = search emits_rules
    only_listener-Emits (ok (l ∷ ls)) = search emits_rules

    pub active_or_fail-Emits :
        (lb : Option LoadBalancer) (e : Option Error) → Emits P (active_or_fail lb e)
    active_or_fail-Emits lb none = search emits_rules
    active_or_fail-Emits lb (some e) = search emits_rules

    module _ (client : ServiceClient) (cidrs : List String)
        (write : (id : String) → P (Call.update_listener client id cidrs)) where
      pub get_listener-Emits :
          (name lb_id : String) → Emits P (get_listener_by_name env client name lb_id)
      unfolding get_listener_by_name
      get_listener-Emits name lb_id = search (emits_rules, covers, only_listener-Emits)

      pub update_allowed-Emits : (l : Listener) → Emits P (update_allowed_cidrs env client l cidrs)
      unfolding update_allowed_cidrs
      update_allowed-Emits l = search (emits_rules, write) depth 12

      check_listener-Emits :
          (l : Listener) (lb : Option LoadBalancer)
          → Emits P (check_listener env wait client cidrs l lb)
      unfolding check_listener
      check_listener-Emits l lb =
          search
            (
              emits_rules, get_listener-Emits, update_allowed-Emits, wait_active-Emits,
              active_or_fail-Emits,
            )
            depth 12

      pub check_listeners-Emits :
          (ls : List Listener) (lb : Option LoadBalancer)
          → Emits P (check_listeners env wait client cidrs ls lb)
      unfolding check_listeners
      check_listeners-Emits [] lb = search emits_rules
      check_listeners-Emits (l ∷ ls) lb =
          Emits-bind _ _ (check_listener-Emits l lb) (λ lb'. check_listeners-Emits ls lb')

    pub get_listeners-Emits :
        (client : ServiceClient) (lb_id : String) → Emits P (get_listeners env client lb_id)
    unfolding get_listeners
    get_listeners-Emits client lb_id = search (emits_rules, covers)

    -- the writes of a check: the same CIDRs for every listener
    pub check_load_balancer-Emits :
        (lb : LoadBalancer) (config : PrivateNetworkConfig) (cidrs : List String)
        → ((client : ServiceClient) (id : String) → P (Call.update_listener client id cidrs))
        → Emits P (check_load_balancer env wait lb config cidrs)
    unfolding check_load_balancer
    check_load_balancer-Emits lb config cidrs write =
        Emits-bind _ _ (initial_client-Emits config) λ provider.
          Emits-bind _ _ (load_balancer_client-Emits config _ provider) λ client.
            Emits-bind _ _ (Emits-on_error _ _ (get_listeners-Emits client lb.id))
              λ listeners. check_listeners-Emits client cidrs (write client) listeners (some lb)
