-- ===== src/LoadBalancer/Costs.antt =====
-- How many calls the functions for load balancers make at most.
use gardener_extension_priva.Base.{
  ℕ, Bool, ◌+◌, ◌*◌, ◌≤◌, String, List, [], ◌∷◌, Option, none, some, length, length-append, arith,
  ◌==◌,
}
use gardener_extension_priva.Fault.{Error, Result, ok, err}
use gardener_extension_priva.OpenStack.{
  ProviderClient, ServiceClient, LoadBalancer, Listener, ListenerListOpts, Subnet, Flavor,
}
use gardener_extension_priva.World.{Call, Env, ask}
use gardener_extension_priva.World.Costs.{
  Calls-pure, Calls-or_fail, Calls-non_nil, Calls-weaken, Calls-ask, Calls-fail, Value-any, Listed,
  Short, Costs-extracted, one_call_rules, Calls-bind, Costs, Calls, Costs-fail, Costs-on_error,
  Costs-if, Costs-ask, Costs-bind,
}
use gardener_extension_priva.Config.{PrivateNetworkConfig, Networks}
use gardener_extension_priva.Wait.{Wait, WaitLaws}
use gardener_extension_priva.LoadBalancer.Clients.{
  initial_client_openstack, network_client, load_balancer_client,
}
use gardener_extension_priva.LoadBalancer.Waiting.{
  wait_active_and_get_load_balancer, wait_loadbalancer_deleted,
}
use gardener_extension_priva.LoadBalancer.Waiting.Laws.{Repeats, wait_active_lem, wait_deleted_lem}
use gardener_extension_priva.LoadBalancer.Lookup.{
  single, get_load_balancers, find_load_balancer, get_load_balancer_by_name,
}
use gardener_extension_priva.LoadBalancer.Creation.{
  is_worker_subnet, first_subnet, first_flavor, find_subnet_by_cidr, get_flavor_id_by_type, created,
  create_load_balancer,
}
use gardener_extension_priva.LoadBalancer.Deletion.{
  is_immutable, refuse_delete, delete_and_wait, delete_load_balancer,
}
use gardener_extension_priva.LoadBalancer.Listeners.{
  only_listener, needs_update, active_or_fail, get_listener_by_name, get_listeners,
  update_allowed_cidrs, check_listener, check_listeners, check_load_balancer,
}

module _ (env : Env) where
  pub initial_client-Costs :
      (config : PrivateNetworkConfig) → Calls 1 (initial_client_openstack env config)
  unfolding initial_client_openstack
  initial_client-Costs config = search one_call_rules

  pub network_client-Costs :
      (config : PrivateNetworkConfig) (message : String) (p : ProviderClient)
      → Calls 1 (network_client env config message p)
  unfolding network_client
  network_client-Costs config message p = search one_call_rules

  pub load_balancer_client-Costs :
      (config : PrivateNetworkConfig) (message : String) (p : ProviderClient)
      → Calls 1 (load_balancer_client env config message p)
  unfolding load_balancer_client
  load_balancer_client-Costs config message p = search one_call_rules

  single-Costs : (lbs : List LoadBalancer) → Calls 0 (single lbs)
  single-Costs [] = Costs-fail _
  single-Costs (lb ∷ []) = Calls-pure lb
  single-Costs (lb ∷ l ∷ lbs) = Costs-fail _

  pub lookup-Costs :
      (config : PrivateNetworkConfig) (name : String)
      → Calls 3 (get_load_balancer_by_name env config name)
  unfolding get_load_balancer_by_name find_load_balancer get_load_balancers
  lookup-Costs config name = Calls-bind 1 2 _ _ (initial_client-Costs config) λ provider.
      Calls-bind 1 1 _ _ (load_balancer_client-Costs config _ provider)
        λ client. Calls-bind 1 0 _ _ (search one_call_rules) λ lbs. single-Costs _

  first_subnet-Costs : (network : Networks) (l : List Subnet) → Calls 0 (first_subnet network l)
  unfolding first_subnet
  first_subnet-Costs network [] = Calls-fail _
  first_subnet-Costs network (s ∷ l) =
      Costs-if (is_worker_subnet network s) _ _ (Calls-pure s) (first_subnet-Costs network l)

  first_flavor-Costs : (name : String) (l : List Flavor) → Calls 0 (first_flavor name l)
  unfolding first_flavor
  first_flavor-Costs name [] = Calls-fail _
  first_flavor-Costs name (f ∷ l) =
      Costs-if (f.name == name) _ _ (Calls-pure f.id) (first_flavor-Costs name l)

  find_subnet-Costs :
      (client : ServiceClient) (network : Networks)
      → Calls 1 (find_subnet_by_cidr env client network)
  unfolding find_subnet_by_cidr
  find_subnet-Costs client network = search (one_call_rules, first_subnet-Costs)

  get_flavor-Costs :
      (client : ServiceClient) (name : String) → Calls 1 (get_flavor_id_by_type env client name)
  unfolding get_flavor_id_by_type
  get_flavor-Costs client name = search (one_call_rules, first_flavor-Costs)

  created-Costs : (p : Option LoadBalancer × Option Error) → Calls 0 (created env p)
  created-Costs (lb, none) = Calls-pure lb
  created-Costs (lb, some e) = Calls-fail _

  refuse_delete-Costs : (id : String) (o : Option Error) → Calls 0 (refuse_delete id o)
  refuse_delete-Costs id none = Calls-pure tt
  refuse_delete-Costs id (some e) = search one_call_rules

  only_listener-Costs : (r : Result (List Listener)) → Calls 0 (only_listener r)
  only_listener-Costs (err e) = search one_call_rules
  only_listener-Costs (ok []) = Calls-fail _
  only_listener-Costs (ok (l ∷ ls)) = Calls-pure l

  active_or_fail-Costs :
      (lb : Option LoadBalancer) (e : Option Error) → Calls 0 (active_or_fail lb e)
  active_or_fail-Costs lb none = Calls-pure tt
  active_or_fail-Costs lb (some e) = search one_call_rules

  get_listener-Costs :
      (client : ServiceClient) (name lb_id : String)
      → Calls 1 (get_listener_by_name env client name lb_id)
  unfolding get_listener_by_name
  get_listener-Costs client name lb_id = search (one_call_rules, only_listener-Costs)

  update_allowed-Costs :
      (client : ServiceClient) (l : Listener) (cidrs : List String)
      → Calls 1 (update_allowed_cidrs env client l cidrs)
  unfolding update_allowed_cidrs
  update_allowed-Costs client l cidrs =
      Costs-if (needs_update l.allowed_cidrs cidrs) _ _ (search one_call_rules)
        (Calls-weaken 1 (omega arith) (Calls-pure tt))

  get_listeners-Costs :
      (k : ℕ) (short : Short env k) (client : ServiceClient) (lb_id : String)
      → Costs 1 (λ ls. length ls ≤ k) (get_listeners env client lb_id)
  unfolding get_listeners
  get_listeners-Costs k short client lb_id =
      let opts : ListenerListOpts = record { name = ""; loadbalancer_id = lb_id } in
      Costs-bind {Q = Listed k} 1 0 (ask env (Call.list_listeners client opts)) _
        (Costs-ask env (Call.list_listeners client opts)
          λ h ls e. short.listeners client opts h ls e)
        λ listed q. Costs-extracted k _ _ listed q

module _ (env : Env) (wait : Wait) (laws : WaitLaws wait) where
  Repeats-length :
      (c : Call) (n : ℕ) (h h' : List Call) → Repeats c n h h' → length h' ≤ n + length h
  Repeats-length c n h h' (calls, e, le, p) = rw e (omega (arith, length-append calls h))

  pub wait_active-Costs :
      (client : ServiceClient) (id : String)
      → Calls 25 (wait_active_and_get_load_balancer env wait client id)
  wait_active-Costs client id = record {
    at = λ h.
        let (lb, e, h', eq, reads, q) = wait_active_lem env client id wait laws h in
        rw eq (Repeats-length _ _ h h' reads, tt);
  }

  wait_deleted-Costs :
      (client : ServiceClient) (id : String)
      → Calls 12 (wait_loadbalancer_deleted env wait client id)
  wait_deleted-Costs client id = record {
    at = λ h. (
      Repeats-length _ _ h _ (wait_deleted_lem env client id wait laws h).0,
      Value-any (wait_loadbalancer_deleted env wait client id h).0,
    );
  }

  pub create_load_balancer-Costs :
      (config : PrivateNetworkConfig) (istio_vip : List String) (name : String)
      (cidrs : ℕ → List String)
      → Calls 31 (create_load_balancer env wait config istio_vip name cidrs)
  unfolding create_load_balancer
  create_load_balancer-Costs config istio_vip name cidrs =
      Calls-bind 1 30 _ _ (initial_client-Costs env config) λ provider.
        Calls-bind 1 29 _ _ (network_client-Costs env config _ provider) λ networks.
          Calls-bind 1 28 _ _ (load_balancer_client-Costs env config _ provider) λ client.
            Calls-bind 1 27 _ _ (find_subnet-Costs env networks config.worker_network) λ subnet.
              Calls-bind 1 26 _ _ (get_flavor-Costs env client config.flavor_type) λ flavor_id.
                Calls-bind 1 25 _ _ (Calls-ask env (Call.create_load_balancer client _)) λ made.
                  Calls-bind 0 25 _ _ (Calls-or_fail _ made)
                    λ lb. Calls-bind 25 0 _ _ (wait_active-Costs client lb.id) (created-Costs env)

  pub delete_load_balancer-Costs :
      (config : PrivateNetworkConfig) (lb : LoadBalancer) (cascade : Bool)
      → Calls 15 (delete_load_balancer env wait config lb cascade)
  unfolding delete_load_balancer delete_and_wait
  delete_load_balancer-Costs config lb cascade =
      Calls-bind 1 14 _ _ (initial_client-Costs env config) λ provider.
        Calls-bind 1 13 _ _ (load_balancer_client-Costs env config _ provider) λ client.
          Costs-if (is_immutable lb) _ _ (Calls-weaken 13 (omega arith) (Calls-fail _)) (
            Calls-bind 1 12 _ _ (Calls-ask env (Call.delete_load_balancer client lb.id cascade))
              λ refused.
                Calls-bind 0 12 _ _ (refuse_delete-Costs env lb.id refused)
                  λ u. wait_deleted-Costs client lb.id)

  check_listener-Costs :
      (client : ServiceClient) (cidrs : List String) (l : Listener) (lb : Option LoadBalancer)
      → Calls 27 (check_listener env wait client cidrs l lb)
  unfolding check_listener
  check_listener-Costs client cidrs l lb = Calls-bind 0 27 _ _ (Calls-non_nil lb) λ current.
      Calls-bind 1 26 _ _ (Costs-on_error _ _ (get_listener-Costs env client l.name current.id))
        λ found. Calls-bind 1 25 _ _ (update_allowed-Costs env client found cidrs) λ u.
          Calls-bind 25 0 _ _ (wait_active-Costs client current.id) λ waited.
            Calls-bind 0 0 _ _ (active_or_fail-Costs env waited.0 waited.1) λ u. Calls-pure waited.0

  check_listeners-Costs :
      (client : ServiceClient) (cidrs : List String) (ls : List Listener) (lb : Option LoadBalancer)
      → Calls (27 * length ls) (check_listeners env wait client cidrs ls lb)
  unfolding check_listeners
  check_listeners-Costs client cidrs [] lb = Calls-weaken _ (omega arith) (Calls-pure lb)
  check_listeners-Costs client cidrs (l ∷ ls) lb = Calls-weaken _ (omega arith) (
      Calls-bind 27 (27 * length ls) _ _ (check_listener-Costs client cidrs l lb)
        λ lb'. check_listeners-Costs client cidrs ls lb')

  pub check_load_balancer-Costs :
      (k : ℕ) (short : Short env k) (lb : LoadBalancer) (config : PrivateNetworkConfig)
      (cidrs : List String)
      → Calls (3 + 27 * k) (check_load_balancer env wait lb config cidrs)
  unfolding check_load_balancer
  check_load_balancer-Costs k short lb config cidrs = Calls-weaken _ (omega arith) (
      Calls-bind 1 (1 + (1 + 27 * k)) _ _ (initial_client-Costs env config) λ provider.
        Calls-bind 1 (1 + 27 * k) _ _ (load_balancer_client-Costs env config _ provider) λ client.
          Costs-bind 1 (27 * k) _ _
            (Costs-on_error _ _ (get_listeners-Costs env k short client lb.id))
            λ ls le. Calls-weaken _ (omega arith) (check_listeners-Costs client cidrs ls (some lb)))
