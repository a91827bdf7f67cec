-- ===== src/LoadBalancer/Runs.antt =====
-- What the functions for load balancers do where the answers of the environment are known: their
-- results, and the writes that they make.
use gardener_extension_priva.Base.{
  ℕ, zero, String, ◌≡◌, refl, ap, ◌∙◌, false, none, some, List, [], ◌∷◌, map, keep, All, arith,
  length,
}
use gardener_extension_priva.Constants.{provisioning_active_status}
use gardener_extension_priva.Fault.{ok, Outcome, returned, failed, err_not_found}
use gardener_extension_priva.OpenStack.{
  ProviderClient, ServiceClient, LoadBalancer, Listener, Subnet, Flavor,
}
use gardener_extension_priva.FloatingSubnet.{network_opts}
use gardener_extension_priva.World.{Call, Env}
use gardener_extension_priva.World.Runs.{
  Answers, Runs, Runs-pure, Runs-fail, Runs-or_fail, Runs-non_nil, Runs-on_error, Runs-if_false,
  Runs-read, Runs-write, Runs-bind, Runs-after,
}
use gardener_extension_priva.Config.{PrivateNetworkConfig}
use gardener_extension_priva.Wait.{Wait, WaitLaws}
use gardener_extension_priva.LoadBalancer.Clients.{
  auth_options, initial_client_openstack, network_client, load_balancer_client,
}
use gardener_extension_priva.LoadBalancer.Waiting.{wait_active_and_get_load_balancer}
use gardener_extension_priva.LoadBalancer.Waiting.Progress.{wait_active_reached}
use gardener_extension_priva.LoadBalancer.Lookup.{
  is_valid, single, get_load_balancers, find_load_balancer, get_load_balancer_by_name,
}
use gardener_extension_priva.LoadBalancer.Creation.{
  first_subnet, first_flavor, find_subnet_by_cidr, get_flavor_id_by_type, create_opts,
  create_load_balancer,
}
use gardener_extension_priva.LoadBalancer.Listeners.{
  collect_pages, needs_update, get_listener_by_name, get_listeners, update_allowed_cidrs,
  check_listener, check_listeners, check_load_balancer,
}
use gardener_extension_priva.LoadBalancer.Listeners.Pages.{joined, collect_pages-few}

-- The cloud can be reached with the credentials of the settings.
pub record Connected (env : Env) (config : PrivateNetworkConfig) : Type 0 where
  pub provider : ProviderClient
  pub compute : ServiceClient
  pub network : ServiceClient
  pub authenticates :
      (h : List Call) → env (Call.authenticated_client (auth_options config)) h ≡ ok provider
  pub makes_compute :
      (h : List Call)
      → env (Call.new_load_balancer_v2 provider config.auth_opt.region) h ≡ ok compute
  pub makes_network :
      (h : List Call) → env (Call.new_network_v2 provider config.auth_opt.region) h ≡ ok network

-- After these writes, every read of the load balancer finds it as it is, ACTIVE.
pub record Running (env : Env) (client : ServiceClient) (lb : LoadBalancer) (w : List Call)
    : Type 0 where
  pub active : lb.provisioning_status ≡ provisioning_active_status
  pub reads : Answers env w (Call.get_load_balancer client lb.id) (ok lb)

module _ (env : Env) (config : PrivateNetworkConfig) (c : Connected env config)
    {w : List Call} where
  pub initial_client-Runs : Runs w (initial_client_openstack env config) (returned c.provider) []
  unfolding initial_client_openstack
  initial_client-Runs =
      Runs-after _ _ (ok c.provider) _ _
        (Runs-read env (Call.authenticated_client (auth_options config)) _ refl
          (λ h _. c.authenticates h))
        (Runs-or_fail _ _ _ refl)

  pub network_client-Runs :
      (message : String)
      → Runs w (network_client env config message c.provider) (returned c.network) []
  unfolding network_client
  network_client-Runs message =
      Runs-after _ _ (ok c.network) _ _
        (Runs-read env (Call.new_network_v2 c.provider config.auth_opt.region) _ refl
          (λ h _. c.makes_network h))
        (Runs-or_fail _ _ _ refl)

  pub load_balancer_client-Runs :
      (message : String)
      → Runs w (load_balancer_client env config message c.provider) (returned c.compute) []
  unfolding load_balancer_client
  load_balancer_client-Runs message =
      Runs-after _ _ (ok c.compute) _ _
        (Runs-read env (Call.new_load_balancer_v2 c.provider config.auth_opt.region) _ refl
          (λ h _. c.makes_compute h))
        (Runs-or_fail _ _ _ refl)

  -- the lookup, up to the choice among the valid load balancers
  lookup-Runs :
      (name : String) (lbs : List LoadBalancer) (o : Outcome LoadBalancer)
      → Answers env w (Call.list_load_balancers c.compute name) (ok (ok lbs))
      → Runs w (single (keep is_valid lbs)) o []
      → Runs w (get_load_balancer_by_name env config name) o []
  unfolding get_load_balancer_by_name find_load_balancer get_load_balancers
  lookup-Runs name lbs o lists r = Runs-after _ _ c.provider _ _ initial_client-Runs (
      Runs-after _ _ c.compute _ _ (load_balancer_client-Runs _) (
        Runs-after _ _ lbs _ _
          (Runs-after _ _ (ok (ok lbs)) _ _
            (Runs-read env (Call.list_load_balancers c.compute name) _ refl lists)
            (Runs-after _ _ (ok lbs) _ _ (Runs-or_fail _ _ _ refl) (Runs-or_fail _ _ _ refl)))
          r))

  pub lookup_found-Runs :
      (name : String) (lbs : List LoadBalancer) (lb : LoadBalancer)
      → Answers env w (Call.list_load_balancers c.compute name) (ok (ok lbs))
      → keep is_valid lbs ≡ lb ∷ []
      → Runs w (get_load_balancer_by_name env config name) (returned lb) []
  lookup_found-Runs name lbs lb lists e = lookup-Runs name lbs _ lists (rw e (Runs-pure lb))

  pub lookup_none-Runs :
      (name : String) (lbs : List LoadBalancer)
      → Answers env w (Call.list_load_balancers c.compute name) (ok (ok lbs))
      → keep is_valid lbs ≡ []
      → Runs w (get_load_balancer_by_name env config name) (failed err_not_found) []
  lookup_none-Runs name lbs lists e = lookup-Runs name lbs _ lists (rw e (Runs-fail err_not_found))

module _ (env : Env) (wait : Wait) (laws : WaitLaws wait) (client : ServiceClient)
    (lb : LoadBalancer) {w : List Call} (running : Running env client lb w) where
  pub wait_active-Runs :
      Runs w (wait_active_and_get_load_balancer env wait client lb.id) (returned (some lb, none)) []
  wait_active-Runs = record {
    at = λ h p. (
      Call.get_load_balancer client lb.id ∷ h,
      wait_active_reached env client lb.id wait laws h zero lb (omega arith)
          (λ i q. absurd (omega arith)) (running.reads h p) running.active,
      p,
    );
  }

  -- The lookup of a listener by name finds one listener, which has the ranges.
  abbrev pub IsCovered : List String → Listener → Type 0
  IsCovered cidrs listener =
      (l : Listener) × (vs : List (List Listener)) × Answers env w
        (Call.each_page_listeners client (record { name = listener.name; loadbalancer_id = lb.id }))
        (map ok vs)
      × (joined vs ≡ l ∷ [])
      × (needs_update l.allowed_cidrs cidrs ≡ false)

  pub check_listener-Runs :
      (cidrs : List String) (listener : Listener)
      → IsCovered cidrs listener
      → Runs w (check_listener env wait client cidrs listener (some lb)) (returned (some lb)) []
  unfolding check_listener get_listener_by_name update_allowed_cidrs
  check_listener-Runs cidrs listener (l, vs, pages, one, same) =
      let p : collect_pages (map ok vs) [] ≡ ok (l ∷ []) =
        collect_pages-few vs [] (omega (arith, ap length one)) ∙ ap ok one in
      Runs-after _ _ lb _ _ (Runs-non_nil _ _ refl) (
        Runs-after _ _ l _ _
          (Runs-on_error _ _ _ _ (
            Runs-after _ _ (map ok vs) _ _
              (Runs-read env
                (Call.each_page_listeners client
                  (record { name = listener.name; loadbalancer_id = lb.id }))
                _ refl pages)
              (rw p (Runs-pure l))))
          (Runs-after _ _ tt _ _ (Runs-if_false _ _ _ _ _ same (Runs-pure tt)) (
            Runs-after _ _ (some lb, none) _ _ wait_active-Runs
              (Runs-after _ _ tt _ _ (Runs-pure tt) (Runs-pure (some lb))))))

  check_listeners-Runs :
      (cidrs : List String) (listeners : List Listener)
      → All (IsCovered cidrs) listeners
      → Runs w (check_listeners env wait client cidrs listeners (some lb)) (returned (some lb)) []
  unfolding check_listeners
  check_listeners-Runs cidrs [] covered = Runs-pure (some lb)
  check_listeners-Runs cidrs (l ∷ ls) covered =
      Runs-after _ _ (some lb) _ _ (check_listener-Runs cidrs l covered.0)
        (check_listeners-Runs cidrs ls covered.1)

module _ (env : Env) (config : PrivateNetworkConfig) (c : Connected env config) (wait : Wait)
    (laws : WaitLaws wait) (lb : LoadBalancer) {w : List Call} where
  -- A check of a load balancer whose listeners all have the ranges changes nothing.
  pub check_load_balancer-Runs :
      (running : Running env c.compute lb w) (cidrs : List String) (listeners : List Listener)
      → Answers env w
          (Call.list_listeners c.compute (record { name = ""; loadbalancer_id = lb.id }))
          (ok (ok listeners))
      → All (IsCovered env wait laws c.compute lb running cidrs) listeners
      → Runs w (check_load_balancer env wait lb config cidrs) (returned (some lb)) []
  unfolding check_load_balancer get_listeners
  check_load_balancer-Runs running cidrs listeners lists covered =
      Runs-after _ _ c.provider _ _ (initial_client-Runs env config c) (
        Runs-after _ _ c.compute _ _ (load_balancer_client-Runs env config c _) (
          Runs-after _ _ listeners _ _
            (Runs-on_error _ _ _ _ (
              Runs-after _ _ (ok (ok listeners)) _ _
                (Runs-read env
                  (Call.list_listeners c.compute (record { name = ""; loadbalancer_id = lb.id })) _
                  refl lists)
                (Runs-after _ _ (ok listeners) _ _ (Runs-or_fail _ _ _ refl)
                  (Runs-or_fail _ _ _ refl))))
            (check_listeners-Runs env wait laws c.compute lb running cidrs listeners covered)))

  -- A creation is one request, with the flavor and the subnet that were found.
  pub create_load_balancer-Runs :
      (vips : List String) (name : String) (cidrs : ℕ → List String) (subnets : List Subnet)
      (subnet : Subnet) (flavors : List Flavor) (flavor_id : String) (made : LoadBalancer)
      → Answers env w (Call.list_subnets c.network (network_opts "")) (ok (ok subnets))
      → Runs w (first_subnet config.worker_network subnets) (returned subnet) []
      → Answers env w (Call.list_flavors c.compute) (ok (ok flavors))
      → Runs w (first_flavor config.flavor_type flavors) (returned flavor_id) []
      → Answers env w
          (Call.create_load_balancer c.compute
            (create_opts config flavor_id subnet.id vips name cidrs))
          (ok made)
      → made.id ≡ lb.id
      → Running env c.compute lb (
          Call.create_load_balancer c.compute
            (create_opts config flavor_id subnet.id vips name cidrs)
          ∷ w)
      → Runs w (create_load_balancer env wait config vips name cidrs) (returned (some lb)) (
          Call.create_load_balancer c.compute
            (create_opts config flavor_id subnet.id vips name cidrs)
          ∷ [])
  unfolding create_load_balancer find_subnet_by_cidr get_flavor_id_by_type
  create_load_balancer-Runs vips name cidrs subnets subnet flavors flavor_id made lists found kinds
        kind makes same running =
      Runs-after _ _ c.provider _ _ (initial_client-Runs env config c) (
        Runs-after _ _ c.network _ _ (network_client-Runs env config c _) (
          Runs-after _ _ c.compute _ _ (load_balancer_client-Runs env config c _) (
            Runs-after _ _ subnet _ _
              (Runs-after _ _ (ok (ok subnets)) _ _
                (Runs-read env (Call.list_subnets c.network (network_opts "")) _ refl lists)
                (Runs-after _ _ (ok subnets) _ _ (Runs-or_fail _ _ _ refl)
                  (Runs-after _ _ subnets _ _ (Runs-or_fail _ _ _ refl) found)))
              (Runs-after _ _ flavor_id _ _
                (Runs-after _ _ (ok (ok flavors)) _ _
                  (Runs-read env (Call.list_flavors c.compute) _ refl kinds)
                  (Runs-after _ _ (ok flavors) _ _ (Runs-or_fail _ _ _ refl)
                    (Runs-after _ _ flavors _ _ (Runs-or_fail _ _ _ refl) kind)))
                (Runs-bind _ _ (ok made) _ _ _
                  (Runs-write env
                    (Call.create_load_balancer c.compute
                      (create_opts config flavor_id subnet.id vips name cidrs))
                    _ refl makes)
                  (Runs-after _ _ made _ _ (Runs-or_fail _ _ _ refl) (
                    Runs-after _ _ (some lb, none) _ _
                      (rw same (wait_active-Runs env wait laws c.compute lb running))
                      (Runs-pure (some lb)))))))))
