-- ===== src/Actuator/Runs.antt =====
-- The steps of `Reconcile` where the answers of the environment are known.
use gardener_extension_priva.Base.{
  String, ◌≡◌, refl, false, Option, none, some, List, [], ◌∷◌, ◌++◌, keep, All, ==_of_eq,
}
use gardener_extension_priva.Constants.{config_namespace, secret_config, namespace_istio_ingress}
use gardener_extension_priva.Fault.{Outcome, ok, returned}
use gardener_extension_priva.OpenStack.{LoadBalancer, Listener}
use gardener_extension_priva.Kube.{Extension, Cluster, Seed, Shoot, Service, Secret}
use gardener_extension_priva.World.{Call, Env}
use gardener_extension_priva.World.Runs.{
  Answers, Runs-attempt, Runs, Runs-pure, Runs-or_fail, Runs-non_nil, Runs-on_error, Runs-if_true,
  Runs-if_false, Runs-read, Runs-write, Runs-bind, Runs-after,
}
use gardener_extension_priva.IpNet.{IpNet, string_slice}
use gardener_extension_priva.Config.{
  ExtensionSpec, ExtensionState, PrivateNetworkConfig, NetworkWorker, config_of, raw_text,
  read_network_worker, complete, read_extension_spec, get_extension_state, cloud_conf_of,
  get_cluster_for_extension, get_global_config_for_private_network, get_load_balancer_source_ranges,
}
use gardener_extension_priva.Wait.{WaitLaws}
use gardener_extension_priva.LoadBalancer.Lookup.{is_valid}
use gardener_extension_priva.LoadBalancer.Runs.{
  lookup_found-Runs, Connected, Running, IsCovered, check_load_balancer-Runs,
}
use gardener_extension_priva.FloatingAddress.{attach_floating_ip}
use gardener_extension_priva.Actuator.Istio.{is_istio, first_addresses, collect_vips_lem}
use gardener_extension_priva.Actuator.{
  Runtime, name_lb, with_state, is_unhealthy, new_state, collect_vips, find_vip_lb_istio,
  update_status, require_active, require_healthy, find_or_create, bring_up, reconcile,
}

-- What an Extension is reconciled with: its cluster, specification and state, the secret, the
-- services of the Istio ingress, and what follows from them.
pub record Settings (rt : Runtime) (ex : Extension) : Type 0 where
  pub cluster : Cluster
  pub seed : Seed
  pub shoot : Shoot
  pub spec : ExtensionSpec
  pub state : ExtensionState
  pub services : List Service
  pub vips : List String
  pub worker : NetworkWorker
  pub secret : Secret
  pub conf : String
  pub ranges : IpNet rt.net
  pub has_seed : cluster.seed ≡ some seed
  pub has_shoot : cluster.shoot ≡ some shoot
  pub reads_cluster : (h : List Call) → rt.env (Call.get_cluster ex.namespace) h ≡ ok cluster
  pub reads_spec : read_extension_spec rt.codec ex ≡ ok (some spec)
  pub reads_state : get_extension_state rt.codec ex ≡ ok (some state)
  pub lists_services :
      (h : List Call) → rt.env (Call.list_services namespace_istio_ingress) h ≡ ok services
  pub have_addresses : first_addresses (keep is_istio services) ≡ some vips
  pub reads_worker : read_network_worker rt.codec (raw_text shoot.infrastructure_config) ≡ ok worker
  pub reads_secret :
      (h : List Call) → rt.env (Call.get_secret config_namespace secret_config) h ≡ ok secret
  pub has_conf : cloud_conf_of secret ≡ ok conf
  pub reads_ranges :
      get_load_balancer_source_ranges rt.net spec
        (config_of (rt.codec.read_cloud_config conf).0 worker)
      ≡ ok ranges

complete-Runs :
    {w : List Call} (env : Env) (cluster : Cluster) (a : Option Seed) (seed : Seed)
    (b : Option Shoot) (shoot : Shoot)
    → a ≡ some seed
    → b ≡ some shoot
    → Runs w (complete env cluster a b) (returned cluster) []
complete-Runs env cluster (some x) seed (some y) shoot e e' = Runs-pure cluster
complete-Runs env cluster none seed b shoot e e' = absurd (cc e)
complete-Runs env cluster (some x) seed none shoot e e' = absurd (cc e')

module _ (rt : Runtime) (ex : Extension) (s : Settings rt ex) where
  abbrev pub config_in : PrivateNetworkConfig
  config_in = config_of (rt.codec.read_cloud_config s.conf).0 s.worker

  pub cluster-Runs :
      {w : List Call} → Runs w (get_cluster_for_extension rt.env ex) (returned s.cluster) []
  unfolding get_cluster_for_extension
  cluster-Runs =
      Runs-after _ _ (ok s.cluster) _ _
        (Runs-read rt.env (Call.get_cluster ex.namespace) _ refl (λ h _. s.reads_cluster h))
        (Runs-after _ _ s.cluster _ _ (Runs-or_fail _ _ _ refl)
          (complete-Runs rt.env s.cluster _ s.seed _ s.shoot s.has_seed s.has_shoot))

  pub config-Runs :
      {w : List Call}
      → Runs w (get_global_config_for_private_network rt.env rt.codec ex) (returned config_in) []
  unfolding get_global_config_for_private_network
  config-Runs = Runs-after _ _ s.cluster _ _ cluster-Runs (
      Runs-after _ _ s.shoot _ _ (Runs-non_nil _ _ s.has_shoot) (
        Runs-after _ _ s.worker _ _ (Runs-or_fail _ _ _ s.reads_worker) (
          Runs-after _ _ (ok s.secret) _ _
            (Runs-read rt.env (Call.get_secret config_namespace secret_config) _ refl
              (λ h _. s.reads_secret h))
            (Runs-after _ _ s.secret _ _ (Runs-or_fail _ _ _ refl)
              (Runs-after _ _ s.conf _ _ (Runs-or_fail _ _ _ s.has_conf) (Runs-pure config_in))))))

  vips-Runs : {w : List Call} → Runs w (collect_vips s.services []) (returned s.vips) []
  vips-Runs = record {
    at = λ h p. (h, rw (collect_vips_lem s.services [] h, s.have_addresses) refl, p);
  }

  find_vips-Runs :
      {w : List Call} → Runs w (find_vip_lb_istio rt namespace_istio_ingress) (returned s.vips) []
  unfolding find_vip_lb_istio
  find_vips-Runs =
      Runs-after _ _ (ok s.services) _ _
        (Runs-read rt.env (Call.list_services namespace_istio_ingress) _ refl
          (λ h _. s.lists_services h))
        (Runs-after _ _ s.services _ _ (Runs-or_fail _ _ _ refl) vips-Runs)

  -- the call that patches the state
  abbrev pub patch : String → Call
  patch json = Call.patch_status (with_state ex json)

  module _ (laws : WaitLaws rt.wait) (c : Connected rt.env config_in) (lb : LoadBalancer)
      {w : List Call} (running : Running rt.env c.compute lb w) (healthy : is_unhealthy lb ≡ false)
      (listeners : List Listener) where
    pub bring_up-Runs :
        (address json : String) (ws : List Call)
        → Answers rt.env w
            (Call.list_listeners c.compute (record { name = ""; loadbalancer_id = lb.id }))
            (ok (ok listeners))
        → All
            (IsCovered rt.env rt.wait laws c.compute lb running
              (string_slice rt.net (rt.order 0) s.ranges))
            listeners
        → Runs w
            (attach_floating_ip rt.env rt.patterns rt.codec (some lb) config_in ex)
            (returned address)
            ws
        → rt.codec.marshal_extension_state (new_state s.spec lb address s.state) ≡ ok json
        → Answers rt.env (ws ++ w) (patch json) none
        → Runs w
            (bring_up rt ex s.spec (some s.state) config_in s.ranges lb)
            (returned tt)
            (patch json ∷ ws)
    unfolding bring_up require_active require_healthy update_status
    bring_up-Runs address json ws lists covered attaches written patches =
        Runs-after _ _ tt _ _ (Runs-if_true _ _ _ _ _ (==_of_eq running.active) (Runs-pure tt)) (
          Runs-after _ _ (some lb) _ _
            (Runs-on_error _ _ _ _ (
              check_load_balancer-Runs rt.env config_in c rt.wait laws lb running _ listeners lists
                covered))
            (Runs-bind _ _ address _ ws (patch json ∷ []) (Runs-on_error _ _ _ _ attaches) (
              Runs-after _ _ lb _ _ (Runs-non_nil _ _ refl) (
                Runs-after _ _ tt _ _ (Runs-if_false _ _ _ _ _ healthy (Runs-pure tt)) (
                  Runs-after _ _ s.state _ _ (Runs-non_nil _ _ refl) (
                    Runs-after _ _ json _ _ (Runs-or_fail _ _ _ written) (
                      Runs-bind _ _ none _ _ [] (Runs-write rt.env (patch json) _ refl patches)
                        (Runs-pure tt))))))))

  -- `Reconcile`, from its two halves
  pub reconcile-Runs :
      {w : List Call} (lb : LoadBalancer) (o : Outcome (Unit {0})) (ws ws' : List Call)
      → Runs w (find_or_create rt ex config_in s.vips s.ranges) (returned (some lb)) ws
      → Runs (ws ++ w) (bring_up rt ex s.spec (some s.state) config_in s.ranges lb) o ws'
      → Runs w (reconcile rt ex) o (ws' ++ ws)
  unfolding reconcile
  reconcile-Runs lb o ws ws' finds brings = Runs-after _ _ s.cluster _ _ cluster-Runs (
      Runs-after _ _ (some s.spec) _ _ (Runs-or_fail _ _ _ s.reads_spec) (
        Runs-after _ _ (some s.state) _ _ (Runs-or_fail _ _ _ s.reads_state) (
          Runs-after _ _ s.vips _ _ find_vips-Runs (
            Runs-after _ _ config_in _ _ (Runs-on_error _ _ _ _ config-Runs) (
              Runs-after _ _ s.spec _ _ (Runs-non_nil _ _ refl) (
                Runs-after _ _ s.ranges _ _ (Runs-or_fail _ _ _ s.reads_ranges) (
                  Runs-bind _ _ (some lb) _ ws ws' finds
                    (Runs-after _ _ lb _ _ (Runs-non_nil _ _ refl) brings))))))))

  module _ (c : Connected rt.env config_in) (lb : LoadBalancer) {w : List Call} where
    pub found-Runs :
        (lbs : List LoadBalancer)
        → Answers rt.env w (Call.list_load_balancers c.compute (name_lb ex.namespace)) (ok (ok lbs))
        → keep is_valid lbs ≡ lb ∷ []
        → Runs w (find_or_create rt ex config_in s.vips s.ranges) (returned (some lb)) []
    unfolding find_or_create
    found-Runs lbs lists one =
        Runs-after _ _ (ok lb) _ _
          (Runs-attempt _ _ _ (lookup_found-Runs rt.env config_in c _ lbs lb lists one))
          (Runs-pure (some lb))
