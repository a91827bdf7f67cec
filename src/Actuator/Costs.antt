-- ===== src/Actuator/Costs.antt =====
-- How many calls `Reconcile` and `Delete` make at most.
use gardener_extension_priva.Base.{
  ℕ, ◌+◌, ◌*◌, ◌≤◌, String, true, List, [], ◌∷◌, Option, none, some, length, arith, ◌==◌,
}
use gardener_extension_priva.Constants.{
  namespace_istio_ingress, provisioning_active_status, provisioning_error_status,
}
use gardener_extension_priva.Fault.{Error, is_err_not_found}
use gardener_extension_priva.OpenStack.{LoadBalancer}
use gardener_extension_priva.Kube.{Extension, Cluster, Seed, Shoot, Service}
use gardener_extension_priva.World.{Call, Env, M}
use gardener_extension_priva.World.Costs.{
  Calls, Costs-on_error, Costs-attempt, Costs-if, Costs-handle, Calls-pure, Calls-fail,
  Calls-or_fail, Calls-non_nil, Calls-weaken, Calls-bind, one_call_rules, Short,
}
use gardener_extension_priva.Wait.{WaitLaws}
use gardener_extension_priva.IpNet.{IpNet}
use gardener_extension_priva.Config.{
  ExtensionSpec, ExtensionState, PrivateNetworkConfig, Codec, complete, read_extension_spec,
  get_extension_state, get_cluster_for_extension, get_global_config_for_private_network,
  get_load_balancer_source_ranges,
}
use gardener_extension_priva.LoadBalancer.Costs.{
  lookup-Costs, create_load_balancer-Costs, delete_load_balancer-Costs, check_load_balancer-Costs,
}
use gardener_extension_priva.FloatingAddress.Costs.{attach_floating_ip-Costs}
use gardener_extension_priva.Actuator.{
  Runtime, name_lb, selected_ip, with_selected, collect_vips, is_unhealthy, patched, new_state,
  find_vip_lb_istio, update_status, find_or_create, delete_broken, require_active, require_healthy,
  bring_up, reconcile, delete,
}

complete-Costs :
    (env : Env) (cluster : Cluster) (seed : Option Seed) (shoot : Option Shoot)
    → Calls 0 (complete env cluster seed shoot)
complete-Costs env cluster (some seed) (some shoot) = Calls-pure cluster
complete-Costs env cluster (some seed) none = Calls-fail _
complete-Costs env cluster none (some shoot) = Calls-fail _
complete-Costs env cluster none none = Calls-fail _

cluster-Costs : (env : Env) (ex : Extension) → Calls 1 (get_cluster_for_extension env ex)
unfolding get_cluster_for_extension
cluster-Costs env ex = search (one_call_rules, complete-Costs)

config-Costs :
    (env : Env) (codec : Codec) (ex : Extension)
    → Calls 2 (get_global_config_for_private_network env codec ex)
unfolding get_global_config_for_private_network
config-Costs env codec ex =
    Calls-bind 1 1 _ _ (cluster-Costs env ex)
      λ cluster. Calls-bind 0 1 _ _ (Calls-non_nil cluster.shoot) λ shoot. search one_call_rules

with_selected-Costs :
    (o : Option (Option String)) (l : List String) (next : List String → M (List String))
    → ((l : List String) → Calls 0 (next l))
    → Calls 0 (with_selected o l next)
with_selected-Costs none l next c = c l
with_selected-Costs (some ip) l next c = search (one_call_rules, c)

collect_vips-Costs : (items : List Service) (l : List String) → Calls 0 (collect_vips items l)
unfolding collect_vips
collect_vips-Costs [] l = Calls-pure l
collect_vips-Costs (svc ∷ items) l =
    with_selected-Costs (selected_ip svc) l _ (collect_vips-Costs items)

patched-Costs : (o : Option Error) → Calls 0 (patched o)
patched-Costs none = Calls-pure tt
patched-Costs (some e) = Calls-fail e

module _ (rt : Runtime) (laws : WaitLaws rt.wait) where
  vips-Costs : Calls 1 (find_vip_lb_istio rt namespace_istio_ingress)
  unfolding find_vip_lb_istio
  vips-Costs = search (one_call_rules, collect_vips-Costs)

  update_status-Costs : (ex : Extension) (s : ExtensionState) → Calls 1 (update_status rt ex s)
  unfolding update_status
  update_status-Costs ex s = search (one_call_rules, patched-Costs)

  find_or_create-Costs :
      (ex : Extension) (config : PrivateNetworkConfig) (vips : List String) (ranges : IpNet rt.net)
      → Calls 34 (find_or_create rt ex config vips ranges)
  unfolding find_or_create
  find_or_create-Costs ex config vips ranges =
      Calls-bind 3 31 _ _ (Costs-attempt _ (lookup-Costs rt.env config (name_lb ex.namespace)))
        λ found.
          Costs-handle found _ _ (λ lb. Calls-weaken 31 (omega arith) (Calls-pure (some lb)))
            λ e.
              Costs-if (is_err_not_found e) _ _
                (create_load_balancer-Costs rt.env rt.wait laws config vips (name_lb ex.namespace)
                  _)
                (Calls-weaken 31 (omega arith) (Calls-fail _))

  require_active-Costs :
      (ex : Extension) (config : PrivateNetworkConfig) (lb : LoadBalancer)
      → Calls 15 (require_active rt ex config lb)
  unfolding require_active delete_broken
  require_active-Costs ex config lb =
      Costs-if (lb.provisioning_status == provisioning_active_status) _ _
        (Calls-weaken 15 (omega arith) (Calls-pure tt))
        (Costs-if (lb.provisioning_status == provisioning_error_status) _ _
          (Calls-bind 15 0 _ _
            (Costs-on_error _ _ (delete_load_balancer-Costs rt.env rt.wait laws config lb true))
            λ u. Calls-fail _)
          (Calls-weaken 15 (omega arith) (Calls-fail _)))

  require_healthy-Costs : (ex : Extension) (lb : LoadBalancer) → Calls 1 (require_healthy rt ex lb)
  unfolding require_healthy
  require_healthy-Costs ex lb =
      Costs-if (is_unhealthy lb) _ _ (search one_call_rules)
        (Calls-weaken 1 (omega arith) (Calls-pure tt))

  module _ (k : ℕ) (short : Short rt.env k) where
    bring_up-Costs :
        (ex : Extension) (spec : ExtensionSpec) (state : Option ExtensionState)
        (config : PrivateNetworkConfig) (ranges : IpNet rt.net) (lb : LoadBalancer)
        → Calls (27 + 30 * k) (bring_up rt ex spec state config ranges lb)
    unfolding bring_up
    bring_up-Costs ex spec state config ranges lb =
        let n = 7 + 3 * k in
        Calls-weaken _ (omega arith) (
          Calls-bind 15 (3 + 27 * k + (n + (0 + (1 + (0 + 1))))) _ _
            (require_active-Costs ex config lb)
            λ u.
              Calls-bind (3 + 27 * k) (n + (0 + (1 + (0 + 1)))) _ _
                (Costs-on_error _ _
                  (check_load_balancer-Costs rt.env rt.wait laws k short lb config _))
                λ checked.
                  Calls-bind n (0 + (1 + (0 + 1))) _ _
                    (Costs-on_error _ _ (
                      attach_floating_ip-Costs rt.env k short rt.patterns rt.codec checked config
                        ex))
                    λ address. Calls-bind 0 (1 + (0 + 1)) _ _ (Calls-non_nil checked) λ current.
                      Calls-bind 1 (0 + 1) _ _ (require_healthy-Costs ex current) λ u.
                        Calls-bind 0 1 _ _ (Calls-non_nil state)
                          λ s. update_status-Costs ex (new_state spec current address s))

    reconcile-Costs : (ex : Extension) → Calls (65 + 30 * k) (reconcile rt ex)
    unfolding reconcile
    reconcile-Costs ex =
        let n = 34 + (0 + (27 + 30 * k)) in
        Calls-weaken _ (omega arith) (
          Calls-bind 1 (0 + (0 + (1 + (2 + (0 + (0 + n)))))) _ _ (cluster-Costs rt.env ex)
            λ cluster.
              Calls-bind 0 (0 + (1 + (2 + (0 + (0 + n))))) _ _
                (Calls-or_fail _ (read_extension_spec rt.codec ex))
                λ spec.
                  Calls-bind 0 (1 + (2 + (0 + (0 + n)))) _ _
                    (Calls-or_fail _ (get_extension_state rt.codec ex))
                    λ state. Calls-bind 1 (2 + (0 + (0 + n))) _ _ vips-Costs λ vips.
                      Calls-bind 2 (0 + (0 + n)) _ _
                        (Costs-on_error _ _ (config-Costs rt.env rt.codec ex))
                        λ config. Calls-bind 0 (0 + n) _ _ (Calls-non_nil spec) λ s.
                          Calls-bind 0 n _ _
                            (Calls-or_fail _ (get_load_balancer_source_ranges rt.net s config))
                            λ ranges.
                              Calls-bind 34 (0 + (27 + 30 * k)) _ _
                                (find_or_create-Costs ex config vips ranges)
                                λ found.
                                  Calls-bind 0 (27 + 30 * k) _ _ (Calls-non_nil found)
                                    λ lb. bring_up-Costs ex s state config ranges lb)

    -- Under the laws of `wait`, where no listing of listeners, of floating IPs or of subnets is ever
    -- answered with more than `k` entries: one `Reconcile` makes at most 65 + 30 k calls, whatever
    -- else is answered and however it ends.
    pub reconcile_bound :
        (ex : Extension) (h : List Call) → length (reconcile rt ex h).1 ≤ 65 + 30 * k + length h
    reconcile_bound ex h = ((reconcile-Costs ex).at h).0

  delete-Costs : (ex : Extension) → Calls 21 (delete rt ex)
  unfolding delete
  delete-Costs ex = Calls-bind 1 20 _ _ (cluster-Costs rt.env ex) λ cluster.
      Calls-bind 2 18 _ _ (Costs-on_error _ _ (config-Costs rt.env rt.codec ex)) λ config.
        Calls-bind 3 15 _ _ (Costs-attempt _ (lookup-Costs rt.env config (name_lb ex.namespace)))
          λ found.
            Costs-handle found _ _
              (λ lb. delete_load_balancer-Costs rt.env rt.wait laws config lb true)
              λ e. Calls-weaken {n = 0} 15 (omega arith) (search one_call_rules)

  -- Under the laws of `wait`, one `Delete` makes at most 21 calls, whatever is answered and however
  -- it ends.
  pub delete_bound : (ex : Extension) (h : List Call) → length (delete rt ex h).1 ≤ 21 + length h
  delete_bound ex h = ((delete-Costs ex).at h).0
