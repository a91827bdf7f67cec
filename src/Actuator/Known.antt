-- ===== src/Actuator/Known.antt =====
-- The load balancer that the parts of a reconciliation hold: what this run was answered of it.
use gardener_extension_priva.Base.{
  ◌==◌, String, ◌≡◌, refl, sym, subst, ◌∙◌, eq_iff, Option, some, List,
}
use gardener_extension_priva.Constants.{provisioning_active_status, provisioning_error_status}
use gardener_extension_priva.Fault.{Result, is_err_not_found}
use gardener_extension_priva.OpenStack.{LoadBalancer}
use gardener_extension_priva.Kube.{Extension}
use gardener_extension_priva.World.{Call}
use gardener_extension_priva.World.Emits.{Emits}
use gardener_extension_priva.World.Ensures.{Ensures-bind, Ensures-fail}
use gardener_extension_priva.World.Guards.{OnOk}
use gardener_extension_priva.World.Triples.{
  AnyCall, Since, Since-Lasting, Triple, Triple-bind, Triple-weaken, Triple-pre, Triple-pure,
  Triple-fail, Triple-if, Triple-attempt, Triple-handle,
}
use gardener_extension_priva.IpNet.{IpNet}
use gardener_extension_priva.Config.{PrivateNetworkConfig}
use mathlib.Core.Option.{some-injective}
use gardener_extension_priva.Wait.{WaitLaws}
use gardener_extension_priva.LoadBalancer.Calls.{get_load_balancer_by_name-Emits}
use gardener_extension_priva.LoadBalancer.Tracing.{Running}
use gardener_extension_priva.LoadBalancer.Origins.{Appears, Own, get_by_name-Own, create-Running}
use gardener_extension_priva.FloatingAddress.{attach_floating_ip}
use gardener_extension_priva.FloatingAddress.Calls.{attach_floating_ip-Emits}
use gardener_extension_priva.Actuator.{
  Runtime, name_lb, require_active, find_or_create, delete_broken,
}

module _ (rt : Runtime) (ex : Extension) (start : List Call) where
  -- the load balancer of the extension, as this run knows it
  abbrev pub Known : LoadBalancer → List Call → Type 0
  Known = Own rt.env start (name_lb ex.namespace)

  abbrev pub ActiveKnown : LoadBalancer → List Call → Type 0
  ActiveKnown lb h = (lb.provisioning_status ≡ provisioning_active_status) × Known lb h

  abbrev pub Runs : Option LoadBalancer → List Call → Type 0
  Runs = Running rt.env (Appears rt.env start (name_lb ex.namespace))

  pub require_active-Runs :
      (config : PrivateNetworkConfig) (lb : LoadBalancer)
      → Triple (Known lb) (λ _. Runs (some lb)) (require_active rt ex config lb)
  unfolding require_active delete_broken
  require_active-Runs config lb =
      Triple-if (lb.provisioning_status == provisioning_active_status) _ _
        (λ e. Triple-pure tt (λ h k. (lb, refl, (eq_iff _ _).0 e, k)))
        λ _.
          Triple-if (lb.provisioning_status == provisioning_error_status) _ _
            (λ _. record {
              at = λ h k. (Ensures-bind _ _ (λ _. Ensures-fail {Q = λ _. Runs (some lb)} _)).at h;
            })
            (λ _. Triple-fail _)

  pub same-Runs :
      (o : Option LoadBalancer) (current : LoadBalancer) (h : List Call)
      → Runs o h
      → o ≡ some current
      → (current.provisioning_status ≡ provisioning_active_status) × Known current h
  same-Runs o current h (lb, p, a, t) q =
      subst (λ (c : LoadBalancer). (c.provisioning_status ≡ provisioning_active_status) × Known c h)
        (some-injective lb current (sym p ∙ q)) (a, t)

  module _ (laws : WaitLaws rt.wait) where
    pub find_or_create-Known :
        (config : PrivateNetworkConfig) (vips : List String) (ranges : IpNet rt.net)
        → Triple
            (Since start)
            (λ o h. (lb : LoadBalancer) × (o ≡ some lb) × Known lb h)
            (find_or_create rt ex config vips ranges)
    unfolding find_or_create
    find_or_create-Known config vips ranges =
        Triple-bind _ _ _
          (Triple-attempt _ (Since-Lasting start)
            (get_load_balancer_by_name-Emits AnyCall (λ _ _. tt) rt.env config _)
            (get_by_name-Own rt.env start (name_lb ex.namespace) config))
          λ found.
            Triple-handle found _ _
              (λ lb p.
                Triple-pure (some lb)
                  λ h k. (lb, refl, subst (λ (r : Result LoadBalancer). OnOk Known r h) p k.1))
              λ e p.
                Triple-pre _ (λ h k. k.0)
                  (Triple-if (is_err_not_found e) _ _
                    (λ _.
                      Triple-weaken _ (λ o h (lb, q, _, t). (lb, q, t))
                        (create-Running rt.env start _ rt.wait laws config vips _))
                    (λ _. Triple-fail _))

    pub attach-Any :
        (config : PrivateNetworkConfig) (o : Option LoadBalancer)
        → Emits AnyCall (attach_floating_ip rt.env rt.patterns rt.codec o config ex)
    attach-Any config o =
        attach_floating_ip-Emits AnyCall (λ _ _. tt) rt.env rt.patterns rt.codec o config ex
          (λ s client id p q. tt) (λ s client l id p q found. tt)
          (λ s client l pool network_lb subnet p q found. tt)
