-- ===== src/Actuator/Laws.antt =====
-- What a successful deletion leaves behind.
use gardener_extension_priva.Base.{◌≡◌, ◌⊎◌, inl, inr, true, List, Bool-cases, if◌then◌else◌}
use gardener_extension_priva.Fault.{Error, Result, ok, err, returned, failed, is_err_not_found}
use gardener_extension_priva.OpenStack.{LoadBalancer}
use gardener_extension_priva.Kube.{Extension}
use gardener_extension_priva.World.{Call, M, pure, fail, handle}
use gardener_extension_priva.World.Ensures.{
  Post, Ensures, Attempted, Ensures-attempt, Ensures-bind, Ensures-then, Ensures-elim,
  Ensures-weaken,
}
use gardener_extension_priva.Config.{PrivateNetworkConfig}
use gardener_extension_priva.Wait.{WaitLaws}
use gardener_extension_priva.LoadBalancer.Lookup.{get_load_balancer_by_name}
use gardener_extension_priva.LoadBalancer.Deletion.{delete_load_balancer}
use gardener_extension_priva.LoadBalancer.Deletion.Laws.{IsGone, delete-IsGone}
use gardener_extension_priva.Actuator.{Runtime, name_lb, delete}

module _ (rt : Runtime) (ex : Extension) where
  -- The lookup of the extension's load balancer, under some settings.
  abbrev pub lookup_of : PrivateNetworkConfig → M LoadBalancer
  lookup_of config = get_load_balancer_by_name rt.env config (name_lb ex.namespace)

  -- The last part was a lookup by the name of the extension that found nothing.
  abbrev pub NothingFound : List Call → Type 0
  NothingFound h' =
      (config : PrivateNetworkConfig) × (h : List Call) × (e : Error) × (lookup_of config h
        ≡ (failed e, h'))
      × (is_err_not_found e ≡ true)

  -- A load balancer was found by the name of the extension, and the last call read that it is gone.
  abbrev pub FoundThenGone : List Call → Type 0
  FoundThenGone h' =
      (config : PrivateNetworkConfig) × (lb : LoadBalancer) × (h : List Call) × (h1 : List Call)
      × (lookup_of config h ≡ (returned lb, h1))
      × IsGone rt.env rt.wait lb.id tt h'

  abbrev pub Deleted : Unit {0} → List Call → Type 0
  Deleted u h' = NothingFound h' ⊎ FoundThenGone h'

  module _ (laws : WaitLaws rt.wait) where
    rest-Deleted :
        (config : PrivateNetworkConfig) (found : Result LoadBalancer) (h : List Call)
        → Attempted (lookup_of config) found h
        → (wrap : Error → Error)
        → Post Deleted (
            handle found
              (λ lb. delete_load_balancer rt.env rt.wait config lb true)
              (λ e. if is_err_not_found e then pure tt else fail (wrap e))
              h)
    unfolding pure fail
    rest-Deleted config (ok lb) h (h0, e) wrap =
        (Ensures-weaken Deleted _ (λ _ h' g. inr (config, lb, h0, h, e, g))
            (delete-IsGone rt.env rt.wait laws config lb true)).at
          h
    rest-Deleted config (err x) h (h0, e) wrap = elim (Bool-cases (is_err_not_found x)) [
      | inl p ↦ rw p (inl (config, h0, x, e, p))
      | inr p ↦ rw p tt
    ]

    delete-Deleted : Ensures Deleted (delete rt ex)
    unfolding delete
    delete-Deleted = Ensures-bind _ _ λ cluster. Ensures-bind _ _ λ config.
        Ensures-then (Attempted (lookup_of config)) _ _ (Ensures-attempt (lookup_of config))
          λ found h q. rest-Deleted config found h q _

    -- If `Delete` returns without an error, then either its lookup by the name of the extension found
    -- nothing, or it found a load balancer and the last call of all read that this one is gone. This
    -- is under the laws of the wait.
    pub delete_lem :
        (h h' : List Call) → delete rt ex h ≡ (returned tt, h') → NothingFound h' ⊎ FoundThenGone h'
    delete_lem h h' e = Ensures-elim delete-Deleted {h = h} {h' = h'} {a = tt} e
