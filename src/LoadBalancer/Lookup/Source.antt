-- ===== src/LoadBalancer/Lookup/Source.antt =====
-- Where a load balancer that was looked up by its name comes from.
use gardener_extension_priva.Base.{String, ◌≡◌, refl, List, [], ◌∷◌, keep}
use gardener_extension_priva.Fault.{Result, ok, err}
use gardener_extension_priva.OpenStack.{ServiceClient, LoadBalancer}
use gardener_extension_priva.World.{Call, Env, pure, fail, ask, or_fail, ◌>>=◌}
use gardener_extension_priva.World.Ensures.{Post, Ensures, Ensures-bind}
use gardener_extension_priva.Config.{PrivateNetworkConfig}
use gardener_extension_priva.LoadBalancer.Lookup.{
  is_valid, single, get_load_balancers, find_load_balancer, get_load_balancer_by_name,
}
use gardener_extension_priva.LoadBalancer.Lookup.Laws.{SplitAt, keep-single}

module _ (env : Env) (name : String) where
  -- The last call listed the load balancers of the name, and this one alone is valid among them.
  abbrev pub OnlyValid : LoadBalancer → List Call → Type 0
  OnlyValid lb h =
      (client : ServiceClient) × (before : List Call) × (lbs : List LoadBalancer) × (h
        ≡ Call.list_load_balancers client name ∷ before)
      × (env (Call.list_load_balancers client name) before ≡ ok (ok lbs))
      × SplitAt is_valid lb lbs

  single-OnlyValid :
      (client : ServiceClient) (lbs kept : List LoadBalancer) (h : List Call)
      → env (Call.list_load_balancers client name) h ≡ ok (ok lbs)
      → keep is_valid lbs ≡ kept
      → Post OnlyValid (single kept (Call.list_load_balancers client name ∷ h))
  unfolding pure fail
  single-OnlyValid client lbs [] h e p = tt
  single-OnlyValid client lbs (lb ∷ []) h e p =
      (client, h, lbs, refl, e, keep-single is_valid lbs lb p)
  single-OnlyValid client lbs (lb ∷ lb' ∷ kept) h e p = tt

  answered-OnlyValid :
      (client : ServiceClient) (h : List Call) (answer : Result (Result (List LoadBalancer)))
      → env (Call.list_load_balancers client name) h ≡ answer
      → Post OnlyValid (find_load_balancer env client name h)
  unfolding find_load_balancer get_load_balancers ask or_fail ◌>>=◌
  answered-OnlyValid client h (ok (ok lbs)) e = rw e (single-OnlyValid client lbs _ h e refl)
  answered-OnlyValid client h (ok (err x)) e = rw e tt
  answered-OnlyValid client h (err x) e = rw e tt

  pub get_by_name-OnlyValid :
      (config : PrivateNetworkConfig)
      → Ensures OnlyValid (get_load_balancer_by_name env config name)
  unfolding get_load_balancer_by_name
  get_by_name-OnlyValid config =
      Ensures-bind _ _ λ provider.
        Ensures-bind _ _ λ client. record { at = λ h. answered-OnlyValid client h _ refl }
