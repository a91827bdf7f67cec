-- ===== src/LoadBalancer/Creation/Laws.antt =====
-- What a creation asks for, and what it ensures.
use gardener_extension_priva.Base.{ℕ, String, ◌≡◌, refl, Option, none, some, List}
use gardener_extension_priva.Fault.{Error, returned}
use gardener_extension_priva.OpenStack.{ServiceClient, LoadBalancer}
use gardener_extension_priva.World.{Call, Env, pure, fail}
use gardener_extension_priva.World.Ensures.{Post, Ensures, Ensures-bind, Ensures-then, Ensures-elim}
use gardener_extension_priva.Config.{PrivateNetworkConfig}
use gardener_extension_priva.Wait.{Wait, WaitLaws}
use gardener_extension_priva.LoadBalancer.Waiting.Laws.{ReadActive, wait_active_lem}
use gardener_extension_priva.LoadBalancer.Waiting.{wait_active_and_get_load_balancer}
use gardener_extension_priva.LoadBalancer.Creation.{created, create_load_balancer}

module _ (env : Env) (wait : Wait) (laws : WaitLaws wait) where
  -- The last call read a load balancer, found it ACTIVE, and it is what was returned.
  abbrev pub IsBuilt : Option LoadBalancer → List Call → Type 0
  IsBuilt lb h = (client : ServiceClient) × (id : String) × ReadActive env client id lb h

  wait-IsBuilt :
      (client : ServiceClient) (id : String)
      → Ensures
          (λ r h. r.1 ≡ none → IsBuilt r.0 h)
          (wait_active_and_get_load_balancer env wait client id)
  wait-IsBuilt client id = record {
    at = λ h.
        let (lb, e, h', eq, reads, q) = wait_active_lem env client id wait laws h in
        rw eq (λ n. (client, id, q n));
  }

  created-IsBuilt :
      (waited : Option LoadBalancer × Option Error) (h : List Call)
      → (waited.1 ≡ none → IsBuilt waited.0 h)
      → Post IsBuilt (created env waited h)
  unfolding pure fail
  created-IsBuilt (lb, none) h q = q refl
  created-IsBuilt (lb, some e) h q = tt

  pub create-IsBuilt :
      (config : PrivateNetworkConfig) (vips : List String) (name : String) (cidrs : ℕ → List String)
      → Ensures IsBuilt (create_load_balancer env wait config vips name cidrs)
  unfolding create_load_balancer
  create-IsBuilt config vips name cidrs = Ensures-bind _ _ λ provider.
      Ensures-bind _ _ λ client_network. Ensures-bind _ _ λ client_lb. Ensures-bind _ _ λ subnet.
        Ensures-bind _ _ λ flavor. Ensures-bind _ _ λ made. Ensures-bind _ _ λ lb.
          Ensures-then (λ r h. r.1 ≡ none → IsBuilt r.0 h) _ _ (wait-IsBuilt client_lb lb.id)
            created-IsBuilt

  -- Under the laws of `wait`, `CreateLoadBalancer` returns without an error only with a load balancer
  -- that its last call read and found ACTIVE.
  pub create_load_balancer-IsBuilt :
      (config : PrivateNetworkConfig) (vips : List String) (name : String) (cidrs : ℕ → List String)
      (h h' : List Call) (lb : Option LoadBalancer)
      → create_load_balancer env wait config vips name cidrs h ≡ (returned lb, h')
      → IsBuilt lb h'
  create_load_balancer-IsBuilt config vips name cidrs h h' lb e =
      Ensures-elim (create-IsBuilt config vips name cidrs) {h = h} {h' = h'} {a = lb} e
