-- ===== src/LoadBalancer/Deletion/Laws.antt =====
-- What a deletion ensures: it returns only once the load balancer is gone, and it does not touch one
-- that is neither ACTIVE nor in ERROR.
use gardener_extension_priva.Base.{String, ◌≡◌, ◌≢◌, refl, ap, Bool, true, none, List}
use gardener_extension_priva.Fault.{Outcome, returned, failed, panicked}
use gardener_extension_priva.OpenStack.{ServiceClient, LoadBalancer}
use gardener_extension_priva.World.{Call, Env, M, writes}
use gardener_extension_priva.World.Emits.{Emits, Emits-bind, Emits-if_of, Emits-fail}
use gardener_extension_priva.World.Ensures.{
  Post, Ensures, Ensures-bind, Ensures-fail, Ensures-if, Ensures-elim,
}
use gardener_extension_priva.World.Reads.{IsRead, writes-Emits}
use gardener_extension_priva.Config.{PrivateNetworkConfig}
use gardener_extension_priva.Wait.{Wait, WaitLaws}
use gardener_extension_priva.LoadBalancer.Calls.{initial_client-Emits, load_balancer_client-Emits}
use gardener_extension_priva.LoadBalancer.Waiting.{wait_loadbalancer_deleted}
use gardener_extension_priva.LoadBalancer.Waiting.Laws.{ReadGone, wait_deleted_lem}
use gardener_extension_priva.LoadBalancer.Deletion.{
  is_immutable, delete_and_wait, delete_load_balancer,
}

Ensures-never : {m : M (Unit {0})} → Ensures (λ u h. ⊥) m → (h : List Call) → (m h).0 ≢ returned tt
Ensures-never {m} never h q = Ensures-elim never (ap (λ o. (o, (m h).1)) q)

module _ (env : Env) (wait : Wait) where
  -- The last call was a read of the load balancer with the given ID, and found none.
  abbrev pub IsGone : String → Unit {0} → List Call → Type 0
  IsGone id u h = (client : ServiceClient) × ReadGone env client id none h

  module _ (laws : WaitLaws wait) where
    IsGone-Post :
        (client : ServiceClient) (id : String) (r : Outcome (Unit {0}) × List Call)
        → (r.0 ≡ returned tt → ReadGone env client id none r.1)
        → Post (IsGone id) r
    IsGone-Post client id (returned u, h) g = (client, g refl)
    IsGone-Post client id (failed e, h) g = tt
    IsGone-Post client id (panicked, h) g = tt

    wait_deleted-IsGone :
        (client : ServiceClient) (id : String)
        → Ensures (IsGone id) (wait_loadbalancer_deleted env wait client id)
    wait_deleted-IsGone client id = record {
      at = λ h. IsGone-Post client id _ (wait_deleted_lem env client id wait laws h).2;
    }

    pub delete-IsGone :
        (config : PrivateNetworkConfig) (lb : LoadBalancer) (cascade : Bool)
        → Ensures (IsGone lb.id) (delete_load_balancer env wait config lb cascade)
    unfolding delete_load_balancer delete_and_wait
    delete-IsGone config lb cascade = Ensures-bind _ _ λ provider. Ensures-bind _ _ λ client.
        Ensures-if (is_immutable lb) _ _ (λ p. Ensures-fail _)
          λ p. Ensures-bind _ _ λ refused. Ensures-bind _ _ λ _. wait_deleted-IsGone client lb.id

    -- Under the laws of `wait`, `DeleteLoadbalancer` returns without an error only where its last call
    -- read the load balancer and found none.
    pub delete_load_balancer-IsGone :
        (config : PrivateNetworkConfig) (lb : LoadBalancer) (cascade : Bool) (h h' : List Call)
        → delete_load_balancer env wait config lb cascade h ≡ (returned tt, h')
        → IsGone lb.id tt h'
    delete_load_balancer-IsGone config lb cascade h h' e =
        Ensures-elim (delete-IsGone config lb cascade) {h = h} {h' = h'} {a = tt} e

  refuses :
      (config : PrivateNetworkConfig) (lb : LoadBalancer) (cascade : Bool)
      → is_immutable lb ≡ true
      → Ensures (λ u h. ⊥) (delete_load_balancer env wait config lb cascade)
  unfolding delete_load_balancer
  refuses config lb cascade p = Ensures-bind _ _ λ provider.
      Ensures-bind _ _
        λ client. Ensures-if (is_immutable lb) _ _ (λ q. Ensures-fail _) (λ q. absurd (cc (p, q)))

  reads_only :
      (config : PrivateNetworkConfig) (lb : LoadBalancer) (cascade : Bool)
      → is_immutable lb ≡ true
      → Emits IsRead (delete_load_balancer env wait config lb cascade)
  unfolding delete_load_balancer
  reads_only config lb cascade p =
      Emits-bind _ _ (initial_client-Emits IsRead (λ c r. r) env config) λ provider.
        Emits-bind _ _ (load_balancer_client-Emits IsRead (λ c r. r) env config _ provider)
          λ client. Emits-if_of (is_immutable lb) _ _ (λ q. Emits-fail _) (λ q. absurd (cc (p, q)))

  -- A load balancer that is neither ACTIVE nor in ERROR is left alone: whatever the calls answer, the
  -- deletion does not return without an error and writes nothing.
  pub delete_immutable_lem :
      (config : PrivateNetworkConfig) (lb : LoadBalancer) (cascade : Bool) (h : List Call)
      → is_immutable lb ≡ true
      → let r = delete_load_balancer env wait config lb cascade h in
        (r.0 ≢ returned tt) × (writes r.1 ≡ writes h)
  delete_immutable_lem config lb cascade h p = (
    Ensures-never (refuses config lb cascade p) h,
    writes-Emits _ (reads_only config lb cascade p) h,
  )
