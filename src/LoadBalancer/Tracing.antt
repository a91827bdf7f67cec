-- ===== src/LoadBalancer/Tracing.antt =====
-- Where a load balancer that the code holds comes from: from an origin, by reads of the ID of what was
-- held before.
use gardener_extension_priva.Base.{◌≡◌, refl, Option, none, some, List, ◌∷◌}
use gardener_extension_priva.Constants.{provisioning_active_status}
use gardener_extension_priva.Fault.{Error, ok}
use gardener_extension_priva.OpenStack.{ServiceClient, LoadBalancer}
use gardener_extension_priva.World.{Call, Env}
use gardener_extension_priva.World.Triples.{
  Lasting, Lasting-Since, Triple, Triple-bind, Triple-non_nil, Triple-fail, Triple-pure,
}
use gardener_extension_priva.Wait.{Wait, WaitLaws}
use gardener_extension_priva.LoadBalancer.Waiting.{wait_active_and_get_load_balancer}
use gardener_extension_priva.LoadBalancer.Waiting.Reads.{ReadSince, wait_active_reads}
use gardener_extension_priva.LoadBalancer.Listeners.{active_or_fail}

module _ (env : Env) (Origin : LoadBalancer → List Call → Type 0) where
  -- At this history the load balancer is at its origin, or a call of this history read it by the ID of
  -- one that was traced before the call.
  pub data Traced : LoadBalancer → List Call → Type 0 where
    origin : {lb : LoadBalancer} {h : List Call} → Origin lb h → Traced lb h
    reread :
        (client : ServiceClient) {lb lb' : LoadBalancer} {h : List Call}
        → Traced lb h
        → env (Call.get_load_balancer client lb.id) h ≡ ok lb'
        → Traced lb' (Call.get_load_balancer client lb.id ∷ h)
    later : {lb : LoadBalancer} (c : Call) {h : List Call} → Traced lb h → Traced lb (c ∷ h)

  pub Traced-Lasting : (lb : LoadBalancer) → Lasting (Traced lb)
  Traced-Lasting lb c h t = Traced.later c t

  -- a load balancer that is there, ACTIVE when it was read last, and traced
  abbrev pub Running : Option LoadBalancer → List Call → Type 0
  Running o h =
      (lb : LoadBalancer) × (o ≡ some lb)
      × (lb.provisioning_status ≡ provisioning_active_status)
      × Traced lb h

  pub Running-Lasting : (o : Option LoadBalancer) → Lasting (Running o)
  Running-Lasting o c h (lb, p, a, t) = (lb, p, a, Traced.later c t)

  read-Running :
      (client : ServiceClient) (lb : LoadBalancer) (o : Option LoadBalancer) (h h' : List Call)
      → Traced lb h
      → ReadSince env client lb.id h o h'
      → Running o h'
  read-Running client lb o h h' t (l, before, s, e, answer, p, active) = (
    l,
    p,
    active,
    rw e (Traced.reread client (Lasting-Since (Traced lb) h before (Traced-Lasting lb) s t) answer),
  )

  module _ (wait : Wait) (laws : WaitLaws wait) (K : List Call → Type 0) (lasting : Lasting K)
      (client : ServiceClient) where
    -- the wait, from a load balancer that is traced
    pub wait-Running :
        (lb : LoadBalancer)
        → Triple
            (λ h. K h × Traced lb h)
            (λ r h. K h × (r.1 ≡ none → Running r.0 h))
            (wait_active_and_get_load_balancer env wait client lb.id)
    wait-Running lb = record {
      at = λ h k.
          let (o, e, h', eq, s, q) = wait_active_reads env client lb.id wait laws h in
          rw eq (Lasting-Since K h h' lasting s k.0, λ n. read-Running client lb o h h' k.1 (q n));
    }

pub active_or_fail-Triple :
    {K : List Call → Type 0} (lb : Option LoadBalancer) (e : Option Error)
    → Triple K (λ _ h. K h × (e ≡ none)) (active_or_fail lb e)
active_or_fail-Triple lb none = Triple-pure tt (λ h k. (k, refl))
active_or_fail-Triple lb (some e) = Triple-bind _ _ _ (Triple-non_nil lb) (λ read. Triple-fail _)
