-- ===== src/HealthCheck/Soundness.antt =====
-- What a report of a healthy load balancer rests on.
use gardener_extension_priva.Base.{String, ◌≡◌, Bool, List, ◌<>◌, if◌then◌else◌}
use gardener_extension_priva.Fault.{Error, Result, ok, err, returned, is_err_not_found}
use gardener_extension_priva.OpenStack.{LoadBalancer}
use gardener_extension_priva.Kube.{Extension}
use gardener_extension_priva.World.{Call, Env, M, pure, fail, handle}
use gardener_extension_priva.World.Ensures.{
  Post, Ensures, Attempted, Ensures-attempt, Ensures-elim, Ensures-bind, Ensures-then,
  Ensures-handle, Ensures-if, Ensures-pure, Ensures-fail,
}
use gardener_extension_priva.Config.{Codec}
use gardener_extension_priva.LoadBalancer.Lookup.Source.{OnlyValid, get_by_name-OnlyValid}
use gardener_extension_priva.HealthCheck.{
  DefaultHealthChecker, ConditionStatus, SingleCheckResult, result_of, verdict,
  check_load_balancer_health, check,
}
use gardener_extension_priva.HealthCheck.Laws.{IsHealthy, verdict_iff}

module _ (env : Env) (codec : Codec) (is_api_not_found : Error → Bool)
    (checker : DefaultHealthChecker) (namespace : String) where
  -- Where the result reports a healthy load balancer, the last call found it.
  abbrev pub Rests : SingleCheckResult → List Call → Type 0
  Rests r h =
      r.status ≡ ConditionStatus.condition_true
      → (lb : LoadBalancer) × OnlyValid env (checker.prefix_lb_name <> ("-" <> namespace)) lb h
        × IsHealthy lb

  refusal-Rests :
      (b : Bool) (format : String) (args : List String) (e : Error)
      → Ensures Rests
          (if b then pure (result_of ConditionStatus.condition_false format args) else fail e)
  refusal-Rests b format args e =
      Ensures-if b _ _ (λ _. Ensures-pure _ (λ h p. absurd (cc p))) (λ _. Ensures-fail e)

  found-Rests :
      (m : M LoadBalancer) (found : Result LoadBalancer) (g : Error → M SingleCheckResult)
      (h : List Call)
      → Ensures (OnlyValid env (checker.prefix_lb_name <> ("-" <> namespace))) m
      → ((e : Error) → Ensures Rests (g e))
      → Attempted m found h
      → Post Rests (
          handle found
            (λ lb. pure (verdict (checker.prefix_lb_name <> ("-" <> namespace)) namespace lb))
            g
            h)
  unfolding pure
  found-Rests m (ok lb) g h valid refuses (before, e) =
      λ p. (lb, Ensures-elim valid e, ((verdict_iff _ namespace lb).0).0 p)
  found-Rests m (err x) g h valid refuses a = (refuses x).at h

  check_health-Rests :
      (extension : Extension)
      → Ensures Rests
          (check_load_balancer_health env codec is_api_not_found checker namespace extension)
  unfolding check_load_balancer_health
  check_health-Rests extension = Ensures-bind _ _ λ got. Ensures-bind _ _ λ secret.
      Ensures-bind _ _ λ conf. Ensures-then (Attempted _) _ _ (Ensures-attempt _) λ found h a.
        found-Rests _ found _ h (get_by_name-OnlyValid env _ _)
          (λ e. refusal-Rests (is_err_not_found e) _ _ _) a

  -- If `Check` reports true, its last call listed the load balancers that have the checker's prefix
  -- and the namespace as their name, and the only one of them that is neither deleted nor being
  -- deleted is ACTIVE and ONLINE.
  pub check_lem :
      (h h' : List Call) (r : SingleCheckResult)
      → check env codec is_api_not_found checker namespace h ≡ (returned r, h')
      → r.status ≡ ConditionStatus.condition_true
      → (lb : LoadBalancer) × OnlyValid env (checker.prefix_lb_name <> ("-" <> namespace)) lb h'
        × IsHealthy lb
  unfolding check
  check_lem h h' r e =
      Ensures-elim {Q = Rests}
        (Ensures-bind _ _ λ got.
          Ensures-handle got _ _ (λ extension _. check_health-Rests extension)
            (λ x _. refusal-Rests (is_api_not_found x) _ _ _))
        {h = h} {h' = h'} {a = r} e
