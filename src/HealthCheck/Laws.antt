-- ===== src/HealthCheck/Laws.antt =====
-- The verdict of the health check, and that the check only reads.
use gardener_extension_priva.Base.{
  String, ◌≡◌, ◌↔◌, ◌⊎◌, refl, Bool, true, false, List, ◌==◌, eq_iff, arith, if◌then◌else◌, ◌||◌,
  ap,
}
use gardener_extension_priva.Constants.{
  provisioning_active_status, provisioning_error_status, operating_online_status,
  operation_error_status, operation_offline_status,
}
use gardener_extension_priva.Fault.{Error}
use gardener_extension_priva.OpenStack.{LoadBalancer}
use gardener_extension_priva.Kube.{Extension}
use gardener_extension_priva.World.{Call, Env, writes}
use gardener_extension_priva.World.Emits.{Emits, emits_rules}
use gardener_extension_priva.World.Reads.{IsRead, writes-Emits}
use gardener_extension_priva.Config.{Codec}
use gardener_extension_priva.LoadBalancer.Calls.{get_load_balancer_by_name-Emits}
use gardener_extension_priva.HealthCheck.{
  DefaultHealthChecker, ConditionStatus, SingleCheckResult, verdict, check_load_balancer_health,
  check,
}

-- A load balancer that the check reports as healthy.
abbrev pub IsHealthy : LoadBalancer → Type 0
IsHealthy lb =
    (lb.provisioning_status ≡ provisioning_active_status)
    × (lb.operating_status ≡ operating_online_status)

-- One that it reports as broken.
abbrev pub IsBroken : LoadBalancer → Type 0
IsBroken lb =
    (lb.provisioning_status ≡ provisioning_error_status)
    ⊎ ((lb.provisioning_status ≡ provisioning_active_status)
        × ((lb.operating_status ≡ operation_error_status)
            ⊎ (lb.operating_status ≡ operation_offline_status)))

abbrev graded : {A : Type 0} → Bool → Bool → Bool → Bool → A → A → A → A → A → A
graded active online failing broken healthy bad pending dead waiting =
    if active
    then (if online then healthy else if failing then bad else pending)
    else if broken
    then dead
    else waiting

graded-status :
    (active online failing broken : Bool) (healthy bad pending dead waiting : SingleCheckResult)
    → (graded active online failing broken healthy bad pending dead waiting).status
      ≡ graded active online failing broken healthy.status bad.status pending.status dead.status
          waiting.status
graded-status true true f b _ _ _ _ _ = refl
graded-status true false true b _ _ _ _ _ = refl
graded-status true false false b _ _ _ _ _ = refl
graded-status false o f true _ _ _ _ _ = refl
graded-status false o f false _ _ _ _ _ = refl

abbrev grade : Bool → Bool → Bool → Bool → ConditionStatus
grade active online failing broken =
    graded active online failing broken ConditionStatus.condition_true
      ConditionStatus.condition_false ConditionStatus.condition_progressing
      ConditionStatus.condition_false ConditionStatus.condition_progressing

verdict-grade :
    (name namespace : String) (lb : LoadBalancer)
    → (verdict name namespace lb).status
      ≡ grade
          (lb.provisioning_status == provisioning_active_status)
          (lb.operating_status == operating_online_status)
          (lb.operating_status == operation_error_status
            || lb.operating_status == operation_offline_status)
          (lb.provisioning_status == provisioning_error_status)
unfolding verdict
verdict-grade name namespace lb = search graded-status

grade_iff :
    (active online failing broken : Bool)
    → (grade active online failing broken ≡ ConditionStatus.condition_true
        ↔ ((active ≡ true) × (online ≡ true)))
      × (grade active online failing broken ≡ ConditionStatus.condition_false
          ↔ ((active ≡ false) × (broken ≡ true))
            ⊎ ((active ≡ true) × (online ≡ false) × (failing ≡ true)))
grade_iff active online failing broken = ground arith

error_not_active :
    (s : String) → s ≡ provisioning_error_status → (s == provisioning_active_status) ≡ false
error_not_active s e = ap (λ t. t == provisioning_active_status) e

error_not_online :
    (s : String) → s ≡ operation_error_status → (s == operating_online_status) ≡ false
error_not_online s e = ap (λ t. t == operating_online_status) e

offline_not_online :
    (s : String) → s ≡ operation_offline_status → (s == operating_online_status) ≡ false
offline_not_online s e = ap (λ t. t == operating_online_status) e

-- The verdict is true exactly for a load balancer that is ACTIVE and ONLINE, and false exactly for
-- one in ERROR or one that is ACTIVE but operates in ERROR or OFFLINE.
pub verdict_iff :
    (name namespace : String) (lb : LoadBalancer)
    → ((verdict name namespace lb).status ≡ ConditionStatus.condition_true ↔ IsHealthy lb)
      × ((verdict name namespace lb).status ≡ ConditionStatus.condition_false ↔ IsBroken lb)
verdict_iff name namespace lb =
    let p = lb.provisioning_status in
    let o = lb.operating_status in
    ground (
      arith,
      verdict-grade name namespace lb,
      grade_iff (p == provisioning_active_status) (o == operating_online_status)
          (o == operation_error_status || o == operation_offline_status)
          (p == provisioning_error_status),
      eq_iff p provisioning_active_status,
      eq_iff p provisioning_error_status,
      eq_iff o operating_online_status,
      eq_iff o operation_error_status,
      eq_iff o operation_offline_status,
      error_not_active p,
      error_not_online o,
      offline_not_online o,
    )

module _ (env : Env) (codec : Codec) (is_api_not_found : Error → Bool) where
  check_health-Emits :
      (checker : DefaultHealthChecker) (namespace : String) (ex : Extension)
      → Emits IsRead (check_load_balancer_health env codec is_api_not_found checker namespace ex)
  unfolding check_load_balancer_health
  check_health-Emits checker namespace ex =
      search (emits_rules, get_load_balancer_by_name-Emits) depth 20

  pub check-Emits :
      (checker : DefaultHealthChecker) (namespace : String)
      → Emits IsRead (check env codec is_api_not_found checker namespace)
  unfolding check
  check-Emits checker namespace = search (emits_rules, check_health-Emits) depth 12

  -- The check makes no call that changes anything, whatever the calls answer.
  pub check_reads :
      (checker : DefaultHealthChecker) (namespace : String) (h : List Call)
      → writes (check env codec is_api_not_found checker namespace h).1 ≡ writes h
  check_reads checker namespace h =
      writes-Emits (check env codec is_api_not_found checker namespace)
        (check-Emits checker namespace) h
