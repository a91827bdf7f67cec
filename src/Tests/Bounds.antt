-- ===== src/Tests/Bounds.antt =====
-- The number of calls of a reconciliation and of a deletion.
use gardener_extension_priva.Base.{◌≤◌, ◌≡◌, List, [], ◌∷◌, ap, length, arith}
use gardener_extension_priva.Fault.{ok}
use gardener_extension_priva.World.Costs.{Short}
use gardener_extension_priva.Actuator.{reconcile, delete}
use gardener_extension_priva.Actuator.Costs.{reconcile_bound, delete_bound}
use gardener_extension_priva.Tests.Cloud.{
  env_of, calm, the_listener, worker_subnet, runtime_of, extension_of, polling-WaitLaws,
}

listed_within :
    {A : Type 0} (xs ls : List A) → length xs ≤ 1 → ok (ok xs) ≡ ok (ok ls) → length ls ≤ 1
listed_within xs ls le e = let p : xs ≡ ls = cc in omega (arith, ap length p)

calm-Short : Short (env_of calm) 1
calm-Short = record {
  listeners = λ client opts h ls e. listed_within (the_listener ∷ []) ls (omega arith) e;
  floating_ips = λ client opts h ls e. listed_within [] ls (omega arith) e;
  subnets = λ client opts h ls e. listed_within (worker_subnet ∷ []) ls (omega arith) e;
}

reconcile_bound_example : length (reconcile (runtime_of calm) (extension_of "private") []).1 ≤ 95
reconcile_bound_example =
    reconcile_bound (runtime_of calm) polling-WaitLaws 1 calm-Short (extension_of "private") []

delete_bound_example : length (delete (runtime_of calm) (extension_of "private") []).1 ≤ 21
delete_bound_example = delete_bound (runtime_of calm) polling-WaitLaws (extension_of "private") []
