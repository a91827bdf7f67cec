-- ===== src/FloatingSubnet/Costs.antt =====
-- How many calls `ListSubnetsForNetwork` makes, and how many subnets it gives at most.
use gardener_extension_priva.Base.{
  ℕ, Bool, false, ◌≤◌, String, List, [], ◌∷◌, Option, none, some, length, keep, arith,
}
use gardener_extension_priva.OpenStack.{ServiceClient, Subnet}
use gardener_extension_priva.World.{Call, Env, ask}
use gardener_extension_priva.World.Costs.{
  Costs, Costs-pure, Costs-fail, Costs-ask, Costs-bind, Calls-or_fail, Calls-bind, one_call_rules,
  Short, Listed, Costs-pages,
}
use gardener_extension_priva.FloatingSubnet.{
  FloatingSubnetSpec, Patterns, Matcher, matcher, tweak_of, apply_tweaks, non_empty, filtered,
  list_subnets_for_network, spec_subnets_for_network,
}

length-keep : {A : Type 0} (p : A → Bool) (xs : List A) → length (keep p xs) ≤ length xs
length-keep p [] = omega arith
length-keep p (x ∷ xs) = let rest = length-keep p xs in ground arith

length-filtered : (m : Option Matcher) (l : List Subnet) → length (filtered m l) ≤ length l
length-filtered none l = omega arith
length-filtered (some p) l = length-keep p l

module _ (env : Env) (k : ℕ) (short : Short env k) where
  non_empty-Costs :
      (id : String) (l : List Subnet)
      → length l ≤ k
      → Costs 0 (λ ls. length ls ≤ k) (non_empty id l)
  non_empty-Costs id [] le = Costs-fail _
  non_empty-Costs id (s ∷ l) le = Costs-pure (s ∷ l) le

  list_subnets-Costs :
      (client : ServiceClient) (spec : FloatingSubnetSpec) (id : String)
      → Costs 1
          (λ ls. length ls ≤ k)
          (list_subnets_for_network env client id (some (tweak_of (some spec)) ∷ []))
  unfolding list_subnets_for_network tweak_of apply_tweaks
  list_subnets-Costs client spec id = Calls-bind 0 1 _ _ (search one_call_rules) λ opts.
      Costs-bind {Q = Listed k} 1 0 (ask env (Call.list_subnets client opts)) _
        (Costs-ask env (Call.list_subnets client opts) λ h ls e. short.subnets client opts h ls e)
        λ listed q. Costs-pages k 0 _ _ listed _ q (non_empty-Costs id)

  pub spec_subnets-Costs :
      (client : ServiceClient) (patterns : Patterns) (spec : FloatingSubnetSpec) (id : String)
      → Costs 1 (λ ls. length ls ≤ k) (spec_subnets_for_network env client patterns (some spec) id)
  unfolding spec_subnets_for_network
  spec_subnets-Costs client patterns spec id =
      Calls-bind 0 1 _ _ (Calls-or_fail _ (matcher patterns false (some spec))) λ match.
        Costs-bind {Q = λ ls. length ls ≤ k} 1 0 _ _ (list_subnets-Costs client spec id)
          λ ls le. Costs-pure _ (omega (arith, length-filtered match ls))
