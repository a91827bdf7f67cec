-- ===== src/FloatingSubnet/Calls.antt =====
-- The listing of subnets only reads.
use gardener_extension_priva.Base.{String, List, [], ◌∷◌, some}
use gardener_extension_priva.OpenStack.{ServiceClient, Subnet}
use gardener_extension_priva.World.{Call, Env}
use gardener_extension_priva.World.Emits.{Emits, emits_rules}
use gardener_extension_priva.World.Reads.{CoversReads}
use gardener_extension_priva.FloatingSubnet.{
  FloatingSubnetSpec, Patterns, tweak_of, apply_tweaks, non_empty, list_subnets_for_network,
  spec_subnets_for_network,
}

module _ (P : Call → Type 0) (covers : CoversReads P) (env : Env) (client : ServiceClient) where
  non_empty-Emits : (id : String) (l : List Subnet) → Emits P (non_empty id l)
  non_empty-Emits id [] = search emits_rules
  non_empty-Emits id (s ∷ l) = search emits_rules

  pub spec_subnets-Emits :
      (patterns : Patterns) (s : FloatingSubnetSpec) (id : String)
      → Emits P (spec_subnets_for_network env client patterns (some s) id)
  unfolding spec_subnets_for_network list_subnets_for_network apply_tweaks tweak_of
  spec_subnets-Emits patterns s id = search (emits_rules, covers, non_empty-Emits) depth 20
