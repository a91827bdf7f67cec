-- ===== src/FloatingSubnet/Listing.antt =====
-- The listing of a floating network's subnets.
use gardener_extension_priva.Base.{String, ◌≡◌, false, Option, some, List, [], ◌∷◌}
use gardener_extension_priva.Fault.{ok, returned, failed, errorf}
use gardener_extension_priva.OpenStack.{ServiceClient, Subnet}
use gardener_extension_priva.World.{Call, Env, pure, fail, ask, or_fail, non_nil, ◌>>=◌}
use gardener_extension_priva.FloatingSubnet.{
  FloatingSubnetSpec, Patterns, Matcher, matcher, tweak_list_opts, tweak_of, apply_tweaks,
  network_opts, filtered, list_subnets_for_network, spec_subnets_for_network,
}

module _ (env : Env) (net_client : ServiceClient) (patterns : Patterns) (spec : FloatingSubnetSpec)
    (network_id : String) (h : List Call) where
  abbrev pub query : Call
  query = Call.list_subnets net_client (tweak_list_opts spec (network_opts network_id))

  -- One query goes out, with the network and the tag filter in it. If it answers with subnets, those
  -- that the compiled name pattern accepts are returned, in the order of the answer, all of them
  -- where nothing is configured.
  pub spec_subnets_for_network_lem :
      (match : Option Matcher) (s : Subnet) (subs : List Subnet)
      → matcher patterns false (some spec) ≡ ok match
      → env query h ≡ ok (ok (s ∷ subs))
      → spec_subnets_for_network env net_client patterns (some spec) network_id h
        ≡ (returned (filtered match (s ∷ subs)), query ∷ h)
  unfolding spec_subnets_for_network list_subnets_for_network tweak_of apply_tweaks ask or_fail
      non_nil pure fail ◌>>=◌
  spec_subnets_for_network_lem match s subs m e = rw (m, e)

  -- An answer with no subnet is an error, whatever the specification.
  pub spec_subnets_for_network_none :
      (match : Option Matcher)
      → matcher patterns false (some spec) ≡ ok match
      → env query h ≡ ok (ok [])
      → spec_subnets_for_network env net_client patterns (some spec) network_id h
        ≡ (failed (errorf "could not find subnets for network %s" (network_id ∷ [])), query ∷ h)
  unfolding spec_subnets_for_network list_subnets_for_network tweak_of apply_tweaks ask or_fail
      non_nil pure fail ◌>>=◌
  spec_subnets_for_network_none match m e = rw (m, e)
