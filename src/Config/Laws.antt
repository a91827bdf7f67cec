-- ===== src/Config/Laws.antt =====
-- The settings: which source ranges are allowed, and that reading the settings only reads.
use gardener_extension_priva.Base.{
  String, ◌≡◌, ◌∙◌, subst, Bool, ◌||◌, List, [], ◌∷◌, Option, none, some, arith, any_of, ◌++◌,
  Option-cases, inl, inr,
}
use gardener_extension_priva.Fault.{Error, Result, ok, err}
use gardener_extension_priva.Kube.{Extension, Cluster, Seed, Shoot}
use gardener_extension_priva.World.{Call, Env}
use gardener_extension_priva.World.Emits.{Emits, emits_rules}
use gardener_extension_priva.World.Reads.{CoversReads}
use gardener_extension_priva.IpNet.{Net, IpNet, contains, parse_ip_nets}
use gardener_extension_priva.IpNet.Parsing.{names, first_error, IsParsed, parse_ip_nets_lem}
use gardener_extension_priva.IpNet.Sets.{NodupKeys}
use gardener_extension_priva.Config.{
  ExtensionSpec, PrivateNetworkConfig, Codec, complete, get_cluster_for_extension,
  get_global_config_for_private_network, source_range_specs, source_range_error,
  get_load_balancer_source_ranges,
}

module _ (P : Call → Type 0) (covers : CoversReads P) (env : Env) where
  complete-Emits : (c : Cluster) (d : Option Seed) (s : Option Shoot) → Emits P (complete env c d s)
  complete-Emits c (some d) (some s) = search emits_rules
  complete-Emits c _ _ = search emits_rules

  pub get_cluster-Emits : (ex : Extension) → Emits P (get_cluster_for_extension env ex)
  unfolding get_cluster_for_extension
  get_cluster-Emits ex = search (emits_rules, covers, complete-Emits)

  pub get_global_config-Emits :
      (codec : Codec) (ex : Extension)
      → Emits P (get_global_config_for_private_network env codec ex)
  unfolding get_global_config_for_private_network
  get_global_config-Emits codec ex = search (emits_rules, covers, get_cluster-Emits) depth 20

-- What the source ranges hold: the default where no list is given, and otherwise the given CIDRs
-- and those of the workers.
abbrev pub allows : (net : Net) → ExtensionSpec → PrivateNetworkConfig → String → Bool
allows net ext_spec config k = elim ext_spec.alow_cidrs [
  | none ↦ names net k "0.0.0.0/0"
  | some cidrs ↦ any_of (names net k) cidrs || names net k config.worker_network.workers
]

module _ (net : Net) (ext_spec : ExtensionSpec) (config : PrivateNetworkConfig) where
  any_of-append :
      (k : String) (xs : List String) (y : String)
      → any_of (names net k) (xs ++ y ∷ []) ≡ (any_of (names net k) xs || names net k y)
  any_of-append k [] y = ground arith
  any_of-append k (x ∷ xs) y = ground (arith, any_of-append k xs y)

  specs-allows :
      (k : String)
      → any_of (names net k) (source_range_specs ext_spec config) ≡ allows net ext_spec config k
  unfolding source_range_specs
  specs-allows k = elim (Option-cases ext_spec.alow_cidrs) [
    | inl p ↦ rw p (ground arith)
    | inr (cidrs, p) ↦ rw p (any_of-append k cidrs config.worker_network.workers)
  ]

  parsed-ok :
      (specs : List String) (o : Option Error) (r : Result (IpNet net)) (s : IpNet net)
      → IsParsed net specs o r
      → r ≡ ok s
      → NodupKeys s × ((k : String) → contains s k ≡ any_of (names net k) specs)
  parsed-ok specs (some e) r s p q = absurd (cc (p, q))
  parsed-ok specs none r s (s', e, nodup, members) q =
      let p : s' ≡ s = cc (e, q) in
      subst (λ t. NodupKeys t × ((k : String) → contains t k ≡ any_of (names net k) specs)) p
        (nodup, members)

  ranges-ok :
      (r : Result (IpNet net)) (s : IpNet net)
      → IsParsed net
          (source_range_specs ext_spec config)
          (first_error net (source_range_specs ext_spec config))
          r
      → elim r [
        | err e ↦ err (source_range_error (source_range_specs ext_spec config) e)
        | ok ipnets ↦ ok ipnets
      ]
        ≡ ok s
      → NodupKeys s × ((k : String) → contains s k ≡ allows net ext_spec config k)
  ranges-ok (err e) s p q = absurd (cc q)
  ranges-ok (ok n) s p q =
      let (nodup, members) = parsed-ok (source_range_specs ext_spec config) _ (ok n) s p q in
      (nodup, λ k. members k ∙ specs-allows k)

  -- The allowed source ranges, where they can be read: each once, and exactly the texts of the
  -- default where no list of CIDRs is given, or else of the given CIDRs and those of the workers.
  pub source_ranges_lem :
      (s : IpNet net)
      → get_load_balancer_source_ranges net ext_spec config ≡ ok s
      → NodupKeys s × ((k : String) → contains s k ≡ allows net ext_spec config k)
  unfolding get_load_balancer_source_ranges
  source_ranges_lem s e =
      ranges-ok (parse_ip_nets net (source_range_specs ext_spec config)) s
        (parse_ip_nets_lem net (source_range_specs ext_spec config)) e
