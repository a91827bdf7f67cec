-- ===== src/FloatingAddress/Breaks.antt =====
-- What the parts of `AttachFloatingIP` panic on: only the listing of floating IPs.
use gardener_extension_priva.Base.{String, ◌≡◌, ◌⊎◌, inr, refl, Option, none, some, List, [], ◌∷◌}
use gardener_extension_priva.Fault.{Error, ok, err}
use gardener_extension_priva.OpenStack.{
  ProviderClient, ServiceClient, LoadBalancer, FloatingIp, FloatingIpListOpts, FloatingIpCreateOpts,
  Network, Subnet, PortForwarding, SubnetListOpts,
}
use gardener_extension_priva.Kube.{Extension}
use gardener_extension_priva.World.{Call, Env, Pages, panic, ask, or_fail, non_nil, ◌>>=◌}
use gardener_extension_priva.World.Breaks.{
  OnPanic, Breaks, Breaks-pure, Breaks-fail, Breaks-or_fail, Breaks-ask, Breaks-bind,
  Breaks-non_nil, Breaks-handle, breaks_rules,
}
use gardener_extension_priva.World.Ensures.{Ensures, Ensures-pure, Ensures-bind, Ensures-handle}
use gardener_extension_priva.FloatingSubnet.{
  Patterns, FloatingSubnetSpec, non_empty, apply_tweaks, list_subnets_for_network,
  spec_subnets_for_network, tweak_of,
}
use gardener_extension_priva.Config.{PrivateNetworkConfig, Codec, read_extension_spec}
use gardener_extension_priva.LoadBalancer.Clients.{initial_client_openstack, network_client}
use gardener_extension_priva.FloatingAddress.{
  extract_dropping_error, first_network, get_floating_ips, update_floating_ip, get_network_by_name,
  attach_if_free, attach_available, create_floating_ip, create_in_subnets, created_or_fail,
  some_subnets,
}

module _ (env : Env) (patterns : Patterns) (codec : Codec) (o : Option LoadBalancer)
    (ex : Extension) where
  -- There is no load balancer, the specification is null, or the newest call listed floating IPs and
  -- was refused.
  abbrev pub Broken : List Call → Type 0
  Broken h =
      (o ≡ none)
      ⊎ (read_extension_spec codec ex ≡ ok none)
      ⊎ ((client : ServiceClient) × (opts : FloatingIpListOpts) × (before : List Call) × (e : Error)
          × (h ≡ Call.list_floating_ips client opts ∷ before)
          × (env (Call.list_floating_ips client opts) before ≡ err e))

  listed-Broken :
      (client : ServiceClient) (opts : FloatingIpListOpts) (h : List Call)
      (answer : Pages FloatingIp)
      → env (Call.list_floating_ips client opts) h ≡ answer
      → OnPanic Broken (extract_dropping_error answer (Call.list_floating_ips client opts ∷ h))
  unfolding panic or_fail
  listed-Broken client opts h (ok (ok ips)) e = tt
  listed-Broken client opts h (ok (err x)) e = tt
  listed-Broken client opts h (err x) e = inr (inr (client, opts, h, x, refl, e))

  pub get_floating_ips-Breaks :
      (client : ServiceClient) (opts : FloatingIpListOpts)
      → Breaks Broken (get_floating_ips env client opts)
  unfolding get_floating_ips ask ◌>>=◌
  get_floating_ips-Breaks client opts = record { at = λ h. listed-Broken client opts h _ refl }

  pub initial_client-Breaks :
      (config : PrivateNetworkConfig) → Breaks Broken (initial_client_openstack env config)
  unfolding initial_client_openstack
  initial_client-Breaks config = search breaks_rules

  pub network_client-Breaks :
      (config : PrivateNetworkConfig) (message : String) (p : ProviderClient)
      → Breaks Broken (network_client env config message p)
  unfolding network_client
  network_client-Breaks config message p = search breaks_rules

  pub update-Breaks :
      (client : ServiceClient) (fip : FloatingIp) (port : Option String)
      → Breaks Broken (update_floating_ip env client fip port)
  unfolding update_floating_ip
  update-Breaks client fip port = search breaks_rules

  attach_if_free-Breaks :
      (client : ServiceClient) (port : String) (fip : FloatingIp) (pfs : List PortForwarding)
      (f : Option FloatingIp)
      → Breaks Broken (attach_if_free env client port fip pfs f)
  unfolding attach_if_free
  attach_if_free-Breaks client port fip pfs f = search (breaks_rules, update-Breaks)

  pub attach_available-Breaks :
      (client : ServiceClient) (pool port : String) (fips : List FloatingIp) (f : Option FloatingIp)
      → Breaks Broken (attach_available env client pool port fips f)
  unfolding attach_available
  attach_available-Breaks client pool port [] f = search breaks_rules
  attach_available-Breaks client pool port (fip ∷ fips) f =
      Breaks-bind _ _ (Breaks-ask env (Call.list_port_forwardings client fip.id)) λ listed.
        Breaks-bind _ _ (Breaks-or_fail _ _) λ pages. Breaks-bind _ _ (Breaks-or_fail _ _) λ pfs.
          Breaks-bind (attach_if_free env client port fip pfs f) _
            (attach_if_free-Breaks client port fip pfs f)
            λ f'. attach_available-Breaks client pool port fips f'

  first_network-Breaks : (name : String) (l : List Network) → Breaks Broken (first_network name l)
  first_network-Breaks name [] = search breaks_rules
  first_network-Breaks name (n ∷ l) = search breaks_rules

  pub get_network-Breaks :
      (client : ServiceClient) (name : String) → Breaks Broken (get_network_by_name env client name)
  unfolding get_network_by_name
  get_network-Breaks client name = search (breaks_rules, first_network-Breaks)

  non_empty-Breaks : (id : String) (l : List Subnet) → Breaks Broken (non_empty id l)
  non_empty-Breaks id [] = search breaks_rules
  non_empty-Breaks id (s ∷ l) = search breaks_rules

  pub some_subnets-Breaks : (id : String) (l : List Subnet) → Breaks Broken (some_subnets env id l)
  some_subnets-Breaks id [] = search breaks_rules
  some_subnets-Breaks id (s ∷ l) = search breaks_rules

  tweak_of-Breaks :
      (s : FloatingSubnetSpec) (opts : SubnetListOpts) → Breaks Broken (tweak_of (some s) opts)
  unfolding tweak_of
  tweak_of-Breaks s opts = Breaks-non_nil (some s) _ (λ p h. absurd (cc p)) (λ spec. Breaks-pure _)

  pub subnets-Breaks :
      (client : ServiceClient) (s : FloatingSubnetSpec) (id : String)
      → Breaks Broken (spec_subnets_for_network env client patterns (some s) id)
  unfolding spec_subnets_for_network list_subnets_for_network apply_tweaks
  subnets-Breaks client s id = search (breaks_rules, non_empty-Breaks, tweak_of-Breaks) depth 14

  -- a pointer or an error, never neither
  abbrev pub Either : Option FloatingIp × Option Error → Type 0
  Either (none, none) = ⊥
  Either (none, some e) = Unit
  Either (some fip, e) = Unit

  pub create-Breaks :
      (client : ServiceClient) (opts : FloatingIpCreateOpts) (l : List Subnet)
      (last : Option FloatingIp × Option Error)
      → Breaks Broken (create_in_subnets env client opts l last)
  unfolding create_in_subnets create_floating_ip
  create-Breaks client opts [] last = search breaks_rules
  create-Breaks client opts (s ∷ l) last = Breaks-bind _ _ (search breaks_rules) λ tried.
      Breaks-handle tried _ _ (λ fip. Breaks-pure _)
        (λ e. create-Breaks client opts l (none, some e))

  pub create-Either :
      (client : ServiceClient) (opts : FloatingIpCreateOpts) (l : List Subnet)
      (last : Option FloatingIp × Option Error)
      → Either last
      → Ensures (λ r _. Either r) (create_in_subnets env client opts l last)
  unfolding create_in_subnets
  create-Either client opts [] last p = Ensures-pure last (λ h. p)
  create-Either client opts (s ∷ l) last p = Ensures-bind _ _ λ tried.
      Ensures-handle tried _ _ (λ fip _. Ensures-pure _ (λ h. tt))
        (λ e _. create-Either client opts l (none, some e) tt)

  pub created-Breaks :
      (id : String) (last : Option FloatingIp × Option Error)
      → Either last
      → Breaks Broken (created_or_fail env id last)
  unfolding non_nil
  created-Breaks id (none, none) p = absurd p
  created-Breaks id (some fip, none) p = record { at = λ h. tt }
  created-Breaks id (none, some e) p = Breaks-fail _
  created-Breaks id (some fip, some e) p = Breaks-fail _
