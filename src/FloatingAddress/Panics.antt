-- ===== src/FloatingAddress/Panics.antt =====
-- Where `AttachFloatingIP` panics: the listing of floating IPs drops an error, and panics on it.
use gardener_extension_priva.Base.{
  String, ◌≡◌, inl, inr, refl, ap, ◌∙◌, Option, none, some, List, [], ◌∷◌,
}
use gardener_extension_priva.Fault.{Error, ok, err, returned, panicked}
use gardener_extension_priva.OpenStack.{
  ProviderClient, ServiceClient, LoadBalancer, FloatingIp, FloatingIpCreateOpts, Network, Subnet,
}
use gardener_extension_priva.Kube.{Extension}
use gardener_extension_priva.World.{Call, Env, panic, ask, or_fail, non_nil, on_error, ◌>>=◌}
use gardener_extension_priva.World.Breaks.{
  Breaks, Breaks-elim, Breaks-pure, Breaks-if, Breaks-bind, Breaks-then, Breaks-non_nil,
  Breaks-bind_or_fail, breaks_rules,
}
use gardener_extension_priva.World.Ensures.{
  Ensures, Ensures-pure, Ensures-fail, Ensures-bind, Ensures-handle,
}
use gardener_extension_priva.FloatingSubnet.{Patterns}
use gardener_extension_priva.Config.{
  ExtensionSpec, PrivateNetworkConfig, Codec, read_extension_spec,
}
use gardener_extension_priva.LoadBalancer.Clients.{initial_client_openstack, network_client}
use gardener_extension_priva.FloatingAddress.Breaks.{
  Broken, get_floating_ips-Breaks, initial_client-Breaks, network_client-Breaks, update-Breaks,
  attach_available-Breaks, get_network-Breaks, some_subnets-Breaks, subnets-Breaks, Either,
  create-Breaks, create-Either, created-Breaks,
}
use gardener_extension_priva.FloatingAddress.{
  by_port, get_floating_ips, get_floating_ip_by_port_id, create_in_subnets, some_subnets,
  create_in_pool, or_create, obtain_floating_ip, detach_floating_ip, attached_or_obtained,
  attach_floating_ip,
}

module _ (env : Env) (patterns : Patterns) (codec : Codec) (o : Option LoadBalancer)
    (ex : Extension) where
  abbrev NonEmpty : List Subnet → Type 0
  NonEmpty [] = ⊥
  NonEmpty (s ∷ l) = Unit

  some_subnets-NonEmpty :
      (id : String) (l : List Subnet) → Ensures (λ r _. NonEmpty r) (some_subnets env id l)
  some_subnets-NonEmpty id [] = Ensures-fail _
  some_subnets-NonEmpty id (s ∷ l) = Ensures-pure (s ∷ l) (λ h. tt)

  create_first-Either :
      (client : ServiceClient) (opts : FloatingIpCreateOpts) (l : List Subnet)
      → NonEmpty l
      → Ensures
          (λ r _. Either env patterns codec o ex r)
          (create_in_subnets env client opts l (none, none))
  unfolding create_in_subnets
  create_first-Either client opts [] p = absurd p
  create_first-Either client opts (s ∷ l) p = Ensures-bind _ _ λ tried.
      Ensures-handle tried _ _ (λ fip _. Ensures-pure _ (λ h. tt))
        (λ e _. create-Either env patterns codec o ex client opts l (none, some e) tt)

  create_in_pool-Breaks :
      (client : ServiceClient) (pool network_lb : Network) (lb : LoadBalancer)
      → Breaks
          (Broken env patterns codec o ex)
          (create_in_pool env patterns client pool network_lb lb ex)
  unfolding create_in_pool
  create_in_pool-Breaks client pool network_lb lb =
      Breaks-bind _ _ (subnets-Breaks env patterns codec o ex client _ pool.id) λ matching.
        Breaks-then NonEmpty _ _ (some_subnets-NonEmpty pool.id matching)
          (some_subnets-Breaks env patterns codec o ex pool.id matching)
          λ found p.
            Breaks-then (Either env patterns codec o ex) _ _ (create_first-Either client _ found p)
              (create-Breaks env patterns codec o ex client _ found (none, none))
              (λ last q. created-Breaks env patterns codec o ex pool.id last q)

  or_create-Breaks :
      (client : ServiceClient) (pool network_lb : Network) (lb : LoadBalancer)
      (f : Option FloatingIp)
      → Breaks
          (Broken env patterns codec o ex)
          (or_create env (create_in_pool env patterns client pool network_lb lb ex) f)
  or_create-Breaks client pool network_lb lb none = create_in_pool-Breaks client pool network_lb lb
  or_create-Breaks client pool network_lb lb (some f) = Breaks-pure f

  obtain-Breaks :
      (client : ServiceClient) (config : PrivateNetworkConfig) (lb : LoadBalancer)
      → Breaks
          (Broken env patterns codec o ex)
          (obtain_floating_ip env patterns client config lb ex)
  unfolding obtain_floating_ip
  obtain-Breaks client config lb =
      search
        (
          breaks_rules,
          get_network-Breaks env patterns codec o ex,
          get_floating_ips-Breaks env patterns codec o ex,
          attach_available-Breaks env patterns codec o ex,
          or_create-Breaks,
        )
        depth 20

  attached-Breaks :
      (client : ServiceClient) (config : PrivateNetworkConfig) (lb : LoadBalancer)
      (f : Option FloatingIp)
      → Breaks
          (Broken env patterns codec o ex)
          (attached_or_obtained env patterns client config lb ex f)
  unfolding attached_or_obtained
  attached-Breaks client config lb (some f) = Breaks-pure _
  attached-Breaks client config lb none = search (breaks_rules, obtain-Breaks)

  detach-Breaks :
      (client : ServiceClient) (lb : LoadBalancer) (f : Option FloatingIp)
      → Breaks (Broken env patterns codec o ex) (detach_floating_ip env client lb f)
  unfolding detach_floating_ip
  detach-Breaks client lb none = Breaks-pure _
  detach-Breaks client lb (some f) =
      search (breaks_rules, update-Breaks env patterns codec o ex) depth 12

  -- If `AttachFloatingIP` panics, then there is no load balancer, or the specification of the Extension
  -- is read as nil, or its last call was a listing of floating IPs that was refused.
  pub attach_floating_ip-Broken :
      (config : PrivateNetworkConfig) (h h' : List Call)
      → attach_floating_ip env patterns codec o config ex h ≡ (panicked, h')
      → Broken env patterns codec o ex h'
  unfolding attach_floating_ip get_floating_ip_by_port_id
  attach_floating_ip-Broken config h h' e =
      Breaks-elim
        (Breaks-bind _ _ (initial_client-Breaks env patterns codec o ex config) λ provider.
          Breaks-bind _ _ (network_client-Breaks env patterns codec o ex config _ provider)
            λ client.
              Breaks-non_nil o _ (λ p h. inl p)
                λ lb. Breaks-bind_or_fail _ (read_extension_spec codec ex) _ λ spec q.
                  Breaks-bind _ _
                    (search (breaks_rules, get_floating_ips-Breaks env patterns codec o ex))
                    λ f.
                      Breaks-non_nil spec _ (λ p h. inr (inl (q ∙ ap ok p)))
                        λ s.
                          Breaks-if s.private_cluster _ _ (detach-Breaks client lb f)
                            (attached-Breaks client config lb f))
        {h = h} {h' = h'} e

-- Once `AttachFloatingIP` has its clients and its specification, an error of the listing of the
-- addresses at the port of the load balancer makes it panic instead of failing.
pub attach_floating_ip_panics :
    (env : Env) (patterns : Patterns) (codec : Codec) (lb : LoadBalancer)
    (config : PrivateNetworkConfig) (ex : Extension) (h h1 h2 : List Call)
    (provider : ProviderClient) (client : ServiceClient) (spec : Option ExtensionSpec) (e : Error)
    → initial_client_openstack env config h ≡ (returned provider, h1)
    → network_client env config "failed to create network client: %v" provider h1
      ≡ (returned client, h2)
    → read_extension_spec codec ex ≡ ok spec
    → env (Call.list_floating_ips client (by_port lb.vip_port_id)) h2 ≡ err e
    → attach_floating_ip env patterns codec (some lb) config ex h
      ≡ (panicked, Call.list_floating_ips client (by_port lb.vip_port_id) ∷ h2)
unfolding attach_floating_ip get_floating_ip_by_port_id get_floating_ips panic ask or_fail non_nil
    on_error ◌>>=◌
attach_floating_ip_panics env patterns codec lb config ex h h1 h2 provider client spec e p q r s =
    rw (p, q, r, s) refl
