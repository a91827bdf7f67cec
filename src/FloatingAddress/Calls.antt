-- ===== src/FloatingAddress/Calls.antt =====
-- Which calls `AttachFloatingIP` makes.
use gardener_extension_priva.Base.{
  String, ◌≡◌, refl, ap, ◌∙◌, true, false, Option, none, some, List, [], ◌∷◌,
}
use gardener_extension_priva.Fault.{Error, ok, err}
use gardener_extension_priva.OpenStack.{
  ServiceClient, Subnet, Network, LoadBalancer, FloatingIp, FloatingIpListOpts,
  FloatingIpCreateOpts, PortForwarding,
}
use gardener_extension_priva.Kube.{Extension}
use gardener_extension_priva.World.{Call, Env, Pages, M}
use gardener_extension_priva.World.Emits.{
  Emits, Emits-bind, Emits-if, Emits-on_error, Emits-ask, Emits-or_fail, Emits-pure, Emits-handle,
  Emits-bind_non_nil, Emits-bind_or_fail, Emits-if_of, emits_rules,
}
use gardener_extension_priva.World.Reads.{CoversReads}
use gardener_extension_priva.FloatingSubnet.{Patterns}
use gardener_extension_priva.FloatingSubnet.Calls.{spec_subnets-Emits}
use gardener_extension_priva.Config.{
  ExtensionSpec, PrivateNetworkConfig, Codec, read_extension_spec,
}
use gardener_extension_priva.LoadBalancer.Calls.{initial_client-Emits, network_client-Emits}
use gardener_extension_priva.FloatingAddress.{
  attach_if_free, is_free, extract_dropping_error, first_network, update_floating_ip,
  get_floating_ips, get_floating_ip_by_port_id, create_floating_ip, get_network_by_name,
  attach_available, create_in_subnets, created_or_fail, some_subnets, create_opts, any_subnet,
  create_in_pool, or_create, obtain_floating_ip, detach_floating_ip, attached_or_obtained,
  attach_floating_ip,
}

module _ (P : Call → Type 0) (covers : CoversReads P) (env : Env) where
  extract-Emits : (r : Pages FloatingIp) → Emits P (extract_dropping_error r)
  extract-Emits (err e) = search emits_rules
  extract-Emits (ok r) = search emits_rules

  get_floating_ips-Emits :
      (client : ServiceClient) (opts : FloatingIpListOpts)
      → Emits P (get_floating_ips env client opts)
  unfolding get_floating_ips
  get_floating_ips-Emits client opts = search (emits_rules, covers, extract-Emits)

  get_by_port-Emits :
      (client : ServiceClient) (port : String)
      → Emits P (get_floating_ip_by_port_id env client port)
  unfolding get_floating_ip_by_port_id
  get_by_port-Emits client port = search (emits_rules, get_floating_ips-Emits)

  first_network-Emits : (name : String) (l : List Network) → Emits P (first_network name l)
  first_network-Emits name [] = search emits_rules
  first_network-Emits name (n ∷ l) = search emits_rules

  get_network-Emits :
      (client : ServiceClient) (name : String) → Emits P (get_network_by_name env client name)
  unfolding get_network_by_name
  get_network-Emits client name = search (emits_rules, covers, first_network-Emits)

  update-Emits :
      (client : ServiceClient) (fip : FloatingIp) (port : Option String)
      → ((id : String) → P (Call.update_floating_ip client id port))
      → Emits P (update_floating_ip env client fip port)
  unfolding update_floating_ip
  update-Emits client fip port write = search (emits_rules, write)

  attach_if_free-Emits :
      (client : ServiceClient) (port : String) (fip : FloatingIp) (pfs : List PortForwarding)
      (acc : Option FloatingIp)
      → ((id : String) → P (Call.update_floating_ip client id (some port)))
      → Emits P (attach_if_free env client port fip pfs acc)
  unfolding attach_if_free
  attach_if_free-Emits client port fip pfs acc write =
      Emits-if (is_free fip pfs) _ _
        (Emits-bind _ _ (update-Emits client fip (some port) write) λ u. Emits-pure (some u))
        (Emits-pure acc)

  attach_available-Emits :
      (client : ServiceClient) (pool port : String) (fips : List FloatingIp)
      (acc : Option FloatingIp)
      → ((id : String) → P (Call.update_floating_ip client id (some port)))
      → Emits P (attach_available env client pool port fips acc)
  unfolding attach_available
  attach_available-Emits client pool port [] acc write = search emits_rules
  attach_available-Emits client pool port (fip ∷ fips) acc write =
      Emits-bind _ _ (Emits-ask env (Call.list_port_forwardings client fip.id) (covers _ refl))
        λ listed. Emits-bind _ _ (Emits-or_fail _ listed) λ pages.
          Emits-bind _ _ (Emits-or_fail _ pages) λ pfs.
            Emits-bind _ _ (attach_if_free-Emits client port fip pfs acc write)
              λ acc'. attach_available-Emits client pool port fips acc' write

  create_in_subnets-Emits :
      (client : ServiceClient) (opts : FloatingIpCreateOpts) (subnets : List Subnet)
      (last : Option FloatingIp × Option Error)
      → ((subnet : String)
          → P (Call.create_floating_ip client (record opts { subnet_id = subnet })))
      → Emits P (create_in_subnets env client opts subnets last)
  unfolding create_in_subnets create_floating_ip
  create_in_subnets-Emits client opts [] last write = search emits_rules
  create_in_subnets-Emits client opts (s ∷ subnets) last write =
      Emits-bind _ _ (search (emits_rules, write)) λ tried.
        Emits-handle tried _ _ (λ fip. search emits_rules)
          λ e. create_in_subnets-Emits client opts subnets (none, some e) write

  created_or_fail-Emits :
      (id : String) (last : Option FloatingIp × Option Error)
      → Emits P (created_or_fail env id last)
  created_or_fail-Emits id (fip, none) = search emits_rules
  created_or_fail-Emits id (fip, some e) = search emits_rules

  some_subnets-Emits : (id : String) (l : List Subnet) → Emits P (some_subnets env id l)
  some_subnets-Emits id [] = search emits_rules
  some_subnets-Emits id (s ∷ l) = search emits_rules

  or_create-Emits :
      (m : M FloatingIp) (o : Option FloatingIp) → Emits P m → Emits P (or_create env m o)
  or_create-Emits m none em = em
  or_create-Emits m (some f) em = search emits_rules

  detach-Emits :
      (client : ServiceClient) (lb : LoadBalancer) (o : Option FloatingIp)
      → ((id : String) → P (Call.update_floating_ip client id none))
      → Emits P (detach_floating_ip env client lb o)
  unfolding detach_floating_ip
  detach-Emits client lb none write = search emits_rules
  detach-Emits client lb (some fip) write =
      Emits-bind _ _
        (Emits-on_error _ _
          (Emits-bind _ _ (update-Emits client fip none write) λ u. Emits-pure tt))
        λ _. Emits-pure lb.vip_address

  create_in_pool-Emits :
      (patterns : Patterns) (client : ServiceClient) (pool network_lb : Network) (lb : LoadBalancer)
      (ex : Extension)
      → ((subnet : String)
          → P (
              Call.create_floating_ip client
                (record (create_opts env pool network_lb lb ex) { subnet_id = subnet })))
      → Emits P (create_in_pool env patterns client pool network_lb lb ex)
  unfolding create_in_pool
  create_in_pool-Emits patterns client pool network_lb lb ex create =
      Emits-bind _ _ (spec_subnets-Emits P covers env client patterns (any_subnet env) pool.id) λ m.
        Emits-bind _ _ (some_subnets-Emits pool.id m) λ found.
          Emits-bind _ _ (create_in_subnets-Emits client _ found (none, none) create)
            λ last. created_or_fail-Emits pool.id last

  -- the writes for a public cluster: only to the port of the load balancer
  obtain-Emits :
      (patterns : Patterns) (client : ServiceClient) (config : PrivateNetworkConfig)
      (lb : LoadBalancer) (ex : Extension)
      → ((id : String) → P (Call.update_floating_ip client id (some lb.vip_port_id)))
      → ((pool network_lb : Network) (subnet : String)
          → P (
              Call.create_floating_ip client
                (record (create_opts env pool network_lb lb ex) { subnet_id = subnet })))
      → Emits P (obtain_floating_ip env patterns client config lb ex)
  unfolding obtain_floating_ip
  obtain-Emits patterns client config lb ex attach create =
      Emits-bind _ _
        (Emits-ask env (Call.get_network client config.worker_network.id) (covers _ refl))
        λ got. Emits-bind _ _ (Emits-or_fail _ got) λ network_lb.
          Emits-bind _ _ (get_network-Emits client config.floating_pool_name) λ pool.
            Emits-bind _ _ (Emits-on_error _ _ (get_floating_ips-Emits client _)) λ ips.
              Emits-bind _ _ (attach_available-Emits client pool.id lb.vip_port_id ips none attach)
                λ f. or_create-Emits _ f (
                  create_in_pool-Emits patterns client pool network_lb lb ex
                    (create pool network_lb))

  attached_or_obtained-Emits :
      (patterns : Patterns) (client : ServiceClient) (config : PrivateNetworkConfig)
      (lb : LoadBalancer) (ex : Extension) (o : Option FloatingIp)
      → ((id : String) → P (Call.update_floating_ip client id (some lb.vip_port_id)))
      → ((pool network_lb : Network) (subnet : String)
          → P (
              Call.create_floating_ip client
                (record (create_opts env pool network_lb lb ex) { subnet_id = subnet })))
      → Emits P (attached_or_obtained env patterns client config lb ex o)
  unfolding attached_or_obtained
  attached_or_obtained-Emits patterns client config lb ex (some f) attach create =
      Emits-pure f.floating_ip
  attached_or_obtained-Emits patterns client config lb ex none attach create =
      Emits-bind _ _ (obtain-Emits patterns client config lb ex attach create)
        λ f. Emits-pure f.floating_ip

  -- The writes of `AttachFloatingIP`: updates without a port for a private cluster; for a
  -- public one, attachments to the port of the load balancer and creations at that port.
  pub attach_floating_ip-Emits :
      (patterns : Patterns) (codec : Codec) (o : Option LoadBalancer)
      (config : PrivateNetworkConfig) (ex : Extension)
      → ((s : ExtensionSpec) (client : ServiceClient) (id : String)
          → read_extension_spec codec ex ≡ ok (some s)
          → s.private_cluster ≡ true
          → P (Call.update_floating_ip client id none))
      → ((s : ExtensionSpec) (client : ServiceClient) (lb : LoadBalancer) (id : String)
          → read_extension_spec codec ex ≡ ok (some s)
          → s.private_cluster ≡ false
          → o ≡ some lb
          → P (Call.update_floating_ip client id (some lb.vip_port_id)))
      → ((s : ExtensionSpec) (client : ServiceClient) (lb : LoadBalancer)
            (pool network_lb : Network) (subnet : String)
          → read_extension_spec codec ex ≡ ok (some s)
          → s.private_cluster ≡ false
          → o ≡ some lb
          → P (
              Call.create_floating_ip client
                (record (create_opts env pool network_lb lb ex) { subnet_id = subnet })))
      → Emits P (attach_floating_ip env patterns codec o config ex)
  unfolding attach_floating_ip
  attach_floating_ip-Emits patterns codec o config ex detach attach create =
      Emits-bind _ _ (initial_client-Emits P covers env config) λ provider.
        Emits-bind _ _ (network_client-Emits P covers env config _ provider) λ client.
          Emits-bind_non_nil o _ λ lb found.
            Emits-bind_or_fail _ (read_extension_spec codec ex) _ λ spec was_read.
              Emits-bind _ _ (Emits-on_error _ _ (get_by_port-Emits client lb.vip_port_id)) λ f.
                Emits-bind_non_nil spec _ λ s present.
                  Emits-if_of s.private_cluster _ _
                    (λ p.
                      detach-Emits client lb f
                        (λ id. detach s client id (was_read ∙ ap ok present) p))
                    (λ p.
                      attached_or_obtained-Emits patterns client config lb ex f
                        (λ id. attach s client lb id (was_read ∙ ap ok present) p found)
                        (λ pool network_lb subnet.
                          create s client lb pool network_lb subnet (was_read ∙ ap ok present) p
                            found))
