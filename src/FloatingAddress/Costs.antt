-- ===== src/FloatingAddress/Costs.antt =====
-- How many calls `AttachFloatingIP` makes at most: two for each available address, and one for each
-- subnet of the pool.
use gardener_extension_priva.Base.{
  ℕ, ◌+◌, ◌*◌, ◌≤◌, String, ap, List, [], ◌∷◌, Option, none, some, length, arith,
}
use gardener_extension_priva.Fault.{Error, ok, err}
use gardener_extension_priva.OpenStack.{
  ServiceClient, LoadBalancer, Network, Subnet, FloatingIp, FloatingIpListOpts,
  FloatingIpCreateOpts, PortForwarding,
}
use gardener_extension_priva.Kube.{Extension}
use gardener_extension_priva.World.{Call, Pages, Env, M, ask}
use gardener_extension_priva.World.Costs.{
  Costs, Calls, Costs-pure, Costs-panic, Costs-fail, Costs-or_fail, Costs-on_error, Costs-if,
  Costs-ask, Costs-bind, Costs-handle, Calls-pure, Calls-fail, Calls-or_fail, Calls-non_nil,
  Calls-weaken, Calls-ask, Calls-bind, one_call_rules, Short, Listed,
}
use gardener_extension_priva.Config.{PrivateNetworkConfig, Codec, read_extension_spec}
use gardener_extension_priva.FloatingSubnet.{Patterns}
use gardener_extension_priva.FloatingSubnet.Costs.{spec_subnets-Costs}
use gardener_extension_priva.LoadBalancer.Costs.{initial_client-Costs, network_client-Costs}
use gardener_extension_priva.FloatingAddress.{
  by_port, available_in, extract_dropping_error, head_or_nil, first_network, is_free,
  update_floating_ip, get_floating_ips, get_floating_ip_by_port_id, create_floating_ip,
  get_network_by_name, attach_if_free, attach_available, create_in_subnets, created_or_fail,
  some_subnets, any_subnet, create_in_pool, or_create, obtain_floating_ip, detach_floating_ip,
  attached_or_obtained, attach_floating_ip,
}

module _ (env : Env) (k : ℕ) (short : Short env k) where
  extract-Costs :
      (r : Pages FloatingIp) → Listed k r → Costs 0 (λ ls. length ls ≤ k) (extract_dropping_error r)
  extract-Costs (err e) q = Costs-panic
  extract-Costs (ok r) q = Costs-or_fail _ r λ ls e. q ls (ap ok e)

  get_floating_ips-Costs :
      (client : ServiceClient) (opts : FloatingIpListOpts)
      → Costs 1 (λ ls. length ls ≤ k) (get_floating_ips env client opts)
  unfolding get_floating_ips
  get_floating_ips-Costs client opts =
      Costs-bind {Q = Listed k} 1 0 (ask env (Call.list_floating_ips client opts)) _
        (Costs-ask env (Call.list_floating_ips client opts)
          λ h ls e. short.floating_ips client opts h ls e)
        extract-Costs

  first_network-Costs : (name : String) (l : List Network) → Calls 0 (first_network name l)
  first_network-Costs name [] = Calls-fail _
  first_network-Costs name (n ∷ l) = Calls-pure n

  get_network-Costs :
      (client : ServiceClient) (name : String) → Calls 1 (get_network_by_name env client name)
  unfolding get_network_by_name
  get_network-Costs client name = search (one_call_rules, first_network-Costs)

  update-Costs :
      (client : ServiceClient) (fip : FloatingIp) (port : Option String)
      → Calls 1 (update_floating_ip env client fip port)
  unfolding update_floating_ip
  update-Costs client fip port = search one_call_rules

  attach_if_free-Costs :
      (client : ServiceClient) (port : String) (fip : FloatingIp) (pfs : List PortForwarding)
      (acc : Option FloatingIp)
      → Calls 1 (attach_if_free env client port fip pfs acc)
  unfolding attach_if_free
  attach_if_free-Costs client port fip pfs acc =
      Costs-if (is_free fip pfs) _ _
        (Calls-bind 1 0 _ _ (update-Costs client fip (some port)) λ u. Calls-pure (some u))
        (Calls-weaken 1 (omega arith) (Calls-pure acc))

  attach_available-Costs :
      (client : ServiceClient) (pool port : String) (fips : List FloatingIp)
      (acc : Option FloatingIp)
      → Calls (2 * length fips) (attach_available env client pool port fips acc)
  unfolding attach_available
  attach_available-Costs client pool port [] acc = Calls-weaken _ (omega arith) (Calls-pure acc)
  attach_available-Costs client pool port (fip ∷ fips) acc =
      let n = 2 * length fips in
      Calls-weaken _ (omega arith) (
        Calls-bind 1 (0 + (0 + (1 + n))) _ _
          (Calls-ask env (Call.list_port_forwardings client fip.id))
          λ listed. Calls-bind 0 (0 + (1 + n)) _ _ (Calls-or_fail _ listed) λ pages.
            Calls-bind 0 (1 + n) _ _ (Calls-or_fail _ pages) λ pfs.
              Calls-bind 1 n _ _ (attach_if_free-Costs client port fip pfs acc)
                λ acc'. attach_available-Costs client pool port fips acc')

  create_in_subnets-Costs :
      (client : ServiceClient) (opts : FloatingIpCreateOpts) (subnets : List Subnet)
      (last : Option FloatingIp × Option Error)
      → Calls (1 * length subnets) (create_in_subnets env client opts subnets last)
  unfolding create_in_subnets create_floating_ip
  create_in_subnets-Costs client opts [] last = Calls-weaken _ (omega arith) (Calls-pure last)
  create_in_subnets-Costs client opts (s ∷ subnets) last = Calls-weaken _ (omega arith) (
      Calls-bind 1 (1 * length subnets) _ _ (search one_call_rules) λ tried.
        Costs-handle tried _ _ (λ fip. Calls-weaken _ (omega arith) (Calls-pure (some fip, none)))
          λ e. create_in_subnets-Costs client opts subnets (none, some e))

  created_or_fail-Costs :
      (id : String) (last : Option FloatingIp × Option Error)
      → Calls 0 (created_or_fail env id last)
  created_or_fail-Costs id (fip, none) = Calls-non_nil fip
  created_or_fail-Costs id (fip, some e) = Calls-fail _

  some_subnets-Costs :
      (id : String) (l : List Subnet)
      → length l ≤ k
      → Costs 0 (λ ls. length ls ≤ k) (some_subnets env id l)
  some_subnets-Costs id [] le = Costs-fail _
  some_subnets-Costs id (s ∷ l) le = Costs-pure (s ∷ l) le

  create_in_pool-Costs :
      (patterns : Patterns) (client : ServiceClient) (pool network_lb : Network) (lb : LoadBalancer)
      (ex : Extension)
      → Calls (1 + k) (create_in_pool env patterns client pool network_lb lb ex)
  unfolding create_in_pool
  create_in_pool-Costs patterns client pool network_lb lb ex = Calls-weaken _ (omega arith) (
      Costs-bind {Q = λ ls. length ls ≤ k} 1 (0 + (k + 0)) _ _
        (spec_subnets-Costs env k short client patterns (any_subnet env) pool.id)
        λ l le.
          Costs-bind {Q = λ ls. length ls ≤ k} 0 (k + 0) _ _ (some_subnets-Costs pool.id l le)
            λ found le'.
              Calls-bind k 0 _ _
                (Calls-weaken k (omega arith) (create_in_subnets-Costs client _ found (none, none)))
                λ last. created_or_fail-Costs pool.id last)

  or_create-Costs :
      (n : ℕ) (m : M FloatingIp) (o : Option FloatingIp) → Calls n m → Calls n (or_create env m o)
  or_create-Costs n m none c = c
  or_create-Costs n m (some f) c = Calls-weaken n (omega arith) (Calls-pure f)

  obtain-Costs :
      (patterns : Patterns) (client : ServiceClient) (config : PrivateNetworkConfig)
      (lb : LoadBalancer) (ex : Extension)
      → Calls (4 + 3 * k) (obtain_floating_ip env patterns client config lb ex)
  unfolding obtain_floating_ip
  obtain-Costs patterns client config lb ex =
      let n = 2 * k + (1 + k) in
      Calls-weaken _ (omega arith) (
        Calls-bind 1 (0 + (1 + (1 + n))) _ _
          (Calls-ask env (Call.get_network client config.worker_network.id))
          λ got. Calls-bind 0 (1 + (1 + n)) _ _ (Calls-or_fail _ got) λ network_lb.
            Calls-bind 1 (1 + n) _ _ (get_network-Costs client config.floating_pool_name) λ pool.
              Costs-bind {Q = λ ls. length ls ≤ k} 1 n _ _
                (Costs-on_error _ _ (get_floating_ips-Costs client (available_in pool network_lb)))
                λ ips le.
                  Calls-bind (2 * k) (1 + k) _ _
                    (Calls-weaken _ (omega arith)
                      (attach_available-Costs client pool.id lb.vip_port_id ips none))
                    λ f.
                      or_create-Costs (1 + k) _ f
                        (create_in_pool-Costs patterns client pool network_lb lb ex))

  detach-Costs :
      (client : ServiceClient) (lb : LoadBalancer) (o : Option FloatingIp)
      → Calls 1 (detach_floating_ip env client lb o)
  unfolding detach_floating_ip
  detach-Costs client lb none = Calls-weaken 1 (omega arith) (Calls-pure lb.vip_address)
  detach-Costs client lb (some fip) = search (one_call_rules, update-Costs)

  attached_or_obtained-Costs :
      (patterns : Patterns) (client : ServiceClient) (config : PrivateNetworkConfig)
      (lb : LoadBalancer) (ex : Extension) (o : Option FloatingIp)
      → Calls (4 + 3 * k) (attached_or_obtained env patterns client config lb ex o)
  unfolding attached_or_obtained
  attached_or_obtained-Costs patterns client config lb ex (some f) =
      Calls-weaken _ (omega arith) (Calls-pure f.floating_ip)
  attached_or_obtained-Costs patterns client config lb ex none = Calls-weaken _ (omega arith) (
      Calls-bind (4 + 3 * k) 0 _ _ (obtain-Costs patterns client config lb ex)
        λ f. Calls-pure f.floating_ip)

  get_by_port-Costs :
      (client : ServiceClient) (port : String)
      → Calls 1 (get_floating_ip_by_port_id env client port)
  unfolding get_floating_ip_by_port_id
  get_by_port-Costs client port =
      Costs-bind {Q = λ ls. length ls ≤ k} 1 0 _ _ (get_floating_ips-Costs client (by_port port))
        λ ips le. Calls-pure (head_or_nil ips)

  pub attach_floating_ip-Costs :
      (patterns : Patterns) (codec : Codec) (o : Option LoadBalancer)
      (config : PrivateNetworkConfig) (ex : Extension)
      → Calls (7 + 3 * k) (attach_floating_ip env patterns codec o config ex)
  unfolding attach_floating_ip
  attach_floating_ip-Costs patterns codec o config ex =
      let n = 4 + 3 * k in
      Calls-weaken _ (omega arith) (
        Calls-bind 1 (1 + (0 + (0 + (1 + (0 + n))))) _ _ (initial_client-Costs env config)
          λ provider.
            Calls-bind 1 (0 + (0 + (1 + (0 + n)))) _ _ (network_client-Costs env config _ provider)
              λ client. Calls-bind 0 (0 + (1 + (0 + n))) _ _ (Calls-non_nil o) λ lb.
                Calls-bind 0 (1 + (0 + n)) _ _ (Calls-or_fail _ (read_extension_spec codec ex))
                  λ spec.
                    Calls-bind 1 (0 + n) _ _
                      (Costs-on_error _ _ (get_by_port-Costs client lb.vip_port_id))
                      λ f. Calls-bind 0 n _ _ (Calls-non_nil spec) λ s.
                        Costs-if s.private_cluster _ _
                          (Calls-weaken n (omega arith) (detach-Costs client lb f))
                          (attached_or_obtained-Costs patterns client config lb ex f))
