-- ===== src/FloatingAddress/Runs.antt =====
-- What `AttachFloatingIP` does where the answers of the environment are known: the address that it
-- returns, and the writes that it makes.
use gardener_extension_priva.Base.{
  String, ◌≡◌, refl, Bool, true, false, Option, none, some, List, [], ◌∷◌, if◌then◌else◌,
}
use gardener_extension_priva.Fault.{ok, returned}
use gardener_extension_priva.OpenStack.{ServiceClient, Network, Subnet, LoadBalancer, FloatingIp}
use gardener_extension_priva.Kube.{Extension}
use gardener_extension_priva.World.{Call, Env}
use gardener_extension_priva.World.Runs.{
  Answers, Runs, Runs-pure, Runs-or_fail, Runs-non_nil, Runs-on_error, Runs-attempt, Runs-read,
  Runs-write, Runs-bind, Runs-after,
}
use gardener_extension_priva.FloatingSubnet.{Patterns, spec_subnets_for_network}
use gardener_extension_priva.Config.{
  ExtensionSpec, PrivateNetworkConfig, Codec, read_extension_spec,
}
use gardener_extension_priva.LoadBalancer.Runs.{Connected, initial_client-Runs, network_client-Runs}
use gardener_extension_priva.FloatingAddress.{
  by_port, available_in, any_subnet, head_or_nil, update_floating_ip, get_floating_ips,
  get_floating_ip_by_port_id, get_network_by_name, create_floating_ip, create_opts,
  create_in_subnets, create_in_pool, obtain_floating_ip, attach_available, detach_floating_ip,
  attached_or_obtained, attach_floating_ip,
}

-- the call that looks for the address at the port of a load balancer
abbrev pub at_port : ServiceClient → LoadBalancer → Call
at_port client lb = Call.list_floating_ips client (by_port lb.vip_port_id)

module _ (env : Env) (patterns : Patterns) (codec : Codec) (config : PrivateNetworkConfig)
    (c : Connected env config) (lb : LoadBalancer) (ex : Extension) (w : List Call) where
  -- What follows the lookup of the address at the port, by the type of the cluster.
  abbrev pub Settled : Bool → Option FloatingIp → String → List Call → Type 0
  Settled true fip address ws =
      Runs w (detach_floating_ip env c.network lb fip) (returned address) ws
  Settled false fip address ws =
      Runs w (attached_or_obtained env patterns c.network config lb ex fip) (returned address) ws

  Settled-Runs :
      (private : Bool) (fip : Option FloatingIp) (address : String) (ws : List Call)
      → Settled private fip address ws
      → Runs w
          (if private
            then detach_floating_ip env c.network lb fip
            else attached_or_obtained env patterns c.network config lb ex fip)
          (returned address)
          ws
  Settled-Runs true fip address ws s = s
  Settled-Runs false fip address ws s = s

  pub attach_floating_ip-Runs :
      (spec : ExtensionSpec) (fips : List FloatingIp) (address : String) (ws : List Call)
      → read_extension_spec codec ex ≡ ok (some spec)
      → Answers env w (at_port c.network lb) (ok (ok fips))
      → Settled spec.private_cluster (head_or_nil fips) address ws
      → Runs w (attach_floating_ip env patterns codec (some lb) config ex) (returned address) ws
  unfolding attach_floating_ip get_floating_ip_by_port_id get_floating_ips
  attach_floating_ip-Runs spec fips address ws read lists s =
      Runs-after _ _ c.provider _ _ (initial_client-Runs env config c) (
        Runs-after _ _ c.network _ _ (network_client-Runs env config c _) (
          Runs-after _ _ lb _ _ (Runs-non_nil _ _ refl) (
            Runs-after _ _ (some spec) _ _ (Runs-or_fail _ _ _ read) (
              Runs-after _ _ (head_or_nil fips) _ _
                (Runs-on_error _ _ _ _ (
                  Runs-after _ _ fips _ _
                    (Runs-after _ _ (ok (ok fips)) _ _
                      (Runs-read env (at_port c.network lb) _ refl lists) (Runs-or_fail _ _ _ refl))
                    (Runs-pure (head_or_nil fips))))
                (Runs-after _ _ spec _ _ (Runs-non_nil _ _ refl)
                  (Settled-Runs spec.private_cluster (head_or_nil fips) address ws s))))))

  -- a private cluster without an address, or with one, which is updated without a port
  pub detach_none-Runs :
      Runs w (detach_floating_ip env c.network lb none) (returned lb.vip_address) []
  unfolding detach_floating_ip
  detach_none-Runs = Runs-pure lb.vip_address

  pub detach_some-Runs :
      (fip updated : FloatingIp)
      → Answers env w (Call.update_floating_ip c.network fip.id none) (ok updated)
      → Runs w
          (detach_floating_ip env c.network lb (some fip))
          (returned lb.vip_address)
          (Call.update_floating_ip c.network fip.id none ∷ [])
  unfolding detach_floating_ip update_floating_ip
  detach_some-Runs fip updated updates =
      Runs-bind _ _ tt _ _ []
        (Runs-on_error _ _ _ _ (
          Runs-bind _ _ updated _ _ []
            (Runs-bind _ _ (ok updated) _ _ []
              (Runs-write env (Call.update_floating_ip c.network fip.id none) _ refl updates)
              (Runs-or_fail _ _ _ refl))
            (Runs-pure tt)))
        (Runs-pure lb.vip_address)

  -- a public cluster with an address
  pub attached-Runs :
      (fip : FloatingIp)
      → Runs w
          (attached_or_obtained env patterns c.network config lb ex (some fip))
          (returned fip.floating_ip)
          []
  unfolding attached_or_obtained
  attached-Runs fip = Runs-pure fip.floating_ip

  -- a public cluster without an address where none is available: one is created in the first subnet
  pub obtained-Runs :
      (network_lb pool : Network) (pools : List Network) (subnet : Subnet) (subnets : List Subnet)
      (fip : FloatingIp)
      → Answers env w (Call.get_network c.network config.worker_network.id) (ok network_lb)
      → Answers env w
          (Call.list_networks c.network config.floating_pool_name)
          (ok (ok (pool ∷ pools)))
      → Answers env w (Call.list_floating_ips c.network (available_in pool network_lb)) (ok (ok []))
      → Runs w
          (spec_subnets_for_network env c.network patterns (some (any_subnet env)) pool.id)
          (returned (subnet ∷ subnets))
          []
      → Answers env w
          (Call.create_floating_ip c.network
            (record (create_opts env pool network_lb lb ex) { subnet_id = subnet.id }))
          (ok fip)
      → Runs w
          (attached_or_obtained env patterns c.network config lb ex none)
          (returned fip.floating_ip)
          (Call.create_floating_ip c.network
              (record (create_opts env pool network_lb lb ex) { subnet_id = subnet.id })
            ∷ [])
  unfolding attached_or_obtained obtain_floating_ip get_network_by_name get_floating_ips
      attach_available create_in_pool create_in_subnets create_floating_ip
  obtained-Runs network_lb pool pools subnet subnets fip got named free listed made =
      Runs-bind _ _ fip _ _ []
        (Runs-after _ _ (ok network_lb) _ _
          (Runs-read env (Call.get_network c.network config.worker_network.id) _ refl got)
          (Runs-after _ _ network_lb _ _ (Runs-or_fail _ _ _ refl) (
            Runs-after _ _ pool _ _
              (Runs-after _ _ (ok (ok (pool ∷ pools))) _ _
                (Runs-read env (Call.list_networks c.network config.floating_pool_name) _ refl
                  named)
                (Runs-after _ _ (ok (pool ∷ pools)) _ _ (Runs-or_fail _ _ _ refl)
                  (Runs-after _ _ (pool ∷ pools) _ _ (Runs-or_fail _ _ _ refl) (Runs-pure pool))))
              (Runs-after _ _ [] _ _
                (Runs-on_error _ _ _ _ (
                  Runs-after _ _ (ok (ok [])) _ _
                    (Runs-read env (Call.list_floating_ips c.network (available_in pool network_lb))
                      _ refl free)
                    (Runs-or_fail _ _ _ refl)))
                (Runs-after _ _ none _ _ (Runs-pure none) (
                  Runs-after _ _ (subnet ∷ subnets) _ _ listed (
                    Runs-after _ _ (subnet ∷ subnets) _ _ (Runs-pure (subnet ∷ subnets)) (
                      Runs-bind _ _ (some fip, none) _ _ []
                        (Runs-bind _ _ (ok fip) _ _ []
                          (Runs-attempt _ _ _ (
                            Runs-bind _ _ (ok fip) _ _ []
                              (Runs-write env
                                (Call.create_floating_ip c.network
                                  (record (create_opts env pool network_lb lb ex) {
                                    subnet_id = subnet.id;
                                  }))
                                _ refl made)
                              (Runs-or_fail _ _ _ refl)))
                          (Runs-pure (some fip, none)))
                        (Runs-non_nil _ _ refl)))))))))
        (Runs-pure fip.floating_ip)
