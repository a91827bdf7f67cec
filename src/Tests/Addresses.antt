-- ===== src/Tests/Addresses.antt =====
-- Floating IPs: two free addresses in the pool, and a listing that fails.
use gardener_extension_priva.Base.{
  if◌then◌else◌, ◌==◌, String, ◌≡◌, refl, none, some, List, [], ◌∷◌,
}
use gardener_extension_priva.Fault.{Outcome, errorf, ok, err, returned}
use gardener_extension_priva.OpenStack.{FloatingIpCreateOpts, Subnet, FloatingIp, ServiceClient}
use gardener_extension_priva.World.{
  Call, Env, writes, ask, or_fail, non_nil, on_error, panic, ◌>>=◌,
}
use gardener_extension_priva.Config.{read_extension_spec}
use gardener_extension_priva.LoadBalancer.Clients.{initial_client_openstack, network_client}
use gardener_extension_priva.FloatingAddress.Breaks.{Broken}
use gardener_extension_priva.FloatingAddress.Panics.{attach_floating_ip-Broken}
use gardener_extension_priva.FloatingAddress.{
  create_in_subnets, attach_available, attach_floating_ip, get_floating_ip_by_port_id,
  get_floating_ips,
}
use gardener_extension_priva.FloatingAddress.Reuse.{attach_available_lem}
use gardener_extension_priva.FloatingAddress.Creation.{creation, create_in_subnets_lem}
use gardener_extension_priva.Tests.Cloud.{
  worker_subnet, Scenario, calm, env_of, the_client, fip_of, plain_patterns, small_codec, active_lb,
  small_config, extension_of,
}

abbrev network_handle : ServiceClient
network_handle = record { handle = 2 }

abbrev updated : String → FloatingIp
updated id = fip_of id "198.51.100.7"

-- Both free addresses are attached to the one port.
attach_available_example :
    let r =
      attach_available
        (env_of calm)
        the_client
        "pool-1"
        "port-1"
        (fip_of "fip-a" "198.51.100.1" ∷ fip_of "fip-b" "198.51.100.2" ∷ [])
        none
        [] in
    (r.0 ≡ returned (some (updated "fip-b")))
    × (writes r.1
        ≡ Call.update_floating_ip the_client "fip-b" (some "port-1")
          ∷ Call.update_floating_ip the_client "fip-a" (some "port-1")
          ∷ [])
attach_available_example =
    attach_available_lem (env_of calm) the_client "port-1" (λ id. []) updated (λ id h. refl)
      (λ id h. refl) "pool-1" (fip_of "fip-a" "198.51.100.1" ∷ fip_of "fip-b" "198.51.100.2" ∷ [])
      none []

abbrev unlisted : Scenario
unlisted = record calm { fips = λ port. err (errorf "503" []) }

-- The attachment where the listing at the port is refused.
refused : Outcome String × List Call
unfolding attach_floating_ip initial_client_openstack network_client read_extension_spec
    get_floating_ip_by_port_id get_floating_ips ask or_fail non_nil on_error panic ◌>>=◌
refused =
    attach_floating_ip (env_of unlisted) plain_patterns small_codec (some active_lb) small_config
      (extension_of "public") []

attach_floating_ip-Broken_example :
    Broken
      (env_of unlisted)
      plain_patterns
      small_codec
      (some active_lb)
      (extension_of "public")
      refused.1
unfolding refused
attach_floating_ip-Broken_example =
    attach_floating_ip-Broken (env_of unlisted) plain_patterns small_codec (some active_lb)
      (extension_of "public") small_config [] refused.1 refl

-- The first subnet is full.
abbrev one_full : Env
one_full (Call.create_floating_ip c o) h =
    if o.subnet_id == "full" then err (errorf "409" []) else ok (fip_of "fip-new" "198.51.100.8")
one_full c h = env_of calm c h

abbrev full : Subnet
full = record worker_subnet { id = "full" }

abbrev some_opts : FloatingIpCreateOpts
some_opts = record {
  floating_network_id = "pool-1";
  port_id = "port-1";
  description = "";
  project_id = "p-1";
  subnet_id = "";
}

create_in_subnets_example :
    create_in_subnets one_full the_client some_opts
      (full ∷ worker_subnet ∷ full ∷ [])
      (none, none)
      []
    ≡ (
      returned (some (fip_of "fip-new" "198.51.100.8"), none),
      creation one_full the_client some_opts worker_subnet
          ∷ creation one_full the_client some_opts full
          ∷ [],
    )
create_in_subnets_example =
    create_in_subnets_lem one_full the_client some_opts (full ∷ []) (full ∷ []) worker_subnet
      (fip_of "fip-new" "198.51.100.8") (none, none) [] ((errorf "409" [], refl), tt) refl
