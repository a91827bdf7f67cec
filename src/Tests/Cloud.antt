-- ===== src/Tests/Cloud.antt =====
-- A small world to run the program in: fixed answers for most calls, and libraries that meet the
-- laws assumed of them.
use gardener_extension_priva.Base.{
  ℕ, zero, suc, ◌-◌, String, ◌≡◌, refl, ap, eq_iff, false, Option, none, some, List, [], ◌∷◌, arith,
  ◌==◌, if◌then◌else◌,
}
use gardener_extension_priva.Fault.{Error, errorf, err_default_404, Result, ok, err}
use gardener_extension_priva.OpenStack.{
  ServiceClient, Subnet, Network, Flavor, LoadBalancer, Listener, FloatingIp,
}
use gardener_extension_priva.Kube.{Extension, Service}
use gardener_extension_priva.World.{Call, Env}
use gardener_extension_priva.Wait.{Backoff, Condition, Wait, WaitLaws, after_poll}
use gardener_extension_priva.FloatingSubnet.{Patterns}
use gardener_extension_priva.IpNet.{Net}
use gardener_extension_priva.Config.{
  ExtensionState, CloudConfig, PrivateNetworkConfig, Codec, config_of,
}
use gardener_extension_priva.Actuator.{Runtime}
use gardener_extension_priva.Actuator.Status.{CodecLaws}

-- A wait without pauses.
abbrev pub poll_times : ℕ → (S : Type 0) → Condition S → S → Option Error × S
poll_times zero S c s = (some (errorf "timed out waiting for the condition" []), s)
poll_times (suc n) S c s = let rest = poll_times n S c in after_poll rest (c s)

abbrev pub polling : Wait
polling = record {
  exponential_backoff = λ S b c s. poll_times b.steps S c s;
  interrupted =
      λ e. elim e [ errorf f args ↦ f == "timed out waiting for the condition" | _ ↦ false ];
}

abbrev fewer : Backoff → Backoff
fewer b = record b { steps = b.steps - 1 }

pub polling-WaitLaws : WaitLaws polling
polling-WaitLaws = record {
  next = fewer;
  steps-next = λ b n e. omega arith;
  timeout = errorf "timed out waiting for the condition" [];
  interrupted-timeout = refl;
  exhausted = λ S b c s e. rw (e, poll_times);
  poll = λ S b c s n e. let p : b.steps - 1 ≡ n = omega arith in rw (p, e);
}

abbrev pub active_lb : LoadBalancer
active_lb = record {
  id = "lb-1";
  name = "private_network-shoot--a";
  vip_address = "10.0.0.9";
  vip_port_id = "port-1";
  provisioning_status = "ACTIVE";
  operating_status = "ONLINE";
  created_at = 0;
}

abbrev pub fip_of : String → String → FloatingIp
fip_of id address = record {
  id = id;
  description = "";
  floating_ip = address;
  port_id = "";
  fixed_ip = "";
}

-- What the world holds: the load balancers of the name, what a read of one answers, the addresses
-- by the port that is asked for ("" for the available ones) and the services.
pub record Scenario : Type 0 where
  pub lbs : List LoadBalancer
  pub read : Result LoadBalancer
  pub fips : String → Result (Result (List FloatingIp))
  pub services : List Service
  pub listener : Listener

abbrev pub worker_subnet : Subnet
worker_subnet = record {
  id = "sub-1";
  network_id = "net-1";
  name = "workers";
  cidr = "10.0.0.0/24";
  tags = [];
}

abbrev pub the_listener : Listener
the_listener = record { id = "li-443"; name = "l-443"; allowed_cidrs = [] }

abbrev pub the_flavor : Flavor
the_flavor = record { id = "fl-1"; name = "basic" }

abbrev pub the_network : Network
the_network = record { id = "pool-1"; project_id = "p-1" }

abbrev pub env_of : Scenario → Env
env_of s (Call.authenticated_client o) h = ok (record { handle = 1 })
env_of s (Call.new_network_v2 p r) h = ok (record { handle = 2 })
env_of s (Call.new_load_balancer_v2 p r) h = ok (record { handle = 3 })
env_of s (Call.list_subnets c o) h = ok (ok (worker_subnet ∷ []))
env_of s (Call.get_network c i) h = ok the_network
env_of s (Call.list_networks c n) h = ok (ok (the_network ∷ []))
env_of s (Call.list_load_balancers c n) h = ok (ok s.lbs)
env_of s (Call.get_load_balancer c i) h = s.read
env_of s (Call.create_load_balancer c o) h = ok active_lb
env_of s (Call.delete_load_balancer c i b) h = none
env_of s (Call.list_flavors c) h = ok (ok (the_flavor ∷ []))
env_of s (Call.list_listeners c o) h = ok (ok (s.listener ∷ []))
env_of s (Call.each_page_listeners c o) h = ok (s.listener ∷ []) ∷ []
env_of s (Call.update_listener c i l) h = ok the_listener
env_of s (Call.list_floating_ips c o) h = s.fips o.port_id
env_of s (Call.update_floating_ip c i p) h = ok (fip_of i "198.51.100.7")
env_of s (Call.create_floating_ip c o) h = ok (fip_of "fip-new" "198.51.100.8")
env_of s (Call.list_port_forwardings c i) h = ok (ok [])
env_of s (Call.get_cluster n) h = ok (record {
  name = n;
  seed = some (record { name = "seed" });
  shoot =
      some (record { name = "a"; infrastructure_config = some (record { raw = some "infra" }) });
})
env_of s (Call.get_infrastructure n m) h = err (errorf "none" [])
env_of s (Call.get_extension n m) h =
    ok (record { name = m; namespace = n; provider_config = none; state = none })
env_of s (Call.get_secret n m) h = ok (record { cloud_conf = some "conf" })
env_of s (Call.list_services n) h = ok s.services
env_of s (Call.patch_status e) h = none
env_of s Call.now h = 0

abbrev pub some_cloud_config : CloudConfig
some_cloud_config = record {
  global = record {
    auth_url = "https://keystone";
    username = "u";
    password = "p";
    region = "r";
    tenant_id = "t";
    domain_name = "d";
    tenant_name = "n";
  };
  load_balancer = record {
    monitor_timeout = "";
    monitor_max_retries = 0;
    network_id = "";
    subnet_id = "istio-sub";
    floating_network_id = "";
    floating_subnet_id = "";
    lb_provider = "";
  };
}

abbrev private_state : String → ExtensionState
private_state raw = record {
  internal_address_load_balancer = some raw;
  external_address_load_balancer = none;
  cluster_type = "Private";
}

-- The states of private clusters are written as their internal address; others cannot be written.
abbrev write_state : Option String → Option String → String → Result String
write_state (some a) none t = if t == "Private" then ok a else err (errorf "" [])
write_state _ _ t = err (errorf "" [])

abbrev pub small_codec : Codec
small_codec = record {
  unmarshal_extension_spec =
      λ raw. ok (some (record { private_cluster = raw == "private"; alow_cidrs = none }));
  unmarshal_extension_state = λ raw. ok (some (private_state raw));
  marshal_extension_state = λ s.
      write_state s.internal_address_load_balancer s.external_address_load_balancer s.cluster_type;
  unmarshal_network_worker = λ raw. ok (record {
    network = record { id = "net-1"; workers = "10.0.0.0/24" };
    floating_pool_name = "pool";
  });
  read_cloud_config = λ text. (some_cloud_config, none);
}

write_state-private :
    (i e : Option String) (t json : String)
    → write_state i e t ≡ ok json
    → private_state json ≡ record {
      internal_address_load_balancer = i;
      external_address_load_balancer = e;
      cluster_type = t;
    }
write_state-private (some a) none t json h = ground (arith, eq_iff t "Private")
write_state-private none e t json h = cc
write_state-private (some a) (some b) t json h = cc

pub small_codec-CodecLaws : CodecLaws small_codec
small_codec-CodecLaws = record {
  unmarshal-marshal = λ s json h.
      ap (λ st. ok (some st))
        (write_state-private s.internal_address_load_balancer s.external_address_load_balancer
          s.cluster_type json h);
}

abbrev pub plain_patterns : Patterns
plain_patterns = record { compile = λ p. ok (λ s. p); globexp = λ p s. p }

abbrev pub plain_net : Net
plain_net = record { IpNetwork = String; string = λ s. s; parse_cidr = λ s. ok s }

abbrev pub runtime_of : Scenario → Runtime
runtime_of s = record {
  env = env_of s;
  wait = polling;
  codec = small_codec;
  patterns = plain_patterns;
  net = plain_net;
  order = λ site l. l;
}

abbrev pub extension_of : String → Extension
extension_of spec = record {
  name = "private-network";
  namespace = "shoot--a";
  provider_config = some (record { raw = some spec });
  state = none;
}

-- One ACTIVE load balancer, no floating IP, and one istio gateway.
abbrev pub calm : Scenario
calm = record {
  lbs = active_lb ∷ [];
  read = ok active_lb;
  fips = λ port. ok (ok []);
  services =
      record {
        service_type = "LoadBalancer";
        app_selector = "istio-ingressgateway";
        ingress = "10.1.0.1" ∷ [];
      }
      ∷ [];
  listener = the_listener;
}

-- The listener has the default range.
abbrev pub idle : Scenario
idle = record calm { listener = record the_listener { allowed_cidrs = "0.0.0.0/0" ∷ [] } }

-- A world in which every read of a load balancer answers that there is none.
abbrev pub vanished : Scenario
vanished = record calm { read = err err_default_404 }

abbrev pub pending_lb : LoadBalancer
pending_lb = record active_lb { provisioning_status = "PENDING_UPDATE" }

abbrev pub the_client : ServiceClient
the_client = record { handle = 3 }

abbrev pub small_config : PrivateNetworkConfig
small_config = config_of some_cloud_config (record {
  network = record { id = "net-1"; workers = "10.0.0.0/24" };
  floating_pool_name = "pool";
})
