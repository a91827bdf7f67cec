-- ===== src/Tests/Progress.antt =====
-- Reconciliations in clouds that answer.
use gardener_extension_priva.Base.{
  ◌&&◌, if◌then◌else◌, ◌≡◌, refl, ap, ◌==◌, false, Bool, true, String, none, some, List, [], ◌∷◌,
}
use gardener_extension_priva.Constants.{namespace_istio_ingress, config_namespace, secret_config}
use gardener_extension_priva.Fault.{err, err_default_404, ok, returned}
use gardener_extension_priva.World.{Env, Call, writes}
use gardener_extension_priva.Kube.{Cluster, Shoot}
use gardener_extension_priva.IpNet.{store, string_slice, parse_ip_nets}
use gardener_extension_priva.Text.{trim_space}
use gardener_extension_priva.Config.{
  config_of, NetworkWorker, zero_extension_state, ExtensionSpec, read_extension_spec,
  get_extension_state, cloud_conf_of, get_load_balancer_source_ranges,
}
use gardener_extension_priva.LoadBalancer.Runs.{Connected, Running}
use gardener_extension_priva.OpenStack.{FloatingIp, LoadBalancer}
use gardener_extension_priva.Actuator.{Runtime, reconcile, with_state}
use gardener_extension_priva.Actuator.Runs.{Settings, config_in}
use gardener_extension_priva.Actuator.Progress.{Ready, reconcile_idle}
use gardener_extension_priva.Actuator.Progress.Creation.{
  request, address_in, reconcile_from_nothing,
}
use gardener_extension_priva.Tests.Cloud.{
  env_of, the_client, some_cloud_config, the_flavor, Scenario, idle, active_lb, runtime_of,
  extension_of, polling-WaitLaws, small_codec, fip_of, the_network, worker_subnet,
}

-- Whether there was a creation of a load balancer or of a floating IP, or a deletion.
abbrev pub has_load_balancer : List Call → Bool
has_load_balancer [] = false
has_load_balancer (Call.create_load_balancer _ _ ∷ ws) = true
has_load_balancer (_ ∷ ws) = has_load_balancer ws

abbrev pub has_address : List Call → Bool
has_address [] = false
has_address (Call.create_floating_ip _ _ ∷ ws) = true
has_address (_ ∷ ws) = has_address ws

abbrev pub has_deletion : List Call → Bool
has_deletion [] = false
has_deletion (Call.delete_load_balancer _ _ _ ∷ ws) = true
has_deletion (_ ∷ ws) = has_deletion ws

abbrev pub new_address : FloatingIp
new_address = fip_of "fip-new" "198.51.100.8"

-- A cloud that remembers: what is created is found later, and what is deleted is gone.
abbrev pub living : Scenario → Env
living s (Call.list_load_balancers c n) h =
    ok (ok (if has_load_balancer (writes h) then active_lb ∷ [] else s.lbs))
living s (Call.get_load_balancer c i) h =
    if has_deletion (writes h) then err err_default_404 else ok active_lb
living s (Call.list_floating_ips c o) h =
    ok (ok (if o.port_id == "port-1" && has_address (writes h) then new_address ∷ [] else []))
living s c h = env_of s c h

-- The state is stored as one word, so that public clusters can be written, too.
abbrev pub runtime_in : Env → Runtime
runtime_in env = record (runtime_of idle) {
  env = env;
  codec = record small_codec { marshal_extension_state = λ state. ok "stored" };
}

abbrev pub runtime : List LoadBalancer → Runtime
runtime lbs = runtime_in (living (record idle { lbs = lbs }))

abbrev pub shoot_a : Shoot
shoot_a = record { name = "a"; infrastructure_config = some (record { raw = some "infra" }) }

abbrev pub spec_of : Bool → ExtensionSpec
spec_of private = record { private_cluster = private; alow_cidrs = none }

pub spec_read :
    (private : Bool) (text : String)
    → (text == "private") ≡ private
    → read_extension_spec (runtime []).codec (extension_of text) ≡ ok (some (spec_of private))
unfolding read_extension_spec
spec_read private text e = ap (λ b. ok (some (spec_of b))) e

pub state_read :
    (text : String)
    → get_extension_state (runtime []).codec (extension_of text) ≡ ok (some zero_extension_state)
unfolding get_extension_state
state_read text = refl

pub conf_read : cloud_conf_of (record { cloud_conf = some "conf" }) ≡ ok "conf"
unfolding cloud_conf_of
conf_read = refl

abbrev pub the_worker : NetworkWorker
the_worker = record {
  network = record { id = "net-1"; workers = "10.0.0.0/24" };
  floating_pool_name = "pool";
}

pub ranges_read :
    (private : Bool)
    → get_load_balancer_source_ranges
        (runtime []).net
        (spec_of private)
        (config_of some_cloud_config the_worker)
      ≡ ok (("0.0.0.0/0", "0.0.0.0/0") ∷ [])
unfolding get_load_balancer_source_ranges store parse_ip_nets trim_space
ranges_read private = refl

abbrev pub cluster_a : Cluster
cluster_a = record {
  name = "shoot--a";
  seed = some (record { name = "seed" });
  shoot = some shoot_a;
}

module _ (env : Env) (private : Bool) (text : String) (e : (text == "private") ≡ private) where
  -- Settings in an environment that answers the reads of Kubernetes.
  abbrev pub settings_in :
      ((h : List Call) → env (Call.get_cluster "shoot--a") h ≡ ok cluster_a)
      → ((h : List Call) → env (Call.list_services namespace_istio_ingress) h ≡ ok idle.services)
      → ((h : List Call)
          → env (Call.get_secret config_namespace secret_config) h
            ≡ ok (record { cloud_conf = some "conf" }))
      → Settings (runtime_in env) (extension_of text)
  settings_in reads_cluster lists_services reads_secret = record {
    cluster = cluster_a;
    seed = record { name = "seed" };
    shoot = shoot_a;
    spec = spec_of private;
    state = zero_extension_state;
    services = idle.services;
    vips = "10.1.0.1" ∷ [];
    worker = the_worker;
    secret = record { cloud_conf = some "conf" };
    conf = "conf";
    ranges = ("0.0.0.0/0", "0.0.0.0/0") ∷ [];
    has_seed = refl;
    has_shoot = refl;
    reads_cluster = reads_cluster;
    reads_spec = spec_read private text e;
    reads_state = state_read text;
    lists_services = lists_services;
    have_addresses = refl;
    reads_worker = refl;
    reads_secret = reads_secret;
    has_conf = conf_read;
    reads_ranges = ranges_read private;
  }

module _ (lbs : List LoadBalancer) (private : Bool) (text : String)
    (e : (text == "private") ≡ private) where
  abbrev pub settings : Settings (runtime lbs) (extension_of text)
  settings = settings_in (runtime lbs).env private text e (λ h. refl) (λ h. refl) (λ h. refl)

  abbrev pub connected :
      Connected (runtime lbs).env (config_in (runtime lbs) (extension_of text) settings)
  connected = record {
    provider = record { handle = 1 };
    compute = record { handle = 3 };
    network = record { handle = 2 };
    authenticates = λ h. refl;
    makes_compute = λ h. refl;
    makes_network = λ h. refl;
  }

  abbrev running :
      (w : List Call)
      → has_deletion w ≡ false
      → Running (runtime lbs).env connected.compute active_lb w
  running w kept = record { active = refl; reads = λ h p. rw (p, kept) refl }

  abbrev ready :
      (w w' : List Call) (kept : has_deletion w ≡ false) (address : String)
      → Ready
          (runtime lbs)
          (extension_of text)
          settings
          polling-WaitLaws
          connected
          active_lb
          (running w kept)
          w'
          address
          "stored"
  unfolding string_slice
  ready w w' kept address = record {
    listeners = idle.listener ∷ [];
    healthy = refl;
    lists = λ h p. refl;
    covered = ((idle.listener, (idle.listener ∷ []) ∷ [], (λ h p. refl), refl, refl), tt);
    written = refl;
    patches = λ h p. refl;
  }

abbrev stored : String → Call
stored text = Call.patch_status (with_state (extension_of text) "stored")

reconcile_idle_example :
    let r = reconcile (runtime (active_lb ∷ [])) (extension_of "private") [] in
    (r.0 ≡ returned tt) × (writes r.1 ≡ stored "private" ∷ [])
reconcile_idle_example =
    reconcile_idle (runtime (active_lb ∷ [])) (extension_of "private")
      (settings (active_lb ∷ []) true "private" refl) polling-WaitLaws
      (connected (active_lb ∷ []) true "private" refl) active_lb
      (running (active_lb ∷ []) true "private" refl [] refl) (active_lb ∷ []) [] "10.0.0.9" "stored"
      [] refl (λ h p. rw p refl) refl (λ h p. rw p refl) refl
      (ready (active_lb ∷ []) true "private" refl [] [] refl "10.0.0.9")

-- The settings of a public cluster, and what is written for it.
abbrev public_settings : Settings (runtime []) (extension_of "public")
public_settings = settings [] false "public" refl

abbrev lb_created : Call
lb_created =
    Call.create_load_balancer the_client
      (request (runtime []) (extension_of "public") public_settings "sub-1" "fl-1")

abbrev fip_created : Call
fip_created =
    Call.create_floating_ip (connected [] false "public" refl).network
      (address_in (extension_of "public") active_lb the_network the_network "sub-1")

reconcile_from_nothing_example :
    let r = reconcile (runtime []) (extension_of "public") [] in
    (r.0 ≡ returned tt) × (writes r.1 ≡ stored "public" ∷ fip_created ∷ lb_created ∷ [])
reconcile_from_nothing_example =
    reconcile_from_nothing (runtime []) (extension_of "public") public_settings polling-WaitLaws
      (connected [] false "public" refl) active_lb [] [] (worker_subnet ∷ []) [] [] worker_subnet
      worker_subnet (the_flavor ∷ []) [] the_flavor active_lb the_network the_network [] new_address
      "stored" [] (running [] false "public" refl (lb_created ∷ []) refl) refl refl
      (λ h p. rw p refl) refl (λ h p. refl) refl (λ h p. refl) refl (λ h p. refl) refl
      (λ h p. rw p refl) (λ h p. refl) (λ h p. refl) (λ h p. refl) (λ h p. refl) (λ h p. refl)
      (ready [] false "public" refl (lb_created ∷ []) (fip_created ∷ lb_created ∷ []) refl
        "198.51.100.8")

-- In the same cloud a second reconciliation, from these writes on, only patches the status.
reconcile_again :
    (h : List Call)
    → writes h ≡ stored "public" ∷ fip_created ∷ lb_created ∷ []
    → let r = reconcile (runtime []) (extension_of "public") h in
      (r.0 ≡ returned tt)
      × (writes r.1 ≡ stored "public" ∷ stored "public" ∷ fip_created ∷ lb_created ∷ [])
reconcile_again h before =
    let ws : List Call = stored "public" ∷ fip_created ∷ lb_created ∷ [] in
    reconcile_idle (runtime []) (extension_of "public") public_settings polling-WaitLaws
      (connected [] false "public" refl) active_lb (running [] false "public" refl ws refl)
      (active_lb ∷ []) (new_address ∷ []) "198.51.100.8" "stored" h before (λ h p. rw p refl) refl
      (λ h p. rw p refl) refl (ready [] false "public" refl ws ws refl "198.51.100.8")
