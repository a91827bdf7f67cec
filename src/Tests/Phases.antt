-- ===== src/Tests/Phases.antt =====
-- A cloud with a load balancer of its own: it may break and recover, and new listeners have no ranges.
use gardener_extension_priva.Base.{◌≡◌, refl, true, List, [], ◌∷◌, Bool, false, ◌++◌}
use gardener_extension_priva.Actuator.Progress.Creation.{request}
use gardener_extension_priva.Actuator.Progress.Raising.{Raising, raised}
use gardener_extension_priva.LoadBalancer.Repair.{Checking}
use gardener_extension_priva.OpenStack.{Listener, LoadBalancer}
use gardener_extension_priva.IpNet.{string_slice}
use gardener_extension_priva.Actuator.Progress.Addressing.{Addressing}
use gardener_extension_priva.Tests.Cloud.{
  the_client, the_listener, env_of, idle, active_lb, the_flavor, worker_subnet, extension_of,
  polling-WaitLaws,
}
use gardener_extension_priva.Fault.{Result, ok, err, err_default_404}
use gardener_extension_priva.World.{Env, Call, writes}
use gardener_extension_priva.LoadBalancer.Runs.{Connected}
use gardener_extension_priva.Actuator.Runs.{Settings, config_in}
use gardener_extension_priva.Actuator.Lifecycle.{Pending, Phase, struck}
use gardener_extension_priva.Actuator.Lifecycle.Cloud.{
  Site, Cloud, ServingAt, FailingAt, StalledAt, VacantAt,
}
use gardener_extension_priva.Tests.Progress.{runtime_in, settings_in}
use gardener_extension_priva.Tests.Deleting.{broken_lb, gone}

-- The phase that the writes lead to: what is created serves, and what is deleted is gone.
abbrev taken_up : Call → Phase → Phase
taken_up (Call.create_load_balancer c o) p = Phase.serving
taken_up (Call.delete_load_balancer c i b) p = Phase.vacant
taken_up c p = p

abbrev after : Phase → List Call → Phase
after p [] = p
after p (c ∷ w) = taken_up c (after p w)

-- What a listing and a read show in a phase.
abbrev listed : Phase → List LoadBalancer
listed Phase.vacant = []
listed Phase.serving = active_lb ∷ []
listed Phase.failing = broken_lb ∷ []
listed (Phase.stalled q) = q.lb ∷ []

abbrev read : Phase → Result LoadBalancer
read Phase.vacant = err err_default_404
read Phase.serving = ok active_lb
read Phase.failing = ok broken_lb
read (Phase.stalled q) = ok q.lb

-- Whether the listener has been updated since its load balancer was created.
abbrev ranged : List Call → Bool
ranged [] = false
ranged (Call.create_load_balancer c o ∷ w) = false
ranged (Call.update_listener c i cidrs ∷ w) = true
ranged (c ∷ w) = ranged w

abbrev listener_of : Bool → Listener
listener_of true = idle.listener
listener_of false = the_listener

-- A new listener has no ranges.
abbrev env_from : Phase → Env
env_from p (Call.list_load_balancers c n) h = ok (ok (listed (after p (writes h))))
env_from p (Call.get_load_balancer c i) h = read (after p (writes h))
env_from p (Call.each_page_listeners c o) h = ok (listener_of (ranged (writes h)) ∷ []) ∷ []
env_from p c h = env_of idle c h

abbrev settings_from : (p : Phase) → Settings (runtime_in (env_from p)) (extension_of "private")
settings_from p = settings_in (env_from p) true "private" refl (λ h. refl) (λ h. refl) (λ h. refl)

abbrev connected_from :
    (p : Phase)
    → Connected
        (env_from p)
        (config_in (runtime_in (env_from p)) (extension_of "private") (settings_from p))
connected_from p = record {
  provider = record { handle = 1 };
  compute = record { handle = 3 };
  network = record { handle = 2 };
  authenticates = λ h. refl;
  makes_compute = λ h. refl;
  makes_network = λ h. refl;
}

abbrev pub site : Site "shoot--a"
site = record {
  State = Phase;
  hit = λ i p w. struck i (after p w);
  rt = λ p. runtime_in (env_from p);
  ex = λ p w. extension_of "private";
  named = λ p w. refl;
  settings = λ p w. settings_from p;
  laws = λ p. polling-WaitLaws;
  connected = λ p w. connected_from p;
}

abbrev repair : Call
repair = Call.update_listener the_client "li-443" ("0.0.0.0/0" ∷ [])

-- What a reconciliation does to a load balancer that serves: it updates the listener at first.
pub raising_at :
    (p : Phase) (w : List Call) (b : Bool)
    → ranged w ≡ b
    → after p w ≡ Phase.serving
    → Raising
        (runtime_in (env_from p))
        (extension_of "private")
        (settings_from p)
        polling-WaitLaws
        (connected_from p)
        active_lb
        w
unfolding string_slice
raising_at p w true r e = record {
  listeners = idle.listener ∷ [];
  repairs = [];
  moves = [];
  address = "10.0.0.9";
  json = "stored";
  active = refl;
  healthy = refl;
  lists = λ h q. refl;
  checking =
      Checking.kept w idle.listener [] [] (record { active = refl; reads = λ h q. rw (q, e) refl })
        (idle.listener, (idle.listener ∷ []) ∷ [], (λ h q. rw (q, r) refl), refl, refl)
        (Checking.done w);
  addressing = Addressing.fits [] "10.0.0.9" (λ h q. refl) refl;
  written = refl;
  patches = λ h q. refl;
}
raising_at p w false r e = record {
  listeners = idle.listener ∷ [];
  repairs = repair ∷ [];
  moves = [];
  address = "10.0.0.9";
  json = "stored";
  active = refl;
  healthy = refl;
  lists = λ h q. refl;
  checking =
      Checking.repaired w idle.listener [] []
        (record {
          found = the_listener;
          updated = the_listener;
          pages = (the_listener ∷ []) ∷ [];
          paged = λ h q. rw (q, r) refl;
          one = refl;
          differs = refl;
          accepted = λ h q. refl;
          running = record { active = refl; reads = λ h q. rw (q, e) refl };
        })
        (Checking.done (repair ∷ w));
  addressing = Addressing.fits [] "10.0.0.9" (λ h q. refl) refl;
  written = refl;
  patches = λ h q. refl;
}

pub raising_serves :
    (p : Phase) (w : List Call) (b : Bool) (r : ranged w ≡ b) (e : after p w ≡ Phase.serving)
    → after p (
        raised
          (runtime_in (env_from p))
          (extension_of "private")
          (settings_from p)
          polling-WaitLaws
          (connected_from p)
          (raising_at p w b r e)
        ++ w)
      ≡ Phase.serving
unfolding raising_at
raising_serves p w true r e = e
raising_serves p w false r e = e

pub serving_at : (p : Phase) (w : List Call) → after p w ≡ Phase.serving → ServingAt site p w
serving_at p w e = record {
  lbs = active_lb ∷ [];
  lb = active_lb;
  lists = λ h q. rw (q, e) refl;
  one = refl;
  raising = raising_at p w (ranged w) refl e;
  deletable = record {
    accepted = λ h q. refl;
    answer = err_default_404;
    gone = gone;
    reads = λ h q. rw q refl;
  };
}

pub failing_at : (p : Phase) (w : List Call) → after p w ≡ Phase.failing → FailingAt site p w
failing_at p w e = record {
  lbs = broken_lb ∷ [];
  lb = broken_lb;
  lists = λ h q. rw (q, e) refl;
  one = refl;
  broken = refl;
  deletable = record {
    accepted = λ h q. refl;
    answer = err_default_404;
    gone = gone;
    reads = λ h q. rw q refl;
  };
}

pub stalled_at :
    (p : Phase) (w : List Call) (q : Pending) → after p w ≡ Phase.stalled q → StalledAt site p w
stalled_at p w q e = record {
  lbs = q.lb ∷ [];
  lb = q.lb;
  lists = λ h before. rw (before, e) refl;
  one = rw (q.valid) refl;
  immutable = q.immutable;
}

-- the creation of the load balancer
abbrev made_first : Phase → Call
made_first p =
    Call.create_load_balancer the_client
      (request (runtime_in (env_from p)) (extension_of "private") (settings_from p) "sub-1" "fl-1")

pub vacant_at : (p : Phase) (w : List Call) → after p w ≡ Phase.vacant → VacantAt site p w
vacant_at p w e = record {
  lbs = [];
  subnets = worker_subnet ∷ [];
  subnets' = [];
  subnet = worker_subnet;
  flavors = the_flavor ∷ [];
  flavors' = [];
  flavor = the_flavor;
  made = active_lb;
  lb = active_lb;
  lists = λ h q. rw (q, e) refl;
  none_valid = refl;
  lists_subnets = λ h q. refl;
  first = refl;
  lists_flavors = λ h q. refl;
  kind = refl;
  makes = λ h q. refl;
  same = refl;
  running = record { active = refl; reads = λ h q. rw q refl };
  raising = raising_at p (made_first p ∷ w) false refl refl;
}

unfoldable pub cloud : Cloud site
unfolding serving_at stalled_at vacant_at
cloud = record {
  phase = after;
  strikes = λ i p w. refl;
  serves = λ p w e. (serving_at p w e, raising_serves p w (ranged w) refl e, refl);
  fails = λ p w e. (failing_at p w e, refl);
  stalls = λ p w q e. (stalled_at p w q e, refl);
  lacks = λ p w e. (vacant_at p w e, raising_serves p (made_first p ∷ w) false refl refl);
}
