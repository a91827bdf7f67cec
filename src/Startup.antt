-- ===== src/Startup.antt =====
-- The start of the process and the registration of its two controllers:
-- cmd/gardener-extension-private-network/main.go and app/, pkg/controller/lifecycle/add.go and
-- pkg/controller/healthcheck/add.go. What the libraries do in a step of the start is a parameter.
pub mod Command
pub mod Laws
use gardener_extension_priva.Base.{
  ◌≡◌, ℕ, ◌*◌, String, Bool, true, false, Option, none, some, List, [], ◌∷◌, ◌<>◌,
}
use gardener_extension_priva.Constants.{second, extension_type, suffix, prefix_lb}
use gardener_extension_priva.Fault.{Error, errorf_cause, Result, ok, err}
use gardener_extension_priva.HealthCheck.{DefaultHealthChecker, new_loadbalancer_checker}

abbrev pub extension_name : String
extension_name = "private-network"

-- controllercmd.ControllerOptions, ManagerOptions and ReconcilerOptions
pub record ControllerOptions : Type 0 where
  pub max_concurrent_reconciles : ℕ

pub record ManagerOptions : Type 0 where
  pub leader_election : Bool
  pub leader_election_id : String
  pub leader_election_namespace : String

pub record ReconcilerOptions : Type 0 where
  pub ignore_operation_annotation : Bool

-- The groups of flags that the aggregator gathers.
pub data OptionGroup : Type 0 where
  general rest manager controller lifecycle health switches reconciler : OptionGroup

-- `controllercmd` and controller-runtime: their controller options with the zero value, `Apply`, the
-- name of a leader election, and the name of the health check controller.
pub record Library : Type 1 where
  pub RuntimeOptions : Type 0
  pub zero_options : RuntimeOptions
  pub apply : ControllerOptions → RuntimeOptions → RuntimeOptions
  pub leader_election_name_id : String → String
  pub health_controller_name : String

-- `Apply` is documented to set the values of the options, so that an earlier setting is lost.
pub record LibraryLaws (lib : Library) : Type 0 where
  pub apply-apply :
      (c c' : ControllerOptions) (o : lib.RuntimeOptions)
      → lib.apply c (lib.apply c' o) ≡ lib.apply c o

-- The options, without the groups that have no field of their own here.
pub record Options : Type 0 where
  pub manager_options : ManagerOptions
  pub controller_options : ControllerOptions
  pub lifecycle_options : ControllerOptions
  pub health_options : ControllerOptions
  pub controller_switches : List String
  pub reconcile_options : ReconcilerOptions
  pub option_aggregator : List (String × OptionGroup)

abbrev default_controller : ControllerOptions
default_controller = record { max_concurrent_reconciles = 10 }

module _ (lib : Library) where
  open lib use {
    RuntimeOptions, zero_options, apply, leader_election_name_id, health_controller_name,
  }

  -- `NewOptions`, from the value of LEADER_ELECTION_NAMESPACE; each group with the prefix of its flags
  unfoldable pub new_options : String → Options
  new_options namespace = record {
    manager_options = record {
      leader_election = true;
      leader_election_id = leader_election_name_id extension_name;
      leader_election_namespace = namespace;
    };
    controller_options = default_controller;
    lifecycle_options = default_controller;
    health_options = default_controller;
    controller_switches = "private-network_lifecycle_controller" ∷ health_controller_name ∷ [];
    reconcile_options = record { ignore_operation_annotation = false };
    option_aggregator =
        ("", general)
        ∷ ("", rest)
        ∷ ("", manager)
        ∷ ("", controller)
        ∷ ("lifecycle-", lifecycle)
        ∷ ("healthcheck-", health)
        ∷ ("", switches)
        ∷ ("", reconciler)
        ∷ [];
  }

  -- lifecycle.AddOptions
  pub record AddOptions : Type 0 where
    pub controller_options : RuntimeOptions
    pub ignore_operation_annotation : Bool

  -- healthcheck.DefaultAddArgs
  pub record DefaultAddArgs : Type 0 where
    pub sync_period : ℕ
    pub controller : RuntimeOptions

  -- the two variables `DefaultAddOptions`
  pub record Defaults : Type 0 where
    pub lifecycle_defaults : AddOptions
    pub health_defaults : DefaultAddArgs

  abbrev pub initial_defaults : Defaults
  initial_defaults = record {
    lifecycle_defaults = record {
      controller_options = zero_options;
      ignore_operation_annotation = false;
    };
    health_defaults = record { sync_period = 45 * second; controller = zero_options };
  }

  -- extension.AddArgs, with the argument of the default predicates
  pub record AddArgs : Type 0 where
    pub args_options : RuntimeOptions
    pub name : String
    pub finalizer_suffix : String
    pub resync : ℕ
    pub predicates_ignore_annotation : Bool
    pub args_type : String

  -- the arguments of healthcheck.DefaultRegistration
  pub record Registration : Type 0 where
    pub registered_type : String
    pub registered_kind : String
    pub registered_args : DefaultAddArgs
    pub condition_type : String
    pub health_check : DefaultHealthChecker

  -- `AddToManagerWithOptions`: the predicates come from the defaults, whatever the options are
  unfoldable pub add_to_manager_with_options : Defaults → AddOptions → AddArgs
  add_to_manager_with_options defaults opts = record {
    args_options = opts.controller_options;
    name = extension_type <> suffix;
    finalizer_suffix = extension_type <> suffix;
    resync = 0;
    predicates_ignore_annotation = defaults.lifecycle_defaults.ignore_operation_annotation;
    args_type = extension_type;
  }

  unfoldable pub register_health_checks : DefaultAddArgs → Registration
  register_health_checks opts = record {
    registered_type = extension_type;
    registered_kind = "Extension";
    registered_args = opts;
    condition_type = "Loadbalancer Private Network";
    health_check = new_loadbalancer_checker prefix_lb extension_type;
  }

  -- What the switches add to the manager, each under its name.
  pub data Addition : Type 0 where
    add_lifecycle : AddArgs → Addition
    add_health : Registration → Addition

  -- the two functions `AddToManager`
  unfoldable pub additions : Defaults → List Addition
  additions defaults =
      add_lifecycle (add_to_manager_with_options defaults defaults.lifecycle_defaults)
      ∷ add_health (register_health_checks defaults.health_defaults)
      ∷ []

  -- What `run` asks of the libraries, in the source's order.
  pub data Step : Type 0 where
    apply_client_connection : ℕ → ℕ → Step
    new_manager : ManagerOptions → List String → Step
    add_to_scheme : Step
    add_to_manager : List String → List Addition → Step
    start : Step

  -- The libraries' answer to a step, after the steps made before it, newest first.
  abbrev pub Host : Type 0
  Host = Step → List Step → Option Error

  unfoldable pub then_step :
      Host
      → Step
      → String
      → (List Step → Option Error × List Step)
      → List Step
      → Option Error × List Step
  then_step host step message next done = elim (host step done) [
    | some e ↦ (some (errorf_cause message [] e), step ∷ done)
    | none ↦ next (step ∷ done)
  ]

  -- the three calls of `Apply`, the second over the first
  unfoldable pub applied : Options → Defaults → Defaults
  applied o defaults =
      let plain = apply o.controller_options defaults.lifecycle_defaults.controller_options in
      record {
        lifecycle_defaults = record {
          controller_options = apply o.lifecycle_options plain;
          ignore_operation_annotation = defaults.lifecycle_defaults.ignore_operation_annotation;
        };
        health_defaults = record {
          sync_period = defaults.health_defaults.sync_period;
          controller = apply o.health_options defaults.health_defaults.controller;
        };
      }

  unfoldable pub run : Host → Options → Defaults → Option Error × List Step
  run host o defaults =
      then_step host (new_manager o.manager_options ("Secret" ∷ "ConfigMap" ∷ []))
        "could not instantiate controller-manager: %s"
        (then_step host add_to_scheme "could not update manager scheme: %s" (
          then_step host (add_to_manager o.controller_switches (additions (applied o defaults)))
            "could not add controllers to manager: %s"
            (then_step host start "error running manager: %s" λ done. (none, done))))
        (apply_client_connection 100 130 ∷ [])

  -- `RunE`: the aggregator's `Complete` gives the options with the flags in them
  unfoldable pub run_command : Host → Result Options → Defaults → Option Error × List Step
  run_command host (err e) defaults = (some (errorf_cause "error completing options: %s" [] e), [])
  run_command host (ok o) defaults = run host o defaults
