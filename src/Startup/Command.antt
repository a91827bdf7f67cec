-- ===== src/Startup/Command.antt =====
-- The command line of the process: `NewServiceControllerCommand` in
-- cmd/gardener-extension-private-network/app/app.go, and `main` in main.go. What cobra, pflag and
-- verflag do with a command is a parameter.
pub mod Laws
use gardener_extension_priva.Base.{
  ℕ, String, Bool, true, false, Option, none, some, List, [], ◌∷◌, ◌++◌, if◌then◌else◌,
}
use gardener_extension_priva.Fault.{Error, Result, ok, err}
use gardener_extension_priva.Startup.{
  Library, Options, OptionGroup, Defaults, Host, Step, new_options, run_command,
}

-- The flags of a command: those of verflag, and the groups that an aggregator adds.
pub data FlagSet : Type 0 where
  version_flags : FlagSet
  option_flags : List (String × OptionGroup) → FlagSet

-- The fields of `cobra.Command` that are set, with the options that `RunE` closes over.
pub record Command : Type 0 where
  pub use_line : String
  pub short : String
  pub silence_errors : Bool
  pub flags : List FlagSet
  pub options : Options

-- What cobra makes of the arguments: the options that the flags point to, a request for help, or an
-- error.
pub data Parsing : Type 0 where
  parsed : Options → Parsing
  help_requested : Parsing
  refused : Error → Parsing

-- cobra parses the arguments, verflag tells whether they ask for the version, and the aggregator
-- completes the options.
pub record CommandLine : Type 0 where
  pub parse : Command → List String → Parsing
  pub version_requested : List String → Bool
  pub complete : Options → Result Options

-- How the execution of a command ends: verflag prints the version and exits, cobra prints the help
-- and returns nil, or the command returns an error or nil, and cobra prints the usage or does not.
pub data Execution : Type 0 where
  exited helped : Execution
  finished : Option Error → Bool → Execution

-- what the process prints, and its exit status
pub data Printed : Type 0 where
  version help usage : Printed
  error_line : Error → Printed

pub data Setup : Type 0 where
  deduplicate_warnings : Setup
  set_logger : String → String → Setup
  setup_signal_handler : Setup

pub record Process (lib : Library) : Type 0 where
  pub setup : List Setup
  pub steps : List (Step lib)
  pub printed : List Printed
  pub status : ℕ

module _ (lib : Library) (line : CommandLine) (host : Host lib) (defaults : Defaults lib) where
  -- `NewServiceControllerCommand`, from the value of LEADER_ELECTION_NAMESPACE
  unfoldable pub new_service_controller_command : String → Command
  new_service_controller_command namespace =
      let options = new_options lib namespace in
      record {
        use_line = "gardener-extension-private-network";
        short = "Extension provide private network of shoot cluster";
        silence_errors = true;
        flags = version_flags ∷ option_flags options.option_aggregator ∷ [];
        options = options;
      }

  -- whether cobra prints the usage: until `SilenceUsage` is set, beside an error
  abbrev pub usage_of : Result Options → Bool
  usage_of (ok o) = false
  usage_of (err e) = true

  -- `RunE`, on the arguments and the options with the flags in them
  unfoldable pub run_e : List String → Options → Execution × List (Step lib)
  run_e args o =
      let completed = line.complete o in
      let (e, steps) = run_command lib host completed defaults in
      if line.version_requested args then (exited, []) else (finished e (usage_of completed), steps)

  -- `ExecuteContext`: arguments that ask for help or cannot be parsed end it before `RunE`
  unfoldable pub after_parsing : List String → Parsing → Execution × List (Step lib)
  after_parsing args (refused e) = (finished (some e) true, [])
  after_parsing args help_requested = (helped, [])
  after_parsing args (parsed o) = run_e args o

  unfoldable pub execute : Command → List String → Execution × List (Step lib)
  execute cmd args = after_parsing args (line.parse cmd args)

  abbrev pub usage_lines : Bool → List Printed
  usage_lines true = usage ∷ []
  usage_lines false = []

  -- what is printed: cobra leaves the error to `main`
  abbrev pub printed_by : Execution → List Printed
  printed_by exited = version ∷ []
  printed_by helped = help ∷ []
  printed_by (finished none u) = []
  printed_by (finished (some e) u) = usage_lines u ++ error_line e ∷ []

  -- `main`: it returns in every case, so that the status is 0
  unfoldable pub main : String → List String → Process lib
  main namespace args =
      let (ended, steps) = execute (new_service_controller_command namespace) args in
      record {
        setup = deduplicate_warnings ∷ set_logger "info" "json" ∷ setup_signal_handler ∷ [];
        steps = steps;
        printed = printed_by ended;
        status = 0;
      }
