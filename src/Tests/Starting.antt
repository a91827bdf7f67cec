-- ===== src/Tests/Starting.antt =====
-- Starts of the process: one that the scheme stops, and one with other options.
use gardener_extension_priva.Base.{◌≡◌, refl, ◌<>◌, none, some, [], false, ◌↔◌}
use gardener_extension_priva.Fault.{errorf, ok}
use gardener_extension_priva.Startup.Command.{
  CommandLine, parsed, main, new_service_controller_command,
}
use gardener_extension_priva.Startup.Command.Laws.{main_silent_iff}
use gardener_extension_priva.Startup.{
  Options, Library, ControllerOptions, Host, new_options, initial_defaults, run, add_to_scheme,
}
use gardener_extension_priva.Startup.Laws.{Ended, run-Ended}

abbrev small_library : Library
small_library = record {
  RuntimeOptions = ControllerOptions;
  zero_options = record { max_concurrent_reconciles = 0 };
  apply = λ c o. c;
  leader_election_name_id = λ name. name <> "-leader-election";
  health_controller_name = "healthcheck";
}

-- The scheme cannot be extended.
abbrev no_scheme : Host small_library
no_scheme add_to_scheme done = some (errorf "scheme" [])
no_scheme step done = none

run-Ended_example :
    Ended small_library no_scheme
      (new_options small_library "garden")
      (initial_defaults small_library)
      (run small_library no_scheme
        (new_options small_library "garden")
        (initial_defaults small_library))
run-Ended_example =
    run-Ended small_library no_scheme (new_options small_library "garden")
      (initial_defaults small_library)

-- Arguments that are parsed as given, without a request for the version.
abbrev plain_line : CommandLine
plain_line = record {
  parse = λ cmd args. parsed cmd.options;
  version_requested = λ args. false;
  complete = λ o. ok o;
}

main_silent_iff_example :
    let defaults = initial_defaults small_library in
    let p = main small_library plain_line no_scheme defaults "garden" [] in
    let cmd = new_service_controller_command small_library plain_line no_scheme defaults "garden" in
    (p.status ≡ 0)
    × ((p.printed ≡ []) ↔ (
        (o : Options) × (completed : Options) × (plain_line.parse cmd [] ≡ parsed o)
        × (plain_line.complete o ≡ ok completed)
        × ((run small_library no_scheme completed defaults).0 ≡ none)))
main_silent_iff_example =
    main_silent_iff small_library plain_line no_scheme (initial_defaults small_library) "garden" []
      refl
