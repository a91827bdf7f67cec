-- ===== src/Startup/Command/Laws.antt =====
-- What the process prints, and how it ends.
use gardener_extension_priva.Base.{
  ◌≡◌, refl, ap, ◌∙◌, String, Bool, true, false, Option, none, some, List, [], ◌↔◌,
}
use gardener_extension_priva.Fault.{Error, Result, ok, err}
use gardener_extension_priva.Startup.{Library, Options, Defaults, Host, run, run_command}
use gardener_extension_priva.Startup.Command.{
  CommandLine, Command, Parsing, parsed, help_requested, refused, new_service_controller_command,
  usage_of, run_e, after_parsing, execute, printed_by, main, finished,
}

module _ (lib : Library) (line : CommandLine) (host : Host lib) (defaults : Defaults lib)
    (namespace : String) (args : List String) where
  abbrev command : Command
  command = new_service_controller_command lib line host defaults namespace

  silent_none :
      (e : Option Error) (u : Bool)
      → printed_by lib line host defaults (finished e u) ≡ []
      → e ≡ none
  silent_none none u p = refl
  silent_none (some e) true p = absurd (cc p)
  silent_none (some e) false p = absurd (cc p)

  none_silent :
      (e : Option Error) (u : Bool)
      → e ≡ none
      → printed_by lib line host defaults (finished e u) ≡ []
  none_silent none u p = refl
  none_silent (some e) u p = absurd (cc p)

  completed_iff :
      (r : Result Options)
      → (printed_by lib line host defaults
            (finished (run_command lib host r defaults).0 (usage_of lib line host defaults r))
          ≡ [])
        ↔ ((completed : Options) × (r ≡ ok completed)
            × ((run lib host completed defaults).0 ≡ none))
  unfolding run_command
  completed_iff (ok o) = (
    λ p. (o, refl, silent_none _ false p),
    λ (completed, e, n).
        let same : o ≡ completed = cc in
        none_silent _ false (ap (λ c. (run lib host c defaults).0) same ∙ n),
  )
  completed_iff (err e) =
      (λ p. absurd (cc (silent_none (some _) true p)), λ (c, q, n). absurd (cc q))

  parsed_iff :
      (r : Parsing)
      → line.version_requested args ≡ false
      → (printed_by lib line host defaults (after_parsing lib line host defaults args r).0 ≡ []) ↔ (
          (o : Options) × (completed : Options) × (r ≡ parsed o)
          × (line.complete o ≡ ok completed)
          × ((run lib host completed defaults).0 ≡ none))
  unfolding after_parsing run_e
  parsed_iff (refused x) unversioned =
      (λ p. absurd (cc (silent_none (some x) true p)), λ (o, c, q, e, n). absurd (cc q))
  parsed_iff help_requested unversioned = (λ p. absurd (cc p), λ (o, c, q, e, n). absurd (cc q))
  parsed_iff (parsed o) unversioned = rw unversioned (
    λ p. let (c, e, n) = (completed_iff (line.complete o)).0 p in (o, c, refl, e, n),
    λ (o', c, q, e, n).
        let same : o ≡ o' = cc in
        (completed_iff (line.complete o)).1 (c, ap line.complete same ∙ e, n),
  )

  -- Where the arguments do not ask for the version: `main` prints nothing exactly if the arguments
  -- are parsed, the options are completed, and the controllers ran and stopped without an error.
  -- After any failure the exit status is that of a success.
  pub main_silent_iff :
      line.version_requested args ≡ false
      → let p = main lib line host defaults namespace args in
        (p.status ≡ 0)
        × ((p.printed ≡ []) ↔ (
            (o : Options) × (completed : Options) × (line.parse command args ≡ parsed o)
            × (line.complete o ≡ ok completed)
            × ((run lib host completed defaults).0 ≡ none)))
  unfolding main execute
  main_silent_iff unversioned = (refl, parsed_iff (line.parse command args) unversioned)
