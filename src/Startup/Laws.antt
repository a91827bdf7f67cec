-- ===== src/Startup/Laws.antt =====
-- What a start of the process does.
use gardener_extension_priva.Base.{◌≡◌, refl, String, Option, none, some, List, [], ◌∷◌, ◌++◌}
use gardener_extension_priva.Fault.{Error, errorf_cause}
use gardener_extension_priva.Startup.{
  Library, Options, Defaults, Step, Host, then_step, applied, additions, run,
  apply_client_connection, new_manager, add_to_scheme, add_to_manager, start,
}

module _ (lib : Library) (host : Host lib) (o : Options) (defaults : Defaults lib) where
  -- the steps of a start, newest first
  abbrev pub all_steps : List (Step lib)
  all_steps =
      start
      ∷ add_to_manager o.controller_switches (additions lib (applied lib o defaults))
      ∷ add_to_scheme
      ∷ new_manager o.manager_options ("Secret" ∷ "ConfigMap" ∷ [])
      ∷ apply_client_connection 100 130
      ∷ []

  -- Each of the steps, newest first, was accepted after those before it. The oldest one sets fields of
  -- the options, and cannot be refused.
  abbrev pub Accepted : List (Step lib) → Type 0
  Accepted [] = Unit
  Accepted (step ∷ []) = Unit
  Accepted (step ∷ s ∷ before) = (host step (s ∷ before) ≡ none) × Accepted (s ∷ before)

  -- All steps were made and accepted, or the newest one was refused, with its error in that of the
  -- start, and all before it were accepted.
  abbrev pub Ended : Option Error × List (Step lib) → Type 0
  Ended (none, done) = (done ≡ all_steps) × Accepted done
  Ended (some e, done) =
      (later : List (Step lib)) × (step : Step lib) × (before : List (Step lib))
      × (message : String) × (cause : Error) × (all_steps ≡ later ++ done)
      × (done ≡ step ∷ before)
      × Accepted before
      × (host step before ≡ some cause)
      × (e ≡ errorf_cause message [] cause)

  record Ends (r : Option Error × List (Step lib)) : Type 0 where
    pub at : Ended r

  -- the rest of the start may use that the step was accepted
  answered-Ended :
      (step : Step lib) (message : String) (rest : Option Error × List (Step lib))
      (later : List (Step lib)) (s : Step lib) (done : List (Step lib)) (answer : Option Error)
      → all_steps ≡ later ++ step ∷ s ∷ done
      → Accepted (s ∷ done)
      → host step (s ∷ done) ≡ answer
      → (Accepted (step ∷ s ∷ done) → Ended rest)
      → Ended (elim answer [
        | some e ↦ (some (errorf_cause message [] e), step ∷ s ∷ done)
        | none ↦ rest
      ])
  answered-Ended step message rest later s done none p b a q = q (a, b)
  answered-Ended step message rest later s done (some e) p b a q =
      (later, step, s ∷ done, message, e, p, refl, b, a, refl)

  then_step-Ends :
      (step : Step lib) (message : String) (next : List (Step lib) → Option Error × List (Step lib))
      (later : List (Step lib)) (s : Step lib) (done : List (Step lib))
      → all_steps ≡ later ++ step ∷ s ∷ done
      → Accepted (s ∷ done)
      → (Accepted (step ∷ s ∷ done) → Ends (next (step ∷ s ∷ done)))
      → Ends (then_step lib host step message next (s ∷ done))
  unfolding then_step
  then_step-Ends step message next later s done p b q = record {
    at =
        answered-Ended step message (next (step ∷ s ∷ done)) later s done _ p b refl
          (λ c. (q c).at);
  }

  -- `run` makes the steps of the start in the source's order, up to the first that is refused: it
  -- ends without an error only where all were made and accepted, and with an error only where the
  -- last step that it made was refused and all steps before it were accepted, with the cause of the
  -- refusal in the error.
  pub run-Ended : Ended (run lib host o defaults)
  unfolding run
  run-Ended =
      (then_step-Ends _ _ _ (_ ∷ _ ∷ _ ∷ []) _ [] refl tt λ a.
        then_step-Ends _ _ _ (_ ∷ _ ∷ []) _ _ refl a λ b.
          then_step-Ends _ _ _ (_ ∷ []) _ _ refl b
            λ c. then_step-Ends _ _ _ [] _ _ refl c λ d. record { at = (refl, d) }).at
